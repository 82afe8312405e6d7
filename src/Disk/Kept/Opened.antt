-- ===== src/Disk/Kept/Opened.antt =====
-- The same for walks, and files that are opened and created (src/fs_disk.c).
use spike_virtio_devices.Prelude.{
  ℕ, ◌+◌, ◌^◌, ◌≤◌, ◌<◌, Bool, ◌≡◌, subst, arith, true, false, List, [], ◌∷◌, ◌++◌, ◌==◌, length,
  length-append, is_neg, if◌then◌else◌, u32, All,
}
use spike_virtio_devices.Prelude.Outcome.{done, Returns, Returns->>=}
use spike_virtio_devices.Libc.{ends}
use spike_virtio_devices.NineP.Fs.{FsQid}
use spike_virtio_devices.NineP.Fs.Laws.{IsText, Has}
use spike_virtio_devices.Disk.{FsFile, Disk, put_file, with_host, fid_create}
use spike_virtio_devices.Disk.Calls.{Host, IsHost, SetsErrno, Stat, Sys, ok, failed}
use spike_virtio_devices.Disk.Codes.{minus_errno, stat_to_qid, s_isdir}
use spike_virtio_devices.Disk.Walk.{
  no_qid, fs_attach, walk_names, fs_walk, opened_as, fs_open, fs_create,
}
use spike_virtio_devices.Disk.Errno.{minus_errno-error}
use spike_virtio_devices.Disk.Files.{Keeps, Kept2, Points, put_file-Keeps, fid_create-Keeps}
use spike_virtio_devices.Disk.Kept.{Returns-Sys, with_path, with_file, fs_close-Keeps}

module _ {H : Type 0} (os : Host H) where
  -- The path stays a C string, and there is at most one qid for each name.
  abbrev IsWalked : ℕ → List ℕ × List FsQid × H → Type 0
  IsWalked n r = (ends r.0 ≡ true) × (length r.1 ≤ n)

  walk_names-IsWalked :
      (h : H) (path : List ℕ) (names : List (List ℕ)) (qids : List FsQid)
      → ends path ≡ true
      → All IsText names
      → Returns (IsWalked (length qids + length names)) (walk_names os h path names qids)
  unfolding walk_names
  walk_names-IsWalked h path [] qids p t = (p, omega arith)
  walk_names-IsWalked h path (name ∷ names) qids p t =
      let W = IsWalked (length qids + length (name ∷ names)) in
      with_path W path name _ p t.0 (λ path1 e.
        Returns-Sys W (os.lstat h path1).0 _ _
          (λ st.
            let more = qids ++ (stat_to_qid st ∷ []) in
            let n : length more + length names ≡ length qids + length (name ∷ names) =
              omega (arith, length-append qids (stat_to_qid st ∷ [])) in
            subst (λ m. Returns (IsWalked m) (walk_names os (os.lstat h path1).1 path1 names more))
              n (walk_names-IsWalked (os.lstat h path1).1 path1 names more e t.1))
          (λ errno. (p, omega arith)))

  module _ (s : Disk H) (fds : List ℕ) (k : Keeps fds s) where
    abbrev Attached : ℕ × ℕ × FsQid × Disk H → Type 0
    Attached r = Keeps (if r.0 == 0 then r.1 ∷ fds else fds) r.3

    attached :
        (uid : ℕ) (r : Sys Stat) (h : H)
        → SetsErrno r
        → Returns Attached (elim r [
          | failed errno ↦ done (minus_errno errno, 0, no_qid, with_host s h)
          | ok st ↦
              let (f, s') = fid_create (with_host s h) s.root_path uid in
              done (0, f, stat_to_qid st, s')
        ])
    attached uid (ok st) h e = fid_create-Keeps (with_host s h) fds s.root_path uid k k.root
    attached uid (failed errno) h e = rw (minus_errno-error errno e) k

    pub fs_attach-Keeps :
        IsHost os
        → (uid : ℕ) (uname aname : List ℕ) → Returns Attached (fs_attach os s uid uname aname)
    unfolding fs_attach
    fs_attach-Keeps host uid uname aname =
        attached uid (os.lstat s.host s.root_path).0 (os.lstat s.host s.root_path).1
          (host.lstat_errno s.host s.root_path)

    abbrev pub WalkedTo : ℕ × ℕ × List FsQid × Disk H → Type 0
    WalkedTo r = (is_neg r.0 ≡ false) × Keeps (if is_neg r.0 then fds else r.1 ∷ fds) r.3

    pub fs_walk-Keeps :
        (f : ℕ) (names : List (List ℕ))
        → Has f fds
        → All IsText names
        → length names < 2 ^ 16
        → Returns WalkedTo (fs_walk os s f names)
    unfolding fs_walk
    fs_walk-Keeps f names h t few = with_file os s fds k WalkedTo f _ h (λ file p.
        Returns->>= (IsWalked (0 + length names)) WalkedTo _ _
          (walk_names-IsWalked s.host file.path names [] p.1 t)
          (λ (path, qids, g) w.
            let found : is_neg (u32 (length qids)) ≡ false = ground (arith, w.1, few) in
            (found, rw found (fid_create-Keeps (with_host s g) fds path file.uid k w.0))))

    -- What `fs_open` does with the handle.
    abbrev Ends : Disk H → ℕ → FsQid → Sys FsFile × H → Type 0
    Ends s1 f qid opening = Returns (Kept2 {A = ℕ} {B = FsQid} fds) (elim opening.0 [
      | failed errno ↦ done (minus_errno errno, qid, with_host s1 opening.1)
      | ok file' ↦ done (0, qid, put_file (with_host s1 opening.1) f file')
    ])

    opened_as-Ends :
        (s1 : Disk H) (f : ℕ) (file : FsFile) (qid : FsQid) (is_dir : Bool) (r : Sys ℕ × H)
        → Keeps fds s1
        → Points s1 f file
        → Ends s1 f qid (opened_as os file is_dir r)
    opened_as-Ends s1 f file qid is_dir (ok u, h) k1 p =
        put_file-Keeps (with_host s1 h) fds f file
          (record file { is_opened = true; is_dir = is_dir; u = u }) k1 p.0 p.1
    opened_as-Ends s1 f file qid is_dir (failed errno, h) k1 p = k1

    either :
        (s1 : Disk H) (f : ℕ) (qid : FsQid) (is_dir : Bool) (x y : Sys FsFile × H)
        → Ends s1 f qid x
        → Ends s1 f qid y
        → Ends s1 f qid (if is_dir then x else y)
    either s1 f qid true x y hx hy = hx
    either s1 f qid false x y hx hy = hy

    pub fs_open-Keeps : (f flags : ℕ) → Has f fds → Returns (Kept2 fds) (fs_open os s f flags)
    unfolding fs_open
    fs_open-Keeps f flags h =
        Returns->>= (Keeps fds) (Kept2 fds) _ _ (fs_close-Keeps os s fds k f h) (λ s1 k1.
          with_file os s1 fds k1 (Kept2 fds) f _ h (λ file p.
            let h1 = (os.stat s1.host file.path).1 in
            Returns-Sys (Kept2 fds) (os.stat s1.host file.path).0 _ _
              (λ st.
                either s1 f (stat_to_qid st) (s_isdir st.st_mode) _ _
                  (opened_as-Ends s1 f file (stat_to_qid st) true (os.opendir h1 file.path) k1 p)
                  (opened_as-Ends s1 f file (stat_to_qid st) false (os.open_file h1 file.path _ 0)
                    k1 p))
              (λ errno. k1)))

    pub fs_create-Keeps :
        (f : ℕ) (name : List ℕ) (flags mode gid : ℕ)
        → Has f fds
        → IsText name
        → Returns (Kept2 fds) (fs_create os s f name flags mode gid)
    unfolding fs_create
    fs_create-Keeps f name flags mode gid h t =
        Returns->>= (Keeps fds) (Kept2 fds) _ _ (fs_close-Keeps os s fds k f h) (λ s1 k1.
          with_file os s1 fds k1 (Kept2 fds) f _ h (λ file p.
            with_path (Kept2 fds) file.path name _ p.1 t (λ path e.
              Returns-Sys (Kept2 fds) (os.open_file s1.host path _ mode).0 _ _
                (λ fd.
                  Returns-Sys (Kept2 fds) (os.lstat (os.open_file s1.host path _ mode).1 path).0 _ _
                    (λ st.
                      put_file-Keeps s1 fds f file
                        (record file { path = path; is_opened = true; is_dir = false; u = fd }) k1
                        p.0 e)
                    (λ errno. k1))
                (λ errno. k1))))
