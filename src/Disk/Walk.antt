-- ===== src/Disk/Walk.antt =====
-- src/fs_disk.c: paths, the root, walks, and opening and creating files.
use spike_virtio_devices.Prelude.{
  ℕ, ◌+◌, ◌-◌, ◌^◌, Bool, true, false, List, [], ◌∷◌, ◌++◌, length, replicate, set, if◌then◌else◌,
  bit_and, bit_or, u32,
}
use spike_virtio_devices.Prelude.Outcome.{Outcome, done, ◌>>=◌}
use spike_virtio_devices.Libc.{strlen, memcpy}
use spike_virtio_devices.NineP.Fs.{FsQid, FsStatFs}
use spike_virtio_devices.Disk.{FsFile, Disk, file_at, put_file, with_host, fid_create, fs_close}
use spike_virtio_devices.Disk.Calls.{Host, Sys, ok, failed, Stat}
use spike_virtio_devices.Disk.Codes.{minus_errno, p9_flags_to_host, o_creat, s_isdir, stat_to_qid}

-- A qid that a failing call leaves unset.
abbrev pub no_qid : FsQid
no_qid = record { type = 0; version = 0; path = 0 }

unfoldable pub compose_path : List ℕ → List ℕ → Outcome (List ℕ)
compose_path path name = do
  path_len ← strlen path
  name_len ← strlen name
  d ← memcpy (replicate (path_len + 1 + name_len + 1) 0) 0 path path_len
  memcpy (set d path_len 47) (path_len + 1) name (name_len + 1)

module _ {H : Type 0} (os : Host H) where
  -- A failed call leaves the file system as it was, but for the host.
  abbrev pub failed_with : Disk H → H → ℕ → Outcome (ℕ × FsQid × Disk H)
  failed_with s h errno = done (minus_errno errno, no_qid, with_host s h)

  unfoldable pub fs_statfs : Disk H → Outcome (FsStatFs × Disk H)
  fs_statfs s = let (st, h) = os.statfs s.host s.root_path in done (st, with_host s h)

  -- `*pf` is the last file allocated where the call fails.
  unfoldable pub fs_attach : Disk H → ℕ → List ℕ → List ℕ → Outcome (ℕ × ℕ × FsQid × Disk H)
  fs_attach s uid uname aname =
      let (r, h) = os.lstat s.host s.root_path in
      elim r [
        | failed errno ↦ done (minus_errno errno, 0, no_qid, with_host s h)
        | ok st ↦
            let (f, s') = fid_create (with_host s h) s.root_path uid in
            done (0, f, stat_to_qid st, s')
      ]

  -- The loop of `fs_walk`: the path so far, the qids, and the host; `i` is their number.
  unfoldable pub walk_names :
      H → List ℕ → List (List ℕ) → List FsQid → Outcome (List ℕ × List FsQid × H)
  walk_names h path [] qids = done (path, qids, h)
  walk_names h path (name ∷ names) qids = do
    path1 ← compose_path path name
    let (r, h') = os.lstat h path1
    elim r [
      | failed errno ↦ done (path, qids, h')
      | ok st ↦ walk_names h' path1 names (qids ++ (stat_to_qid st ∷ []))
    ]

  unfoldable pub fs_walk : Disk H → ℕ → List (List ℕ) → Outcome (ℕ × ℕ × List FsQid × Disk H)
  unfolding walk_names
  fs_walk s f names = do
    file ← file_at s f
    (path, qids, h) ← walk_names s.host file.path names []
    let (f', s') = fid_create (with_host s h) path file.uid
    done (u32 (length qids), f', qids, s')

  -- What the file is once it has a handle.
  abbrev pub opened_as : FsFile → Bool → Sys ℕ × H → Sys FsFile × H
  opened_as file is_dir (failed errno, h) = (failed errno, h)
  opened_as file is_dir (ok u, h) =
      (ok (record file { is_opened = true; is_dir = is_dir; u = u }), h)

  -- `opendir` or `open`
  abbrev pub open_handle : H → FsFile → Stat → ℕ → Sys FsFile × H
  open_handle h file st flags =
      if s_isdir st.st_mode
      then opened_as file true (os.opendir h file.path)
      else opened_as file false
          (os.open_file h file.path (bit_and (p9_flags_to_host flags) (2 ^ 32 - 1 - o_creat)) 0)

  unfoldable pub fs_open : Disk H → ℕ → ℕ → Outcome (ℕ × FsQid × Disk H)
  fs_open s f flags = do
    s1 ← fs_close os s f
    file ← file_at s1 f
    let (r, h) = os.stat s1.host file.path
    elim r [
      | failed errno ↦ failed_with s1 h errno
      | ok st ↦
          let (opened, h') = open_handle h file st flags in
          elim opened [
            | failed errno ↦ done (minus_errno errno, stat_to_qid st, with_host s1 h')
            | ok file' ↦ done (0, stat_to_qid st, put_file (with_host s1 h') f file')
          ]
    ]

  -- The `errno` of `lstat` outlives the `close` behind it.
  unfoldable pub fs_create : Disk H → ℕ → List ℕ → ℕ → ℕ → ℕ → Outcome (ℕ × FsQid × Disk H)
  unfolding compose_path
  fs_create s f name flags mode gid = do
    s1 ← fs_close os s f
    file ← file_at s1 f
    path ← compose_path file.path name
    let (r, h) = os.open_file s1.host path (bit_or (p9_flags_to_host flags) o_creat) mode
    elim r [
      | failed errno ↦ failed_with s1 h errno
      | ok fd ↦
          let (r', h') = os.lstat h path in
          elim r' [
            | failed errno ↦ failed_with s1 (os.close h' fd) errno
            | ok st ↦
                let file' = record file { path = path; is_opened = true; is_dir = false; u = fd } in
                done (0, stat_to_qid st, put_file (with_host s1 h') f file')
          ]
    ]
