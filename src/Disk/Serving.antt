-- ===== src/Disk/Serving.antt =====
-- The file system of src/fs_disk.c behind the interface that the 9P device uses, with the invariant
-- on its files and the device's pointers to them.
use spike_virtio_devices.Prelude.{
  ℕ, ◌≡◌, false, sym, List, [], ◌∷◌, ◌++◌, ◌==◌, is_neg, if◌then◌else◌,
}
use spike_virtio_devices.Prelude.Outcome.{
  Outcome, done, aborted, fault, out_of_fuel, ◌>>=◌, Returns, Returns->>=, Returns-weaken,
}
use spike_virtio_devices.NineP.Fs.{FsStat, FsQid}
use spike_virtio_devices.NineP.Path.Ledger.{GivesFiles}
use spike_virtio_devices.NineP.Fs.Laws.{IsFileSystem}
use spike_virtio_devices.Disk.{Disk, fs_delete}
use spike_virtio_devices.Disk.Calls.{Host, IsHost}
use spike_virtio_devices.Disk.Walk.{no_qid, fs_statfs, fs_attach, fs_walk}
use spike_virtio_devices.Disk.Device.{with_state, with_state2, with_state3, fs_disk}
use spike_virtio_devices.Disk.Files.{Keeps, IsLedger-same, times-move}
use spike_virtio_devices.Disk.Kept.{
  fs_delete-Keeps, fs_mkdir-Keeps, fs_symlink-Keeps, fs_mknod-Keeps, fs_link-Keeps,
  fs_renameat-Keeps, fs_unlinkat-Keeps, fs_readlink-Keeps, fs_stat-Keeps, fs_setattr-Keeps,
}
use spike_virtio_devices.Disk.Kept.Opened.{
  WalkedTo, fs_attach-Keeps, fs_walk-Keeps, fs_open-Keeps, fs_create-Keeps,
}
use spike_virtio_devices.Disk.Kept.Read.{
  fs_readdir-Keeps, fs_read-Keeps, fs_write-Keeps, fs_lock-Keeps, fs_getlock-Keeps,
}

-- The files not freed are those of the list, each once.
abbrev pub IsIntact : {H : Type 0} → Outcome (Disk H) → List ℕ → Type 0
IsIntact s fds = Returns (Keeps fds) s

module _ {S : Type 0} where
  kept1 :
      {A : Type 0} (P : S → Type 0) (a : A) (r : Outcome (A × S))
      → Returns (λ x. P x.1) r
      → Returns P (with_state a r).1
  kept1 P a (done x) h = h
  kept1 P a aborted h = absurd h
  kept1 P a fault h = absurd h
  kept1 P a out_of_fuel h = absurd h

  kept2 :
      {A B : Type 0} (P : S → Type 0) (a : A) (b : B) (r : Outcome (A × B × S))
      → Returns (λ x. P x.2) r
      → Returns P (with_state2 a b r).2
  kept2 P a b (done x) h = h
  kept2 P a b aborted h = absurd h
  kept2 P a b fault h = absurd h
  kept2 P a b out_of_fuel h = absurd h

  -- What holds of the state may depend on the result and the file.
  kept3 :
      {A B C : Type 0} (P : A → B → S → Type 0) (a : A) (b : B) (c : C)
      (r : Outcome (A × B × C × S))
      → Returns (λ x. P x.0 x.1 x.3) r
      → let x = with_state3 a b c r in Returns (P x.0 x.1) x.3
  kept3 P a b c (done x) h = h
  kept3 P a b c aborted h = absurd h
  kept3 P a b c fault h = absurd h
  kept3 P a b c out_of_fuel h = absurd h

module _ {H : Type 0} (os : Host H) (host : IsHost os) (unset : FsStat) where
  abbrev step1 :
      {A : Type 0} (fds gds : List ℕ) (s : Outcome (Disk H)) (a : A)
      (go : Disk H → Outcome (A × Disk H))
      → IsIntact s fds
      → ((d : Disk H) → Keeps fds d → Returns (λ x. Keeps gds x.1) (go d))
      → IsIntact (with_state a (s >>= go)).1 gds
  step1 fds gds s a go k next =
      kept1 (Keeps gds) a (s >>= go) (Returns->>= (Keeps fds) (λ x. Keeps gds x.1) s go k next)

  abbrev step2 :
      {A B : Type 0} (fds : List ℕ) (s : Outcome (Disk H)) (a : A) (b : B)
      (go : Disk H → Outcome (A × B × Disk H))
      → IsIntact s fds
      → ((d : Disk H) → Keeps fds d → Returns (λ x. Keeps fds x.2) (go d))
      → IsIntact (with_state2 a b (s >>= go)).2 fds
  step2 fds s a b go k next =
      kept2 (Keeps fds) a b (s >>= go) (Returns->>= (Keeps fds) (λ x. Keeps fds x.2) s go k next)

  moved :
      (s : Outcome (Disk H)) (fds gds : List ℕ)
      → ((root : List ℕ) → (d : Disk H) → Keeps fds d → Keeps gds d)
      → IsIntact s fds
      → IsIntact s gds
  moved (done d) fds gds e k = e [] d k
  moved aborted fds gds e k = absurd k
  moved fault fds gds e k = absurd k
  moved out_of_fuel fds gds e k = absurd k

  -- On a host whose failing `lstat` sets `errno` and whose directories have at most 2^22
  -- entries with names, the file system on the disk is what the 9P device relies on: every
  -- call, given C strings and files of the list of open files, leaves the files not freed
  -- exactly those of the list, each once, with the new file of a successful `fs_attach` or
  -- `fs_walk` added and that of `fs_delete` gone, and it returns, without using a freed file or
  -- reading past a string.
  not_neg :
      (r : Outcome (ℕ × ℕ × List FsQid × Disk H))
      → Returns (λ x. is_neg x.0 ≡ false) r
      → is_neg (with_state3 0 0 [] r).0 ≡ false
  not_neg (done x) h = h
  not_neg aborted h = absurd h
  not_neg fault h = absurd h
  not_neg out_of_fuel h = absurd h

  pub fs_disk-GivesFiles : GivesFiles (fs_disk os unset) IsIntact
  unfolding fs_disk
  fs_disk-GivesFiles s fds f names k h t few = not_neg (s >>= λ d. fs_walk os d f names) (
      Returns->>= (Keeps fds) _ s (λ d. fs_walk os d f names) k
        (λ d kd.
          Returns-weaken (WalkedTo os d fds kd) _ (fs_walk os d f names) (λ r w. w.0)
            (fs_walk-Keeps os d fds kd f names h t few)))

  -- On a host whose failing `lstat` sets `errno` and whose directories have at most 2^22
  -- entries with names, the file system on the disk is what the 9P device relies on: every
  -- call, given C strings and files of the list of open files, leaves the files not freed
  -- exactly those of the list, each once, with the new file of a successful `fs_attach` or
  -- `fs_walk` added and that of `fs_delete` gone, and it returns, without using a freed file or
  -- reading past a string.
  pub fs_disk-IsFileSystem : IsFileSystem (fs_disk os unset) IsIntact
  unfolding fs_disk fs_statfs
  fs_disk-IsFileSystem = record {
    to_front = λ s f xs ys k.
        moved s (xs ++ (f ∷ ys)) (f ∷ (xs ++ ys))
          (λ _ d. IsLedger-same d.root_path d.files _ _ (λ g. sym (times-move g f xs ys))) k;
    from_front = λ s f xs ys k.
        moved s (f ∷ (xs ++ ys)) (xs ++ (f ∷ ys))
          (λ _ d. IsLedger-same d.root_path d.files _ _ (λ g. times-move g f xs ys)) k;
    deleted = λ s f fds k.
        Returns->>= (Keeps (f ∷ fds)) (Keeps fds) s (λ d. fs_delete os d f) k
          (λ d kd. fs_delete-Keeps os d fds f kd);
    statfs = λ s fds k. step1 fds fds s _ _ k (λ d kd. kd);
    attach = λ s fds uid uname aname k _ _.
        kept3 (λ r f. Keeps (if r == 0 then f ∷ fds else fds)) 0 0 no_qid
          (s >>= λ d. fs_attach os d uid uname aname)
          (Returns->>= (Keeps fds) _ s _ k
            (λ d kd. fs_attach-Keeps os d fds kd host uid uname aname));
    walk = λ s fds f names k h t few.
        kept3 (λ r g. Keeps (if is_neg r then fds else g ∷ fds)) 0 0 []
          (s >>= λ d. fs_walk os d f names)
          (Returns->>= (Keeps fds) _ s (λ d. fs_walk os d f names) k
            (λ d kd.
              Returns-weaken (WalkedTo os d fds kd) _ (fs_walk os d f names) (λ r w. w.1)
                (fs_walk-Keeps os d fds kd f names h t few)));
    mkdir = λ s fds f name mode gid k h t.
        step2 fds s 0 no_qid _ k (λ d kd. fs_mkdir-Keeps os d fds kd f name mode gid h t);
    open_file = λ s fds f flags oi k h.
        step2 fds s 0 no_qid _ k (λ d kd. fs_open-Keeps os d fds kd f flags h);
    create = λ s fds f name flags mode gid k h t.
        step2 fds s 0 no_qid _ k (λ d kd. fs_create-Keeps os d fds kd f name flags mode gid h t);
    stat = λ s fds f k h. step2 fds s 0 unset _ k (λ d kd. fs_stat-Keeps os d fds kd unset f h);
    setattr = λ s fds f mask mode uid gid size asec ansec msec mnsec k h.
        step1 fds fds s 0 _ k
          (λ d kd. fs_setattr-Keeps os d fds kd f mask mode uid gid size asec ansec msec mnsec h);
    readdir = λ s fds f offset count k h.
        step2 fds s 0 [] _ k (λ d kd. fs_readdir-Keeps os host d fds kd f offset count h);
    read = λ s fds f offset count k h.
        step2 fds s 0 [] _ k (λ d kd. fs_read-Keeps os host d fds kd f offset count h);
    write = λ s fds f offset buf count k h.
        step1 fds fds s 0 _ k (λ d kd. fs_write-Keeps os host d fds kd f offset buf count h);
    link = λ s fds df f name k hd h t.
        step1 fds fds s 0 _ k (λ d kd. fs_link-Keeps os d fds kd df f name hd h t);
    symlink = λ s fds f name symgt gid k h t _.
        step2 fds s 0 no_qid _ k (λ d kd. fs_symlink-Keeps os d fds kd f name symgt gid h t);
    mknod = λ s fds f name mode major minor gid k h t.
        step2 fds s 0 no_qid _ k
          (λ d kd. fs_mknod-Keeps os d fds kd f name mode major minor gid h t);
    readlink =
        λ s fds f size k h. step2 fds s 0 [] _ k (λ d kd. fs_readlink-Keeps os d fds kd size f h);
    renameat = λ s fds f name new_f new_name k h t hn tn.
        step1 fds fds s 0 _ k
          (λ d kd. fs_renameat-Keeps os d fds kd f name new_f new_name h t hn tn);
    unlinkat = λ s fds f name k h t.
        step1 fds fds s 0 _ k (λ d kd. fs_unlinkat-Keeps os d fds kd f name h t);
    lock = λ s fds f l k h. step1 fds fds s 0 _ k (λ d kd. fs_lock-Keeps os host d fds kd f l h);
    getlock =
        λ s fds f l k h. step2 fds s 0 l _ k (λ d kd. fs_getlock-Keeps os host d fds kd f l h);
  }
