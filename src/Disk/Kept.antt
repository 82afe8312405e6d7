-- ===== src/Disk/Kept.antt =====
-- The invariant on files and pointers under the operations of src/fs_disk.c.
pub mod Opened
pub mod Read
use spike_virtio_devices.Prelude.{
  inl, inr, ◌⊎◌, ℕ, zero, suc, ◌+◌, ◌≡◌, refl, true, false, Option, none, some, List, [], ◌∷◌, ◌++◌,
  ◌==◌, length, is_neg, if◌then◌else◌,
}
use spike_virtio_devices.Prelude.Outcome.{◌>>=◌, Outcome, done, Returns, Returns->>=, Returns-if}
use spike_virtio_devices.Libc.{ends, text}
use spike_virtio_devices.NineP.Fs.{FsQid, FsStat, FsLock}
use spike_virtio_devices.NineP.Fs.Laws.{IsText, Has}
use spike_virtio_devices.Disk.{
  FsFile, Disk, file_at, put_file, with_host, fid_create, fs_close, fs_delete, let_handle_go,
}
use spike_virtio_devices.Disk.Calls.{Host, Sys, ok, failed}
use spike_virtio_devices.Disk.Walk.{compose_path}
use spike_virtio_devices.Disk.Change.{
  make_at, fs_mkdir, fs_symlink, fs_mknod, fs_link, fs_renameat, fs_unlinkat, fs_readlink, fs_stat,
}
use spike_virtio_devices.Disk.Setattr.{fs_setattr}
use spike_virtio_devices.Disk.Paths.{compose_path_lem}
use spike_virtio_devices.Disk.Files.{
  Keeps, Kept1, Kept2, Points, file_at-Points, put_file-Keeps, freed-Keeps,
}

-- A case on what a system call gives.
pub Returns-Sys :
    {A B : Type 0} (P : B → Type 0) (r : Sys A) (f : A → Outcome B) (g : ℕ → Outcome B)
    → ((a : A) → Returns P (f a))
    → ((errno : ℕ) → Returns P (g errno))
    → Returns P (elim r [ ok a ↦ f a | failed errno ↦ g errno ])
Returns-Sys P (ok a) f g hf hg = hf a
Returns-Sys P (failed errno) f g hf hg = hg errno

-- What is done with a path composed of a file's path and a name.
pub with_path :
    {A : Type 0} (P : A → Type 0) (path name : List ℕ) (go : List ℕ → Outcome A)
    → ends path ≡ true
    → IsText name
    → ((out : List ℕ) → ends out ≡ true → Returns P (go out))
    → Returns P (compose_path path name >>= go)
with_path P path name go p n next =
    let Composed : List ℕ → Type 0 =
      λ out. (ends out ≡ true) × (text out ≡ text path ++ (47 ∷ text name)) in
    Returns->>= Composed P (compose_path path name) go (compose_path_lem path name p n)
      (λ out e. next out e.0)

module _ {H : Type 0} (os : Host H) (s : Disk H) (fds : List ℕ) (k : Keeps fds s) where
  -- What is done with a file that a pointer of the list points to.
  pub with_file :
      {A : Type 0} (P : A → Type 0) (f : ℕ) (go : FsFile → Outcome A)
      → Has f fds
      → ((file : FsFile) → Points s f file → Returns P (go file))
      → Returns P (file_at s f >>= go)
  with_file P f go h next =
      Returns->>= (Points s f) P (file_at s f) go (file_at-Points s fds f k h) next

  pub fs_close-Keeps : (f : ℕ) → Has f fds → Returns (Keeps fds) (fs_close os s f)
  unfolding fs_close
  fs_close-Keeps f h = with_file (Keeps fds) f _ h (λ file p.
      Returns-if (Keeps fds) file.is_opened _ _
        (put_file-Keeps s fds f file (record file { is_opened = false }) k p.0 p.1) k)

  make_at-Keeps :
      (call : H → List ℕ → Sys Unit × H) (f : ℕ) (name : List ℕ)
      → Has f fds
      → IsText name
      → Returns (Kept2 fds) (make_at os call s f name)
  unfolding make_at
  make_at-Keeps call f name h t = with_file (Kept2 fds) f _ h (λ file p.
      with_path (Kept2 fds) file.path name _ p.1 t (λ path e.
        Returns-Sys (Kept2 fds) (call s.host path).0 _ _
          (λ _.
            Returns-Sys (Kept2 fds) (os.lstat (call s.host path).1 path).0 _ _ (λ st. k)
              (λ errno. k))
          (λ errno. k)))

  pub fs_mkdir-Keeps :
      (f : ℕ) (name : List ℕ) (mode gid : ℕ)
      → Has f fds
      → IsText name
      → Returns (Kept2 fds) (fs_mkdir os s f name mode gid)
  unfolding fs_mkdir
  fs_mkdir-Keeps f name mode gid h t = make_at-Keeps (λ g path. os.mkdir g path mode) f name h t

  pub fs_symlink-Keeps :
      (f : ℕ) (name symgt : List ℕ) (gid : ℕ)
      → Has f fds
      → IsText name
      → Returns (Kept2 fds) (fs_symlink os s f name symgt gid)
  unfolding fs_symlink
  fs_symlink-Keeps f name symgt gid h t =
      make_at-Keeps (λ g path. os.symlink g symgt path) f name h t

  pub fs_mknod-Keeps :
      (f : ℕ) (name : List ℕ) (mode major minor gid : ℕ)
      → Has f fds
      → IsText name
      → Returns (Kept2 fds) (fs_mknod os s f name mode major minor gid)
  unfolding fs_mknod
  fs_mknod-Keeps f name mode major minor gid h t =
      make_at-Keeps (λ g path. os.mknod g path mode (os.makedev major minor)) f name h t

  pub fs_link-Keeps :
      (df f : ℕ) (name : List ℕ)
      → Has df fds
      → Has f fds
      → IsText name
      → Returns (Kept1 fds) (fs_link os s df f name)
  unfolding fs_link
  fs_link-Keeps df f name hd h t = with_file (Kept1 fds) df _ hd (λ dir p.
      with_path (Kept1 fds) dir.path name _ p.1 t
        (λ path e. with_file (Kept1 fds) f _ h (λ file q. k)))

  pub fs_renameat-Keeps :
      (f : ℕ) (name : List ℕ) (new_f : ℕ) (new_name : List ℕ)
      → Has f fds
      → IsText name
      → Has new_f fds
      → IsText new_name
      → Returns (Kept1 fds) (fs_renameat os s f name new_f new_name)
  unfolding fs_renameat
  fs_renameat-Keeps f name new_f new_name h t hn tn = with_file (Kept1 fds) f _ h (λ file p.
      with_path (Kept1 fds) file.path name _ p.1 t (λ path e.
        with_file (Kept1 fds) new_f _ hn
          (λ new_file q. with_path (Kept1 fds) new_file.path new_name _ q.1 tn (λ new_path e'. k))))

  pub fs_unlinkat-Keeps :
      (f : ℕ) (name : List ℕ)
      → Has f fds
      → IsText name
      → Returns (Kept1 fds) (fs_unlinkat os s f name)
  unfolding fs_unlinkat
  fs_unlinkat-Keeps f name h t =
      with_file (Kept1 fds) f _ h
        (λ file p. with_path (Kept1 fds) file.path name _ p.1 t (λ path e. k))

  pub fs_readlink-Keeps : (size f : ℕ) → Has f fds → Returns (Kept2 fds) (fs_readlink os s size f)
  unfolding fs_readlink
  fs_readlink-Keeps size f h =
      with_file (Kept2 fds) f _ h
        (λ file p. Returns-Sys (Kept2 fds) (os.readlink s.host file.path _).0 _ _ (λ _. k) (λ _. k))

  pub fs_stat-Keeps :
      (unset : FsStat) (f : ℕ) → Has f fds → Returns (Kept2 fds) (fs_stat os unset s f)
  unfolding fs_stat
  fs_stat-Keeps unset f h =
      with_file (Kept2 fds) f _ h
        (λ file p. Returns-Sys (Kept2 fds) (os.lstat s.host file.path).0 _ _ (λ _. k) (λ _. k))

  pub fs_setattr-Keeps :
      (f mask mode uid gid size asec ansec msec mnsec : ℕ)
      → Has f fds
      → Returns (Kept1 fds) (fs_setattr os s f mask mode uid gid size asec ansec msec mnsec)
  unfolding fs_setattr
  fs_setattr-Keeps f mask mode uid gid size asec ansec msec mnsec h =
      with_file (Kept1 fds) f _ h (λ file p. k)

-- The pointer that is deleted must be one of the list, and leaves it.
pub fs_delete-Keeps :
    {H : Type 0} (os : Host H) (s : Disk H) (fds : List ℕ) (f : ℕ)
    → Keeps (f ∷ fds) s
    → Returns (Keeps fds) (fs_delete os s f)
unfolding fs_delete
fs_delete-Keeps os s fds f k = with_file os s (f ∷ fds) k (Keeps fds) f _ (inl refl) (λ file p.
    Returns->>= (Keeps (f ∷ fds)) (Keeps fds) _ _
      (Returns-if (Keeps (f ∷ fds)) file.is_opened _ _
        (fs_close-Keeps os s (f ∷ fds) k f (inl refl)) k)
      (λ t kt. freed-Keeps t fds f kt))
