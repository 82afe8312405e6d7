-- ===== src/NineP/Fs/Laws.antt =====
-- What the 9P device relies on in a file system: an invariant on its state and the files that are
-- open in the fid table, which every call keeps. Strings are C strings; the files passed are open.
use spike_virtio_devices.Prelude.{
  ℕ, ◌^◌, ◌<◌, ◌≡◌, ◌⊎◌, true, List, [], ◌∷◌, ◌++◌, ◌==◌, is_neg, if◌then◌else◌, length, All,
}
use spike_virtio_devices.Libc.{ends}
use spike_virtio_devices.NineP.Fs.{FsDevice, FsLock, OpenInfo}

abbrev pub IsText : List ℕ → Type 0
IsText str = ends str ≡ true

abbrev pub Has : {D : Type 0} → D → List D → Type 0
Has f [] = ⊥
Has f (x ∷ xs) = (f ≡ x) ⊎ Has f xs

-- The files are in any order. A new file is at the front.
pub record IsFileSystem {S D : Type 0} (dev : FsDevice S D) (Inv : S → List D → Type 0)
    : Type 0 where
  pub to_front : (s : S) (f : D) (xs ys : List D) → Inv s (xs ++ (f ∷ ys)) → Inv s (f ∷ (xs ++ ys))
  pub from_front :
      (s : S) (f : D) (xs ys : List D) → Inv s (f ∷ (xs ++ ys)) → Inv s (xs ++ (f ∷ ys))
  pub deleted : (s : S) (f : D) (fs : List D) → Inv s (f ∷ fs) → Inv (dev.fs_delete s f) fs
  pub statfs : (s : S) (fs : List D) → Inv s fs → Inv (dev.fs_statfs s).1 fs
  pub attach :
      (s : S) (fs : List D) (uid : ℕ) (uname aname : List ℕ)
      → Inv s fs
      → IsText uname
      → IsText aname
      → let r = dev.fs_attach s uid uname aname in Inv r.3 (if r.0 == 0 then r.1 ∷ fs else fs)
  pub walk :
      (s : S) (fs : List D) (f : D) (names : List (List ℕ))
      → Inv s fs
      → Has f fs
      → All IsText names
      → length names < 2 ^ 16
      → let r = dev.fs_walk s f names in Inv r.3 (if is_neg r.0 then fs else r.1 ∷ fs)
  pub mkdir :
      (s : S) (fs : List D) (f : D) (name : List ℕ) (mode gid : ℕ)
      → Inv s fs
      → Has f fs
      → IsText name
      → Inv (dev.fs_mkdir s f name mode gid).2 fs
  pub open_file :
      (s : S) (fs : List D) (f : D) (flags : ℕ) (oi : OpenInfo)
      → Inv s fs
      → Has f fs
      → Inv (dev.fs_open s f flags oi).2 fs
  pub create :
      (s : S) (fs : List D) (f : D) (name : List ℕ) (flags mode gid : ℕ)
      → Inv s fs
      → Has f fs
      → IsText name
      → Inv (dev.fs_create s f name flags mode gid).2 fs
  pub stat : (s : S) (fs : List D) (f : D) → Inv s fs → Has f fs → Inv (dev.fs_stat s f).2 fs
  pub setattr :
      (s : S) (fs : List D) (f : D) (mask mode uid gid size asec ansec msec mnsec : ℕ)
      → Inv s fs
      → Has f fs
      → Inv (dev.fs_setattr s f mask mode uid gid size asec ansec msec mnsec).1 fs
  pub readdir :
      (s : S) (fs : List D) (f : D) (offset count : ℕ)
      → Inv s fs
      → Has f fs
      → Inv (dev.fs_readdir s f offset count).2 fs
  pub read :
      (s : S) (fs : List D) (f : D) (offset count : ℕ)
      → Inv s fs
      → Has f fs
      → Inv (dev.fs_read s f offset count).2 fs
  pub write :
      (s : S) (fs : List D) (f : D) (offset : ℕ) (buf : List ℕ) (count : ℕ)
      → Inv s fs
      → Has f fs
      → Inv (dev.fs_write s f offset buf count).1 fs
  pub link :
      (s : S) (fs : List D) (df f : D) (name : List ℕ)
      → Inv s fs
      → Has df fs
      → Has f fs
      → IsText name
      → Inv (dev.fs_link s df f name).1 fs
  pub symlink :
      (s : S) (fs : List D) (f : D) (name symgt : List ℕ) (gid : ℕ)
      → Inv s fs
      → Has f fs
      → IsText name
      → IsText symgt
      → Inv (dev.fs_symlink s f name symgt gid).2 fs
  pub mknod :
      (s : S) (fs : List D) (f : D) (name : List ℕ) (mode major minor gid : ℕ)
      → Inv s fs
      → Has f fs
      → IsText name
      → Inv (dev.fs_mknod s f name mode major minor gid).2 fs
  pub readlink :
      (s : S) (fs : List D) (f : D) (size : ℕ)
      → Inv s fs
      → Has f fs
      → Inv (dev.fs_readlink s size f).2 fs
  pub renameat :
      (s : S) (fs : List D) (f : D) (name : List ℕ) (new_f : D) (new_name : List ℕ)
      → Inv s fs
      → Has f fs
      → IsText name
      → Has new_f fs
      → IsText new_name
      → Inv (dev.fs_renameat s f name new_f new_name).1 fs
  pub unlinkat :
      (s : S) (fs : List D) (f : D) (name : List ℕ)
      → Inv s fs
      → Has f fs
      → IsText name
      → Inv (dev.fs_unlinkat s f name).1 fs
  pub lock :
      (s : S) (fs : List D) (f : D) (l : FsLock)
      → Inv s fs
      → Has f fs
      → Inv (dev.fs_lock s f l).1 fs
  pub getlock :
      (s : S) (fs : List D) (f : D) (l : FsLock)
      → Inv s fs
      → Has f fs
      → Inv (dev.fs_getlock s f l).2 fs
