-- ===== src/Disk/Tests.antt =====
-- A small host, and the file system of src/fs_disk.c on it.
use spike_virtio_devices.Prelude.{
  ℕ, ◌-◌, zero, suc, ◌+◌, ◌≡◌, refl, ap, arith, true, Option, none, some, List, [], ◌∷◌, get_or,
  replicate, inl,
}
use spike_virtio_devices.Prelude.Outcome.{Outcome, done, ◌>>=◌, Returns}
use spike_virtio_devices.Mmu.Sample.{Bytes, sample}
use spike_virtio_devices.Virtio.Device.{Machine, virtio_config_change_notify}
use spike_virtio_devices.Virtio.Inv.{Holds}
use spike_virtio_devices.Virtio.Base.Steps.{memory, config_change}
use spike_virtio_devices.NineP.{NineP}
use spike_virtio_devices.NineP.Fs.{FsStat}
use spike_virtio_devices.NineP.Fs.Laws.{IsFileSystem}
use spike_virtio_devices.NineP.Data.{LockPlaces}
use spike_virtio_devices.NineP.Reach.{IsTable, start, later, guest}
use spike_virtio_devices.NineP.Init.{tagged, virtio_9p_init_run}
use spike_virtio_devices.Disk.{FsFile, Disk}
use spike_virtio_devices.Disk.Calls.{Host, IsHost, HasName, Fewer, Stat, Dirent, ok, failed}
use spike_virtio_devices.Disk.Walk.{no_qid}
use spike_virtio_devices.Disk.Contents.{fs_readdir}
use spike_virtio_devices.Disk.Device.{fs_disk, fs_disk_init}
use spike_virtio_devices.Disk.Files.{Keeps, HasPath, allocated, times}
use spike_virtio_devices.Disk.Serving.{IsIntact, fs_disk-IsFileSystem, fs_disk-GivesFiles}
use spike_virtio_devices.NineP.Path.{fs_walk_path}
use spike_virtio_devices.NineP.Path.Ledger.{Leaves, fs_walk_path-Leaves}
use spike_virtio_devices.Disk.Listing.{Answers, fs_readdir_lem}
use spike_virtio_devices.Disk.Plugin.{
  String, virtio9p, find, read_args, split_at_equals, same, serve_disk, mount_tag,
}
use spike_virtio_devices.Disk.Reach.{virtio9p-IsIntact}

abbrev some_dir : Stat
some_dir = record {
  st_ino = 0;
  st_mode = 0x41ED;
  st_uid = 0;
  st_gid = 0;
  st_nlink = 0;
  st_rdev = 0;
  st_size = 0;
  st_blksize = 0;
  st_blocks = 0;
  st_atim_sec = 0;
  st_atim_nsec = 0;
  st_mtim_sec = 0;
  st_mtim_nsec = 0;
  st_ctim_sec = 0;
  st_ctim_nsec = 0;
}

-- A directory has the entries "a" and "a".
abbrev next_entry : ℕ → Option Dirent
next_entry zero = some (record { d_ino = 3; d_type = 8; d_name = 97 ∷ 0 ∷ [] })
next_entry (suc zero) = some (record { d_ino = 4; d_type = 0; d_name = 97 ∷ 0 ∷ [] })
next_entry (suc (suc h)) = none

-- Its state is the place in the directory.
abbrev small_host : Host ℕ
small_host = record {
  lstat = λ h path. (ok some_dir, h);
  stat = λ h path. (ok some_dir, h);
  statfs = λ h path. (
    record { f_bsize = 0; f_blocks = 0; f_bfree = 0; f_bavail = 0; f_files = 0; f_ffree = 0 },
    h,
  );
  opendir = λ h path. (ok 7, h);
  open_file = λ h path flags mode. (ok 8, h);
  close = λ h fd. h;
  closedir = λ h dirp. h;
  rewinddir = λ h dirp. 0;
  seekdir = λ h dirp offset. offset;
  readdir = λ h dirp. (next_entry h, h + 1);
  telldir = λ h dirp. (h, h);
  pread = λ h fd n offset. (ok [], h);
  pwrite = λ h fd buf n offset. (ok n, h);
  mkdir = λ h path mode. (ok tt, h);
  lchown = λ h path uid gid. (ok tt, h);
  chmod = λ h path mode. (ok tt, h);
  truncate = λ h path size. (ok tt, h);
  utimensat = λ h path atime mtime. (ok tt, h);
  link = λ h old new. (failed 1, h);
  symlink = λ h old new. (failed 1, h);
  mknod = λ h path mode dev. (failed 1, h);
  makedev = λ major minor. 0;
  readlink = λ h path n. (failed 22, h);
  rename = λ h old new. (ok tt, h);
  remove = λ h path. (ok tt, h);
  fcntl_setlk = λ h fd l. (ok tt, h);
  fcntl_getlk = λ h fd l. (ok l, h);
}

next_entry-HasName : (h : ℕ) → HasName (next_entry h)
next_entry-HasName zero = (refl, omega arith)
next_entry-HasName (suc zero) = (refl, omega arith)
next_entry-HasName (suc (suc h)) = tt

next_entry-Fewer : (h : ℕ) → Fewer (next_entry h) (2 - (h + 1)) (2 - h)
next_entry-Fewer zero = omega arith
next_entry-Fewer (suc zero) = omega arith
next_entry-Fewer (suc (suc h)) = omega arith

small_host-IsHost : IsHost small_host
small_host-IsHost = record {
  lstat_errno = λ h path. tt;
  entry_name = λ h dirp. next_entry-HasName h;
  left = λ h dirp. 2 - h;
  left_few = λ h dirp. omega arith;
  readdir_left = λ h dirp. next_entry-Fewer h;
  telldir_left = λ h dirp. omega arith;
  lstat_left = λ h path dirp. omega arith;
}

abbrev unset_stat : FsStat
unset_stat = record {
  qid = no_qid;
  st_mode = 0;
  st_uid = 0;
  st_gid = 0;
  st_nlink = 0;
  st_rdev = 0;
  st_size = 0;
  st_blksize = 0;
  st_blocks = 0;
  st_atime_sec = 0;
  st_atime_nsec = 0;
  st_mtime_sec = 0;
  st_mtime_nsec = 0;
  st_ctime_sec = 0;
  st_ctime_nsec = 0;
}

-- "/", opened
abbrev root_file : FsFile
root_file = record { uid = 0; path = 47 ∷ 0 ∷ []; is_opened = true; is_dir = true; u = 7 }

abbrev one_dir : Disk ℕ
one_dir = record { root_path = 47 ∷ 0 ∷ []; files = some root_file ∷ []; host = 0 }

one_dir_paths : (f : ℕ) → HasPath (get_or one_dir.files f none)
one_dir_paths zero = refl
one_dir_paths (suc f) = tt

one_dir_held : (f : ℕ) → times f (0 ∷ []) ≡ allocated (get_or one_dir.files f none)
unfolding times
one_dir_held zero = refl
one_dir_held (suc f) = ground arith

one_dir-Keeps : Keeps (0 ∷ []) one_dir
unfolding times
one_dir-Keeps = record { root = refl; paths = one_dir_paths; held = one_dir_held }

fs_disk-IsFileSystem_example : IsFileSystem (fs_disk small_host unset_stat) IsIntact
fs_disk-IsFileSystem_example = fs_disk-IsFileSystem small_host small_host-IsHost unset_stat

fs_readdir_lem_example :
    Returns (Answers one_dir (0 ∷ []) 60 true true) (fs_readdir small_host one_dir 0 0 60)
fs_readdir_lem_example =
    fs_readdir_lem small_host small_host-IsHost 60 one_dir (0 ∷ []) one_dir-Keeps 0 0 root_file refl

-- "/a/b"
abbrev some_path : String
some_path = 47 ∷ 97 ∷ 47 ∷ 98 ∷ 0 ∷ []

fs_walk_path-Leaves_example :
    Returns
      (Leaves (fs_disk small_host unset_stat) IsIntact (0 ∷ []))
      (fs_walk_path (fs_disk small_host unset_stat) 8 (done one_dir) 0 some_path)
fs_walk_path-Leaves_example =
    fs_walk_path-Leaves (fs_disk small_host unset_stat) IsIntact
      (fs_disk-IsFileSystem small_host small_host-IsHost unset_stat)
      (fs_disk-GivesFiles small_host small_host-IsHost unset_stat) (0 ∷ []) 8 (done one_dir) 0
      some_path one_dir-Keeps (inl refl) refl (omega arith)

-- "path=/" and "tag=t"
abbrev two_args : List String
two_args = (112 ∷ 97 ∷ 116 ∷ 104 ∷ 61 ∷ 47 ∷ []) ∷ (116 ∷ 97 ∷ 103 ∷ 61 ∷ 116 ∷ []) ∷ []

abbrev places : LockPlaces
places = record { at_type = 0; at_start = 0; at_length = 0; at_proc_id = 0; at_client_id = 0 ∷ [] }

abbrev no_bytes : Bytes
no_bytes a = 0

abbrev t_tag : String
t_tag = 116 ∷ []

two_args_tag : mount_tag two_args ≡ t_tag
unfolding find read_args split_at_equals same
two_args_tag = refl

abbrev root_disk : Disk ℕ
root_disk = record { root_path = 47 ∷ 0 ∷ []; files = []; host = 0 }

root_disk-Keeps : Keeps [] root_disk
unfolding times
root_disk-Keeps = record { root = refl; paths = λ f. tt; held = λ f. refl }

abbrev served : Machine Bytes (NineP (Outcome (Disk ℕ)) ℕ)
served = tagged ℕ (done root_disk) t_tag no_bytes

virtio9p-served : virtio9p small_host some_dir two_args 0 no_bytes ≡ done (some served)
unfolding virtio9p find read_args split_at_equals same serve_disk fs_disk_init
virtio9p-served =
    ap (λ r. r >>= λ m. done (some m))
      (virtio_9p_init_run ℕ (done root_disk) t_tag no_bytes IsIntact root_disk-Keeps
        (omega arith, tt) (omega arith, tt) (omega arith) (omega arith))

virtio9p-IsIntact_example :
    Holds
      (IsTable IsIntact)
      (record served { dev = virtio_config_change_notify served.dev; ram = λ a. 1 })
unfolding find read_args split_at_equals same
virtio9p-IsIntact_example =
    virtio9p-IsIntact small_host small_host-IsHost sample 8 (λ n. replicate n 0) places 0 unset_stat
      no_bytes two_args 0 some_dir (omega arith, tt) (omega arith, tt) (omega arith) (omega arith)
      virtio9p-served (later (later start (guest (memory (λ a. 1)))) (guest config_change))
