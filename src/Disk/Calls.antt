-- ===== src/Disk/Calls.antt =====
-- The host's system calls that src/fs_disk.c makes, as a parameter. A call gives its result or
-- an `errno`, and the host after it. A path is a C string.
use spike_virtio_devices.Prelude.{ℕ, ◌≤◌, ◌<◌, ◌^◌, ◌≡◌, true, Option, none, some, List, length}
use spike_virtio_devices.Libc.{ends}
use spike_virtio_devices.NineP.Fs.{FsStatFs}

pub data Sys (A : Type 0) : Type 0 where
  ok : A → Sys A
  failed : ℕ → Sys A

-- `struct stat`, of which these members are used.
pub record Stat : Type 0 where
  pub st_ino : ℕ
  pub st_mode : ℕ
  pub st_uid : ℕ
  pub st_gid : ℕ
  pub st_nlink : ℕ
  pub st_rdev : ℕ
  pub st_size : ℕ
  pub st_blksize : ℕ
  pub st_blocks : ℕ
  pub st_atim_sec : ℕ
  pub st_atim_nsec : ℕ
  pub st_mtim_sec : ℕ
  pub st_mtim_nsec : ℕ
  pub st_ctim_sec : ℕ
  pub st_ctim_nsec : ℕ

-- `struct dirent`
pub record Dirent : Type 0 where
  pub d_ino : ℕ
  pub d_type : ℕ
  pub d_name : List ℕ

-- `struct flock`, counted from the start of the file.
pub record Flock : Type 0 where
  pub l_type : ℕ
  pub l_start : ℕ
  pub l_len : ℕ

-- `struct timespec`
pub record Timespec : Type 0 where
  pub tv_sec : ℕ
  pub tv_nsec : ℕ

-- `H` is the state of the host. A file descriptor or a `DIR *` is a number.
pub record Host (H : Type 0) : Type 0 where
  pub lstat : H → List ℕ → Sys Stat × H
  pub stat : H → List ℕ → Sys Stat × H
  -- What the struct holds after the call, whether it succeeds or not.
  pub statfs : H → List ℕ → FsStatFs × H
  pub opendir : H → List ℕ → Sys ℕ × H
  -- `open`: flags and mode
  pub open_file : H → List ℕ → ℕ → ℕ → Sys ℕ × H
  pub close : H → ℕ → H
  pub closedir : H → ℕ → H
  pub rewinddir : H → ℕ → H
  pub seekdir : H → ℕ → ℕ → H
  pub readdir : H → ℕ → Option Dirent × H
  pub telldir : H → ℕ → ℕ × H
  -- count and offset
  pub pread : H → ℕ → ℕ → ℕ → Sys (List ℕ) × H
  pub pwrite : H → ℕ → List ℕ → ℕ → ℕ → Sys ℕ × H
  pub mkdir : H → List ℕ → ℕ → Sys Unit × H
  -- uid and gid
  pub lchown : H → List ℕ → ℕ → ℕ → Sys Unit × H
  pub chmod : H → List ℕ → ℕ → Sys Unit × H
  pub truncate : H → List ℕ → ℕ → Sys Unit × H
  -- `utimensat` in the working directory, which does not follow symbolic links
  pub utimensat : H → List ℕ → Timespec → Timespec → Sys Unit × H
  pub link : H → List ℕ → List ℕ → Sys Unit × H
  pub symlink : H → List ℕ → List ℕ → Sys Unit × H
  pub mknod : H → List ℕ → ℕ → ℕ → Sys Unit × H
  pub makedev : ℕ → ℕ → ℕ
  -- The bytes of the target, at most as many as asked for.
  pub readlink : H → List ℕ → ℕ → Sys (List ℕ) × H
  pub rename : H → List ℕ → List ℕ → Sys Unit × H
  pub remove : H → List ℕ → Sys Unit × H
  pub fcntl_setlk : H → ℕ → Flock → Sys Unit × H
  pub fcntl_getlk : H → ℕ → Flock → Sys Flock × H

abbrev pub SetsErrno : {A : Type 0} → Sys A → Type 0
SetsErrno (ok a) = Unit
SetsErrno (failed errno) = 0 < errno

-- `d_name` is an array of 256 characters.
abbrev pub HasName : Option Dirent → Type 0
HasName none = Unit
HasName (some de) = (ends de.d_name ≡ true) × (length de.d_name ≤ 256)

-- After an entry there are fewer to come.
abbrev pub Fewer : Option Dirent → ℕ → ℕ → Type 0
Fewer none m n = m ≤ n
Fewer (some de) m n = m < n

-- What is relied on in the host. Its manual says that an `lstat` that fails sets `errno`, which is
-- never 0, that an entry of a directory has a name, and that a directory has an end, which
-- `readdir` comes nearer to and `telldir` and `lstat` do not move away from. It is taken to be at
-- most 2^22 entries off.
pub record IsHost {H : Type 0} (os : Host H) : Type 0 where
  pub lstat_errno : (h : H) (path : List ℕ) → SetsErrno (os.lstat h path).0
  pub entry_name : (h : H) (dirp : ℕ) → HasName (os.readdir h dirp).0
  -- The entries that are still to come, and how many there are at most.
  pub left : H → ℕ → ℕ
  pub left_few : (h : H) (dirp : ℕ) → left h dirp ≤ 2 ^ 22
  pub readdir_left :
      (h : H) (dirp : ℕ) → let r = os.readdir h dirp in Fewer r.0 (left r.1 dirp) (left h dirp)
  pub telldir_left : (h : H) (dirp : ℕ) → left (os.telldir h dirp).1 dirp ≤ left h dirp
  pub lstat_left : (h : H) (path : List ℕ) (dirp : ℕ) → left (os.lstat h path).1 dirp ≤ left h dirp
