-- ===== src/NineP/Fs.antt =====
-- src/fs.h: what a file system offers the 9P device, `FSDevice` with its function pointers. An `int`
-- that a function returns is a pattern, negative for an error; a C string is a buffer that holds
-- its terminating null. What a function writes through a pointer is part of what it returns.
pub mod Laws
use spike_virtio_devices.Prelude.{ℕ, List}

pub record FsStatFs : Type 0 where
  pub f_bsize : ℕ  -- uint32_t
  pub f_blocks : ℕ  -- uint64_t, as the next four
  pub f_bfree : ℕ
  pub f_bavail : ℕ
  pub f_files : ℕ
  pub f_ffree : ℕ

pub record FsQid : Type 0 where
  pub type : ℕ  -- uint8_t
  pub version : ℕ  -- uint32_t
  pub path : ℕ  -- uint64_t

pub record FsStat : Type 0 where
  pub qid : FsQid
  pub st_mode : ℕ  -- uint32_t, as the next two
  pub st_uid : ℕ
  pub st_gid : ℕ
  pub st_nlink : ℕ  -- uint64_t, as the others but the three st_*_nsec
  pub st_rdev : ℕ
  pub st_size : ℕ
  pub st_blksize : ℕ
  pub st_blocks : ℕ
  pub st_atime_sec : ℕ
  pub st_atime_nsec : ℕ
  pub st_mtime_sec : ℕ
  pub st_mtime_nsec : ℕ
  pub st_ctime_sec : ℕ
  pub st_ctime_nsec : ℕ

pub record FsLock : Type 0 where
  pub type : ℕ  -- uint8_t
  pub flags : ℕ  -- uint32_t
  pub start : ℕ  -- uint64_t
  pub length : ℕ  -- uint64_t
  pub proc_id : ℕ  -- uint32_t
  pub client_id : List ℕ

-- What `virtio_9p_open_cb` is given back: `P9OpenInfo` without the device.
pub record OpenInfo : Type 0 where
  pub queue_idx : ℕ
  pub desc_idx : ℕ
  pub tag : ℕ  -- uint16_t

-- `S` is the state behind an `FSDevice`, `D` an `FSFile *`.
pub record FsDevice (S D : Type 0) : Type 0 where
  pub fs_delete : S → D → S
  pub fs_statfs : S → FsStatFs × S
  -- uid, uname and aname
  pub fs_attach : S → ℕ → List ℕ → List ℕ → ℕ × D × FsQid × S
  pub fs_walk : S → D → List (List ℕ) → ℕ × D × List FsQid × S
  -- name, mode and gid
  pub fs_mkdir : S → D → List ℕ → ℕ → ℕ → ℕ × FsQid × S
  -- flags, and what the callback is to have when the result is positive
  pub fs_open : S → D → ℕ → OpenInfo → ℕ × FsQid × S
  -- name, flags, mode and gid
  pub fs_create : S → D → List ℕ → ℕ → ℕ → ℕ → ℕ × FsQid × S
  pub fs_stat : S → D → ℕ × FsStat × S
  -- mask, mode, uid, gid, size, atime_sec, atime_nsec, mtime_sec and mtime_nsec
  pub fs_setattr : S → D → ℕ → ℕ → ℕ → ℕ → ℕ → ℕ → ℕ → ℕ → ℕ → ℕ × S
  -- offset and count; the bytes are those that were written to the buffer
  pub fs_readdir : S → D → ℕ → ℕ → ℕ × List ℕ × S
  pub fs_read : S → D → ℕ → ℕ → ℕ × List ℕ × S
  pub fs_write : S → D → ℕ → List ℕ → ℕ → ℕ × S
  -- the directory, the file and the name
  pub fs_link : S → D → D → List ℕ → ℕ × S
  -- name, symgt and gid
  pub fs_symlink : S → D → List ℕ → List ℕ → ℕ → ℕ × FsQid × S
  -- name, mode, major, minor and gid
  pub fs_mknod : S → D → List ℕ → ℕ → ℕ → ℕ → ℕ → ℕ × FsQid × S
  -- the size of the buffer, and the buffer
  pub fs_readlink : S → ℕ → D → ℕ × List ℕ × S
  pub fs_renameat : S → D → List ℕ → D → List ℕ → ℕ × S
  pub fs_unlinkat : S → D → List ℕ → ℕ × S
  pub fs_lock : S → D → FsLock → ℕ × S
  pub fs_getlock : S → D → FsLock → ℕ × FsLock × S
