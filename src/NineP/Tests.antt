-- ===== src/NineP/Tests.antt =====
-- The fid table at concrete inputs.
mod Messages
use spike_virtio_devices.Prelude.{
  ℕ, false, ◌+◌, ◌-◌, ◌^◌, ◌<◌, ◌≡◌, refl, arith, none, some, List, [], ◌∷◌, All, length, replicate,
}
use spike_virtio_devices.Prelude.Outcome.{done, Returns}
use spike_virtio_devices.Cutils.{byte_at, get_le16}
use spike_virtio_devices.Cutils.Endian.{AreBytes}
use spike_virtio_devices.Mmu.Sample.{Bytes, sample}
use spike_virtio_devices.Virtio.Device.{Machine, virtio_config_change_notify}
use spike_virtio_devices.Virtio.Inv.{Holds}
use spike_virtio_devices.Virtio.Base.Steps.{memory, config_change}
use spike_virtio_devices.NineP.Fs.{FsDevice, FsQid, FsStat}
use spike_virtio_devices.NineP.Strings.{IsChar, c_string}
use spike_virtio_devices.NineP.Data.{LockPlaces}
use spike_virtio_devices.NineP.Recv.{virtio_9p_init}
use spike_virtio_devices.NineP.Kept.{Anywhere}
use spike_virtio_devices.NineP.Fs.Laws.{IsFileSystem}
use spike_virtio_devices.NineP.Reach.{IsTable, start, later, guest}
use spike_virtio_devices.NineP.Init.{
  tagged, virtio_9p_init_lem, virtio_9p_init_run, NinePReach-virtio_9p_init,
}
use spike_virtio_devices.NineP.{NineP, find_from, fid_find, fid_set, fid_delete}
use spike_virtio_devices.NineP.Table.{AreUnique, fid_find-fid_set, fid_find-fid_delete}

-- The file system counts the files that were deleted.
abbrev count : ℕ → ℕ → ℕ
count fs fd = fs + 1

abbrev two_fids : NineP ℕ ℕ
two_fids = record {
  fs = 0;
  msize = 8192;
  req_in_progress = false;
  fid_list = record { fid = 5; fd = 50 } ∷ record { fid = 6; fd = 60 } ∷ [];
}

two_fids-AreUnique : AreUnique two_fids.fid_list
unfolding find_from
two_fids-AreUnique = (refl, (refl, tt))

fid_find-fid_set_example :
    AreUnique (fid_set count two_fids 6 61).fid_list
    × (fid_find (fid_set count two_fids 6 61) 6 ≡ some 61)
fid_find-fid_set_example = fid_find-fid_set count two_fids 6 6 61 two_fids-AreUnique

fid_find-fid_delete_example :
    AreUnique (fid_delete count two_fids 5).fid_list
    × (fid_find (fid_delete count two_fids 5) 5 ≡ none)
fid_find-fid_delete_example = fid_find-fid_delete count two_fids 5 5 two_fids-AreUnique

abbrev no_qid : FsQid
no_qid = record { type = 0; version = 0; path = 0 }

abbrev no_stat : FsStat
no_stat = record {
  qid = no_qid;
  st_mode = 0;
  st_uid = 0;
  st_gid = 0;
  st_nlink = 0;
  st_rdev = 0;
  st_size = 0;
  st_blksize = 0;
  st_blocks = 0;
  st_atime_sec = 0;
  st_atime_nsec = 0;
  st_mtime_sec = 0;
  st_mtime_nsec = 0;
  st_ctime_sec = 0;
  st_ctime_nsec = 0;
}

abbrev refused : ℕ
refused = 2 ^ 32 - 2

-- A file system without files.
abbrev empty_fs : FsDevice ℕ ℕ
empty_fs = record {
  fs_delete = count;
  fs_statfs = λ s. (
    record { f_bsize = 0; f_blocks = 0; f_bfree = 0; f_bavail = 0; f_files = 0; f_ffree = 0 },
    s,
  );
  fs_attach = λ s uid uname aname. (0, 0, no_qid, s);
  fs_walk = λ s f names. (refused, f, [], s);
  fs_mkdir = λ s f name mode gid. (refused, no_qid, s);
  fs_open = λ s f flags oi. (refused, no_qid, s);
  fs_create = λ s f name flags mode gid. (refused, no_qid, s);
  fs_stat = λ s f. (refused, no_stat, s);
  fs_setattr = λ s f mask mode uid gid size asec ansec msec mnsec. (refused, s);
  fs_readdir = λ s f offset n. (0, [], s);
  fs_read = λ s f offset n. (0, [], s);
  fs_write = λ s f offset buf n. (refused, s);
  fs_link = λ s df f name. (refused, s);
  fs_symlink = λ s f name target gid. (refused, no_qid, s);
  fs_mknod = λ s f name mode major minor gid. (refused, no_qid, s);
  fs_readlink = λ s n f. (refused, [], s);
  fs_renameat = λ s f name new_f new_name. (refused, s);
  fs_unlinkat = λ s f name. (refused, s);
  fs_lock = λ s f l. (refused, s);
  fs_getlock = λ s f l. (refused, l, s);
}

-- The file system keeps any state.
empty_fs-Anywhere : IsFileSystem empty_fs Anywhere
empty_fs-Anywhere = record {
  to_front = λ x0 x1 x2 x3 x4. tt;
  from_front = λ x0 x1 x2 x3 x4. tt;
  deleted = λ x0 x1 x2 x3. tt;
  statfs = λ x0 x1 x2. tt;
  attach = λ x0 x1 x2 x3 x4 x5 x6 x7. tt;
  walk = λ x0 x1 x2 x3 x4 x5 x6 x7. tt;
  mkdir = λ x0 x1 x2 x3 x4 x5 x6 x7 x8. tt;
  open_file = λ x0 x1 x2 x3 x4 x5 x6. tt;
  create = λ x0 x1 x2 x3 x4 x5 x6 x7 x8 x9. tt;
  stat = λ x0 x1 x2 x3 x4. tt;
  setattr = λ x0 x1 x2 x3 x4 x5 x6 x7 x8 x9 x10 x11 x12 x13. tt;
  readdir = λ x0 x1 x2 x3 x4 x5 x6. tt;
  read = λ x0 x1 x2 x3 x4 x5 x6. tt;
  write = λ x0 x1 x2 x3 x4 x5 x6 x7. tt;
  link = λ x0 x1 x2 x3 x4 x5 x6 x7 x8. tt;
  symlink = λ x0 x1 x2 x3 x4 x5 x6 x7 x8 x9. tt;
  mknod = λ x0 x1 x2 x3 x4 x5 x6 x7 x8 x9 x10. tt;
  readlink = λ x0 x1 x2 x3 x4 x5. tt;
  renameat = λ x0 x1 x2 x3 x4 x5 x6 x7 x8 x9 x10. tt;
  unlinkat = λ x0 x1 x2 x3 x4 x5 x6. tt;
  lock = λ x0 x1 x2 x3 x4 x5. tt;
  getlock = λ x0 x1 x2 x3 x4 x5. tt;
}

abbrev places : LockPlaces
places = record { at_type = 0; at_start = 0; at_length = 0; at_proc_id = 0; at_client_id = 0 ∷ [] }

-- "ab"
abbrev mount_tag : List ℕ
mount_tag = 97 ∷ 98 ∷ []

mount_tag-IsChar : All IsChar mount_tag
mount_tag-IsChar = (omega arith, (omega arith, tt))

mount_tag-AreBytes : AreBytes mount_tag
mount_tag-AreBytes = (omega arith, (omega arith, tt))

abbrev no_bytes : Bytes
no_bytes a = 0

abbrev mounted : Machine Bytes (NineP ℕ ℕ)
mounted = tagged ℕ 0 mount_tag no_bytes

virtio_9p_init_lem_example :
    (m : Machine Bytes (NineP ℕ ℕ)) × (virtio_9p_init 0 (c_string mount_tag) no_bytes ≡ done m)
    × Holds (IsTable Anywhere) m
    × (m.dev.config_space_size ≡ 2 + length mount_tag)
    × (get_le16 m.dev.config_space 0 ≡ length mount_tag)
    × ((i : ℕ) → i < length mount_tag → byte_at m.dev.config_space (2 + i) ≡ byte_at mount_tag i)
virtio_9p_init_lem_example =
    virtio_9p_init_lem ℕ 0 mount_tag no_bytes Anywhere tt mount_tag-IsChar mount_tag-AreBytes
      (omega arith) (omega arith)

NinePReach-virtio_9p_init_example :
    Holds
      (IsTable Anywhere)
      (record mounted { dev = virtio_config_change_notify mounted.dev; ram = λ a. 1 })
NinePReach-virtio_9p_init_example =
    NinePReach-virtio_9p_init ℕ 0 mount_tag no_bytes Anywhere tt mount_tag-IsChar mount_tag-AreBytes
      (omega arith) (omega arith) sample 8 (λ n. replicate n 0) empty_fs empty_fs-Anywhere places 0
      (virtio_9p_init_run ℕ 0 mount_tag no_bytes Anywhere tt mount_tag-IsChar mount_tag-AreBytes
        (omega arith) (omega arith))
      (later (later start (guest (memory (λ a. 1)))) (guest config_change))
