-- ===== src/Disk/Change.antt =====
-- src/fs_disk.c: the calls that change directories and the attributes of files.
use spike_virtio_devices.Prelude.{ℕ, ◌^◌, ◌-◌, List, [], ◌∷◌, ◌++◌}
use spike_virtio_devices.Prelude.Outcome.{Outcome, done, ◌>>=◌}
use spike_virtio_devices.NineP.Fs.{FsQid, FsStat}
use spike_virtio_devices.Disk.{Disk, file_at, with_host}
use spike_virtio_devices.Disk.Calls.{Host, Sys, ok, failed}
use spike_virtio_devices.Disk.Codes.{minus_errno, stat_to_qid}
use spike_virtio_devices.Disk.Walk.{compose_path, failed_with}

module _ {H : Type 0} (os : Host H) where
  -- A call at `f->path/name`, and the qid of what is there then.
  unfoldable pub make_at :
      (H → List ℕ → Sys Unit × H) → Disk H → ℕ → List ℕ → Outcome (ℕ × FsQid × Disk H)
  unfolding compose_path
  make_at call s f name = do
    file ← file_at s f
    path ← compose_path file.path name
    let (r, h) = call s.host path
    elim r [
      | failed errno ↦ failed_with os s h errno
      | ok _ ↦
          let (r', h') = os.lstat h path in
          elim r' [
            | failed errno ↦ failed_with os s h' errno
            | ok st ↦ done (0, stat_to_qid st, with_host s h')
          ]
    ]

  unfoldable pub fs_mkdir : Disk H → ℕ → List ℕ → ℕ → ℕ → Outcome (ℕ × FsQid × Disk H)
  unfolding make_at
  fs_mkdir s f name mode gid = make_at (λ h path. os.mkdir h path mode) s f name

  unfoldable pub fs_symlink : Disk H → ℕ → List ℕ → List ℕ → ℕ → Outcome (ℕ × FsQid × Disk H)
  unfolding make_at
  fs_symlink s f name symgt gid = make_at (λ h path. os.symlink h symgt path) s f name

  unfoldable pub fs_mknod : Disk H → ℕ → List ℕ → ℕ → ℕ → ℕ → ℕ → Outcome (ℕ × FsQid × Disk H)
  unfolding make_at
  fs_mknod s f name mode major minor gid =
      make_at (λ h path. os.mknod h path mode (os.makedev major minor)) s f name

  -- What a call without a result makes of the file system.
  abbrev pub result : Disk H → Sys Unit × H → Outcome (ℕ × Disk H)
  result s (r, h) = done (elim r [ ok _ ↦ 0 | failed errno ↦ minus_errno errno ], with_host s h)

  unfoldable pub fs_link : Disk H → ℕ → ℕ → List ℕ → Outcome (ℕ × Disk H)
  unfolding compose_path
  fs_link s df f name = do
    dir ← file_at s df
    path ← compose_path dir.path name
    file ← file_at s f
    result s (os.link s.host file.path path)

  unfoldable pub fs_renameat : Disk H → ℕ → List ℕ → ℕ → List ℕ → Outcome (ℕ × Disk H)
  unfolding compose_path
  fs_renameat s f name new_f new_name = do
    file ← file_at s f
    path ← compose_path file.path name
    new_file ← file_at s new_f
    new_path ← compose_path new_file.path new_name
    result s (os.rename s.host path new_path)

  unfoldable pub fs_unlinkat : Disk H → ℕ → List ℕ → Outcome (ℕ × Disk H)
  unfolding compose_path
  fs_unlinkat s f name = do
    file ← file_at s f
    path ← compose_path file.path name
    result s (os.remove s.host path)

  -- The target with its null.
  unfoldable pub fs_readlink : Disk H → ℕ → ℕ → Outcome (ℕ × List ℕ × Disk H)
  fs_readlink s buf_size f = do
    file ← file_at s f
    let (r, h) = os.readlink s.host file.path (buf_size - 1)
    elim r [
      | failed errno ↦ done (minus_errno errno, [], with_host s h)
      | ok target ↦ done (0, target ++ (0 ∷ []), with_host s h)
    ]

  -- `fs_stat`; a failing `lstat` leaves the result unset.
  unfoldable pub fs_stat : FsStat → Disk H → ℕ → Outcome (ℕ × FsStat × Disk H)
  fs_stat unset s f = do
    file ← file_at s f
    let (r, h) = os.lstat s.host file.path
    elim r [
      | failed errno ↦ done (2 ^ 32 - 2, unset, with_host s h)
      | ok st1 ↦ done (
        0,
        record {
          qid = stat_to_qid st1;
          st_mode = st1.st_mode;
          st_uid = st1.st_uid;
          st_gid = st1.st_gid;
          st_nlink = st1.st_nlink;
          st_rdev = st1.st_rdev;
          st_size = st1.st_size;
          st_blksize = st1.st_blksize;
          st_blocks = st1.st_blocks;
          st_atime_sec = st1.st_atim_sec;
          st_atime_nsec = st1.st_atim_nsec;
          st_mtime_sec = st1.st_mtim_sec;
          st_mtime_nsec = st1.st_mtim_nsec;
          st_ctime_sec = st1.st_ctim_sec;
          st_ctime_nsec = st1.st_ctim_nsec;
        },
        with_host s h,
      )
    ]
