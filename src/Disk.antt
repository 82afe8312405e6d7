-- ===== src/Disk.antt =====
-- src/fs_disk.c: the state of the file system on the host's disk. An `FSFile *` is the number of its
-- allocation; using a file that has been freed is undefined.
mod Tests
pub mod Calls
pub mod Codes
pub mod Walk
pub mod Change
pub mod Setattr
pub mod Contents
pub mod Paths
pub mod Files
pub mod Errno
pub mod Device
pub mod Kept
pub mod Serving
pub mod Listing
pub mod Plugin
pub mod Reach
use spike_virtio_devices.Prelude.{
  ℕ, ◌+◌, Bool, true, false, Option, none, some, List, [], ◌∷◌, ◌++◌, length, get_or, set,
  if◌then◌else◌,
}
use spike_virtio_devices.Prelude.Outcome.{Outcome, done, fault, ◌>>=◌}
use spike_virtio_devices.Libc.{strlen, memcpy}
use spike_virtio_devices.Disk.Calls.{Host}

pub record FsFile : Type 0 where
  pub uid : ℕ  -- uint32_t
  pub path : List ℕ
  pub is_opened : Bool
  pub is_dir : Bool
  pub u : ℕ  -- `fd` or `dirp`

-- `FSDeviceDisk`, the allocated files, and the host.
pub record Disk (H : Type 0) : Type 0 where
  pub root_path : List ℕ
  pub files : List (Option FsFile)
  pub host : H

module _ {H : Type 0} where
  abbrev pub file_at : Disk H → ℕ → Outcome FsFile
  file_at s f = elim (get_or s.files f none) [ none ↦ fault | some file ↦ done file ]

  abbrev pub put_file : Disk H → ℕ → FsFile → Disk H
  put_file s f file = record s { files = set s.files f (some file) }

  abbrev pub with_host : Disk H → H → Disk H
  with_host s h = record s { host = h }

  -- The new file, and the state with it.
  abbrev pub fid_create : Disk H → List ℕ → ℕ → ℕ × Disk H
  fid_create s path uid = (
    length s.files,
    record s {
      files =
          s.files
          ++ (some (record { uid = uid; path = path; is_opened = false; is_dir = false; u = 0 })
              ∷ []);
    },
  )

module _ {H : Type 0} (os : Host H) where
  -- `close` or `closedir` of the open file.
  abbrev pub let_handle_go : H → FsFile → H
  let_handle_go h file = if file.is_dir then os.closedir h file.u else os.close h file.u

  unfoldable pub fs_close : Disk H → ℕ → Outcome (Disk H)
  fs_close s f = do
    file ← file_at s f
    if file.is_opened
        then done (
            put_file (with_host s (let_handle_go s.host file)) f
              (record file { is_opened = false }))
        else done s

  unfoldable pub fs_delete : Disk H → ℕ → Outcome (Disk H)
  unfolding fs_close
  fs_delete s f = do
    file ← file_at s f
    s' ← if file.is_opened then fs_close s f else done s
    done (record s' { files = set s'.files f none })
