-- ===== src/Disk/Setattr.antt =====
-- src/fs_disk.c: `fs_setattr`, whose calls follow one another until one fails.
use spike_virtio_devices.Prelude.{
  ℕ, ◌^◌, ◌-◌, Bool, true, false, not, ◌&&◌, ◌⊎◌, inl, inr, List, ◌==◌, if◌then◌else◌, bit_and,
  bit_or,
}
use spike_virtio_devices.Prelude.Outcome.{Outcome, done, ◌>>=◌}
use spike_virtio_devices.Disk.{Disk, file_at, with_host}
use spike_virtio_devices.Disk.Calls.{Host, Sys, ok, failed, Timespec}
use spike_virtio_devices.Disk.Codes.{minus_errno}

-- The P9_SETATTR_ bits.
abbrev pub setattr_mode : ℕ
setattr_mode = 1

abbrev pub setattr_uid : ℕ
setattr_uid = 2

abbrev pub setattr_gid : ℕ
setattr_gid = 4

abbrev pub setattr_size : ℕ
setattr_size = 8

abbrev pub setattr_atime : ℕ
setattr_atime = 0x10

abbrev pub setattr_mtime : ℕ
setattr_mtime = 0x20

abbrev pub setattr_ctime : ℕ
setattr_ctime = 0x40

abbrev pub setattr_atime_set : ℕ
setattr_atime_set = 0x80

abbrev pub setattr_mtime_set : ℕ
setattr_mtime_set = 0x100

abbrev pub has : ℕ → ℕ → Bool
has mask bits = not (bit_and mask bits == 0)

-- `UTIME_NOW` and `UTIME_OMIT`
abbrev pub utime_now : ℕ
utime_now = 2 ^ 30 - 1

abbrev pub utime_omit : ℕ
utime_omit = 2 ^ 30 - 2

abbrev pub minus_1 : ℕ
minus_1 = 2 ^ 32 - 1

-- A time to set: as given, the present, or none.
unfoldable pub time_to_set : Bool → Bool → ℕ → ℕ → Timespec
time_to_set wanted given sec nsec =
    if wanted
    then (if given
        then record { tv_sec = sec; tv_nsec = nsec }
        else record { tv_sec = 0; tv_nsec = utime_now })
    else record { tv_sec = 0; tv_nsec = utime_omit }

module _ {H : Type 0} (os : Host H) where
  -- The host, and either the error to return or `ctime_updated`.
  abbrev pub Progress : Type 0
  Progress = (ℕ ⊎ Bool) × H

  -- A call under its condition, unless one has failed.
  unfoldable pub attempt : Bool → (H → Sys Unit × H) → Progress → Progress
  attempt wanted call (inl err, h) = (inl err, h)
  attempt wanted call (inr updated, h) =
      let (r, h') = call h in
      if wanted
      then (elim r [ ok _ ↦ inr true | failed errno ↦ inl (minus_errno errno) ], h')
      else (inr updated, h)

  -- The last call, which has `ctime` updated where no other has done so.
  unfoldable pub touch : ℕ → List ℕ → Progress → ℕ × H
  touch mask path (inl err, h) = (err, h)
  touch mask path (inr updated, h) =
      let (r, h') = os.lchown h path minus_1 minus_1 in
      if has mask setattr_ctime && not updated
      then (elim r [ ok _ ↦ 0 | failed errno ↦ minus_errno errno ], h')
      else (0, h)

  unfoldable pub fs_setattr : Disk H → ℕ → ℕ → ℕ → ℕ → ℕ → ℕ → ℕ → ℕ → ℕ → ℕ → Outcome (ℕ × Disk H)
  unfolding attempt time_to_set touch
  fs_setattr s f mask mode uid gid size atime_sec atime_nsec mtime_sec mtime_nsec = do
    file ← file_at s f
    let path = file.path
    let owner =
        attempt (has mask (bit_or setattr_uid setattr_gid))
          (λ h.
            os.lchown h path (if has mask setattr_uid then uid else minus_1)
              (if has mask setattr_gid then gid else minus_1))
          (inr false, s.host)
    let permissions = attempt (has mask setattr_mode) (λ h. os.chmod h path mode) owner
    let length = attempt (has mask setattr_size) (λ h. os.truncate h path size) permissions
    let times =
        attempt (has mask (bit_or setattr_atime setattr_mtime))
          (λ h.
            os.utimensat h path
              (time_to_set (has mask setattr_atime) (has mask setattr_atime_set) atime_sec
                atime_nsec)
              (time_to_set (has mask setattr_mtime) (has mask setattr_mtime_set) mtime_sec
                mtime_nsec))
          length
    let (ret, h) = touch mask path times
    done (ret, with_host s h)
