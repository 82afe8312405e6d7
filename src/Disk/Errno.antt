-- ===== src/Disk/Errno.antt =====
-- The signs of the error codes of src/fs_disk.c.
use spike_virtio_devices.Prelude.{
  ℕ, ◌≤◌, ◌<◌, ◌≡◌, arith, true, false, Bool-cases, inl, inr, List, [], ◌∷◌, ◌==◌, All, is_neg,
}
use spike_virtio_devices.Disk.Codes.{errno_table, find_errno, errno_to_p9, minus_errno}

abbrev IsCode : ℕ → Type 0
IsCode e = (1 ≤ e) × (e ≤ 524)

find_errno-IsCode :
    (table : List (ℕ × ℕ)) (err : ℕ) → All (λ e. IsCode e.0) table → IsCode (find_errno table err)
unfolding find_errno
find_errno-IsCode [] err h = (omega arith, omega arith)
find_errno-IsCode (e ∷ table) err h = elim (Bool-cases (err == e.1)) [
  | inl here ↦ rw here h.0
  | inr more ↦ rw more (find_errno-IsCode table err h.1)
]

codes : All (λ e. IsCode e.0) errno_table
codes = ground arith

pub errno_to_p9-IsCode : (err : ℕ) → 0 < err → IsCode (errno_to_p9 err)
unfolding errno_to_p9
errno_to_p9-IsCode err h =
    let set : err == 0 ≡ false = ground arith in rw set (find_errno-IsCode errno_table err codes)

pub minus_errno-is_neg : (err : ℕ) → 0 < err → is_neg (minus_errno err) ≡ true
minus_errno-is_neg err h = let c = errno_to_p9-IsCode err h in ground (arith, c)

pub minus_errno-error : (err : ℕ) → 0 < err → minus_errno err == 0 ≡ false
minus_errno-error err h = let c = errno_to_p9-IsCode err h in ground (arith, c)
