-- ===== src/Cutils.antt =====
-- src/cutils.h: integer helpers, and the little- and big-endian accessors. A pointer into an array
-- is the array with an index; an accessor that writes returns the new array.
pub mod Endian
pub mod Ctz
pub mod Text
pub mod Strings
pub mod Dbuf
pub mod Appended
mod Tests
use spike_virtio_devices.Prelude.{
  ℕ, zero, suc, ◌+◌, ◌*◌, ◌/◌, ◌%◌, ◌^◌, not, bit_and, bit_or, List, u8, u16, u32, slt, ◌==◌,
  get_or, set, if◌then◌else◌,
}

-- On `int` patterns.
unfoldable pub max_int : ℕ → ℕ → ℕ
max_int a b = if slt b a then a else b

unfoldable pub min_int : ℕ → ℕ → ℕ
min_int a b = if slt a b then a else b

-- `ptr[i]`; no caller reads past the end of its array.
abbrev pub byte_at : List ℕ → ℕ → ℕ
byte_at xs i = get_or xs i 0

unfoldable pub get_le16 : List ℕ → ℕ → ℕ
get_le16 xs i = bit_or (byte_at xs i) (byte_at xs (i + 1) * 2 ^ 8)

unfoldable pub get_le32 : List ℕ → ℕ → ℕ
get_le32 xs i =
    bit_or
      (bit_or (bit_or (byte_at xs i) (byte_at xs (i + 1) * 2 ^ 8)) (byte_at xs (i + 2) * 2 ^ 16))
      (byte_at xs (i + 3) * 2 ^ 24)

unfoldable pub get_le64 : List ℕ → ℕ → ℕ
get_le64 xs i = bit_or (get_le32 xs i) (get_le32 xs (i + 4) * 2 ^ 32)

unfoldable pub put_le16 : List ℕ → ℕ → ℕ → List ℕ
put_le16 xs i v = set (set xs i (u8 v)) (i + 1) (u8 (v / 2 ^ 8))

unfoldable pub put_le32 : List ℕ → ℕ → ℕ → List ℕ
put_le32 xs i v =
    set (set (set (set xs i (u8 v)) (i + 1) (u8 (v / 2 ^ 8))) (i + 2) (u8 (v / 2 ^ 16))) (i + 3)
      (u8 (v / 2 ^ 24))

-- The arguments of the two calls are converted to `uint32_t`.
unfoldable pub put_le64 : List ℕ → ℕ → ℕ → List ℕ
put_le64 xs i v = put_le32 (put_le32 xs i (u32 v)) (i + 4) (u32 (v / 2 ^ 32))

unfoldable pub get_be32 : List ℕ → ℕ → ℕ
get_be32 xs i =
    bit_or
      (bit_or (bit_or (byte_at xs i * 2 ^ 24) (byte_at xs (i + 1) * 2 ^ 16))
        (byte_at xs (i + 2) * 2 ^ 8))
      (byte_at xs (i + 3))

unfoldable pub put_be32 : List ℕ → ℕ → ℕ → List ℕ
put_be32 xs i v =
    set (set (set (set xs i (u8 (v / 2 ^ 24))) (i + 1) (u8 (v / 2 ^ 16))) (i + 2) (u8 (v / 2 ^ 8)))
      (i + 3) (u8 v)

unfoldable pub put_be64 : List ℕ → ℕ → ℕ → List ℕ
put_be64 xs i v = put_be32 (put_be32 xs i (u32 (v / 2 ^ 32))) (i + 4) (u32 v)

-- The loop of `ctz32`, with the rounds left and the index `i`.
unfoldable pub ctz32_from : ℕ → ℕ → ℕ → ℕ
ctz32_from zero i a = 32
ctz32_from (suc n) i a =
    let rest = ctz32_from n (i + 1) a in if not (bit_and (a / 2 ^ i) 1 == 0) then i else rest

unfoldable pub ctz32 : ℕ → ℕ
unfolding ctz32_from
ctz32 a = if a == 0 then 32 else ctz32_from 32 0 a
