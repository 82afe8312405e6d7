-- ===== src/Cutils/Endian.antt =====
-- The endian accessors of src/cutils.h: values, round trips, and what a write leaves alone.
use spike_virtio_devices.Prelude.{
  ℕ, ◌+◌, ◌*◌, ◌/◌, ◌^◌, ◌≤◌, ◌<◌, ◌≡◌, List, arith, length, set, All, All-get_or, All-set,
  get_or-set, length-set, u8, u32, bit_or, ◌==◌, ltb, ◌&&◌, if◌then◌else◌, ◌⊎◌, ◌∙◌,
}
use spike_virtio_devices.Prelude.Bits.{bit_or_fields_swap}
use spike_virtio_devices.Cutils.{
  byte_at, get_le16, get_le32, get_le64, put_le16, put_le32, put_le64,
}

abbrev pub IsByte : ℕ → Type 0
IsByte b = b < 256

abbrev pub AreBytes : List ℕ → Type 0
AreBytes = All IsByte

pub byte_at-IsByte : (xs : List ℕ) (i : ℕ) → AreBytes xs → IsByte (byte_at xs i)
byte_at-IsByte xs i h = All-get_or IsByte xs i 0 h (omega arith)

-- Two and four bytes joined by `|` are their sum.
join16 : (a b : ℕ) → IsByte a → bit_or a (b * 2 ^ 8) ≡ a + b * 2 ^ 8
join16 a b h = bit_or_fields_swap 8 b a h

join32 :
    (a b c d : ℕ)
    → IsByte a
    → IsByte b
    → IsByte c
    → bit_or (bit_or (bit_or a (b * 2 ^ 8)) (c * 2 ^ 16)) (d * 2 ^ 24)
      ≡ a + b * 2 ^ 8 + c * 2 ^ 16 + d * 2 ^ 24
join32 a b c d ha hb hc = rw (
  join16 a b ha,
  bit_or_fields_swap 16 c (a + b * 2 ^ 8) (omega arith),
  bit_or_fields_swap 24 d (a + b * 2 ^ 8 + c * 2 ^ 16) (omega arith),
)

pub get_le16_value :
    (xs : List ℕ) (i : ℕ) → AreBytes xs → get_le16 xs i ≡ byte_at xs i + byte_at xs (i + 1) * 2 ^ 8
unfolding get_le16
get_le16_value xs i h = join16 (byte_at xs i) (byte_at xs (i + 1)) (byte_at-IsByte xs i h)

pub get_le32_value :
    (xs : List ℕ) (i : ℕ)
    → AreBytes xs
    → get_le32 xs i
      ≡ byte_at xs i
        + byte_at xs (i + 1) * 2 ^ 8
        + byte_at xs (i + 2) * 2 ^ 16
        + byte_at xs (i + 3) * 2 ^ 24
unfolding get_le32
get_le32_value xs i h =
    join32 (byte_at xs i) (byte_at xs (i + 1)) (byte_at xs (i + 2)) (byte_at xs (i + 3))
      (byte_at-IsByte xs i h) (byte_at-IsByte xs (i + 1) h) (byte_at-IsByte xs (i + 2) h)

-- Reading back after one write.
byte_at-set :
    (xs : List ℕ) (i v j : ℕ)
    → byte_at (set xs i v) j ≡ (if i == j && ltb i (length xs) then v else byte_at xs j)
byte_at-set xs i v j = get_or-set xs i j v 0

pub byte_at-put_le16 :
    (xs : List ℕ) (i v j : ℕ)
    → i + 2 ≤ length xs
    → byte_at (put_le16 xs i v) j
      ≡ (if j == i then u8 v else if j == i + 1 then u8 (v / 2 ^ 8) else byte_at xs j)
unfolding put_le16
byte_at-put_le16 xs i v j h =
    let a = set xs i (u8 v) in
    ground (
      arith,
      byte_at-set a (i + 1) (u8 (v / 2 ^ 8)) j,
      byte_at-set xs i (u8 v) j,
      length-set xs i (u8 v),
    )

pub byte_at-put_le32 :
    (xs : List ℕ) (i v j : ℕ)
    → i + 4 ≤ length xs
    → byte_at (put_le32 xs i v) j ≡ (
        if j == i
        then u8 v
        else if j == i + 1
        then u8 (v / 2 ^ 8)
        else if j == i + 2
        then u8 (v / 2 ^ 16)
        else if j == i + 3
        then u8 (v / 2 ^ 24)
        else byte_at xs j)
unfolding put_le32
byte_at-put_le32 xs i v j h =
    let a = set xs i (u8 v) in
    let b = set a (i + 1) (u8 (v / 2 ^ 8)) in
    let c = set b (i + 2) (u8 (v / 2 ^ 16)) in
    ground (
      arith,
      byte_at-set c (i + 3) (u8 (v / 2 ^ 24)) j,
      byte_at-set b (i + 2) (u8 (v / 2 ^ 16)) j,
      byte_at-set a (i + 1) (u8 (v / 2 ^ 8)) j,
      byte_at-set xs i (u8 v) j,
      length-set xs i (u8 v),
      length-set a (i + 1) (u8 (v / 2 ^ 8)),
      length-set b (i + 2) (u8 (v / 2 ^ 16)),
    )

pub put_le32-AreBytes : (xs : List ℕ) (i v : ℕ) → AreBytes xs → AreBytes (put_le32 xs i v)
unfolding put_le32
put_le32-AreBytes xs i v h =
    let P = IsByte in
    All-set P _ _ _
      (All-set P _ _ _ (All-set P _ _ _ (All-set P _ _ _ h (omega arith)) (omega arith))
        (omega arith))
      (omega arith)

pub length-put_le32 : (xs : List ℕ) (i v : ℕ) → length (put_le32 xs i v) ≡ length xs
unfolding put_le32
length-put_le32 xs i v = simp length-set

-- What was put is what is got, for an array of bytes and an index with room for four.
pub get_le32-put_le32 :
    (xs : List ℕ) (i v : ℕ)
    → AreBytes xs
    → i + 4 ≤ length xs
    → v < 2 ^ 32
    → get_le32 (put_le32 xs i v) i ≡ v
get_le32-put_le32 xs i v h room small =
    let ys = put_le32 xs i v in
    ground (
      arith,
      get_le32_value ys i (put_le32-AreBytes xs i v h),
      byte_at-put_le32 xs i v i room,
      byte_at-put_le32 xs i v (i + 1) room,
      byte_at-put_le32 xs i v (i + 2) room,
      byte_at-put_le32 xs i v (i + 3) room,
    )

pub put_le16-AreBytes : (xs : List ℕ) (i v : ℕ) → AreBytes xs → AreBytes (put_le16 xs i v)
unfolding put_le16
put_le16-AreBytes xs i v h =
    All-set IsByte _ _ _ (All-set IsByte _ _ _ h (omega arith)) (omega arith)

pub length-put_le16 : (xs : List ℕ) (i v : ℕ) → length (put_le16 xs i v) ≡ length xs
unfolding put_le16
length-put_le16 xs i v = simp length-set

pub get_le16-put_le16 :
    (xs : List ℕ) (i v : ℕ)
    → AreBytes xs
    → i + 2 ≤ length xs
    → v < 2 ^ 16
    → get_le16 (put_le16 xs i v) i ≡ v
get_le16-put_le16 xs i v h room small =
    let ys = put_le16 xs i v in
    ground (
      arith,
      get_le16_value ys i (put_le16-AreBytes xs i v h),
      byte_at-put_le16 xs i v i room,
      byte_at-put_le16 xs i v (i + 1) room,
    )

pub get_le32-lt : (xs : List ℕ) (i : ℕ) → AreBytes xs → get_le32 xs i < 2 ^ 32
get_le32-lt xs i h = omega (
  arith,
  get_le32_value xs i h,
  byte_at-IsByte xs i h,
  byte_at-IsByte xs (i + 1) h,
  byte_at-IsByte xs (i + 2) h,
  byte_at-IsByte xs (i + 3) h,
)

pub get_le64_value :
    (xs : List ℕ) (i : ℕ)
    → AreBytes xs
    → get_le64 xs i ≡ get_le32 xs i + get_le32 xs (i + 4) * 2 ^ 32
unfolding get_le64
get_le64_value xs i h =
    bit_or_fields_swap 32 (get_le32 xs (i + 4)) (get_le32 xs i) (get_le32-lt xs i h)

-- `get_le32` depends on the four bytes alone.
get_le32_ext :
    (xs ys : List ℕ) (i : ℕ)
    → byte_at xs i ≡ byte_at ys i
    → byte_at xs (i + 1) ≡ byte_at ys (i + 1)
    → byte_at xs (i + 2) ≡ byte_at ys (i + 2)
    → byte_at xs (i + 3) ≡ byte_at ys (i + 3)
    → get_le32 xs i ≡ get_le32 ys i
unfolding get_le32
get_le32_ext xs ys i p q r t = rw (p, q, r, t)

-- A write of four bytes leaves the word before it alone.
get_le32-put_le32_after :
    (xs : List ℕ) (i v : ℕ) → i + 8 ≤ length xs → get_le32 (put_le32 xs (i + 4) v) i ≡ get_le32 xs i
get_le32-put_le32_after xs i v room =
    get_le32_ext (put_le32 xs (i + 4) v) xs i (ground (arith, byte_at-put_le32 xs (i + 4) v i))
      (ground (arith, byte_at-put_le32 xs (i + 4) v (i + 1)))
      (ground (arith, byte_at-put_le32 xs (i + 4) v (i + 2)))
      (ground (arith, byte_at-put_le32 xs (i + 4) v (i + 3)))

-- With room for eight bytes in an array of bytes, `get_le64` gives the 64-bit word that
-- `put_le64` put, the length stays, and so does every byte outside the eight.
pub get_le64-put_le64 :
    (xs : List ℕ) (i v : ℕ)
    → AreBytes xs
    → i + 8 ≤ length xs
    → v < 2 ^ 64
    → (get_le64 (put_le64 xs i v) i ≡ v)
      × (length (put_le64 xs i v) ≡ length xs)
      × ((j : ℕ) → j < i ⊎ i + 8 ≤ j → byte_at (put_le64 xs i v) j ≡ byte_at xs j)
unfolding put_le64
get_le64-put_le64 xs i v h room small =
    let low = put_le32 xs i (u32 v) in
    let low_bytes = put_le32-AreBytes xs i (u32 v) h in
    let same = length-put_le32 xs i (u32 v) in
    (
      ground (
        arith,
        get_le64_value (put_le32 low (i + 4) (u32 (v / 2 ^ 32))) i
            (put_le32-AreBytes low (i + 4) (u32 (v / 2 ^ 32)) low_bytes),
        get_le32-put_le32_after low i (u32 (v / 2 ^ 32)) (omega (arith, same)),
        get_le32-put_le32 xs i (u32 v) h (omega arith) (omega arith),
        get_le32-put_le32 low (i + 4) (u32 (v / 2 ^ 32)) low_bytes (omega (arith, same))
            (omega arith),
      ),
      length-put_le32 low (i + 4) (u32 (v / 2 ^ 32)) ∙ same,
      λ j out. ground (
        arith,
        byte_at-put_le32 low (i + 4) (u32 (v / 2 ^ 32)) j,
        byte_at-put_le32 xs i (u32 v) j,
        same,
      ),
    )
