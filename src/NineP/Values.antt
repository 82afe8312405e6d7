-- ===== src/NineP/Values.antt =====
-- The values of arguments, and how their bytes are read.
use spike_virtio_devices.Prelude.{
  ℕ, suc, ◌+◌, ◌^◌, ◌≤◌, ◌<◌, ◌≡◌, refl, sym, ap, ◌∙◌, arith, true, List, [], ◌∷◌, ◌==◌, ltb,
  length, get_or, set, length-append, length-set, get_or-append, get_or-set,
}
use spike_virtio_devices.Libc.{text}
use spike_virtio_devices.Cutils.{byte_at, get_le16, get_le32, get_le64}
use spike_virtio_devices.Cutils.Endian.{AreBytes, get_le16_value, get_le32_value, get_le64_value}
use spike_virtio_devices.Virtio.Chain.Sets.{bytes16, bytes32, bytes64}
use spike_virtio_devices.NineP.Message.{Fmt, fmt_b, fmt_h, fmt_w, fmt_d, fmt_s, fmt_q, Arg, Args}
use spike_virtio_devices.NineP.Strings.{c_string}
use native.Mathlib.Decide.{dec_lt}

-- An argument that fits its place in a message, of a kind that `unmarshall` reads.
abbrev pub IsValue : (c : Fmt) → Arg c → Type 0
IsValue fmt_b val = val < 2 ^ 8
IsValue fmt_h val = val < 2 ^ 16
IsValue fmt_w val = val < 2 ^ 32
IsValue fmt_d val = val < 2 ^ 64
IsValue fmt_s str = (str ≡ c_string (text str)) × (length (text str) ≤ 65535)
IsValue fmt_q qid = ⊥

abbrev pub AreValues : (fmt : List Fmt) → Args fmt → Type 0
AreValues [] args = Unit
AreValues (c ∷ fmt) (x, args) = IsValue c x × AreValues fmt args

-- The first bytes of `buf` are `bytes`.
abbrev pub Starts : List ℕ → List ℕ → Type 0
Starts buf bytes = (i : ℕ) → i < length bytes → byte_at buf i ≡ byte_at bytes i

pub get_le16-bytes16 :
    (v : ℕ) (buf : List ℕ) → v < 2 ^ 16 → Starts buf (bytes16 v) → get_le16 buf 0 ≡ v
unfolding get_le16
get_le16-bytes16 v buf small h =
    rw (h 0 (omega arith), h 1 (omega arith))
      (ground (arith, get_le16_value (bytes16 v) 0 (omega arith, (omega arith, tt))))

pub get_le32-bytes32 :
    (v : ℕ) (buf : List ℕ) → v < 2 ^ 32 → Starts buf (bytes32 v) → get_le32 buf 0 ≡ v
unfolding get_le32
get_le32-bytes32 v buf small h =
    rw (h 0 (omega arith), h 1 (omega arith), h 2 (omega arith), h 3 (omega arith))
      (ground (
        arith,
        get_le32_value (bytes32 v) 0 (omega arith, (omega arith, (omega arith, (omega arith, tt)))),
      ))

bytes64-AreBytes : (v : ℕ) → AreBytes (bytes64 v)
bytes64-AreBytes v = (
  omega arith,
  (
    omega arith,
    (omega arith, (omega arith, (omega arith, (omega arith, (omega arith, (omega arith, tt)))))),
  ),
)

pub get_le64-bytes64 :
    (v : ℕ) (buf : List ℕ) → v < 2 ^ 64 → Starts buf (bytes64 v) → get_le64 buf 0 ≡ v
unfolding get_le64 get_le32
get_le64-bytes64 v buf small h =
    rw
      (
        h 0 (omega arith),
        h 1 (omega arith),
        h 2 (omega arith),
        h 3 (omega arith),
        h 4 (omega arith),
        h 5 (omega arith),
        h 6 (omega arith),
        h 7 (omega arith),
      )
      (ground (
        arith,
        get_le64_value (bytes64 v) 0 (bytes64-AreBytes v),
        get_le32_value (bytes64 v) 0 (bytes64-AreBytes v),
        get_le32_value (bytes64 v) 4 (bytes64-AreBytes v),
      ))

list_ext :
    (xs ys : List ℕ)
    → length xs ≡ length ys
    → ((i : ℕ) → i < length ys → get_or xs i 0 ≡ get_or ys i 0)
    → xs ≡ ys
list_ext [] [] e h = refl
list_ext [] (y ∷ ys) e h = absurd (omega arith)
list_ext (x ∷ xs) [] e h = absurd (omega arith)
list_ext (x ∷ xs) (y ∷ ys) e h =
    rw (h 0 (omega arith))
      (ap (◌∷◌ y) (list_ext xs ys (omega arith) (λ i lt. h (suc i) (omega arith))))

null-c_string : (chars : List ℕ) → get_or (c_string chars) (length chars) 0 ≡ 0
null-c_string [] = refl
null-c_string (c ∷ chars) = null-c_string chars

-- A buffer with room for a null behind `chars`.
pub set-c_string :
    (buf chars : List ℕ)
    → length buf ≡ length chars + 1
    → Starts buf chars
    → set buf (length chars) 0 ≡ c_string chars
set-c_string buf chars size h =
    list_ext (set buf (length chars) 0) (c_string chars)
      (omega (arith, length-set buf (length chars) 0, length-append chars (0 ∷ [])))
      (λ i lt. get_or-set buf (length chars) i 0 0 ∙ elim (dec_lt i (length chars)) [
        | yes inside ↦ ground (arith, h i inside, get_or-append chars (0 ∷ []) i 0)
        | no at ↦
            let here : i ≡ length chars = omega (arith, length-append chars (0 ∷ [])) in
            let same : (length chars == i) ≡ true = ground arith in
            let room : ltb (length chars) (length buf) ≡ true = ground arith in
            rw (same, room)
              (sym (null-c_string chars) ∙ ap (λ j. get_or (c_string chars) j 0) (sym here))
      ])
