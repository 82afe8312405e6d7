-- ===== src/Virtio/Chain/Blit.antt =====
-- Bytes copied into a buffer.
use spike_virtio_devices.Prelude.{
  ℕ, ◌+◌, ◌-◌, ◌≤◌, ◌<◌, ◌≡◌, ◌⊎◌, inl, inr, ◌∙◌, arith, true, false, List, ◌++◌, length, get_or,
  take, drop, length-append, length-take, length-drop, get_or-append, get_or-take, get_or-drop, ltb,
  if◌then◌else◌, All-append, All-take, All-drop,
}
use spike_virtio_devices.Cutils.Endian.{IsByte, AreBytes}
use spike_virtio_devices.Virtio.Chain.{blit}
use native.Mathlib.Decide.{dec_lt}

pub not-ltb : (i k : ℕ) → ¬ (i < k) → ltb i k ≡ false
not-ltb i k h = ground arith

pub length-blit :
    (out bytes : List ℕ) (pos : ℕ)
    → pos + length bytes ≤ length out
    → length (blit out pos bytes) ≡ length out
length-blit out bytes pos room = omega (
  arith,
  length-append (take pos out) (bytes ++ drop (pos + length bytes) out),
  length-append bytes (drop (pos + length bytes) out),
  length-take pos out,
  length-drop (pos + length bytes) out,
)

pub get_or-blit :
    (out bytes : List ℕ) (pos i : ℕ)
    → pos + length bytes ≤ length out
    → get_or (blit out pos bytes) i 0 ≡ (
        if ltb i pos
        then get_or out i 0
        else if ltb i (pos + length bytes)
        then get_or bytes (i - pos) 0
        else get_or out i 0)
get_or-blit out bytes pos i room =
    let rest = drop (pos + length bytes) out in
    let front : length (take pos out) ≡ pos = omega (arith, length-take pos out) in
    rw
      (
        get_or-append (take pos out) (bytes ++ rest) i 0,
        front,
        get_or-append bytes rest (i - pos) 0,
      )
      (elim (dec_lt i pos) [
        | yes before ↦ ground (arith, get_or-take pos out i 0 before)
        | no after ↦ elim (dec_lt i (pos + length bytes)) [
          | yes inside ↦ ground arith
          | no behind ↦
              let index : pos + length bytes + (i - pos - length bytes) ≡ i = omega arith in
              rw (get_or-drop (pos + length bytes) out (i - pos - length bytes) 0, index)
                (ground arith)
        ]
      ])

module _ (out bytes : List ℕ) (pos : ℕ) (room : pos + length bytes ≤ length out) where
  pub get_or-blit-inside :
      (i : ℕ) → i < length bytes → get_or (blit out pos bytes) (pos + i) 0 ≡ get_or bytes i 0
  get_or-blit-inside i h =
      let behind : ltb (pos + i) pos ≡ false = ground arith in
      let inside : ltb (pos + i) (pos + length bytes) ≡ true = ground arith in
      let index : pos + i - pos ≡ i = omega arith in
      get_or-blit out bytes pos (pos + i) room ∙ rw (behind, inside, index)

  pub get_or-blit-outside :
      (i : ℕ) → i < pos ⊎ pos + length bytes ≤ i → get_or (blit out pos bytes) i 0 ≡ get_or out i 0
  get_or-blit-outside i (inl before) =
      let h : ltb i pos ≡ true = ground arith in get_or-blit out bytes pos i room ∙ rw h
  get_or-blit-outside i (inr after) =
      let h : ltb i pos ≡ false = ground arith in
      let k : ltb i (pos + length bytes) ≡ false = ground arith in
      get_or-blit out bytes pos i room ∙ rw (h, k)

pub blit-AreBytes :
    (xs bytes : List ℕ) (pos : ℕ) → AreBytes xs → AreBytes bytes → AreBytes (blit xs pos bytes)
blit-AreBytes xs bytes pos h k =
    All-append IsByte (take pos xs) _ (All-take IsByte pos xs h)
      (All-append IsByte bytes _ k (All-drop IsByte (pos + length bytes) xs h))
