-- ===== src/Cutils/Ctz.antt =====
-- `ctz32` of src/cutils.h counts the trailing zero bits.
use spike_virtio_devices.Prelude.{
  ℕ, zero, suc, ◌+◌, ◌*◌, ◌/◌, ◌%◌, ◌^◌, ◌<◌, ◌≡◌, refl, ap, ◌∙◌, arith, ◌==◌, Bool-cases, inl, inr,
  bit_and, false,
}
use spike_virtio_devices.Prelude.Bits.{bit_and_mask}
use spike_virtio_devices.Cutils.{ctz32, ctz32_from}
use native.Mathlib.Numerals.{add-one}
use native.Mathlib.Nat.{div-eq_of_eq-mul_left, one-le-pow, pow-suc}

-- `a` is an odd multiple of `2 ^ i`, and `i` is a bit of a 32-bit word.
abbrev pub TrailingZeros : ℕ → ℕ → Type 0
TrailingZeros a i = (i < 32) × ((q : ℕ) × (a ≡ (2 * q + 1) * 2 ^ i))

even_multiple : (q i a : ℕ) → a ≡ q * 2 ^ i → q % 2 ≡ 0 → a ≡ q / 2 * 2 ^ (i + 1)
even_multiple q i a e even =
    let halves : q ≡ 2 * (q / 2) = omega arith in
    rw add-one
      (omega (arith, ap (λ (t : ℕ). t * 2 ^ i) halves, ap (λ (t : ℕ). q / 2 * t) (pow-suc 2 i)))

odd_multiple : (q i a : ℕ) → a ≡ q * 2 ^ i → q % 2 ≡ 1 → a ≡ (2 * (q / 2) + 1) * 2 ^ i
odd_multiple q i a e odd =
    let halves : q ≡ 2 * (q / 2) + 1 = omega arith in e ∙ ap (λ (t : ℕ). t * 2 ^ i) halves

ctz32_from-TrailingZeros :
    (n i q a : ℕ)
    → n + i ≡ 32
    → 0 < a
    → a < 2 ^ 32
    → a ≡ q * 2 ^ i
    → TrailingZeros a (ctz32_from n i a)
unfolding ctz32_from
ctz32_from-TrailingZeros zero i q a room pos small e =
    absurd (ground (arith, ap (λ (t : ℕ). 2 ^ t) room))
ctz32_from-TrailingZeros (suc n) i q a room pos small e =
    let shifted : a / 2 ^ i ≡ q = div-eq_of_eq-mul_left (one-le-pow i 2 (omega arith)) e in
    let low : bit_and (a / 2 ^ i) 1 ≡ q % 2 =
      bit_and_mask 1 (a / 2 ^ i) ∙ ap (λ t. t % 2) shifted in
    elim (Bool-cases (bit_and (a / 2 ^ i) 1 == 0)) [
      | inl even ↦ rw even (
          ctz32_from-TrailingZeros n (i + 1) (q / 2) a (omega arith) pos small
            (even_multiple q i a e (ground arith)))
      | inr odd ↦ rw odd (omega arith, (q / 2, odd_multiple q i a e (ground arith)))
    ]

nonzero : (a : ℕ) → 0 < a → (a == 0) ≡ false
nonzero a h = ground arith

-- For a nonzero 32-bit word `ctz32` is the number of its trailing zero bits: the word is an odd
-- multiple of that power of two.
pub ctz32_lem : (a : ℕ) → 0 < a → a < 2 ^ 32 → TrailingZeros a (ctz32 a)
unfolding ctz32
ctz32_lem a pos small =
    rw (nonzero a pos) (ctz32_from-TrailingZeros 32 0 a a refl pos small (omega arith))
