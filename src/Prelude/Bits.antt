-- ===== src/Prelude/Bits.antt =====
-- Facts about `bit_and` and `bit_or` at variables, from the digit recursion that they stand for.
use Prim.Native.Nat.{
  ℕ, zero, suc, ◌+◌, ◌-◌, ◌*◌, ◌/◌, ◌%◌, ◌^◌, ◌≤◌, ◌<◌, min, max, bit_and, bit_or, digits, bitwise,
  bit_and-bitwise, bit_or-bitwise,
}
use mathlib.Core.Path.{◌≡◌, refl, ap}
use native.Mathlib.Omega.{arith}
use native.Mathlib.Decide.{dec_lt}
use native.Mathlib.Nat.{pow-suc, one-le-pow}

-- Fuel past the first argument changes no digit.
module _ (ends : ℕ → ℕ) (op : ℕ → ℕ → ℕ) where
  spare_fuel : (f g x y : ℕ) → x ≤ f → x ≤ g → digits ends op f x y ≡ digits ends op g x y
  spare_fuel zero zero x y hf hg = refl
  spare_fuel zero (suc g) zero y hf hg = refl
  spare_fuel zero (suc g) (suc x) y hf hg = absurd (omega arith)
  spare_fuel (suc f) zero zero y hf hg = refl
  spare_fuel (suc f) zero (suc x) y hf hg = absurd (omega arith)
  spare_fuel (suc f) (suc g) zero y hf hg = refl
  spare_fuel (suc f) (suc g) (suc x) y hf hg =
      ap (λ d. d * 2 + op (suc x % 2) (y % 2))
        (spare_fuel f g (suc x / 2) (y / 2) (omega arith) (omega arith))

  halve :
      (x y : ℕ)
      → bitwise ends op (suc x) y ≡ bitwise ends op (suc x / 2) (y / 2) * 2 + op (suc x % 2) (y % 2)
  halve x y =
      ap (λ d. d * 2 + op (suc x % 2) (y % 2))
        (spare_fuel x (suc x / 2) (suc x / 2) (y / 2) (omega arith) (omega arith))

-- The lowest binary digit of `a & b` and of `a | b`.
pub bit_and_halves : (a b : ℕ) → bit_and a b ≡ bit_and (a / 2) (b / 2) * 2 + min (a % 2) (b % 2)
bit_and_halves zero b = simp bit_and-bitwise (omega arith)
bit_and_halves (suc a) b = simp bit_and-bitwise (halve (λ _. 0) min a b)

pub bit_or_halves : (a b : ℕ) → bit_or a b ≡ bit_or (a / 2) (b / 2) * 2 + max (a % 2) (b % 2)
bit_or_halves zero b = simp bit_or-bitwise (omega arith)
bit_or_halves (suc a) b = simp bit_or-bitwise (halve (λ y. y) max a b)

-- `a & b` is at most `a`, and at most `b`.
pub bit_and-le : (n a b : ℕ) → a ≤ n → (bit_and a b ≤ a) × (bit_and a b ≤ b)
bit_and-le n zero b h = simp bit_and-bitwise (omega arith, omega arith)
bit_and-le zero (suc a) b h = absurd (omega arith)
bit_and-le (suc n) (suc a) b h =
    omega (arith, bit_and_halves (suc a) b, bit_and-le n (suc a / 2) (b / 2) (omega arith))

pub bit_and-zero : (a : ℕ) → bit_and a 0 ≡ 0
bit_and-zero a = omega (arith, bit_and-le a a 0 (omega arith))

pow_step : (q k : ℕ) → q * 2 ^ suc k ≡ 2 * (q * 2 ^ k)
pow_step q k = omega (arith, ap (λ (t : ℕ). q * t) (pow-suc 2 k))

-- An operation on digits works on the high and the low part of a word apart.
module _ (op f : ℕ → ℕ → ℕ)
    (halves : (a b : ℕ) → op a b ≡ op (a / 2) (b / 2) * 2 + f (a % 2) (b % 2))
    (op-zero : op 0 0 ≡ 0) where
  op-parts :
      (k q p r s : ℕ)
      → r < 2 ^ k
      → s < 2 ^ k
      → op (q * 2 ^ k + r) (p * 2 ^ k + s) ≡ op q p * 2 ^ k + op r s
  op-parts zero q p zero zero hr hs = ground (arith, op-zero)
  op-parts zero q p (suc r) s hr hs = absurd (omega arith)
  op-parts zero q p r (suc s) hr hs = absurd (omega arith)
  op-parts (suc k) q p r s hr hs = ground (
    arith,
    halves (q * 2 ^ suc k + r) (p * 2 ^ suc k + s),
    halves r s,
    pow_step q k,
    pow_step p k,
    pow_step (op q p) k,
    op-parts k q p (r / 2) (s / 2) (omega (arith, pow_step 1 k)) (omega (arith, pow_step 1 k)),
  )

pub bit_and-parts :
    (k q p r s : ℕ)
    → r < 2 ^ k
    → s < 2 ^ k
    → bit_and (q * 2 ^ k + r) (p * 2 ^ k + s) ≡ bit_and q p * 2 ^ k + bit_and r s
bit_and-parts = op-parts bit_and min bit_and_halves refl

pub bit_or-parts :
    (k q p r s : ℕ)
    → r < 2 ^ k
    → s < 2 ^ k
    → bit_or (q * 2 ^ k + r) (p * 2 ^ k + s) ≡ bit_or q p * 2 ^ k + bit_or r s
bit_or-parts = op-parts bit_or max bit_or_halves refl

pub bit_or_bounds : (n a b : ℕ) → a ≤ n → (b ≤ bit_or a b) × (a ≤ bit_or a b) × (bit_or a b ≤ a + b)
bit_or_bounds n zero b h = simp bit_or-bitwise (omega arith, omega arith, omega arith)
bit_or_bounds zero (suc a) b h = absurd (omega arith)
bit_or_bounds (suc n) (suc a) b h =
    omega (arith, bit_or_halves (suc a) b, bit_or_bounds n (suc a / 2) (b / 2) (omega arith))

-- `(q << k) | r` and `r | (q << k)` are sums when `r` fits `k` bits.
pub bit_or_fields : (k q r : ℕ) → r < 2 ^ k → bit_or (q * 2 ^ k) r ≡ q * 2 ^ k + r
bit_or_fields k q r h = ground (
  arith,
  bit_or-parts k q 0 0 r (one-le-pow k 2 (omega arith)) h,
  bit_or_bounds 0 0 r (omega arith),
  bit_or_bounds q q 0 (omega arith),
)

pub bit_or_fields_swap : (k q r : ℕ) → r < 2 ^ k → bit_or r (q * 2 ^ k) ≡ r + q * 2 ^ k
bit_or_fields_swap k q r h = ground (
  arith,
  bit_or-parts k 0 q r 0 h (one-le-pow k 2 (omega arith)),
  bit_or_bounds r r 0 (omega arith),
  bit_or_bounds 0 0 q (omega arith),
)

pub bit_and_full : (k r : ℕ) → r < 2 ^ k → bit_and r (2 ^ k - 1) ≡ r
bit_and_full zero r h = omega (arith, bit_and-le r r 0 (omega arith))
bit_and_full (suc k) r h = ground (
  arith,
  bit_and_halves r (2 ^ suc k - 1),
  pow_step 1 k,
  one-le-pow k 2 (omega arith),
  bit_and_full k (r / 2) (omega (arith, pow_step 1 k)),
)

-- A mask of `k` ones takes the remainder by `2 ^ k`.
pub bit_and_mask : (k a : ℕ) → bit_and a (2 ^ k - 1) ≡ a % 2 ^ k
bit_and_mask k a = ground (
  arith,
  one-le-pow k 2 (omega arith),
  bit_and-parts k (a / 2 ^ k) 0 (a % 2 ^ k) (2 ^ k - 1),
  bit_and_full k (a % 2 ^ k),
  bit_and-zero (a / 2 ^ k),
)

bit_and_self : (n a : ℕ) → a ≤ n → bit_and a a ≡ a
bit_and_self n zero h = refl
bit_and_self zero (suc a) h = absurd (omega arith)
bit_and_self (suc n) (suc a) h =
    omega (arith, bit_and_halves (suc a) (suc a), bit_and_self n (suc a / 2) (omega arith))

abbrev pub IsPow2 : ℕ → Type 0
IsPow2 v = (k : ℕ) × (v ≡ 2 ^ k)

-- `v & (v - 1)` vanishes only at the powers of two.
pub IsPow2-test : (n v : ℕ) → v ≤ n → 0 < v → bit_and v (v - 1) ≡ 0 → IsPow2 v
IsPow2-test zero v h pos e = absurd (omega arith)
IsPow2-test (suc n) v h pos e = elim (dec_lt (v % 2) 1) [
  | yes even ↦
      let half = IsPow2-test n (v / 2) (omega arith) (omega arith) (zero_half even) in
      (suc half.0, ground (arith, half.1, pow_step 1 half.0))
  | no odd ↦ (0, omega (arith, bit_and_halves v (v - 1), same odd))
]
  where
    zero_half : v % 2 < 1 → bit_and (v / 2) (v / 2 - 1) ≡ 0
    zero_half even =
        let low : (v - 1) / 2 ≡ v / 2 - 1 = omega arith in
        rw (← low) (omega (arith, bit_and_halves v (v - 1)))

    same : ¬ (v % 2 < 1) → bit_and (v / 2) ((v - 1) / 2) ≡ v / 2
    same odd =
        let low : (v - 1) / 2 ≡ v / 2 = omega arith in rw low (bit_and_self v (v / 2) (omega arith))

pub bit_or-lt : (k a b : ℕ) → a < 2 ^ k → b < 2 ^ k → bit_or a b < 2 ^ k
bit_or-lt zero a b ha hb = omega (arith, bit_or_bounds a a b (omega arith))
bit_or-lt (suc k) a b ha hb = omega (
  arith,
  bit_or_halves a b,
  pow_step 1 k,
  bit_or-lt k (a / 2) (b / 2) (omega (arith, pow_step 1 k)) (omega (arith, pow_step 1 k)),
)
