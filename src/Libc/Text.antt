-- ===== src/Libc/Text.antt =====
-- The characters of a C string: their number, and those of buffers made of pieces.
use spike_virtio_devices.Prelude.{
  ℕ, zero, suc, ◌-◌, ◌≤◌, ◌≡◌, refl, ap, subst, ◌∙◌, arith, true, false, Bool-cases, inl, inr, List,
  [], ◌∷◌, ◌++◌, ◌==◌, if◌then◌else◌, length, take,
}
use spike_virtio_devices.Prelude.Outcome.{done}
use spike_virtio_devices.Libc.{strlen, text, ends}

abbrev pub terminated : List ℕ → List ℕ
terminated chars = chars ++ (0 ∷ [])

-- The tail of a C string.
pub ends-tail : (c : ℕ) (str : List ℕ) → c == 0 ≡ false → ends (c ∷ str) ≡ true → ends str ≡ true
ends-tail c str more h = subst (λ b. (if b then true else ends str) ≡ true) more h

pub strlen-text : (str : List ℕ) → ends str ≡ true → strlen str ≡ done (length (text str))
unfolding strlen
strlen-text [] h = absurd (ground arith)
strlen-text (c ∷ str) h = elim (Bool-cases (c == 0)) [
  | inl null ↦ rw null
  | inr more ↦
      let e = strlen-text str (subst (λ b. (if b then true else ends str) ≡ true) more h) in
      rw (more, e) (ap done (omega arith))
]

pub take-text : (str : List ℕ) → take (length (text str)) str ≡ text str
take-text [] = refl
take-text (c ∷ str) = elim (Bool-cases (c == 0)) [
  | inl null ↦ rw null
  | inr more ↦ rw more (ap (◌∷◌ c) (take-text str))
]

pub length-text : (str : List ℕ) → length (text str) ≤ length str
length-text [] = omega arith
length-text (c ∷ str) = elim (Bool-cases (c == 0)) [
  | inl null ↦ rw null (omega arith)
  | inr more ↦ rw more (omega (arith, length-text str))
]

pub text-append : (str ys : List ℕ) → text (text str ++ ys) ≡ text str ++ text ys
text-append [] ys = refl
text-append (c ∷ str) ys = elim (Bool-cases (c == 0)) [
  | inl null ↦ rw null
  | inr more ↦ rw (more, more) (ap (◌∷◌ c) (text-append str ys))
]

pub text-terminated :
    (n : ℕ) (str rest : List ℕ) → text (terminated (take n (text str)) ++ rest) ≡ take n (text str)
text-terminated zero str rest = refl
text-terminated (suc n) [] rest = refl
text-terminated (suc n) (c ∷ str) rest = elim (Bool-cases (c == 0)) [
  | inl null ↦ rw null
  | inr more ↦ rw (more, more) (ap (◌∷◌ c) (text-terminated n str rest))
]

pub take-append :
    (n : ℕ) (xs ys : List ℕ) → length xs ≤ n → take n (xs ++ ys) ≡ xs ++ take (n - length xs) ys
take-append n [] ys h = ap (λ k. take k ys) {x = n} {y = n - 0} (omega arith)
take-append zero (x ∷ xs) ys h = absurd (omega arith)
take-append (suc n) (x ∷ xs) ys h = ap (◌∷◌ x) (
    take-append n xs ys (omega arith)
    ∙ ap (λ k. xs ++ take k ys) {x = n - length xs} {y = suc n - suc (length xs)} (omega arith))

pub terminated-ends : (xs : List ℕ) → ends (terminated xs) ≡ true
terminated-ends [] = refl
terminated-ends (c ∷ xs) = elim (Bool-cases (c == 0)) [
  | inl null ↦ rw null
  | inr more ↦ rw more (terminated-ends xs)
]
