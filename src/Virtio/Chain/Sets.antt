-- ===== src/Virtio/Chain/Sets.antt =====
-- Bytes written one after the other, against a copy of all of them.
use spike_virtio_devices.Prelude.{
  ℕ, zero, suc, ◌+◌, ◌/◌, ◌^◌, ◌≤◌, ◌<◌, ◌≡◌, refl, sym, ap, ◌∙◌, arith, List, [], ◌∷◌, ◌++◌,
  length, set, take, drop, length-set, u8, u32,
}
use spike_virtio_devices.Cutils.{put_le16, put_le32, put_le64}
use spike_virtio_devices.Virtio.Chain.{blit}

-- `bytes` written from `pos` on.
abbrev pub set_all : List ℕ → ℕ → List ℕ → List ℕ
set_all buf pos [] = buf
set_all buf pos (b ∷ bytes) = set_all (set buf pos b) (pos + 1) bytes

pub set_all-append :
    (buf : List ℕ) (pos : ℕ) (xs ys : List ℕ)
    → set_all (set_all buf pos xs) (pos + length xs) ys ≡ set_all buf pos (xs ++ ys)
set_all-append buf pos [] ys = ap (λ p. set_all buf p ys) (omega arith)
set_all-append buf pos (x ∷ xs) ys =
    ap (λ p. set_all (set_all (set buf pos x) (pos + 1) xs) p ys) (omega arith)
    ∙ set_all-append (set buf pos x) (pos + 1) xs ys

pub length-set_all :
    (buf : List ℕ) (pos : ℕ) (bytes : List ℕ) → length (set_all buf pos bytes) ≡ length buf
length-set_all buf pos [] = refl
length-set_all buf pos (b ∷ bytes) =
    length-set_all (set buf pos b) (pos + 1) bytes ∙ length-set buf pos b

blit-set :
    (buf : List ℕ) (pos : ℕ) (b : ℕ) (bytes : List ℕ)
    → pos < length buf
    → blit (set buf pos b) (pos + 1) bytes ≡ blit buf pos (b ∷ bytes)
blit-set [] pos b bytes h = absurd (omega arith)
blit-set (x ∷ buf) zero b bytes h =
    ap (λ n. b ∷ (bytes ++ drop n (b ∷ buf))) {x = 0 + 1 + length bytes} {y = suc (length bytes)}
      (omega arith)
    ∙ ap (λ n. b ∷ (bytes ++ drop n (x ∷ buf))) {x = suc (length bytes)} (omega arith)
blit-set (x ∷ buf) (suc pos) b bytes h =
    ap (λ n. blit (x ∷ set buf pos b) n bytes) {x = suc pos + 1} {y = suc (pos + 1)} (omega arith)
    ∙ ap (λ n. x ∷ (take (pos + 1) (set buf pos b) ++ (bytes ++ drop n (x ∷ set buf pos b))))
        {x = suc (pos + 1) + length bytes} {y = suc (pos + 1 + length bytes)} (omega arith)
    ∙ ap (◌∷◌ x) (blit-set buf pos b bytes (omega arith))
    ∙ ap (λ n. x ∷ (take pos buf ++ (b ∷ (bytes ++ drop n (x ∷ buf)))))
        {x = suc (pos + suc (length bytes))} {y = suc pos + suc (length bytes)} (omega arith)

pub blit-none : (buf : List ℕ) (pos : ℕ) → blit buf pos [] ≡ buf
blit-none [] zero = refl
blit-none [] (suc pos) = ap (λ n. drop n []) {x = suc pos + 0} {y = suc pos} (omega arith)
blit-none (x ∷ buf) zero = refl
blit-none (x ∷ buf) (suc pos) =
    ap (λ n. x ∷ (take pos buf ++ drop n (x ∷ buf))) {x = suc pos + 0} {y = suc (pos + 0)}
      (omega arith)
    ∙ ap (◌∷◌ x) (blit-none buf pos)

pub set_all-blit :
    (buf : List ℕ) (pos : ℕ) (bytes : List ℕ)
    → pos + length bytes ≤ length buf
    → set_all buf pos bytes ≡ blit buf pos bytes
set_all-blit buf pos [] h = sym (blit-none buf pos)
set_all-blit buf pos (b ∷ bytes) h =
    set_all-blit (set buf pos b) (pos + 1) bytes (omega (arith, length-set buf pos b))
    ∙ blit-set buf pos b bytes (omega arith)

-- The bytes of a number, the lowest first.
abbrev pub bytes16 : ℕ → List ℕ
bytes16 v = u8 v ∷ u8 (v / 2 ^ 8) ∷ []

abbrev pub bytes32 : ℕ → List ℕ
bytes32 v = u8 v ∷ u8 (v / 2 ^ 8) ∷ u8 (v / 2 ^ 16) ∷ u8 (v / 2 ^ 24) ∷ []

abbrev pub bytes64 : ℕ → List ℕ
bytes64 v = bytes32 (u32 v) ++ bytes32 (u32 (v / 2 ^ 32))

pub put_le16_bytes : (xs : List ℕ) (i v : ℕ) → put_le16 xs i v ≡ set_all xs i (bytes16 v)
unfolding put_le16
put_le16_bytes xs i v = refl

pub put_le32_bytes : (xs : List ℕ) (i v : ℕ) → put_le32 xs i v ≡ set_all xs i (bytes32 v)
unfolding put_le32
put_le32_bytes xs i v =
    let two : i + 1 + 1 ≡ i + 2 = omega arith in
    let three : i + 2 + 1 ≡ i + 3 = omega arith in rw (two, three)

pub put_le64_bytes : (xs : List ℕ) (i v : ℕ) → put_le64 xs i v ≡ set_all xs i (bytes64 v)
unfolding put_le64
put_le64_bytes xs i v =
    put_le32_bytes (put_le32 xs i (u32 v)) (i + 4) (u32 (v / 2 ^ 32))
    ∙ ap (λ ys. set_all ys (i + 4) (bytes32 (u32 (v / 2 ^ 32)))) (put_le32_bytes xs i (u32 v))
    ∙ set_all-append xs i (bytes32 (u32 v)) (bytes32 (u32 (v / 2 ^ 32)))
