-- ===== src/Disk/Paths.antt =====
-- `compose_path` of src/fs_disk.c in characters.
use spike_virtio_devices.Prelude.{
  ℕ, zero, suc, ◌+◌, ◌≤◌, ◌≡◌, refl, ap, sym, subst, ◌∙◌, arith, true, Bool-cases, inl, inr, List,
  [], ◌∷◌, ◌++◌, ◌==◌, leb, if◌then◌else◌, length, length-append, length-replicate, take, drop,
  replicate, set,
}
use spike_virtio_devices.Prelude.Outcome.{done, Returns}
use spike_virtio_devices.Libc.{memcpy, text, ends}
use spike_virtio_devices.Libc.Text.{
  strlen-text, take-text, length-text, text-append, terminated, terminated-ends,
}
use spike_virtio_devices.Disk.Walk.{compose_path}

drop-replicate : (n k : ℕ) → drop {A = ℕ} n (replicate (n + k) 0) ≡ replicate k 0
drop-replicate zero k = ap (λ m. replicate m 0) {x = 0 + k} {y = k} (omega arith)
drop-replicate (suc n) k =
    ap (λ m. drop {A = ℕ} (suc n) (replicate m 0)) {x = suc n + k} {y = suc (n + k)} (omega arith)
    ∙ drop-replicate n k

set-append : (xs ys : List ℕ) (a b : ℕ) → set (xs ++ (a ∷ ys)) (length xs) b ≡ xs ++ (b ∷ ys)
set-append [] ys a b = refl
set-append (x ∷ xs) ys a b = ap (◌∷◌ x) (set-append xs ys a b)

take-behind : (xs ys : List ℕ) (b : ℕ) → take (suc (length xs)) (xs ++ (b ∷ ys)) ≡ xs ++ (b ∷ [])
take-behind [] ys b = refl
take-behind (x ∷ xs) ys b = ap (◌∷◌ x) (take-behind xs ys b)

drop-all : (n : ℕ) (xs : List ℕ) → length xs ≤ n → drop n xs ≡ []
drop-all zero [] h = refl
drop-all zero (x ∷ xs) h = absurd (omega arith)
drop-all (suc n) [] h = refl
drop-all (suc n) (x ∷ xs) h = drop-all n xs (omega arith)

append-[] : (xs : List ℕ) → xs ++ [] ≡ xs
append-[] [] = refl
append-[] (x ∷ xs) = ap (◌∷◌ x) (append-[] xs)

append_assoc : (xs ys zs : List ℕ) → (xs ++ ys) ++ zs ≡ xs ++ (ys ++ zs)
append_assoc [] ys zs = refl
append_assoc (x ∷ xs) ys zs = ap (◌∷◌ x) (append_assoc xs ys zs)

-- A C string's characters with its null.
take-terminated :
    (str : List ℕ) → ends str ≡ true → take (suc (length (text str))) str ≡ terminated (text str)
take-terminated [] h = absurd (ground arith)
take-terminated (c ∷ str) h = elim (Bool-cases (c == 0)) [
  | inl null ↦ let z : c ≡ 0 = ground (arith, null) in rw null (ap (λ x. x ∷ []) z)
  | inr more ↦
      let e = take-terminated str (subst (λ b. (if b then true else ends str) ≡ true) more h) in
      rw more (ap (◌∷◌ c) e)
]

pub length-ends : (str : List ℕ) → ends str ≡ true → length (text str) + 1 ≤ length str
length-ends [] h = absurd (ground arith)
length-ends (c ∷ str) h = elim (Bool-cases (c == 0)) [
  | inl null ↦ rw null (omega arith)
  | inr more ↦
      let e = length-ends str (subst (λ b. (if b then true else ends str) ≡ true) more h) in
      rw more (omega arith)
]

abbrev joined : List ℕ → List ℕ → List ℕ
joined path name = text path ++ (47 ∷ text name)

module _ (path name : List ℕ) (p : ends path ≡ true) (n : ends name ≡ true) where
  first_copy :
      memcpy
        (replicate (length (text path) + 1 + length (text name) + 1) 0)
        0
        path
        (length (text path))
      ≡ done (text path ++ (0 ∷ replicate (length (text name) + 1) 0))
  unfolding memcpy
  first_copy =
      let l = length (text path) in
      let k = length (text name) in
      let enough : leb l (length path) ≡ true = ground (arith, length-text path) in
      let size : length {A = ℕ} (replicate (l + 1 + k + 1) 0) ≡ l + 1 + k + 1 =
        length-replicate (l + 1 + k + 1) 0 in
      let fits : leb (0 + l) (l + 1 + k + 1) ≡ true = ground arith in
      let total : l + 1 + k + 1 ≡ l + suc (k + 1) = omega arith in
      let base : 0 + l ≡ l = omega arith in
      rw (enough, size, fits, take-text path, base, total, drop-replicate l (suc (k + 1)))

  second_copy :
      memcpy
        (text path ++ (47 ∷ replicate (length (text name) + 1) 0))
        (length (text path) + 1)
        name
        (length (text name) + 1)
      ≡ done (terminated (joined path name))
  unfolding memcpy
  second_copy =
      let l = length (text path) in
      let k = length (text name) in
      let out = text path ++ (47 ∷ replicate (k + 1) 0) in
      let upto : l + 1 ≡ suc l = omega arith in
      let whole : k + 1 ≡ suc k = omega arith in
      let start : take (l + 1) out ≡ text path ++ (47 ∷ []) =
        ap (λ m. take m out) upto ∙ take-behind (text path) (replicate (k + 1) 0) 47 in
      let bytes : take (k + 1) name ≡ terminated (text name) =
        ap (λ m. take m name) whole ∙ take-terminated name n in
      let enough : leb (k + 1) (length name) ≡ true = ground (arith, length-ends name n) in
      let size : length out ≡ l + suc (k + 1) =
        length-append (text path) (47 ∷ replicate (k + 1) 0)
        ∙ ap (λ m. l + suc m) (length-replicate (k + 1) 0) in
      let fits : leb (l + 1 + (k + 1)) (l + suc (k + 1)) ≡ true = ground arith in
      let rest : drop (l + 1 + length (terminated (text name))) out ≡ [] =
        drop-all _ out (omega (arith, size, length-append (text name) (0 ∷ []))) in
      rw (enough, size, fits, bytes, start, rest, append-[] (terminated (text name)))
        (ap done (
          append_assoc (text path) (47 ∷ []) (terminated (text name))
          ∙ sym (append_assoc (text path) (47 ∷ text name) (0 ∷ []))))

  compose_path_run : compose_path path name ≡ done (terminated (joined path name))
  unfolding compose_path
  compose_path_run =
      rw
        (
          strlen-text path p,
          strlen-text name n,
          first_copy,
          set-append (text path) (replicate (length (text name) + 1) 0) 0 47,
        )
        second_copy

  text-joined : text (terminated (joined path name)) ≡ joined path name
  text-joined =
      ap text (append_assoc (text path) (47 ∷ text name) (0 ∷ []))
      ∙ text-append path (47 ∷ (text name ++ (0 ∷ [])))
      ∙ ap (λ ys. text path ++ (47 ∷ ys)) (text-append name (0 ∷ []) ∙ append-[] (text name))

  pub compose_path_lem :
      Returns
        (λ out. (ends out ≡ true) × (text out ≡ text path ++ (47 ∷ text name)))
        (compose_path path name)
  compose_path_lem = rw compose_path_run (terminated-ends (joined path name), text-joined)
