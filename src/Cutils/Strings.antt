-- ===== src/Cutils/Strings.antt =====
-- What the string functions of src/cutils.c do with the characters of their arguments.
use spike_virtio_devices.Prelude.{
  ℕ, zero, suc, ◌+◌, ◌-◌, ◌^◌, ◌≤◌, ◌<◌, ◌≡◌, inl, inr, sym, ap, subst, ◌∙◌, arith, true, false,
  Bool-cases, Option, none, some, List, [], ◌∷◌, ◌++◌, ◌==◌, leb, ltb, if◌then◌else◌, length,
  get_or, take, drop, set, length-take, length-set, length-append, slt, sub32,
}
use spike_virtio_devices.Prelude.Outcome.{done}
use spike_virtio_devices.Libc.{strlen, text, ends}
use spike_virtio_devices.Libc.Text.{
  terminated, ends-tail, strlen-text, take-text, text-append, text-terminated, take-append,
}
use spike_virtio_devices.Virtio.Chain.{blit}
use spike_virtio_devices.Virtio.Chain.Blit.{length-blit}
use spike_virtio_devices.Virtio.Chain.Sets.{set_all, set_all-append, length-set_all, set_all-blit}
use spike_virtio_devices.Cutils.Text.{pstrcpy_loop, pstrcpy, pstrcat, strstart}

pstrcpy_loop-set_all :
    (str : List ℕ) (q n : ℕ) (buf : List ℕ)
    → ends str ≡ true
    → q + n ≤ length buf
    → pstrcpy_loop str q (q + n) buf
      ≡ done (q + length (take n (text str)), set_all buf q (take n (text str)))
unfolding pstrcpy_loop
pstrcpy_loop-set_all [] q n buf h room = absurd (ground arith)
pstrcpy_loop-set_all (c ∷ str) q zero buf h room =
    let here : q + 0 ≡ q = omega arith in
    let full : leb q q ≡ true = ground arith in
    elim (Bool-cases (c == 0)) [ inl null ↦ rw (here, null) | inr more ↦ rw (here, more, full) ]
pstrcpy_loop-set_all (c ∷ str) q (suc n) buf h room = elim (Bool-cases (c == 0)) [
  | inl null ↦ rw null (ap (λ k. done (k, buf)) (omega arith))
  | inr more ↦
      let inside : leb (q + suc n) q ≡ false = ground arith in
      let fits : ltb q (length buf) ≡ true = ground arith in
      let last : q + suc n ≡ q + 1 + n = omega arith in
      rw (more, inside, fits, last)
        (pstrcpy_loop-set_all str (q + 1) n (set buf q c) (ends-tail c str more h)
            (omega (arith, length-set buf q c))
          ∙ ap (λ k. done (k, set_all (set buf q c) (q + 1) (take n (text str))))
              {x = q + 1 + length (take n (text str))} {y = q + suc (length (take n (text str)))}
              (omega arith))
]

pub pstrcpy-terminated :
    (buf : List ℕ) (pos buf_size : ℕ) (str : List ℕ)
    → ends str ≡ true
    → 0 < buf_size
    → buf_size < 2 ^ 31
    → pos + buf_size ≤ length buf
    → pstrcpy buf pos buf_size str
      ≡ done (blit buf pos (terminated (take (buf_size - 1) (text str))))
unfolding pstrcpy
pstrcpy-terminated buf pos buf_size str h some_room small room =
    let chars = take (buf_size - 1) (text str) in
    let size = length-take (buf_size - 1) (text str) in
    let copied = pstrcpy_loop-set_all str pos (buf_size - 1) buf h (omega arith) in
    let positive : slt 0 buf_size ≡ true = ground arith in
    let fits : ltb (pos + length chars) (length (set_all buf pos chars)) ≡ true =
      ground (arith, size, length-set_all buf pos chars) in
    rw (positive, copied, fits)
      (ap done (
        set_all-append buf pos chars (0 ∷ [])
        ∙ set_all-blit buf pos (terminated chars)
            (omega (arith, size, length-append chars (0 ∷ [])))))

-- For two C strings and a buffer of at least `buf_size` bytes, whose string is shorter than
-- `buf_size`, which is below 2^31, `pstrcat` returns without leaving the buffer, whose string
-- is then the two strings one after the other, cut to `buf_size - 1` characters.
pub pstrcat-append :
    (buf : List ℕ) (buf_size : ℕ) (s : List ℕ)
    → ends buf ≡ true
    → ends s ≡ true
    → length (text buf) < buf_size
    → buf_size < 2 ^ 31
    → buf_size ≤ length buf
    → (b : List ℕ) × (pstrcat buf buf_size s ≡ done b)
      × (length b ≡ length buf)
      × (text b ≡ take (buf_size - 1) (text buf ++ text s))
unfolding pstrcat
pstrcat-append buf buf_size s h k some_room small room =
    let n = length (text buf) in
    let rest = buf_size - n in
    let chars = take (rest - 1) (text s) in
    let size : strlen buf ≡ done n = strlen-text buf h in
    let more : slt n buf_size ≡ true = ground arith in
    let left : sub32 buf_size n ≡ rest = omega arith in
    let long : n + length (terminated chars) ≤ length buf =
      omega (arith, length-append chars (0 ∷ []), length-take (rest - 1) (text s)) in
    let behind = drop (n + length (terminated chars)) buf in
    let index : buf_size - 1 - n ≡ rest - 1 = omega arith in
    (
      blit buf n (terminated chars),
      rw (size, more, left)
          (pstrcpy-terminated buf n rest s k (omega arith) (omega arith) (omega arith)),
      length-blit buf (terminated chars) n long,
      rw (take-text buf) (
          text-append buf (terminated chars ++ behind)
          ∙ ap (λ ys. text buf ++ ys)
              (text-terminated (rest - 1) s behind
                ∙ ap (λ j. take j (text s)) {x = rest - 1} {y = buf_size - 1 - n} (omega arith))
          ∙ sym (take-append (buf_size - 1) (text buf) (text s) (omega arith))),
    )

-- What `strstart` answers: what is behind the prefix, or that there is no such prefix.
abbrev pub IsRest : List ℕ → List ℕ → Option (List ℕ) → Type 0
IsRest str val none = (ys : List ℕ) → ¬ (text str ≡ text val ++ ys)
IsRest str val (some rest) = text str ≡ text val ++ text rest

IsRest-cons :
    (c : ℕ) (str val : List ℕ)
    → c == 0 ≡ false
    → (r : Option (List ℕ)) → IsRest str val r
    → IsRest (c ∷ str) (c ∷ val) r
IsRest-cons c str val more none h = λ ys e. h ys (
    ap (drop 1) (
      subst (λ b. (if b then [] else c ∷ text str) ≡ (if b then [] else c ∷ text val) ++ ys) more
        e))
IsRest-cons c str val more (some rest) h = rw more (ap (◌∷◌ c) h)

text-head : (c : ℕ) (str : List ℕ) → get_or (text (c ∷ str)) 0 0 ≡ c
text-head c str = elim (Bool-cases (c == 0)) [
  | inl null ↦ rw null (ground arith)
  | inr more ↦ rw more
]

-- For two C strings `strstart` returns: a pointer to what is behind the second one if the first
-- one starts with it, and 0 if the first one does not.
pub strstart-IsRest :
    (str val : List ℕ)
    → ends str ≡ true
    → ends val ≡ true
    → (r : Option (List ℕ)) × (strstart str val ≡ done r) × IsRest str val r
unfolding strstart
strstart-IsRest str [] h k = absurd (ground arith)
strstart-IsRest [] (v ∷ val) h k = absurd (ground arith)
strstart-IsRest (c ∷ str) (v ∷ val) h k = elim (Bool-cases (v == 0)) [
  | inl null ↦ (some (c ∷ str), rw null, rw null)
  | inr more ↦ elim (Bool-cases (c == v)) [
    | inl same ↦
        let equal : v ≡ c = ground arith in
        let more' : c == 0 ≡ false = ground arith in
        let rest = strstart-IsRest str val (ends-tail c str more' h) (ends-tail v val more k) in
        (
          rest.0,
          rw (more, same) rest.1,
          subst (λ x. IsRest (c ∷ str) (x ∷ val) rest.0) {x = c} {y = v} (sym equal)
              (IsRest-cons c str val more' rest.0 rest.2),
        )
    | inr differ ↦ (
      none,
      rw (more, differ),
      λ ys e.
          let heads : c ≡ v =
            sym (text-head c str)
            ∙ ap (λ xs. get_or xs 0 0) e
            ∙ ap (λ b. get_or ((if b then [] else v ∷ text val) ++ ys) 0 0) more in
          absurd (ground arith),
    )
  ]
]
