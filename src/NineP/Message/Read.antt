-- ===== src/NineP/Message/Read.antt =====
-- What every argument that `unmarshall` reads is, whatever the guest has sent.
use spike_virtio_devices.Prelude.{
  ℕ, zero, suc, ◌+◌, ◌^◌, ◌<◌, ◌≡◌, refl, arith, true, Option, none, some, List, [], ◌∷◌, ◌==◌, ltb,
  ltb→lt, if◌then◌else◌, length, set, Bool-cases, inl, inr,
}
use spike_virtio_devices.Prelude.Outcome.{done, fault, ◌>>=◌, Ensures, Ensures->>=, Ensures-trivial}
use spike_virtio_devices.Libc.{ends}
use spike_virtio_devices.Prelude.{add32, u16}
use spike_virtio_devices.Cutils.{byte_at, get_le16, get_le32, get_le64}
use spike_virtio_devices.Mmu.{Mmu}
use spike_virtio_devices.NineP.Message.{
  Fmt, fmt_b, fmt_h, fmt_w, fmt_d, fmt_s, fmt_q, Arg, Args, scratch, fetch, get_number, get_string,
  get_arg, unmarshall,
}

abbrev pub IsRead : (c : Fmt) → Arg c → Type 0
IsRead fmt_h val = val < 2 ^ 16
IsRead fmt_s str = ends str ≡ true
IsRead c x = Unit

abbrev pub AreRead : (fmt : List Fmt) → Args fmt → Type 0
AreRead [] args = Unit
AreRead (c ∷ fmt) (x, args) = IsRead c x × AreRead fmt args

abbrev pub Answer : {A : Type 0} → (A → Type 0) → Option (A × ℕ) → Type 0
Answer P none = Unit
Answer P (some (a, end)) = P a

ends-set : (str : List ℕ) (len : ℕ) → len < length str → ends (set str len 0) ≡ true
ends-set [] len h = absurd (omega arith)
ends-set (c ∷ str) zero h = refl
ends-set (c ∷ str) (suc len) h = elim (Bool-cases (c == 0)) [
  | inl null ↦ rw null
  | inr more ↦ rw more (ends-set str len (omega arith))
]

module _ {R : Type 0} (mmu : Mmu R) (fuel : ℕ) (malloc : ℕ → List ℕ) (m : R)
    (table desc_idx : ℕ) where
  number_answered :
      (P : ℕ → Type 0) (get : List ℕ → ℕ) (end : ℕ) (r : Option (List ℕ))
      → ((buf : List ℕ) → P (get buf))
      → Ensures (Answer P) (elim r [ none ↦ done none | some buf ↦ done (some (get buf, end)) ])
  number_answered P get end none h = tt
  number_answered P get end (some buf) h = h buf

  number_read :
      (P : ℕ → Type 0) (get : List ℕ → ℕ) (n offset : ℕ)
      → ((buf : List ℕ) → P (get buf))
      → Ensures (Answer P) (get_number mmu fuel malloc m table desc_idx get n offset)
  number_read P get n offset h =
      Ensures->>= (λ _. Unit) (Answer P) (fetch mmu fuel malloc m table desc_idx scratch offset n) _
        (Ensures-trivial _) (λ r _. number_answered P get (add32 offset n) r h)

  string_answered :
      (len end : ℕ) (r : Option (List ℕ))
      → Ensures (Answer (IsRead fmt_s)) (elim r [
        | none ↦ done none
        | some str ↦ if ltb len (length str) then done (some (set str len 0, end)) else fault
      ])
  string_answered len end none = tt
  string_answered len end (some str) = elim (Bool-cases (ltb len (length str))) [
    | inl inside ↦ rw inside (ends-set str len (ltb→lt len (length str) inside))
    | inr beyond ↦ rw beyond tt
  ]

  string-IsRead :
      (r : Option (ℕ × ℕ))
      → Ensures (Answer (IsRead fmt_s)) (elim r [
        | none ↦ done none
        | some (len, offset) ↦ get_string mmu fuel malloc m table desc_idx len offset
      ])
  unfolding get_string
  string-IsRead none = tt
  string-IsRead (some (len, offset)) =
      Ensures->>= (λ _. Unit) (Answer (IsRead fmt_s))
        (fetch mmu fuel malloc m table desc_idx (malloc (len + 1)) offset len) _ (Ensures-trivial _)
        (λ r _. string_answered len (add32 offset len) r)

  get_arg-IsRead :
      (c : Fmt) (offset : ℕ)
      → Ensures (Answer (IsRead c)) (get_arg mmu fuel malloc m table desc_idx c offset)
  unfolding get_arg
  get_arg-IsRead fmt_b offset = number_read (λ _. Unit) (λ buf. byte_at buf 0) 1 offset (λ buf. tt)
  get_arg-IsRead fmt_h offset =
      number_read (IsRead fmt_h) (λ buf. u16 (get_le16 buf 0)) 2 offset (λ buf. omega arith)
  get_arg-IsRead fmt_w offset = number_read (λ _. Unit) (λ buf. get_le32 buf 0) 4 offset (λ buf. tt)
  get_arg-IsRead fmt_d offset = number_read (λ _. Unit) (λ buf. get_le64 buf 0) 8 offset (λ buf. tt)
  get_arg-IsRead fmt_s offset =
      Ensures->>= (λ _. Unit) (Answer (IsRead fmt_s))
        (get_number mmu fuel malloc m table desc_idx (λ buf. get_le16 buf 0) 2 offset) _
        (Ensures-trivial _) (λ r _. string-IsRead r)
  get_arg-IsRead fmt_q offset = tt

  rest_answered :
      (c : Fmt) (fmt : List Fmt) (x : Arg c) (r : Option (Args fmt × ℕ))
      → IsRead c x
      → Answer (AreRead fmt) r
      → Ensures
          (Answer (AreRead (c ∷ fmt)))
          (elim r [ none ↦ done none | some (args, end) ↦ done (some ((x, args), end)) ])
  rest_answered c fmt x none h k = tt
  rest_answered c fmt x (some (args, end)) h k = (h, k)

  first_answered :
      (c : Fmt) (fmt : List Fmt) (r : Option (Arg c × ℕ))
      → Answer (IsRead c) r
      → ((offset : ℕ)
          → Ensures (Answer (AreRead fmt)) (unmarshall mmu fuel malloc m table desc_idx fmt offset))
      → Ensures (Answer (AreRead (c ∷ fmt))) (elim r [
        | none ↦ done none
        | some (x, offset') ↦ unmarshall mmu fuel malloc m table desc_idx fmt offset' >>= λ r'.
            (elim r' [ none ↦ done none | some (args, end) ↦ done (some ((x, args), end)) ])
      ])
  first_answered c fmt none h rest = tt
  first_answered c fmt (some (x, offset')) h rest =
      Ensures->>= (Answer (AreRead fmt)) (Answer (AreRead (c ∷ fmt)))
        (unmarshall mmu fuel malloc m table desc_idx fmt offset') _ (rest offset')
        (λ r k. rest_answered c fmt x r h k)

  pub unmarshall-AreRead :
      (fmt : List Fmt) (offset : ℕ)
      → Ensures (Answer (AreRead fmt)) (unmarshall mmu fuel malloc m table desc_idx fmt offset)
  unfolding unmarshall
  unmarshall-AreRead [] offset = tt
  unmarshall-AreRead (c ∷ fmt) offset =
      Ensures->>= (Answer (IsRead c)) (Answer (AreRead (c ∷ fmt)))
        (get_arg mmu fuel malloc m table desc_idx c offset) _ (get_arg-IsRead c offset)
        (λ r h. first_answered c fmt r h (unmarshall-AreRead fmt))
