-- ===== src/NineP/Encode.antt =====
-- What `marshall` writes: the bytes of a message, one argument after the other.
use spike_virtio_devices.Prelude.{
  ℕ, suc, ◌+◌, ◌-◌, ◌≤◌, ◌≡◌, refl, sym, ap, ◌∙◌, arith, true, false, Bool-cases, inl, inr, List,
  [], ◌∷◌, ◌++◌, leb, if◌then◌else◌, length, set, length-append, u8, u16, leb→le,
}
use spike_virtio_devices.Libc.Text.{strlen-text, take-text, length-text}
use spike_virtio_devices.Libc.{ends, memcpy, strlen, text}
use spike_virtio_devices.Prelude.Outcome.{Outcome, done, aborted, ◌>>=◌}
use spike_virtio_devices.Cutils.{put_le16, put_le32, put_le64}
use spike_virtio_devices.Cutils.Endian.{length-put_le16}
use spike_virtio_devices.Virtio.Chain.{blit}
use spike_virtio_devices.Virtio.Chain.Sets.{
  set_all, set_all-append, length-set_all, set_all-blit, bytes16, bytes32, bytes64, put_le16_bytes,
  put_le32_bytes, put_le64_bytes,
}
use spike_virtio_devices.NineP.Message.{
  Fmt, fmt_b, fmt_h, fmt_w, fmt_d, fmt_s, fmt_q, Arg, Args, put_arg, put_args, marshall,
}

-- A string has its null and fits its 16-bit length.
abbrev pub IsArg : (c : Fmt) → Arg c → Type 0
IsArg fmt_s str = (ends str ≡ true) × (length (text str) ≤ 65535)
IsArg c x = Unit

abbrev pub AreArgs : (fmt : List Fmt) → Args fmt → Type 0
AreArgs [] args = Unit
AreArgs (c ∷ fmt) (x, args) = IsArg c x × AreArgs fmt args

abbrev pub encode_arg : (c : Fmt) → Arg c → List ℕ
encode_arg fmt_b val = u8 val ∷ []
encode_arg fmt_h val = bytes16 (u16 val)
encode_arg fmt_w val = bytes32 val
encode_arg fmt_d val = bytes64 val
encode_arg fmt_s str = bytes16 (u16 (length (text str))) ++ text str
encode_arg fmt_q qid = (u8 qid.type ∷ []) ++ (bytes32 qid.version ++ bytes64 qid.path)

abbrev pub encode : (fmt : List Fmt) → Args fmt → List ℕ
encode [] args = []
encode (c ∷ fmt) (x, args) = encode_arg c x ++ encode fmt args

memcpy-text :
    (dst : List ℕ) (pos : ℕ) (str : List ℕ)
    → pos + length (text str) ≤ length dst
    → memcpy dst pos str (length (text str)) ≡ done (blit dst pos (text str))
unfolding memcpy
memcpy-text dst pos str room =
    let whole : leb (length (text str)) (length str) ≡ true = ground (arith, length-text str) in
    let fits : leb (pos + length (text str)) (length dst) ≡ true = ground arith in
    rw (whole, fits, take-text str)

-- The array after `bytes` are written from `pos` on, if they end before `stop`.
abbrev write_bytes : List ℕ → ℕ → ℕ → List ℕ → Outcome (ℕ × List ℕ)
write_bytes bytes pos stop buf =
    if leb (pos + length bytes) stop
    then done (pos + length bytes, set_all buf pos bytes)
    else aborted

string_written :
    (str : List ℕ) (pos : ℕ) (buf : List ℕ)
    → pos + 2 + length (text str) ≤ length buf
    → ◌>>=◌ {B = ℕ × List ℕ}
        (memcpy (put_le16 buf pos (u16 (length (text str)))) (pos + 2) str (length (text str)))
        (λ buf'. done (pos + 2 + length (text str), buf'))
      ≡ done (pos + 2 + length (text str), set_all buf pos (encode_arg fmt_s str))
string_written str pos buf room =
    let n = length (text str) in
    let b = put_le16 buf pos (u16 n) in
    let same : length b ≡ length buf = length-put_le16 buf pos (u16 n) in
    let room' : pos + 2 + n ≤ length b = omega arith in
    rw (memcpy-text b (pos + 2) str room') (
      ap (λ ys. done (pos + 2 + n, ys))
        (sym (set_all-blit b (pos + 2) (text str) room')
          ∙ ap (λ ys. set_all ys (pos + 2) (text str)) (put_le16_bytes buf pos (u16 n))
          ∙ set_all-append buf pos (bytes16 (u16 n)) (text str)))

put_arg-encode_arg :
    (c : Fmt) (x : Arg c) (pos stop : ℕ) (buf : List ℕ)
    → IsArg c x
    → stop ≤ length buf
    → put_arg c x pos stop buf ≡ write_bytes (encode_arg c x) pos stop buf
unfolding put_arg
put_arg-encode_arg fmt_b val pos stop buf h room = refl
put_arg-encode_arg fmt_h val pos stop buf h room = rw (put_le16_bytes buf pos (u16 val))
put_arg-encode_arg fmt_w val pos stop buf h room = rw (put_le32_bytes buf pos val)
put_arg-encode_arg fmt_d val pos stop buf h room = rw (put_le64_bytes buf pos val)
put_arg-encode_arg fmt_s str pos stop buf h room =
    let n = length (text str) in
    let size : strlen str ≡ done n = strlen-text str h.0 in
    let short : leb n 65535 ≡ true = ground (arith, h.1) in
    let end : pos + suc (suc n) ≡ pos + 2 + n = omega arith in
    rw (size, short, end)
      (elim (Bool-cases (leb (pos + 2 + n) stop)) [
        | inl fits ↦
            rw fits (string_written str pos buf (omega (arith, leb→le (pos + 2 + n) stop fits)))
        | inr beyond ↦ rw beyond
      ])
put_arg-encode_arg fmt_q qid pos stop buf h room =
    let b = set buf pos (u8 qid.type) in
    let same : put_le64 (put_le32 b (pos + 1) qid.version) (pos + 5) qid.path
        ≡ set_all buf pos (encode_arg fmt_q qid) =
      put_le64_bytes (put_le32 b (pos + 1) qid.version) (pos + 5) qid.path
      ∙ ap (λ ys. set_all ys (pos + 5) (bytes64 qid.path)) (put_le32_bytes b (pos + 1) qid.version)
      ∙ ap (λ p. set_all (set_all b (pos + 1) (bytes32 qid.version)) p (bytes64 qid.path))
          {x = pos + 5} {y = pos + 1 + 4} (omega arith)
      ∙ set_all-append b (pos + 1) (bytes32 qid.version) (bytes64 qid.path) in
    rw same

write_bytes-append :
    (xs ys : List ℕ) (pos stop : ℕ) (buf : List ℕ)
    → write_bytes ys (pos + length xs) stop (set_all buf pos xs)
      ≡ write_bytes (xs ++ ys) pos stop buf
write_bytes-append xs ys pos stop buf =
    let end : pos + length xs + length ys ≡ pos + length (xs ++ ys) =
      omega (arith, length-append xs ys) in
    rw (end, set_all-append buf pos xs ys)

put_args-encode :
    (fmt : List Fmt) (args : Args fmt) (pos stop : ℕ) (buf : List ℕ)
    → AreArgs fmt args
    → pos ≤ stop
    → stop ≤ length buf
    → put_args fmt args pos stop buf ≡ write_bytes (encode fmt args) pos stop buf
unfolding put_args
put_args-encode [] args pos stop buf h inside room =
    let fits : leb (pos + 0) stop ≡ true = ground arith in
    rw fits (ap (λ p. done (p, buf)) (omega arith))
put_args-encode (c ∷ fmt) (x, args) pos stop buf h inside room =
    let a = encode_arg c x in
    let rest = encode fmt args in
    let total = length-append a rest in
    let first = put_arg-encode_arg c x pos stop buf h.0 room in
    rw first (elim (Bool-cases (leb (pos + length a) stop)) [
      | inl fits ↦ rw fits (
          put_args-encode fmt args (pos + length a) stop (set_all buf pos a) h.1
            (leb→le (pos + length a) stop fits) (omega (arith, length-set_all buf pos a))
          ∙ write_bytes-append a rest pos stop buf)
      | inr beyond ↦
          let beyond' : leb (pos + length (a ++ rest)) stop ≡ false =
            ground (arith, beyond, total) in
          rw (beyond, beyond')
    ])

-- Given an array with room for `max_len` bytes from `pos` on, and strings that end and have at
-- most 65535 characters, `marshall` writes the encoding of its arguments there, little-endian
-- numbers and strings behind their length, changes nothing else, and returns the encoding's
-- length; if the encoding is longer than `max_len` it aborts.
pub marshall-encode :
    (buf : List ℕ) (pos max_len : ℕ) (fmt : List Fmt) (args : Args fmt)
    → AreArgs fmt args
    → pos + max_len ≤ length buf
    → marshall buf pos max_len fmt args ≡ (
        if leb (length (encode fmt args)) max_len
        then done (length (encode fmt args), blit buf pos (encode fmt args))
        else aborted)
unfolding marshall
marshall-encode buf pos max_len fmt args h room =
    let bytes = encode fmt args in
    rw (put_args-encode fmt args pos (pos + max_len) buf h (omega arith) room)
      (elim (Bool-cases (leb (length bytes) max_len)) [
        | inl fits ↦
            let le = leb→le (length bytes) max_len fits in
            let fits' : leb (pos + length bytes) (pos + max_len) ≡ true = ground (arith, le) in
            let size : pos + length bytes - pos ≡ length bytes = omega arith in
            rw (fits, fits', size, set_all-blit buf pos bytes (omega arith))
        | inr beyond ↦
            let beyond' : leb (pos + length bytes) (pos + max_len) ≡ false =
              ground (arith, beyond) in
            rw (beyond, beyond')
      ])
