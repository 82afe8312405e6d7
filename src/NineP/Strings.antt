-- ===== src/NineP/Strings.antt =====
-- C strings in buffers, and copies that fit.
use spike_virtio_devices.Prelude.{
  ℕ, ◌+◌, ◌≤◌, ◌<◌, ◌≡◌, refl, ap, arith, true, false, List, [], ◌∷◌, ◌++◌, ◌==◌, length,
  length-append, take, leb, All,
}
use spike_virtio_devices.Libc.{memcpy, strlen}
use spike_virtio_devices.Prelude.Outcome.{done}
use spike_virtio_devices.Virtio.Chain.{blit}

-- A character of a C string before its end.
abbrev pub IsChar : ℕ → Type 0
IsChar c = 0 < c

abbrev pub c_string : List ℕ → List ℕ
c_string chars = chars ++ (0 ∷ [])

pub strlen-c_string :
    (chars : List ℕ) → All IsChar chars → strlen (c_string chars) ≡ done (length chars)
unfolding strlen
strlen-c_string [] h = refl
strlen-c_string (c ∷ chars) h =
    let more : c == 0 ≡ false = ground (arith, h.0) in
    rw (more, strlen-c_string chars h.1) (ap done (omega arith))

pub take-c_string : (chars rest : List ℕ) → take (length chars) (chars ++ rest) ≡ chars
take-c_string [] rest = refl
take-c_string (c ∷ chars) rest = ap (λ xs. c ∷ xs) (take-c_string chars rest)

pub memcpy-c_string :
    (dst : List ℕ) (pos : ℕ) (chars : List ℕ)
    → pos + length chars ≤ length dst
    → memcpy dst pos (c_string chars) (length chars) ≡ done (blit dst pos chars)
unfolding memcpy
memcpy-c_string dst pos chars room =
    let enough : leb (length chars) (length (c_string chars)) ≡ true =
      ground (arith, length-append chars (0 ∷ [])) in
    let fits : leb (pos + length chars) (length dst) ≡ true = ground arith in
    rw (enough, fits, take-c_string chars (0 ∷ []))
