-- ===== src/Libc.antt =====
-- What src/cutils.c and the 9P device use of the C library. A C string is a buffer that holds its
-- terminating null.
pub mod Text
use spike_virtio_devices.Prelude.{
  ℕ, ◌+◌, Bool, true, false, List, [], ◌∷◌, ◌==◌, leb, if◌then◌else◌, length, take,
}
use spike_virtio_devices.Prelude.Outcome.{Outcome, done, fault, ◌>>=◌}
use spike_virtio_devices.Virtio.Chain.{blit}

-- `strlen`; a buffer without a null is read past its end.
unfoldable pub strlen : List ℕ → Outcome ℕ
strlen [] = fault
strlen (c ∷ str) = let rest = strlen str in if c == 0 then done 0 else rest >>= λ n. done (n + 1)

-- `memcpy` of `n` bytes of `src` to `dst + pos`.
unfoldable pub memcpy : List ℕ → ℕ → List ℕ → ℕ → Outcome (List ℕ)
memcpy dst pos src n =
    if leb n (length src)
    then (if leb (pos + n) (length dst) then done (blit dst pos (take n src)) else fault)
    else fault

-- The characters of a C string, and whether its null is there.
abbrev pub text : List ℕ → List ℕ
text [] = []
text (c ∷ str) = let rest = text str in if c == 0 then [] else c ∷ rest

abbrev pub ends : List ℕ → Bool
ends [] = false
ends (c ∷ str) = let rest = ends str in if c == 0 then true else rest
