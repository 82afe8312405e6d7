-- ===== src/Cutils/Text.antt =====
-- src/cutils.c: the copies and the prefix test of C strings. A pointer into a buffer is the buffer
-- with an index; a size is an `int` pattern.
use spike_virtio_devices.Prelude.{
  ℕ, ◌+◌, ◌-◌, not, Option, none, some, List, [], ◌∷◌, ◌==◌, ltb, leb, if◌then◌else◌, length, set,
  slt, sub32, ◌||◌,
}
use spike_virtio_devices.Prelude.Outcome.{Outcome, done, fault, ◌>>=◌}
use spike_virtio_devices.Libc.{strlen}

-- A byte through a pointer.
abbrev put_char : List ℕ → ℕ → ℕ → Outcome (List ℕ)
put_char buf q c = if ltb q (length buf) then done (set buf q c) else fault

-- The loop of `pstrcpy`: `q`, and the buffer; `last` is `buf + buf_size - 1`.
unfoldable pub pstrcpy_loop : List ℕ → ℕ → ℕ → List ℕ → Outcome (ℕ × List ℕ)
pstrcpy_loop [] q last buf = fault
pstrcpy_loop (c ∷ str) q last buf =
    if c == 0 || leb last q
    then done (q, buf)
    else put_char buf q c >>= λ buf'. pstrcpy_loop str (q + 1) last buf'

-- `pstrcpy(buf + pos, buf_size, str)`
unfoldable pub pstrcpy : List ℕ → ℕ → ℕ → List ℕ → Outcome (List ℕ)
unfolding pstrcpy_loop
pstrcpy buf pos buf_size str =
    if not (slt 0 buf_size)
    then done buf
    else do (q, buf') ← pstrcpy_loop str pos (pos + (buf_size - 1)) buf; put_char buf' q 0

unfoldable pub pstrcat : List ℕ → ℕ → List ℕ → Outcome (List ℕ)
unfolding pstrcpy
pstrcat buf buf_size s = do
  len ← strlen buf
  if slt len buf_size then pstrcpy buf len (sub32 buf_size len) s else done buf

-- What `*ptr` is set to, or `none` for a return of 0.
unfoldable pub strstart : List ℕ → List ℕ → Outcome (Option (List ℕ))
strstart str [] = fault
strstart [] (v ∷ val) = if v == 0 then done (some []) else fault
strstart (c ∷ str) (v ∷ val) =
    let rest = strstart str val in
    if v == 0 then done (some (c ∷ str)) else if c == v then rest else done none
