-- ===== src/Cutils/Tests.antt =====
-- The helpers of src/cutils.h at concrete inputs.
use spike_virtio_devices.Prelude.{
  ℕ, ◌+◌, ◌-◌, ◌≤◌, ◌<◌, ◌≡◌, ◌⊎◌, refl, ◌∙◌, arith, true, Option, List, [], ◌∷◌, ◌++◌, length,
  take, replicate, ltb, lt→ltb, length-take, length-append, length-replicate, get_or-take,
  get_or-append,
}
use spike_virtio_devices.Prelude.Outcome.{done}
use spike_virtio_devices.Libc.{text}
use spike_virtio_devices.Cutils.Text.{pstrcat, strstart}
use spike_virtio_devices.Cutils.Strings.{IsRest, pstrcat-append, strstart-IsRest}
use spike_virtio_devices.Cutils.Dbuf.{DynBuf, dbuf_init, dbuf_write}
use spike_virtio_devices.Cutils.Appended.{IsRealloc, Written, dbuf_write-Written}
use spike_virtio_devices.Cutils.{byte_at, ctz32, get_le64, put_le64}
use spike_virtio_devices.Cutils.Endian.{AreBytes, get_le64-put_le64}
use spike_virtio_devices.Cutils.Ctz.{TrailingZeros, ctz32_lem}

abbrev ten : List ℕ
ten = 1 ∷ 2 ∷ 3 ∷ 4 ∷ 5 ∷ 6 ∷ 7 ∷ 8 ∷ 9 ∷ 10 ∷ []

ten-AreBytes : AreBytes ten
ten-AreBytes = (
  omega arith,
  (
    omega arith,
    (
      omega arith,
      (
        omega arith,
        (
          omega arith,
          (omega arith, (omega arith, (omega arith, (omega arith, (omega arith, tt))))),
        ),
      ),
    ),
  ),
)

get_le64-put_le64_example :
    (get_le64 (put_le64 ten 1 0xfedcba9876543210) 1 ≡ 0xfedcba9876543210)
    × (length (put_le64 ten 1 0xfedcba9876543210) ≡ length ten)
    × ((j : ℕ) → j < 1 ⊎ 1 + 8 ≤ j → byte_at (put_le64 ten 1 0xfedcba9876543210) j ≡ byte_at ten j)
get_le64-put_le64_example =
    get_le64-put_le64 ten 1 0xfedcba9876543210 ten-AreBytes (omega arith) (omega arith)

ctz32_lem_example : TrailingZeros 48 (ctz32 48)
ctz32_lem_example = ctz32_lem 48 (omega arith) (omega arith)

-- "ab" in six bytes, and "cdef".
abbrev two_chars : List ℕ
two_chars = 97 ∷ 98 ∷ 0 ∷ 9 ∷ 9 ∷ 9 ∷ []

abbrev four_chars : List ℕ
four_chars = 99 ∷ 100 ∷ 101 ∷ 102 ∷ 0 ∷ []

pstrcat-append_example :
    (b : List ℕ) × (pstrcat two_chars 5 four_chars ≡ done b)
    × (length b ≡ length two_chars)
    × (text b ≡ take (5 - 1) (text two_chars ++ text four_chars))
pstrcat-append_example =
    pstrcat-append two_chars 5 four_chars refl refl (omega arith) (omega arith) (omega arith)

strstart-IsRest_example :
    (r : Option (List ℕ)) × (strstart two_chars four_chars ≡ done r) × IsRest two_chars four_chars r
strstart-IsRest_example = strstart-IsRest two_chars four_chars refl refl

-- The block is copied, and zeros follow.
abbrev copied : List ℕ → ℕ → List ℕ
copied buf n = take n (buf ++ replicate n 0)

copied-IsRealloc : IsRealloc copied
copied-IsRealloc = record {
  size = λ buf n.
      length-take n (buf ++ replicate n 0)
      ∙ omega (arith, length-append buf (replicate n 0), length-replicate {A = ℕ} n 0);
  kept = λ buf n i h k.
      let inside : ltb i (length buf) ≡ true = lt→ltb i (length buf) h in
      get_or-take n (buf ++ replicate n 0) i 0 k
      ∙ get_or-append buf (replicate n 0) i 0
      ∙ rw inside;
}

dbuf_write-Written_example :
    (s : DynBuf) × (dbuf_write copied dbuf_init 0 four_chars 4 ≡ done s)
    × Written dbuf_init 0 four_chars 4 s
dbuf_write-Written_example =
    dbuf_write-Written copied copied-IsRealloc dbuf_init 0 four_chars 4
      (record { block = refl; inside = omega arith }) (omega arith) (omega arith)
