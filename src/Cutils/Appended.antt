-- ===== src/Cutils/Appended.antt =====
-- What a write to a dynamic buffer leaves there.
use spike_virtio_devices.Prelude.{
  ℕ, ◌+◌, ◌^◌, ◌≤◌, ◌<◌, ◌≡◌, ◌⊎◌, inl, inr, refl, ◌∙◌, arith, true, false, Bool-cases, List, leb,
  ltb, ltb→lt, if◌then◌else◌, length, take, length-take, get_or-take, add64, subst,
}
use Prim.Native.Nat.{max}
use spike_virtio_devices.Prelude.Outcome.{done}
use spike_virtio_devices.Libc.{memcpy}
use spike_virtio_devices.Virtio.Chain.{blit}
use spike_virtio_devices.Virtio.Chain.Blit.{length-blit, get_or-blit-inside, get_or-blit-outside}
use spike_virtio_devices.Cutils.{byte_at, max_int}
use spike_virtio_devices.Cutils.Dbuf.{DynBuf, grown_size, dbuf_write}

-- The block is as long as `allocated_size` says, and holds the contents.
pub record IsDynBuf (s : DynBuf) : Type 0 where
  pub block : length s.buf ≡ s.allocated_size
  pub inside : s.size ≤ s.allocated_size

-- What is documented of `realloc` when it succeeds.
pub record IsRealloc (realloc : List ℕ → ℕ → List ℕ) : Type 0 where
  pub size : (buf : List ℕ) (n : ℕ) → length (realloc buf n) ≡ n
  pub kept :
      (buf : List ℕ) (n i : ℕ) → i < length buf → i < n → byte_at (realloc buf n) i ≡ byte_at buf i

-- `s'` holds what `s` held with the first `len` bytes of `bytes` from `offset` on.
pub record Written (s : DynBuf) (offset : ℕ) (bytes : List ℕ) (len : ℕ) (s' : DynBuf) : Type 0 where
  pub valid : IsDynBuf s'
  pub size : s'.size ≡ max s.size (offset + len)
  pub now : (i : ℕ) → i < len → byte_at s'.buf (offset + i) ≡ byte_at bytes i
  pub before :
      (i : ℕ) → i < s.size → i < offset ⊎ offset + len ≤ i → byte_at s'.buf i ≡ byte_at s.buf i

grown_size_bounds :
    (new_size allocated : ℕ)
    → new_size < 2 ^ 31
    → allocated < new_size
    → (new_size ≤ grown_size new_size allocated) × (grown_size new_size allocated < 2 ^ 31)
unfolding max_int
grown_size_bounds new_size allocated small more = ground arith

memcpy-blit :
    (dst : List ℕ) (pos : ℕ) (src : List ℕ) (n : ℕ)
    → n ≤ length src
    → pos + n ≤ length dst
    → memcpy dst pos src n ≡ done (blit dst pos (take n src))
unfolding memcpy
memcpy-blit dst pos src n enough room =
    let whole : leb n (length src) ≡ true = ground arith in
    let fits : leb (pos + n) (length dst) ≡ true = ground arith in rw (whole, fits)

not_more : (a b : ℕ) → ltb b a ≡ false → a ≤ b
not_more a b h = ground arith

-- The buffer after the copy into a block of size `allocated`.
abbrev filled : DynBuf → List ℕ → ℕ → List ℕ → ℕ → ℕ → DynBuf
filled s block offset bytes len allocated = record {
  buf = blit block offset (take len bytes);
  size = if ltb s.size (offset + len) then offset + len else s.size;
  allocated_size = allocated;
}

-- The copy into a block with room for it, which holds what `s` held.
filled-Written :
    (s : DynBuf) (block : List ℕ) (offset : ℕ) (bytes : List ℕ) (len : ℕ)
    → s.size ≤ length block
    → offset + len ≤ length block
    → len ≤ length bytes
    → ((i : ℕ) → i < s.size → byte_at block i ≡ byte_at s.buf i)
    → Written s offset bytes len (filled s block offset bytes len (length block))
filled-Written s block offset bytes len inside room enough same =
    let part : length (take len bytes) ≡ len = omega (arith, length-take len bytes) in
    let room' : offset + length (take len bytes) ≤ length block = omega arith in
    record {
      valid = record {
        block = length-blit block (take len bytes) offset room';
        inside = ground arith;
      };
      size = ground arith;
      now = λ i h.
          get_or-blit-inside block (take len bytes) offset room' i (omega arith)
          ∙ get_or-take len bytes i 0 h;
      before = λ i h out.
          get_or-blit-outside block (take len bytes) offset room' i
            (elim out [ inl front ↦ inl front | inr behind ↦ inr (omega arith) ])
          ∙ same i h;
    }

module _ (realloc : List ℕ → ℕ → List ℕ) (ok : IsRealloc realloc) where
  grown :
      (s : DynBuf) (offset : ℕ) (bytes : List ℕ) (len : ℕ)
      → IsDynBuf s
      → offset + len < 2 ^ 31
      → len ≤ length bytes
      → add64 offset len ≡ offset + len
      → ltb s.allocated_size (offset + len) ≡ true
      → (s' : DynBuf) × (dbuf_write realloc s offset bytes len ≡ done s')
        × Written s offset bytes len s'
  unfolding dbuf_write
  grown s offset bytes len v small enough end more =
      let n = grown_size (offset + len) s.allocated_size in
      let block = realloc s.buf n in
      let size : length block ≡ n = ok.size s.buf n in
      let bounds =
        grown_size_bounds (offset + len) s.allocated_size small
          (ltb→lt s.allocated_size (offset + len) more) in
      let room : offset + len ≤ length block = omega (arith, bounds.0) in
      let lt = ltb→lt s.allocated_size (offset + len) more in
      (
        filled s block offset bytes len n,
        rw (end, more, memcpy-blit block offset bytes len enough room),
        subst (λ k. Written s offset bytes len (filled s block offset bytes len k)) size
            (filled-Written s block offset bytes len (omega (arith, v.inside, bounds.0)) room enough
              (λ i h.
                ok.kept s.buf n i (omega (arith, v.block, v.inside))
                  (omega (arith, v.inside, bounds.0)))),
      )

  -- On a dynamic buffer whose contents lie in its block, given a `realloc` that succeeds, a
  -- write that ends below 2^31 returns: the block has room for the contents, the size is the
  -- larger of the old one and the end of the write, the bytes written are there, and every
  -- other byte of the old contents is as it was.
  pub dbuf_write-Written :
      (s : DynBuf) (offset : ℕ) (bytes : List ℕ) (len : ℕ)
      → IsDynBuf s
      → offset + len < 2 ^ 31
      → len ≤ length bytes
      → (s' : DynBuf) × (dbuf_write realloc s offset bytes len ≡ done s')
        × Written s offset bytes len s'
  unfolding dbuf_write
  dbuf_write-Written s offset bytes len v small enough =
      let end : add64 offset len ≡ offset + len = omega arith in
      elim (Bool-cases (ltb s.allocated_size (offset + len))) [
        | inl more ↦ grown s offset bytes len v small enough end more
        | inr fits ↦
            let room : offset + len ≤ length s.buf =
              omega (arith, v.block, not_more (offset + len) s.allocated_size fits) in
            (
              filled s s.buf offset bytes len s.allocated_size,
              rw (end, fits, memcpy-blit s.buf offset bytes len enough room),
              subst (λ k. Written s offset bytes len (filled s s.buf offset bytes len k)) v.block
                  (filled-Written s s.buf offset bytes len (omega (arith, v.block, v.inside)) room
                    enough (λ i h. refl)),
            )
      ]
