-- ===== src/Virtio/Chain/Fetch.antt =====
-- A copy from a queue to a buffer, against the bytes that the chain holds.
use spike_virtio_devices.Prelude.{
  ℕ, zero, suc, ◌+◌, ◌-◌, ◌^◌, ◌≤◌, ◌<◌, ◌≡◌, inl, inr, refl, sym, ap, subst, ◌∙◌, arith, true,
  false, Option, none, some, List, [], ◌∷◌, ◌==◌, ltb, leb, length, All, add32, sub32, add64,
  sext64, slt, is_neg,
}
use spike_virtio_devices.Prelude.Outcome.{Outcome, done, ◌>>=◌}
use spike_virtio_devices.Cutils.{min_int}
use spike_virtio_devices.Mmu.{Mmu}
use spike_virtio_devices.Virtio.Copy.{virtio_memcpy_from_ram}
use spike_virtio_devices.Virtio.Copy.Flat.{virtio_memcpy_from_ram_lem, slt-pos}
use spike_virtio_devices.Virtio.Chain.{
  Desc, minus_one, advance, blit, get_desc, copy_piece, copy_loop, locate, memcpy_to_from_queue,
  memcpy_from_queue,
}
use spike_virtio_devices.Virtio.Chain.Blit.{length-blit, get_or-blit-inside, get_or-blit-outside}
use native.Mathlib.Decide.{dec_le}
use spike_virtio_devices.Virtio.Chain.Stream.{
  total, IsReadable, Copied, Copied-none, Copied-join, stream_byte, Linked, stream_behind, Found,
  find_offset-Found,
}

module _ {R : Type 0} (mmu : Mmu R) (m : R) (table : ℕ) where
  -- The buffer after a copy that succeeds.
  abbrev pub Copies : (ℕ → ℕ) → List ℕ → ℕ → ℕ → Outcome (ℕ × R × List ℕ) → Type 0
  Copies src buf pos count o = (b : List ℕ) × (o ≡ done (0, m, b)) × Copied buf pos count src b

  copy_piece_lem :
      (buf : List ℕ) (pos addr l : ℕ)
      → l < 2 ^ 31
      → pos + l ≤ length buf
      → (b : List ℕ) × (copy_piece mmu false m buf pos addr l ≡ done (m, b))
        × Copied buf pos l (λ i. mmu.load8 m (add64 addr i)) b
  unfolding copy_piece
  copy_piece_lem buf pos addr zero small room = (buf, refl, Copied-none buf pos _)
  copy_piece_lem buf pos addr (suc n) small room =
      let l = suc n in
      let bytes = virtio_memcpy_from_ram mmu m addr l in
      let read = virtio_memcpy_from_ram_lem mmu m addr l small in
      let some_left : slt 0 l ≡ true = slt-pos l (omega arith) small in
      let fits : leb (pos + l) (length buf) ≡ true = ground arith in
      let room' : pos + length bytes ≤ length buf = omega (arith, read.0) in
      (
        blit buf pos bytes,
        rw (some_left, fits),
        record {
          size = length-blit buf bytes pos room';
          inside =
              λ i h. get_or-blit-inside buf bytes pos room' i (omega (arith, read.0)) ∙ read.1 i h;
          outside = λ i h.
              get_or-blit-outside buf bytes pos room' i
                (elim h [ inl before ↦ inl before | inr after ↦ inr (omega (arith, read.0)) ]);
        },
      )

  -- What is copied of a descriptor from `o` on.
  piece_source :
      (d : Desc) (es : List Desc) (o i : ℕ)
      → o + i < d.len
      → o < 2 ^ 31
      → stream_byte mmu m table (d ∷ es) (o + i) ≡ mmu.load8 m (add64 (add64 d.addr (sext64 o)) i)
  piece_source d es o i inside small =
      let here : ltb (o + i) d.len ≡ true = ground arith in
      let plain : is_neg o ≡ false = ground arith in
      let addr : add64 d.addr (o + i) ≡ add64 (add64 d.addr o) i = omega arith in
      rw (here, plain, addr)

  min_int-le : (a b : ℕ) → a ≤ b → b < 2 ^ 31 → min_int a b ≡ a
  unfolding min_int
  min_int-le a b h small = ground arith

  min_int-gt : (a b : ℕ) → b < a → a < 2 ^ 31 → min_int a b ≡ b
  unfolding min_int
  min_int-gt a b h small = ground arith

  -- The round that copies what is left.
  copy_loop_last :
      (f : ℕ) (d : Desc) (pos o count : ℕ) (buf b : List ℕ)
      → o + count ≤ d.len
      → d.len < 2 ^ 31
      → copy_piece mmu false m buf pos (add64 d.addr (sext64 o)) count ≡ done (m, b)
      → copy_loop mmu (suc f) false table 0 d pos o count (m, buf) ≡ done (0, m, b)
  unfolding copy_loop
  copy_loop_last f d pos o count buf b inside small piece =
      let rest : sub32 d.len o ≡ d.len - o = omega arith in
      let all : min_int count (d.len - o) ≡ count =
        min_int-le count (d.len - o) (omega arith) (omega arith) in
      let none_left : sub32 count count == 0 ≡ true = ground arith in
      rw (rest, all, piece, none_left)

  -- A round that goes on to the next descriptor.
  copy_loop_next :
      (f : ℕ) (d e : Desc) (es : List Desc) (pos o count : ℕ) (buf b : List ℕ)
      → Linked mmu m table d (e ∷ es)
      → IsReadable e
      → o ≤ d.len
      → d.len < o + count
      → o + count < 2 ^ 31
      → copy_piece mmu false m buf pos (add64 d.addr (sext64 o)) (d.len - o) ≡ done (m, b)
      → copy_loop mmu (suc f) false table 0 d pos o count (m, buf)
        ≡ copy_loop mmu f false table 0 e (pos + (d.len - o)) 0 (count - (d.len - o)) (m, b)
  unfolding copy_loop advance
  copy_loop_next f d e es pos o count buf b l readable inside beyond small piece =
      let rest : sub32 d.len o ≡ d.len - o = omega arith in
      let part : min_int count (d.len - o) ≡ d.len - o =
        min_int-gt count (d.len - o) (omega arith) (omega arith) in
      let left : sub32 count (d.len - o) ≡ count - (d.len - o) = omega arith in
      let some_left : count - (d.len - o) == 0 ≡ false = ground arith in
      let forward : is_neg (d.len - o) ≡ false = ground arith in
      let end : add32 o (d.len - o) ≡ d.len = omega arith in
      let at_end : d.len == d.len ≡ true = ground arith in
      rw (rest, part, left, piece, some_left, forward, end, at_end, l.0, l.1, readable)

  copy_loop-Copies_last :
      (f : ℕ) (d : Desc) (es : List Desc) (pos o count : ℕ) (buf : List ℕ)
      → o + count ≤ d.len
      → d.len < 2 ^ 31
      → pos + count ≤ length buf
      → Copies
          (λ i. stream_byte mmu m table (d ∷ es) (o + i))
          buf
          pos
          count
          (copy_loop mmu (suc f) false table 0 d pos o count (m, buf))
  copy_loop-Copies_last f d es pos o count buf whole small room =
      let p = copy_piece_lem buf pos (add64 d.addr (sext64 o)) count (omega arith) room in
      (
        p.0,
        copy_loop_last f d pos o count buf p.0 whole small p.1,
        record {
          size = p.2.size;
          inside = λ i h. p.2.inside i h ∙ sym (piece_source d es o i (omega arith) (omega arith));
          outside = p.2.outside;
        },
      )

  copy_loop-Copies :
      (f : ℕ) (d : Desc) (es : List Desc) (pos o count : ℕ) (buf : List ℕ)
      → Linked mmu m table d es
      → All IsReadable (d ∷ es)
      → o ≤ d.len
      → o + count ≤ total (d ∷ es)
      → total (d ∷ es) < 2 ^ 31
      → pos + count ≤ length buf
      → length es < f
      → Copies
          (λ i. stream_byte mmu m table (d ∷ es) (o + i))
          buf
          pos
          count
          (copy_loop mmu f false table 0 d pos o count (m, buf))
  copy_loop-Copies zero d es pos o count buf l r inside held small room enough =
      absurd (omega arith)
  copy_loop-Copies (suc f) d [] pos o count buf l r inside held small room enough =
      copy_loop-Copies_last f d [] pos o count buf (omega arith) (omega arith) room
  copy_loop-Copies (suc f) d (e ∷ es) pos o count buf l r inside held small room enough =
      elim (dec_le (o + count) d.len) [
        | yes whole ↦ copy_loop-Copies_last f d (e ∷ es) pos o count buf whole (omega arith) room
        | no part ↦
            let n = d.len - o in
            let p =
              copy_piece_lem buf pos (add64 d.addr (sext64 o)) n (omega arith) (omega arith) in
            let rest =
              copy_loop-Copies f e es (pos + n) 0 (count - n) p.0 l.2 r.1 (omega arith)
                (omega arith) (omega arith) (omega (arith, p.2.size)) (omega arith) in
            let split : n + (count - n) ≡ count = omega arith in
            (
              rest.0,
              copy_loop_next f d e es pos o count buf p.0 l r.1.0 inside (omega arith) (omega arith)
                    p.1
                  ∙ rest.1,
              subst
                  (λ c. Copied buf pos c (λ i. stream_byte mmu m table (d ∷ e ∷ es) (o + i)) rest.0)
                  split
                  (Copied-join buf pos n (count - n) _ _ _ p.0 rest.0 p.2 rest.2
                    (λ i h. piece_source d (e ∷ es) o i (omega arith) (omega arith))
                    (λ i h.
                      let at : o + (n + i) ≡ d.len + i = omega arith in
                      ap (stream_byte mmu m table (d ∷ e ∷ es)) at
                      ∙ stream_behind mmu m table d (e ∷ es) i
                      ∙ ap (stream_byte mmu m table (e ∷ es)) (omega arith))),
            )
      ]

  -- What follows once the data's start is found.
  found_copied :
      (fuel : ℕ) (d : Desc) (es : List Desc) (buf : List ℕ) (offset count : ℕ)
      (o : Outcome (Option (Desc × ℕ)))
      → Found mmu m table (d ∷ es) offset (length es) o
      → total (d ∷ es) < 2 ^ 31
      → offset + count ≤ total (d ∷ es)
      → count ≤ length buf
      → length es < fuel
      → Copies
          (λ i. stream_byte mmu m table (d ∷ es) (offset + i))
          buf
          0
          count
          (o >>= λ found. (elim found [
            | none ↦ done (minus_one, m, buf)
            | some (d, o) ↦ copy_loop mmu fuel false table 0 d 0 o count (m, buf)
          ]))
  found_copied fuel d es buf offset count o at small held room enough =
      let c =
        copy_loop-Copies fuel at.at at.behind 0 at.start count buf at.linked at.readable
          (omega (arith, at.within)) (omega (arith, at.left)) (omega (arith, at.left, at.earlier))
          (omega arith) (omega (arith, at.shorter)) in
      rw at.found (
        c.0,
        c.1,
        record {
          size = c.2.size;
          inside = λ i h. c.2.inside i h ∙ at.same i;
          outside = c.2.outside;
        },
      )

  -- On a chain of readable buffers of fewer than 2^31 bytes that holds the bytes asked for,
  -- `memcpy_from_queue`, with fuel for its descriptors and a buffer with room, returns 0,
  -- leaves guest memory alone, and fills the first `count` bytes of the buffer, and no others,
  -- with the bytes from `offset` on of the chain's buffers taken one after the other.
  pub memcpy_from_queue-stream_byte :
      (fuel desc_idx : ℕ) (es : List Desc) (buf : List ℕ) (offset count : ℕ)
      → Linked mmu m table (get_desc mmu m table desc_idx) es
      → All IsReadable (get_desc mmu m table desc_idx ∷ es)
      → total (get_desc mmu m table desc_idx ∷ es) < 2 ^ 31
      → offset + count ≤ total (get_desc mmu m table desc_idx ∷ es)
      → count ≤ length buf
      → length es < fuel
      → Copies
          (λ i. stream_byte mmu m table (get_desc mmu m table desc_idx ∷ es) (offset + i))
          buf
          0
          count
          (memcpy_from_queue mmu fuel m table buf desc_idx offset count)
  unfolding memcpy_from_queue memcpy_to_from_queue locate
  memcpy_from_queue-stream_byte fuel desc_idx es buf offset zero l r small held room enough =
      (buf, refl, Copied-none buf 0 _)
  memcpy_from_queue-stream_byte fuel desc_idx es buf offset (suc n) l r small held room enough =
      let d = get_desc mmu m table desc_idx in
      let at = find_offset-Found mmu m table fuel d es offset l r (omega arith) small enough in
      let some_left : suc n == 0 ≡ false = ground arith in
      rw some_left (found_copied fuel d es buf offset (suc n) _ at small held room enough)
