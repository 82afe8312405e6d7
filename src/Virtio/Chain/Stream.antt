-- ===== src/Virtio/Chain/Stream.antt =====
-- `memcpy_from_queue` against the bytes that a chain of readable buffers holds in guest memory.
use spike_virtio_devices.Prelude.{
  ℕ, zero, suc, ◌+◌, ◌-◌, ◌^◌, ◌≤◌, ◌<◌, ◌≡◌, ◌⊎◌, inl, inr, refl, sym, ap, ◌∙◌, arith, true, false,
  Option, some, List, [], ◌∷◌, ltb, lt→ltb, length, get_or, if◌then◌else◌, All, sub32, add64,
}
use spike_virtio_devices.Prelude.Outcome.{Outcome, done}
use spike_virtio_devices.Mmu.{Mmu}
use spike_virtio_devices.Virtio.Chain.{Desc, write_flag, has_next, get_desc, find_offset}
use native.Mathlib.Decide.{dec_lt}

-- The total size of some buffers.
abbrev pub total : List Desc → ℕ
total [] = 0
total (d ∷ ds) = d.len + total ds

abbrev pub IsReadable : Desc → Type 0
IsReadable d = write_flag d ≡ 0

-- `count` bytes of `buf` from `pos` have become those of `src`, and nothing else has changed.
pub record Copied (buf : List ℕ) (pos count : ℕ) (src : ℕ → ℕ) (buf' : List ℕ) : Type 0 where
  pub size : length buf' ≡ length buf
  pub inside : (i : ℕ) → i < count → get_or buf' (pos + i) 0 ≡ src i
  pub outside : (i : ℕ) → i < pos ⊎ pos + count ≤ i → get_or buf' i 0 ≡ get_or buf i 0

pub Copied-none : (buf : List ℕ) (pos : ℕ) (src : ℕ → ℕ) → Copied buf pos 0 src buf
Copied-none buf pos src = record {
  size = refl;
  inside = λ i h. absurd (omega arith);
  outside = λ i h. refl;
}

-- Two copies, one behind the other.
pub Copied-join :
    (buf : List ℕ) (pos l count : ℕ) (src first second : ℕ → ℕ) (b1 b2 : List ℕ)
    → Copied buf pos l first b1
    → Copied b1 (pos + l) count second b2
    → ((i : ℕ) → i < l → src i ≡ first i)
    → ((i : ℕ) → i < count → src (l + i) ≡ second i)
    → Copied buf pos (l + count) src b2
Copied-join buf pos l count src first second b1 b2 h k p q = record {
  size = k.size ∙ h.size;
  inside = λ i lt. elim (dec_lt i l) [
    | yes below ↦ k.outside (pos + i) (inl (omega arith)) ∙ h.inside i below ∙ sym (p i below)
    | no above ↦
        let e : pos + l + (i - l) ≡ pos + i = omega arith in
        let e' : l + (i - l) ≡ i = omega arith in
        ap (λ j. get_or b2 j 0) (sym e)
        ∙ k.inside (i - l) (omega arith)
        ∙ sym (q (i - l) (omega arith))
        ∙ ap src e'
  ];
  outside = λ i o. elim o [
    | inl before ↦ k.outside i (inl (omega arith)) ∙ h.outside i (inl before)
    | inr after ↦ k.outside i (inr (omega arith)) ∙ h.outside i (inr (omega arith))
  ];
}

module _ {R : Type 0} (mmu : Mmu R) (m : R) (table : ℕ) where
  -- Byte `i` of what the buffers hold one after the other.
  abbrev pub stream_byte : List Desc → ℕ → ℕ
  stream_byte [] i = 0
  stream_byte (d ∷ ds) i =
      if ltb i d.len then mmu.load8 m (add64 d.addr i) else stream_byte ds (i - d.len)

  -- `es` follow `d` in guest memory, whatever follows them.
  abbrev pub Linked : Desc → List Desc → Type 0
  Linked d [] = Unit
  Linked d (e ∷ es) = (has_next d ≡ true) × (get_desc mmu m table d.next ≡ e) × Linked e es

  pub stream_behind :
      (d : Desc) (ds : List Desc) (i : ℕ) → stream_byte (d ∷ ds) (d.len + i) ≡ stream_byte ds i
  stream_behind d ds i =
      let behind : ltb (d.len + i) d.len ≡ false = ground arith in
      let index : d.len + i - d.len ≡ i = omega arith in rw (behind, index)

  -- The bytes from `o` of the buffers `e ∷ es` are those from `offset` of `ds`.
  pub record Found (ds : List Desc) (offset : ℕ) (n : ℕ) (o : Outcome (Option (Desc × ℕ)))
      : Type 0 where
    pub at : Desc
    pub behind : List Desc
    pub start : ℕ
    pub found : o ≡ done (some (at, start))
    pub linked : Linked at behind
    pub readable : All IsReadable (at ∷ behind)
    pub within : start < at.len
    pub shorter : length behind ≤ n
    pub earlier : start ≤ offset
    pub left : start + total ds ≡ offset + total (at ∷ behind)
    pub same : (i : ℕ) → stream_byte (at ∷ behind) (start + i) ≡ stream_byte ds (offset + i)

  Found-later :
      (f : ℕ) (d e : Desc) (es : List Desc) (offset : ℕ)
      → Linked d (e ∷ es)
      → IsReadable d
      → d.len ≤ offset
      → Found (e ∷ es) (offset - d.len) (length es) (find_offset mmu f m table 0 e (offset - d.len))
      → offset < 2 ^ 31
      → Found (d ∷ e ∷ es) offset (length (e ∷ es)) (find_offset mmu (suc f) m table 0 d offset)
  unfolding find_offset
  Found-later f d e es offset l readable beyond n small =
      let on : ltb offset d.len ≡ false = ground arith in
      let rest : sub32 offset d.len ≡ offset - d.len = omega arith in
      record {
        at = n.at;
        behind = n.behind;
        start = n.start;
        found = rw (readable, on, l.0, l.1, rest) n.found;
        linked = n.linked;
        readable = n.readable;
        within = n.within;
        shorter = omega (arith, n.shorter);
        earlier = omega (arith, n.earlier);
        left = omega (arith, n.left);
        same = λ i.
            let back : d.len + (offset - d.len + i) ≡ offset + i = omega arith in
            n.same i
            ∙ sym (stream_behind d (e ∷ es) (offset - d.len + i))
            ∙ ap (stream_byte (d ∷ e ∷ es)) back;
      }

  pub find_offset-Found :
      (f : ℕ) (d : Desc) (es : List Desc) (offset : ℕ)
      → Linked d es
      → All IsReadable (d ∷ es)
      → offset < total (d ∷ es)
      → total (d ∷ es) < 2 ^ 31
      → length es < f
      → Found (d ∷ es) offset (length es) (find_offset mmu f m table 0 d offset)
  unfolding find_offset
  find_offset-Found zero d es offset l r h small enough = absurd (omega arith)
  find_offset-Found (suc f) d [] offset l r h small enough =
      let here : ltb offset d.len ≡ true = ground arith in
      record {
        at = d;
        behind = [];
        start = offset;
        found = rw (r.0, here);
        linked = l;
        readable = r;
        within = omega arith;
        shorter = omega arith;
        earlier = omega arith;
        left = refl;
        same = λ i. refl;
      }
  find_offset-Found (suc f) d (e ∷ es) offset l r h small enough = elim (dec_lt offset d.len) [
    | yes inside ↦
        let here : ltb offset d.len ≡ true = lt→ltb _ _ inside in
        record {
          at = d;
          behind = e ∷ es;
          start = offset;
          found = rw (r.0, here);
          linked = l;
          readable = r;
          within = inside;
          shorter = omega arith;
          earlier = omega arith;
          left = refl;
          same = λ i. refl;
        }
    | no beyond ↦
        Found-later f d e es offset l r.0 (omega arith)
          (find_offset-Found f e es (offset - d.len) l.2 r.1 (omega arith) (omega arith)
            (omega arith))
          (omega arith)
  ]
