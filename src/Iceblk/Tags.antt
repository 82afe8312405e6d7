-- ===== src/Iceblk/Tags.antt =====
-- The life of a request: one tag that is idle, pending or completed, the interrupt that goes with
-- a completed one, and when a pending request is served.
use spike_virtio_devices.Prelude.{
  ℕ, zero, suc, ◌+◌, ◌*◌, ◌/◌, ◌%◌, ◌≡◌, refl, ap, arith, Bool, true, false, Option, List, [], ◌∷◌,
  length, length-append, ◌==◌, ltb, if◌then◌else◌, set, u64,
}
use spike_virtio_devices.Prelude.Outcome.{
  Outcome, done, aborted, fault, out_of_fuel, Ensures-trivial, Ensures, Ensures->>=, Ensures-if,
}
use spike_virtio_devices.Mmu.{Mmu64}
use spike_virtio_devices.Iceblk.{
  Iceblk, sector_size, sector_words, read_blockdevice_u64, write_blockdevice_u64, word_addr,
  read_words, read_sectors, handle_read_request, write_words, write_sectors, handle_write_request,
  handle_request, post_request, complete, load, serve, tick, advance_tick, assert, in_array,
}

Ensures-assert :
    {A : Type 0} (P : A → Type 0) (test : Bool) (next : Outcome A)
    → Ensures P next
    → Ensures P (assert test next)
Ensures-assert P true next h = h
Ensures-assert P false next h = tt

Ensures-in_array :
    {A : Type 0} (P : A → Type 0) (xs : List ℕ) (i : ℕ) (next : Outcome A)
    → Ensures P next
    → Ensures P (in_array xs i next)
Ensures-in_array P xs i next h = Ensures-if P (ltb i (length xs)) next fault h tt

module _ {R : Type 0} where
  -- There is one tracker (`trackers = 1`), and the interrupt is up exactly while a completed request
  -- has not been collected.
  pub record IsTracked (b : Iceblk R) : Type 0 where
    pub one_tag : length b.idle_tags + length b.pending_tags + length b.cmpl_tags ≡ 1
    pub line : b.irq ≡ (if length b.cmpl_tags == 0 then 0 else 1)

  -- What a transfer leaves alone.
  record SameTags (b t : Iceblk R) : Type 0 where
    idle : t.idle_tags ≡ b.idle_tags
    pending : t.pending_tags ≡ b.pending_tags
    cmpl : t.cmpl_tags ≡ b.cmpl_tags

  SameTags-trans : (a : Iceblk R) {b c : Iceblk R} → SameTags a b → SameTags b c → SameTags a c
  SameTags-trans a h k = ground arith

  Ensures-SameTags :
      (a b : Iceblk R) (o : Outcome (Iceblk R))
      → SameTags a b
      → Ensures (SameTags b) o
      → Ensures (SameTags a) o
  Ensures-SameTags a b (done t) h k = SameTags-trans a h k
  Ensures-SameTags a b aborted h k = tt
  Ensures-SameTags a b fault h k = tt
  Ensures-SameTags a b out_of_fuel h k = tt

  write_blockdevice_u64-SameTags :
      (b : Iceblk R) (x sidx i : ℕ) → Ensures (SameTags b) (write_blockdevice_u64 b x sidx i)
  unfolding write_blockdevice_u64
  write_blockdevice_u64-SameTags b x sidx i =
      let P = SameTags b in
      let byte_idx = u64 (sidx * sector_size + i) in
      let t = record b { blockdevice = set b.blockdevice (byte_idx / 8) x } in
      Ensures-assert P (ltb byte_idx b.blockdevice_size)
        (in_array b.blockdevice (byte_idx / 8) (done t))
        (Ensures-in_array P b.blockdevice (byte_idx / 8) (done t)
          (record { idle = refl; pending = refl; cmpl = refl }))

module _ {R : Type 0} (mmu : Mmu64 R) where
  read_words-SameTags :
      (n sidx i : ℕ) (b : Iceblk R) → Ensures (SameTags b) (read_words mmu n sidx i b)
  unfolding read_words
  read_words-SameTags zero sidx i b = record { idle = refl; pending = refl; cmpl = refl }
  read_words-SameTags (suc n) sidx i b =
      Ensures->>= (λ _. Unit) _ (read_blockdevice_u64 b (u64 (sidx + b.req_offset)) i) _
        (Ensures-trivial _)
        λ x _.
          let t = record b { ram = mmu.store64 b.ram (word_addr mmu b sidx i) x } in
          Ensures-SameTags b t (read_words mmu n sidx (i + 8) t)
            (record { idle = refl; pending = refl; cmpl = refl })
            (read_words-SameTags n sidx (i + 8) t)

  read_sectors-SameTags :
      (n sidx : ℕ) (b : Iceblk R) → Ensures (SameTags b) (read_sectors mmu n sidx b)
  unfolding read_sectors
  read_sectors-SameTags zero sidx b = record { idle = refl; pending = refl; cmpl = refl }
  read_sectors-SameTags (suc n) sidx b =
      Ensures->>= (SameTags b) _ (read_words mmu sector_words sidx 0 b) _
        (read_words-SameTags sector_words sidx 0 b)
        λ t h.
          Ensures-SameTags b t (read_sectors mmu n (sidx + 1) t) h
            (read_sectors-SameTags n (sidx + 1) t)

  write_words-SameTags :
      (n sidx i : ℕ) (b : Iceblk R) → Ensures (SameTags b) (write_words mmu n sidx i b)
  unfolding write_words
  write_words-SameTags zero sidx i b = record { idle = refl; pending = refl; cmpl = refl }
  write_words-SameTags (suc n) sidx i b =
      Ensures->>= (SameTags b) _ (write_blockdevice_u64 b _ sidx i) _
        (write_blockdevice_u64-SameTags b _ sidx i)
        λ t h.
          Ensures-SameTags b t (write_words mmu n sidx (i + 8) t) h
            (write_words-SameTags n sidx (i + 8) t)

  write_sectors-SameTags :
      (n sidx : ℕ) (b : Iceblk R) → Ensures (SameTags b) (write_sectors mmu n sidx b)
  unfolding write_sectors
  write_sectors-SameTags zero sidx b = record { idle = refl; pending = refl; cmpl = refl }
  write_sectors-SameTags (suc n) sidx b =
      Ensures->>= (SameTags b) _ (write_words mmu sector_words sidx 0 b) _
        (write_words-SameTags sector_words sidx 0 b)
        λ t h.
          Ensures-SameTags b t (write_sectors mmu n (sidx + 1) t) h
            (write_sectors-SameTags n (sidx + 1) t)

  -- After a request the line is up and the tags are where they were.
  record Raised (b t : Iceblk R) : Type 0 where
    same : SameTags b t
    up : t.irq ≡ 1

  handle_request-Raised : (b : Iceblk R) → Ensures (Raised b) (handle_request mmu b)
  unfolding handle_request handle_read_request handle_write_request
  handle_request-Raised b = Ensures-assert (Raised b) (b.req_addr % 8 == 0) _ (
      Ensures->>= (SameTags b) (Raised b) _ _
        (Ensures-if (SameTags b) (b.req_write == 0) _ _ (read_sectors-SameTags b.req_len 0 b)
          (write_sectors-SameTags b.req_len 0 b))
        λ t h. record {
          same = record { idle = h.idle; pending = h.pending; cmpl = h.cmpl };
          up = refl;
        })

  serve-IsTracked :
      (b : Iceblk R) (pending : List ℕ)
      → b.pending_tags ≡ pending
      → IsTracked b
      → Ensures IsTracked (serve mmu b pending)
  unfolding serve
  serve-IsTracked b [] e v = v
  serve-IsTracked b (tag ∷ rest) e v =
      Ensures->>= (Raised b) IsTracked (handle_request mmu b) _ (handle_request-Raised b) λ t h.
        record {
          one_tag = ground (
            arith,
            length-append t.cmpl_tags (tag ∷ []),
            ap length e,
            ap length h.same.idle,
            ap length h.same.cmpl,
          );
          line = ground (arith, length-append t.cmpl_tags (tag ∷ []));
        }

  -- A tick that returns, on a device whose one tag is idle, pending or completed and whose
  -- interrupt line is up exactly while a completed request waits, leaves such a device.
  pub tick-IsTracked : (b : Iceblk R) → IsTracked b → Ensures IsTracked (tick mmu b)
  unfolding tick
  tick-IsTracked b v =
      let b' = advance_tick mmu b in
      let v' : IsTracked b' = record { one_tag = v.one_tag; line = v.line } in
      Ensures-if IsTracked (ltb 0 b'.cur_tick) (done b') (serve mmu b' b'.pending_tags) v'
        (serve-IsTracked b' b'.pending_tags refl v')

module _ {R : Type 0} where
  post_request-IsTracked :
      (b : Iceblk R) (idle : List ℕ)
      → b.idle_tags ≡ idle
      → IsTracked b
      → Ensures IsTracked (post_request b idle)
  unfolding post_request
  post_request-IsTracked b [] e v = tt
  post_request-IsTracked b (tag ∷ rest) e v = record {
    one_tag = ground (arith, length-append b.pending_tags (tag ∷ []), ap length e);
    line = v.line;
  }

  abbrev pub Loaded : Option ℕ × Iceblk R → Type 0
  Loaded r = IsTracked r.1

  complete-IsTracked :
      (b : Iceblk R) (cmpl : List ℕ)
      → b.cmpl_tags ≡ cmpl
      → IsTracked b
      → Ensures Loaded (complete b cmpl)
  unfolding complete
  complete-IsTracked b [] e v = tt
  complete-IsTracked b (tag ∷ []) e v = record {
    one_tag = ground (arith, length-append b.idle_tags (tag ∷ []), ap length e);
    line = refl;
  }
  complete-IsTracked b (tag ∷ tag' ∷ rest) e v = absurd (ground (arith, ap length e, v.one_tag))

  -- A load at any address that returns, also one that posts or collects a request, keeps the
  -- one tag idle, pending or completed, and the interrupt line up exactly while a completed
  -- request waits.
  pub load-IsTracked :
      (b : Iceblk R) (addr len : ℕ) → IsTracked b → Ensures Loaded (load b addr len)
  unfolding load
  load-IsTracked b addr len v =
      let P = Loaded in
      Ensures-if P (ltb 8 len) _ _ v (
        Ensures-if P (addr == 17) _ _
          (Ensures->>= IsTracked P (post_request b b.idle_tags) _
            (post_request-IsTracked b b.idle_tags refl v) (λ t h. h))
          (Ensures-if P (addr == 18) _ _ v (
            Ensures-if P (addr == 20) _ _ v (
              Ensures-if P (addr == 19) _ _ (complete-IsTracked b b.cmpl_tags refl v)
                (Ensures-if P (addr == 24) _ _ v (Ensures-if P (addr == 28) _ _ v v))))))
