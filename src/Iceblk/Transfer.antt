-- ===== src/Iceblk/Transfer.antt =====
-- What a read request moves from the block device to guest memory.
use spike_virtio_devices.Prelude.{
  ℕ, zero, suc, ◌+◌, ◌*◌, ◌/◌, ◌%◌, ◌^◌, ◌≤◌, ◌<◌, ◌≡◌, ◌≢◌, refl, arith, length, get_or, u64, ◌==◌,
  ltb, lt→ltb, true, subst,
}
use spike_virtio_devices.Prelude.Outcome.{Outcome, done}
use spike_virtio_devices.Mmu.{Mmu64, IsMmu64}
use spike_virtio_devices.Iceblk.{
  Iceblk, sector_size, sector_words, read_blockdevice_u64, word_addr, read_words, read_sectors,
  handle_read_request,
}
use native.Mathlib.Decide.{dec_lt}

-- The words of a block device, and those of guest memory from `req_addr`.
abbrev pub word_at : {R : Type 0} → Iceblk R → ℕ → ℕ
word_at b k = get_or b.blockdevice k 0

abbrev pub dram_addr : {R : Type 0} → Iceblk R → ℕ → ℕ
dram_addr b k = b.req_addr + 8 * k

-- A request whose guest addresses do not wrap, and a block that holds what its size says.
pub record IsRequest {R : Type 0} (b : Iceblk R) : Type 0 where
  pub aligned : b.req_addr % 8 ≡ 0
  pub in_dram : b.req_addr + b.req_len * sector_size ≤ 2 ^ 64
  pub allocated : b.blockdevice_size ≤ 8 * length b.blockdevice
  pub size_word : b.blockdevice_size < 2 ^ 64

module _ {R : Type 0} (mmu : Mmu64 R) (ok : IsMmu64 mmu) (b : Iceblk R) (v : IsRequest b) where
  abbrev with_ram : R → Iceblk R
  with_ram r = record b { ram = r }

  -- The first `k` words have been read.
  abbrev pub ReadWords : ℕ → R → Type 0
  ReadWords k r =
      ((j : ℕ)
        → j < k
        → mmu.load64 r (dram_addr b j) ≡ word_at b (b.req_offset * sector_words + j) % 2 ^ 64)
      × ((a : ℕ)
          → a % 8 ≡ 0
          → ((j : ℕ) → j < k → a ≢ dram_addr b j)
          → mmu.load64 r a ≡ mmu.load64 b.ram a)

  ReadWords-suc :
      (k : ℕ) (r : R)
      → ReadWords k r
      → ReadWords
          (suc k)
          (mmu.store64 r (dram_addr b k) (word_at b (b.req_offset * sector_words + k)))
  ReadWords-suc k r h =
      let w = word_at b (b.req_offset * sector_words + k) in
      let here = dram_addr b k in
      let al = v.aligned in
      (
        λ j lt. elim (dec_lt j k) [
          | yes old ↦ ground (arith, ok.load64-store64 r here w (dram_addr b j), h.0 j old)
          | no new ↦
              let e : j ≡ k = omega arith in rw e (ground (arith, ok.load64-store64 r here w here))
        ],
        λ a am out.
            ground
              (arith, ok.load64-store64 r here w a, out k, h.1 a am (λ j lt. out j (omega arith))),
      )

  read_word :
      (r : R) (sidx w : ℕ)
      → sidx < b.req_len
      → w < 64
      → (b.req_offset + b.req_len) * sector_size ≤ b.blockdevice_size
      → read_blockdevice_u64 (with_ram r) (u64 (sidx + b.req_offset)) (8 * w)
        ≡ done (word_at b (b.req_offset * sector_words + (sidx * sector_words + w)))
  unfolding read_blockdevice_u64
  read_word r sidx w hs hw fits =
      let k = b.req_offset * sector_words + (sidx * sector_words + w) in
      let bytes : u64 (u64 (sidx + b.req_offset) * sector_size + 8 * w) ≡ 8 * k =
        omega (arith, v.size_word) in
      let word : 8 * k / 8 ≡ k = omega arith in
      let whole : (8 * w % 8 == 0) ≡ true = ground arith in
      let in_size : ltb (8 * k) b.blockdevice_size ≡ true = lt→ltb _ _ (omega arith) in
      let in_block : ltb k (length b.blockdevice) ≡ true =
        lt→ltb _ _ (omega (arith, v.allocated)) in
      rw (whole, bytes, in_size, word, in_block)

  -- What a loop has read when it ends at word `k`.
  abbrev ReadTo : ℕ → Outcome (Iceblk R) → Type 0
  ReadTo k o = (r : R) × (o ≡ done (with_ram r)) × ReadWords k r

  module _ (fits : (b.req_offset + b.req_len) * sector_size ≤ b.blockdevice_size) where
    read_words-ReadTo :
        (n w sidx : ℕ) (r : R)
        → sidx < b.req_len
        → n + w ≡ sector_words
        → ReadWords (sidx * sector_words + w) r
        → ReadTo ((sidx + 1) * sector_words) (read_words mmu n sidx (8 * w) (with_ram r))
    unfolding read_words
    read_words-ReadTo zero w sidx r hs e h = (r, refl, subst (λ k. ReadWords k r) (omega arith) h)
    read_words-ReadTo (suc n) w sidx r hs e h =
        let k = sidx * sector_words + w in
        let r' = mmu.store64 r (dram_addr b k) (word_at b (b.req_offset * sector_words + k)) in
        let addr : word_addr mmu (with_ram r) sidx (8 * w) ≡ dram_addr b k =
          omega (arith, v.in_dram) in
        let next : 8 * w + 8 ≡ 8 * (w + 1) = omega arith in
        rw (read_word r sidx w hs (omega arith) fits, addr, next)
          (read_words-ReadTo n (w + 1) sidx r' hs (omega arith) (
            subst (λ j. ReadWords j r') {y = sidx * sector_words + (w + 1)} (omega arith)
              (ReadWords-suc k r h)))

    read_sectors-ReadTo :
        (n sidx : ℕ) (r : R)
        → n + sidx ≡ b.req_len
        → ReadWords (sidx * sector_words) r
        → ReadTo (b.req_len * sector_words) (read_sectors mmu n sidx (with_ram r))
    unfolding read_sectors
    read_sectors-ReadTo zero sidx r e h = (r, refl, subst (λ k. ReadWords k r) (omega arith) h)
    read_sectors-ReadTo (suc n) sidx r e h =
        let sector =
          read_words-ReadTo sector_words 0 sidx r (omega arith) refl
            (subst (λ k. ReadWords k r) (omega arith) h) in
        rw sector.1 (read_sectors-ReadTo n (sidx + 1) sector.0 (omega arith) sector.2)

    -- A read request that lies in the block device, with aligned guest addresses that do not
    -- wrap, succeeds: guest memory from `req_addr` then holds the requested sectors word by
    -- word, every other aligned word is unchanged, and so is the device.
    pub handle_read_request_lem :
        (r : R) × (handle_read_request mmu b ≡ done (with_ram r))
        × ReadWords (b.req_len * sector_words) r
    unfolding handle_read_request
    handle_read_request_lem =
        read_sectors-ReadTo b.req_len 0 b.ram (omega arith)
          (λ j lt. absurd (omega arith), λ a am out. refl)
