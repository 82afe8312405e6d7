-- ===== src/Iceblk/Writing.antt =====
-- What a write request moves from guest memory to the block device.
use spike_virtio_devices.Prelude.{
  ℕ, zero, suc, ◌+◌, ◌*◌, ◌/◌, ◌≤◌, ◌<◌, ◌≡◌, refl, subst, ◌∙◌, arith, true, List, length, get_or,
  set, get_or-set_self, get_or-set_ne, length-set, u64, ltb, lt→ltb,
}
use spike_virtio_devices.Prelude.Outcome.{Outcome, done}
use spike_virtio_devices.Mmu.{Mmu64}
use spike_virtio_devices.Iceblk.{
  Iceblk, sector_size, sector_words, write_blockdevice_u64, word_addr, write_words, write_sectors,
  handle_write_request,
}
use spike_virtio_devices.Iceblk.Transfer.{word_at, dram_addr, IsRequest}
use native.Mathlib.Decide.{dec_lt}

module _ {R : Type 0} (mmu : Mmu64 R) (b : Iceblk R) (v : IsRequest b) where
  abbrev pub with_block : List ℕ → Iceblk R
  with_block ws = record b { blockdevice = ws }

  -- The first `k` words of the block device have been written.
  abbrev pub WroteWords : ℕ → List ℕ → Type 0
  WroteWords k ws =
      (length ws ≡ length b.blockdevice)
      × ((j : ℕ) → j < k → get_or ws j 0 ≡ mmu.load64 b.ram (dram_addr b j))
      × ((j : ℕ) → k ≤ j → get_or ws j 0 ≡ word_at b j)

  WroteWords-suc :
      (k : ℕ) (ws : List ℕ)
      → k < length b.blockdevice
      → WroteWords k ws
      → WroteWords (suc k) (set ws k (mmu.load64 b.ram (dram_addr b k)))
  WroteWords-suc k ws room h =
      let x = mmu.load64 b.ram (dram_addr b k) in
      (
        length-set ws k x ∙ h.0,
        λ j lt. elim (dec_lt j k) [
          | yes old ↦ get_or-set_ne ws k j x 0 (omega arith) ∙ h.1 j old
          | no new ↦
              let e : j ≡ k = omega arith in rw e (get_or-set_self ws k x 0 (omega (arith, h.0)))
        ],
        λ j le. get_or-set_ne ws k j x 0 (omega arith) ∙ h.2 j (omega arith),
      )

  write_word :
      (ws : List ℕ) (x k sidx w : ℕ)
      → sidx < b.req_len
      → w < 64
      → b.req_len * sector_size ≤ b.blockdevice_size
      → length ws ≡ length b.blockdevice
      → k ≡ sidx * sector_words + w
      → write_blockdevice_u64 (with_block ws) x sidx (8 * w) ≡ done (with_block (set ws k x))
  unfolding write_blockdevice_u64
  write_word ws x k sidx w hs hw fits len e =
      let bytes : u64 (sidx * sector_size + 8 * w) ≡ 8 * k = omega (arith, v.size_word) in
      let word : 8 * k / 8 ≡ k = omega arith in
      let in_size : ltb (8 * k) b.blockdevice_size ≡ true = lt→ltb _ _ (omega arith) in
      let in_block : ltb k (length ws) ≡ true = lt→ltb _ _ (omega (arith, v.allocated)) in
      rw (bytes, in_size, word, in_block)

  abbrev WroteTo : ℕ → Outcome (Iceblk R) → Type 0
  WroteTo k o = (ws : List ℕ) × (o ≡ done (with_block ws)) × WroteWords k ws

  module _ (fits : b.req_len * sector_size ≤ b.blockdevice_size) where
    write_words-WroteTo :
        (n w sidx : ℕ) (ws : List ℕ)
        → sidx < b.req_len
        → n + w ≡ sector_words
        → WroteWords (sidx * sector_words + w) ws
        → WroteTo ((sidx + 1) * sector_words) (write_words mmu n sidx (8 * w) (with_block ws))
    unfolding write_words
    write_words-WroteTo zero w sidx ws hs e h =
        (ws, refl, subst (λ k. WroteWords k ws) (omega arith) h)
    write_words-WroteTo (suc n) w sidx ws hs e h =
        let k = sidx * sector_words + w in
        let x = mmu.load64 b.ram (dram_addr b k) in
        let addr : word_addr mmu (with_block ws) sidx (8 * w) ≡ dram_addr b k =
          omega (arith, v.in_dram) in
        let next : 8 * w + 8 ≡ 8 * (w + 1) = omega arith in
        rw (addr, write_word ws x k sidx w hs (omega arith) fits h.0 refl, next)
          (write_words-WroteTo n (w + 1) sidx (set ws k x) hs (omega arith) (
            subst (λ j. WroteWords j (set ws k x)) {y = sidx * sector_words + (w + 1)} (omega arith)
              (WroteWords-suc k ws (omega (arith, v.allocated)) h)))

    write_sectors-WroteTo :
        (n sidx : ℕ) (ws : List ℕ)
        → n + sidx ≡ b.req_len
        → WroteWords (sidx * sector_words) ws
        → WroteTo (b.req_len * sector_words) (write_sectors mmu n sidx (with_block ws))
    unfolding write_sectors
    write_sectors-WroteTo zero sidx ws e h =
        (ws, refl, subst (λ k. WroteWords k ws) (omega arith) h)
    write_sectors-WroteTo (suc n) sidx ws e h =
        let sector =
          write_words-WroteTo sector_words 0 sidx ws (omega arith) refl
            (subst (λ k. WroteWords k ws) (omega arith) h) in
        rw sector.1 (write_sectors-WroteTo n (sidx + 1) sector.0 (omega arith) sector.2)

    -- A write request with aligned guest addresses that do not wrap and no more sectors than
    -- the block device copies them from guest memory to the start of the block device, word by
    -- word, whatever the requested offset: the words behind them and the rest of the device are
    -- unchanged.
    pub handle_write_request_lem :
        (ws : List ℕ) × (handle_write_request mmu b ≡ done (with_block ws))
        × WroteWords (b.req_len * sector_words) ws
    unfolding handle_write_request
    handle_write_request_lem =
        write_sectors-WroteTo b.req_len 0 b.blockdevice (omega arith)
          (refl, λ j lt. absurd (omega arith), λ j le. refl)
