-- ===== src/Iceblk/Latency.antt =====
-- When a pending request is served: the latency counter against the number of ticks.
use spike_virtio_devices.Prelude.{
  ℕ, zero, suc, ◌+◌, ◌%◌, ◌<◌, ◌≡◌, arith, true, false, ◌==◌, ltb, u64,
}
use spike_virtio_devices.Prelude.Outcome.{Outcome, done, ◌>>=◌}
use spike_virtio_devices.Mmu.{Mmu64}
use spike_virtio_devices.Iceblk.{Iceblk, tick, serve, blockdevice_latency}

module _ {R : Type 0} (mmu : Mmu64 R) where
  -- `n` ticks in a row.
  abbrev pub run_ticks : ℕ → Iceblk R → Outcome (Iceblk R)
  run_ticks zero b = done b
  run_ticks (suc n) b = tick mmu b >>= run_ticks n

  abbrev at_tick : Iceblk R → ℕ → Iceblk R
  at_tick b c = record b { cur_tick = c }

  tick_waits :
      (b : Iceblk R) (c : ℕ)
      → c + 1 < blockdevice_latency
      → tick mmu (at_tick b c) ≡ done (at_tick b (c + 1))
  unfolding tick
  tick_waits b c h =
      let word : u64 (c + 1) ≡ c + 1 = omega arith in
      let early : (c + 1) % blockdevice_latency == 0 ≡ false = ground arith in
      let counting : ltb 0 (c + 1) ≡ true = ground arith in rw (word, early, counting)

  tick_serves :
      (b : Iceblk R) (c : ℕ)
      → c + 1 ≡ blockdevice_latency
      → tick mmu (at_tick b c) ≡ serve mmu (at_tick b 0) b.pending_tags
  unfolding tick
  tick_serves b c h =
      let word : u64 (c + 1) ≡ c + 1 = omega arith in
      let due : (c + 1) % blockdevice_latency == 0 ≡ true = ground arith in rw (word, due)

  ticks_from :
      (n : ℕ) (b : Iceblk R) (c : ℕ)
      → c + suc n ≡ blockdevice_latency
      → run_ticks (suc n) (at_tick b c) ≡ (serve mmu (at_tick b 0) b.pending_tags >>= done)
  ticks_from zero b c h = rw (tick_serves b c (omega arith))
  ticks_from (suc n) b c h =
      rw (tick_waits b c (omega arith)) (ticks_from n b (c + 1) (omega arith))

  -- The ticks up to the one that completes the latency amount to serving the front pending
  -- request once, with the counter back at 0: nothing happens before.
  pub run_ticks-serve :
      (n : ℕ) (b : Iceblk R)
      → b.cur_tick + suc n ≡ blockdevice_latency
      → run_ticks (suc n) b ≡ (serve mmu (record b { cur_tick = 0 }) b.pending_tags >>= done)
  run_ticks-serve n b h = ticks_from n b b.cur_tick h
