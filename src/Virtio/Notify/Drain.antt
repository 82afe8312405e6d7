-- ===== src/Virtio/Notify/Drain.antt =====
-- How many requests a notification serves.
use spike_virtio_devices.Prelude.{
  ℕ, zero, suc, ◌+◌, ◌-◌, ◌%◌, ◌^◌, ◌<◌, ◌≡◌, sym, subst, ap, ◌∙◌, arith, false, length,
  get_or-set_self, ◌==◌, Bool-cases, inl, inr, is_neg, u16, add64,
}
use spike_virtio_devices.Prelude.Outcome.{done}
use spike_virtio_devices.Mmu.{Mmu, IsMmu}
use spike_virtio_devices.Virtio.Device.{Machine, queue_at, zero_queue}
use spike_virtio_devices.Virtio.Notify.{
  DeviceRecv, next_avail, notify_step, notify_loop, queue_notify, notify_rounds,
}

module _ {R X : Type 0} (mmu : Mmu R) (fuel : ℕ) (recv : DeviceRecv R X) (queue_idx : ℕ) where
  abbrev pub last_avail : Machine R X → ℕ
  last_avail m = (queue_at m.dev queue_idx).last_avail_idx

  -- `n` rounds in a row, none of which stops the notification.
  pub data Served : ℕ → Machine R X → Machine R X → Type 0 where
    none_left : {m : Machine R X} → Served 0 m m
    one_more :
        {n r : ℕ} {m t u : Machine R X}
        → notify_step mmu fuel recv m queue_idx ≡ done (r, t)
        → is_neg r ≡ false
        → Served n (next_avail t queue_idx) u
        → Served (suc n) m u

  -- A handler that serves every request from `m` on, in states that satisfy `P`.
  pub record ServesAll (P : Machine R X → Type 0) (m : Machine R X) : Type 0 where
    pub answer : ℕ
    pub after : Machine R X
    pub runs : notify_step mmu fuel recv m queue_idx ≡ done (answer, after)
    pub goes_on : is_neg answer ≡ false
    pub same_index : last_avail after ≡ last_avail m
    pub has_queue : queue_idx < length after.dev.queue
    pub keeps : P (next_avail after queue_idx)

  last_avail-next_avail :
      (m : Machine R X)
      → queue_idx < length m.dev.queue
      → last_avail (next_avail m queue_idx) ≡ u16 (last_avail m + 1)
  unfolding next_avail
  last_avail-next_avail m h =
      let qs = queue_at m.dev queue_idx in
      ap (λ q. q.last_avail_idx)
        (get_or-set_self m.dev.queue queue_idx
          (record qs { last_avail_idx = u16 (qs.last_avail_idx + 1) }) zero_queue h)

  -- The rounds from one 16-bit index to another.
  abbrev pub pending : ℕ → ℕ → ℕ
  pending avail_idx last = (avail_idx + 2 ^ 16 - last) % 2 ^ 16

  module _ (P : Machine R X → Type 0) (serves : (m : Machine R X) → P m → ServesAll P m)
      (avail_idx : ℕ) (avail_word : avail_idx < 2 ^ 16) where
    notify_loop-Served :
        (f : ℕ) (m : Machine R X)
        → P m
        → last_avail m < 2 ^ 16
        → pending avail_idx (last_avail m) < f
        → (t : Machine R X) × (notify_loop mmu fuel recv f avail_idx m queue_idx ≡ done t)
          × Served (pending avail_idx (last_avail m)) m t
          × (last_avail t ≡ avail_idx)
    unfolding notify_loop
    notify_loop-Served zero m p word enough = absurd (omega arith)
    notify_loop-Served (suc f) m p word enough = elim (Bool-cases (last_avail m == avail_idx)) [
      | inl stop ↦
          let none_pending : pending avail_idx (last_avail m) ≡ 0 = ground arith in
          (m, rw stop, subst (λ k. Served k m m) (sym none_pending) none_left, ground arith)
      | inr more ↦
          let s = serves m p in
          let u = next_avail s.after queue_idx in
          let index : last_avail u ≡ u16 (last_avail m + 1) =
            last_avail-next_avail s.after s.has_queue ∙ ap (λ k. u16 (k + 1)) s.same_index in
          let one_less : pending avail_idx (last_avail m) ≡ suc (pending avail_idx (last_avail u)) =
            rw index (ground arith) in
          let rest = notify_loop-Served f u s.keeps (omega (arith, index)) (omega arith) in
          (
            rest.0,
            rw (more, s.runs, s.goes_on) rest.1,
            subst (λ k. Served k m rest.0) (sym one_less) (one_more s.runs s.goes_on rest.2),
            rest.3,
          )
    ]

  -- A notification of a queue that is not received by hand, with a handler that serves every
  -- request and leaves the queue's index alone, ends after exactly as many rounds as there are
  -- entries between the device's index and the driver's, modulo 2^16, and the device's index is
  -- then the driver's.
  pub queue_notify-Served :
      IsMmu mmu
      → (P : Machine R X → Type 0) (m : Machine R X) → ((m : Machine R X) → P m → ServesAll P m)
      → P m
      → (queue_at m.dev queue_idx).manual_recv ≡ false
      → last_avail m < 2 ^ 16
      → let avail_idx = mmu.load16 m.ram (add64 (queue_at m.dev queue_idx).avail_addr 2) in
        (t : Machine R X) × (queue_notify mmu fuel recv m queue_idx ≡ done t)
        × Served (pending avail_idx (last_avail m)) m t
        × (last_avail t ≡ avail_idx)
  unfolding queue_notify
  queue_notify-Served ok P m serves p automatic word =
      let a = add64 (queue_at m.dev queue_idx).avail_addr 2 in
      let avail_word : mmu.load16 m.ram a < 2 ^ 16 =
        omega
          (arith, ok.load16_bytes m.ram a, ok.load8-lt m.ram a, ok.load8-lt m.ram (add64 a 1)) in
      rw automatic (notify_loop-Served P serves _ avail_word notify_rounds m p word (omega arith))
