-- ===== src/Virtio/Notify.antt =====
-- src/virtio.cc: `virtio_consume_desc` and `queue_notify`. The callback `device_recv` is an
-- argument that returns its `int` as a pattern and the machine after it.
pub mod Valid
pub mod Drain
use spike_virtio_devices.Prelude.{
  ℕ, zero, suc, ◌+◌, ◌*◌, ◌^◌, Option, none, some, ◌==◌, if◌then◌else◌, bit_and, bit_or, sub32,
  add64, u16, u32, is_neg,
}
use spike_virtio_devices.Prelude.Outcome.{Outcome, done, out_of_fuel, ◌>>=◌}
use spike_virtio_devices.Mmu.{Mmu}
use spike_virtio_devices.Virtio.Device.{
  QueueState, VirtioDevice, Machine, queue_at, set_queue, set_irq,
}
use spike_virtio_devices.Virtio.Copy.{virtio_read16, virtio_write16, virtio_write32}
use spike_virtio_devices.Virtio.Chain.{get_desc_rw_size}

abbrev pub DeviceRecv : Type 0 → Type 0 → Type 0
DeviceRecv R X = Machine R X → ℕ → ℕ → ℕ → ℕ → Outcome (ℕ × Machine R X)

-- Rounds enough for a 16-bit index to come round to any other.
abbrev pub notify_rounds : ℕ
notify_rounds = 2 ^ 16 + 1

-- `qs->used_addr + 4 + (index & (qs->num - 1)) * 8`
abbrev pub used_entry : QueueState → ℕ → ℕ
used_entry qs index = add64 qs.used_addr (4 + bit_and index (sub32 qs.num 1) * 8)

-- `qs->avail_addr + 4 + (qs->last_avail_idx & (qs->num - 1)) * 2`
abbrev pub avail_entry : QueueState → ℕ
avail_entry qs = add64 qs.avail_addr (4 + bit_and qs.last_avail_idx (sub32 qs.num 1) * 2)

module _ {R : Type 0} (mmu : Mmu R) where
  -- The writes to the used ring.
  unfoldable pub write_used : R → QueueState → ℕ → ℕ → R
  write_used m qs desc_idx desc_len =
      let addr = add64 qs.used_addr 2 in
      let index = virtio_read16 mmu m addr in
      let m1 = virtio_write16 mmu m addr (index + 1) in
      let entry = used_entry qs index in
      virtio_write32 mmu (virtio_write32 mmu m1 entry desc_idx) (add64 entry 4) desc_len

-- `qs->last_avail_idx++`
unfoldable pub next_avail : {R X : Type 0} → Machine R X → ℕ → Machine R X
next_avail m queue_idx =
    let qs = queue_at m.dev queue_idx in
    record m {
      dev = set_queue m.dev queue_idx (record qs { last_avail_idx = u16 (qs.last_avail_idx + 1) });
    }

module _ {R X : Type 0} (mmu : Mmu R) where
  unfoldable pub virtio_consume_desc : Machine R X → ℕ → ℕ → ℕ → Machine R X
  unfolding write_used set_irq
  virtio_consume_desc m queue_idx desc_idx desc_len =
      let s = m.dev in
      record m {
        ram = write_used mmu m.ram (queue_at s queue_idx) desc_idx desc_len;
        dev = set_irq (record s { int_status = bit_or s.int_status 1 }) 1;
      }

  module _ (fuel : ℕ) (device_recv : DeviceRecv R X) where
    -- One round: the machine, and whether the notification stops.
    unfoldable pub notify_step : Machine R X → ℕ → Outcome (ℕ × Machine R X)
    notify_step m queue_idx = do
      let qs = queue_at m.dev queue_idx
      let desc_idx = virtio_read16 mmu m.ram (avail_entry qs)
      sizes ← get_desc_rw_size mmu fuel m.ram qs.desc_addr desc_idx
      elim sizes [
        | none ↦ done (0, m)
        | some (read_size, write_size) ↦ device_recv m queue_idx desc_idx read_size write_size
      ]

    unfoldable pub notify_loop : ℕ → ℕ → Machine R X → ℕ → Outcome (Machine R X)
    notify_loop zero avail_idx m queue_idx = out_of_fuel
    notify_loop (suc f) avail_idx m queue_idx =
        let more = notify_step m queue_idx >>= λ r.
        (let rest = notify_loop f avail_idx (next_avail (r.1) queue_idx) queue_idx in
          if is_neg r.0 then done r.1 else rest) in
        if (queue_at m.dev queue_idx).last_avail_idx == avail_idx then done m else more

    unfoldable pub queue_notify : Machine R X → ℕ → Outcome (Machine R X)
    queue_notify m queue_idx =
        let qs = queue_at m.dev queue_idx in
        let avail_idx = virtio_read16 mmu m.ram (add64 qs.avail_addr 2) in
        if qs.manual_recv then done m else notify_loop notify_rounds avail_idx m queue_idx
