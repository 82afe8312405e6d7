-- ===== src/Virtio/Notify/Valid.antt =====
-- Returning a descriptor and running a queue keep a device valid, if the device's handler does.
use spike_virtio_devices.Prelude.{
  ℕ, zero, suc, ◌^◌, ◌<◌, ◌==◌, arith, Bool-cases, Option, none, some, inl, inr, bit_or, is_neg,
}
use spike_virtio_devices.Prelude.Bits.{bit_or_bounds, bit_or-lt}
use spike_virtio_devices.Prelude.Outcome.{
  done, Ensures, Ensures->>=, Ensures-if, Ensures-trivial, Ensures-weaken,
}
use spike_virtio_devices.Mmu.{Mmu}
use spike_virtio_devices.Virtio.Device.{
  VirtioDevice, Machine, queue_at, max_queue, virtio_config_change_notify,
}
use spike_virtio_devices.Virtio.Inv.{Holds, Anything, IsValid, IsValid-set_queue}
use spike_virtio_devices.Virtio.Chain.{get_desc_rw_size}
use spike_virtio_devices.Virtio.Notify.{
  DeviceRecv, virtio_consume_desc, next_avail, notify_step, notify_loop, queue_notify,
  notify_rounds,
}

-- Raising an interrupt bit raises the line.
raise-IsValid :
    (s : VirtioDevice) (b : ℕ)
    → 0 < b
    → b < 2 ^ 32
    → IsValid s
    → IsValid (record s { int_status = bit_or s.int_status b; irq = 1 })
raise-IsValid s b pos small v = record {
  queues = v.queues;
  sel = v.sel;
  int_word = bit_or-lt 32 s.int_status b v.int_word small;
  config = v.config;
  line = ground (arith, bit_or_bounds s.int_status s.int_status b);
}

pub virtio_config_change_notify-IsValid :
    (s : VirtioDevice) → IsValid s → IsValid (virtio_config_change_notify s)
unfolding virtio_config_change_notify
virtio_config_change_notify-IsValid s v = raise-IsValid s 2 (omega arith) (omega arith) v

module _ {R X : Type 0} where
  pub virtio_consume_desc-IsValid :
      (mmu : Mmu R) (m : Machine R X) (queue_idx desc_idx desc_len : ℕ)
      → IsValid m.dev
      → IsValid (virtio_consume_desc mmu m queue_idx desc_idx desc_len).dev
  unfolding virtio_consume_desc
  virtio_consume_desc-IsValid mmu m queue_idx desc_idx desc_len v =
      raise-IsValid m.dev 1 (omega arith) (omega arith) v

  pub next_avail-IsValid :
      (m : Machine R X) (queue_idx : ℕ)
      → queue_idx < max_queue
      → IsValid m.dev
      → IsValid (next_avail m queue_idx).dev
  unfolding next_avail
  next_avail-IsValid m queue_idx lt v =
      let q = v.queues.1 queue_idx lt in
      IsValid-set_queue queue_idx _ v (record {
        ready_flag = q.ready_flag;
        num_pow2 = q.num_pow2;
        num_word = q.num_word;
        index_word = omega arith;
        desc_word = q.desc_word;
        avail_word = q.avail_word;
        used_word = q.used_word;
      })

  -- A handler that keeps the device valid, and `Own` of what its class adds, on every queue that
  -- there is.
  abbrev pub KeepsValid : (X → Type 0) → DeviceRecv R X → Type 0
  KeepsValid Own recv =
      (m : Machine R X) (queue_idx desc_idx read_size write_size : ℕ)
      → queue_idx < max_queue
      → Holds Own m
      → Ensures (λ r. Holds Own r.1) (recv m queue_idx desc_idx read_size write_size)

  pub recv-KeepsValid :
      (recv : DeviceRecv R X)
      → ((m : Machine R X) (queue_idx desc_idx read_size write_size : ℕ)
          → IsValid m.dev
          → Ensures (λ r. IsValid r.1.dev) (recv m queue_idx desc_idx read_size write_size))
      → KeepsValid Anything recv
  recv-KeepsValid recv h m i d r w lt v =
      Ensures-weaken (λ x. IsValid x.1.dev) (λ x. Holds Anything x.1) (recv m i d r w)
        (λ x ok. (ok, tt)) (h m i d r w v.0)

  module _ (Own : X → Type 0) (mmu : Mmu R) (fuel : ℕ) (recv : DeviceRecv R X)
      (keeps : KeepsValid Own recv) (queue_idx : ℕ) (lt : queue_idx < max_queue) where
    handle-IsValid :
        (m : Machine R X) (desc_idx : ℕ) (sizes : Option (ℕ × ℕ))
        → Holds Own m
        → Ensures
            (λ (r : ℕ × Machine R X). Holds Own r.1)
            (elim sizes [
              | none ↦ done (0, m)
              | some (read_size, write_size) ↦ recv m queue_idx desc_idx read_size write_size
            ])
    handle-IsValid m desc_idx none v = v
    handle-IsValid m desc_idx (some (read_size, write_size)) v =
        keeps m queue_idx desc_idx read_size write_size lt v

    notify_step-IsValid :
        (m : Machine R X)
        → Holds Own m
        → Ensures (λ r. Holds Own r.1) (notify_step mmu fuel recv m queue_idx)
    unfolding notify_step
    notify_step-IsValid m v =
        Ensures->>= (λ _. Unit) _ (get_desc_rw_size mmu fuel m.ram _ _) _
          (Ensures-trivial (get_desc_rw_size mmu fuel m.ram _ _))
          (λ sizes _. handle-IsValid m _ sizes v)

    pub notify_loop-IsValid :
        (f avail_idx : ℕ) (m : Machine R X)
        → Holds Own m
        → Ensures (Holds Own) (notify_loop mmu fuel recv f avail_idx m queue_idx)
    unfolding notify_loop next_avail
    notify_loop-IsValid zero avail_idx m v = tt
    notify_loop-IsValid (suc f) avail_idx m v =
        elim (Bool-cases ((queue_at m.dev queue_idx).last_avail_idx == avail_idx)) [
          | inl stop ↦ rw stop v
          | inr more ↦ rw more (
              Ensures->>= (λ (r : ℕ × Machine R X). Holds Own r.1) _
                (notify_step mmu fuel recv m queue_idx) _ (notify_step-IsValid m v)
                λ r ok. Ensures-if _ (is_neg r.0) _ _ ok (
                  notify_loop-IsValid f avail_idx (next_avail r.1 queue_idx)
                    (next_avail-IsValid r.1 queue_idx lt ok.0, ok.1)))
        ]

    -- `queue_notify` keeps the device valid when the handler does.
    pub queue_notify-IsValid :
        (m : Machine R X)
        → Holds Own m
        → Ensures (Holds Own) (queue_notify mmu fuel recv m queue_idx)
    unfolding queue_notify
    queue_notify-IsValid m v =
        Ensures-if _ (queue_at m.dev queue_idx).manual_recv _ _ v
          (notify_loop-IsValid notify_rounds _ m v)
