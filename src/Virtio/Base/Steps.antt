-- ===== src/Virtio/Base/Steps.antt =====
-- What happens to a virtio device of src/virtio.cc, and the states that it reaches so.
use spike_virtio_devices.Prelude.{
  ℕ, ◌-◌, ◌/◌, ◌^◌, ◌<◌, ◌≡◌, subst, Bool, Bool-cases, ltb→lt, inl, inr, Option, ◌==◌, ltb, leb,
  arith, u8, u16, u32,
}
use spike_virtio_devices.Prelude.Outcome.{
  Outcome, done, ◌>>=◌, Ensures, Ensures->>=, Ensures-if, Ensures-Returns,
}
use spike_virtio_devices.Mmu.{Mmu}
use spike_virtio_devices.Virtio.Device.{Machine, max_queue, virtio_config_change_notify}
use spike_virtio_devices.Virtio.Inv.{Holds}
use spike_virtio_devices.Virtio.Config.{virtio_config_write}
use spike_virtio_devices.Virtio.Config.Window.{CallbackKeeps, virtio_config_write-IsValid}
use spike_virtio_devices.Virtio.Regs.{Reg, reg_at}
use spike_virtio_devices.Virtio.Mmio.{mmio_config, write_switch, virtio_mmio_write}
use spike_virtio_devices.Virtio.Mmio.Valid.{write_reg-IsValid}
use spike_virtio_devices.Virtio.Notify.{DeviceRecv}
use spike_virtio_devices.Virtio.Notify.Valid.{
  KeepsValid, queue_notify-IsValid, virtio_config_change_notify-IsValid,
}
use spike_virtio_devices.Virtio.Base.{store}

module _ {R X : Type 0} (mmu : Mmu R) (fuel : ℕ) (recv : DeviceRecv R X)
    (cb : Option (Machine R X → Machine R X)) where
  -- What happens to a device: a bus write by the guest, anything that the guest writes to its memory
  -- in between, or a change of the device's configuration.
  pub data Step (m : Machine R X) : Machine R X → Type 0 where
    bus :
        (addr len val : ℕ) {answer : Bool} {t : Machine R X}
        → store mmu fuel recv cb m addr len val ≡ done (answer, t)
        → Step m t
    memory : (ram : R) → Step m (record m { ram = ram })
    config_change : Step m (record m { dev = virtio_config_change_notify m.dev })

  pub data Reach (m : Machine R X) : Machine R X → Type 0 where
    here : Reach m m
    next : {t u : Machine R X} → Reach m t → Step t u → Reach m u

module _ {R X : Type 0} (mmu : Mmu R) (fuel : ℕ) (recv : DeviceRecv R X)
    (cb : Option (Machine R X → Machine R X)) (Own : X → Type 0) (keeps : KeepsValid Own recv)
    (cb_keeps : CallbackKeeps Own cb) where
  write_switch-IsValid :
      (m : Machine R X) (r : Reg) (val : ℕ)
      → val < 2 ^ 32
      → Holds Own m
      → Ensures (Holds Own) (write_switch mmu fuel recv cb m r val)
  unfolding write_switch
  write_switch-IsValid m Reg.queue_notify val h v = elim (Bool-cases (ltb val max_queue)) [
    | inl fits ↦
        rw fits (queue_notify-IsValid Own mmu fuel recv keeps val (ltb→lt val max_queue fits) m v)
    | inr big ↦ rw big v
  ]
  write_switch-IsValid m r val h v = (write_reg-IsValid m.dev r val h v.0, v.1)

  -- A write at any offset, of any size, keeps the device valid: registers, config space and
  -- notifications alike.
  pub virtio_mmio_write-IsValid :
      (m : Machine R X) (offset val size_log2 : ℕ)
      → val < 2 ^ 32
      → Holds Own m
      → Ensures (Holds Own) (virtio_mmio_write mmu fuel recv cb m offset val size_log2)
  unfolding virtio_mmio_write
  virtio_mmio_write-IsValid m offset val size_log2 h v =
      Ensures-if _ (leb mmio_config offset) _ _
        (Ensures-Returns _ (virtio_config_write cb m (offset - mmio_config) val size_log2)
          (virtio_config_write-IsValid Own cb m (offset - mmio_config) val size_log2 cb_keeps v))
        (Ensures-if _ (size_log2 == 2) _ (done m) (write_switch-IsValid m (reg_at offset) val h v)
          v)

  abbrev Stored : Bool × Machine R X → Type 0
  Stored r = Holds Own r.1

  -- One write, and what `store` does after it.
  then_write :
      {B : Type 0} (Q : B → Type 0) (m : Machine R X) (offset w size : ℕ)
      (k : Machine R X → Outcome B)
      → w < 2 ^ 32
      → Holds Own m
      → ((t : Machine R X) → Holds Own t → Ensures Q (k t))
      → Ensures Q (virtio_mmio_write mmu fuel recv cb m offset w size >>= k)
  then_write Q m offset w size k h v rest =
      Ensures->>= (Holds Own) Q (virtio_mmio_write mmu fuel recv cb m offset w size) k
        (virtio_mmio_write-IsValid m offset w size h v) rest

  pub store-IsValid :
      (m : Machine R X) (addr len val : ℕ)
      → Holds Own m
      → Ensures Stored (store mmu fuel recv cb m addr len val)
  unfolding store
  store-IsValid m addr len val v =
      let a = u32 addr in
      Ensures-if _ (ltb 8 len) _ _ v (
        Ensures-if _ (len == 1) _ _
          (then_write Stored m a (u8 val) 0 _ (omega arith) v (λ t ok. ok))
          (Ensures-if _ (len == 2) _ _
            (then_write Stored m a (u16 val) 1 _ (omega arith) v (λ t ok. ok))
            (Ensures-if _ (len == 4) _ _
              (then_write Stored m a (u32 val) 2 _ (omega arith) v (λ t ok. ok))
              (Ensures-if _ (len == 8) _ _
                (then_write Stored m a (u32 val) 2 _ (omega arith) v (λ t ok.
                  then_write Stored t _ (u32 (val / 2 ^ 32)) 2 _ (omega arith) ok (λ t' ok'. ok')))
                v))))

  pub Step-IsValid : {m t : Machine R X} → Step mmu fuel recv cb m t → Holds Own m → Holds Own t
  Step-IsValid {m} (bus addr len val e) v =
      subst (λ r. Ensures Stored r) e (store-IsValid m addr len val v)
  Step-IsValid {m} (memory ram) v = v
  Step-IsValid {m} config_change v = (virtio_config_change_notify-IsValid m.dev v.0, v.1)

  -- In every state that a valid device reaches by bus writes of any address, length and value,
  -- by whatever the guest writes to its memory between them, and by configuration changes,
  -- given callbacks that keep the device valid and what its class keeps of its own, the latter
  -- holds and the device is valid: the interrupt line is up exactly while an interrupt is
  -- pending, the selected queue exists, and each queue size is a power of two.
  pub Reach-IsValid : {m t : Machine R X} → Reach mmu fuel recv cb m t → Holds Own m → Holds Own t
  Reach-IsValid here v = v
  Reach-IsValid (next r s) v = Step-IsValid s (Reach-IsValid r v)
