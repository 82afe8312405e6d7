-- ===== src/Virtio/Mmio.antt =====
-- src/virtio.cc: `virtio_mmio_read` and `virtio_mmio_write`, with their register switches.
pub mod Valid
use spike_virtio_devices.Prelude.{
  ℕ, zero, suc, ◌+◌, ◌-◌, ◌*◌, ◌/◌, ◌%◌, ◌^◌, ◌&&◌, Option, ◌==◌, ltb, leb, if◌then◌else◌, bit_and,
  bit_or, u8, u16, u32, sub32,
}
use spike_virtio_devices.Prelude.Outcome.{Outcome, done, ◌>>=◌}
use spike_virtio_devices.Mmu.{Mmu}
use spike_virtio_devices.Virtio.Device.{
  QueueState, VirtioDevice, Machine, queue_at, set_queue, set_irq, virtio_reset, max_queue,
  max_queue_num,
}
use spike_virtio_devices.Virtio.Config.{virtio_config_read, virtio_config_write}
use spike_virtio_devices.Virtio.Regs.{Reg, reg_at}
use spike_virtio_devices.Virtio.Notify.{DeviceRecv, queue_notify}

-- `VIRTIO_MMIO_CONFIG`
abbrev pub mmio_config : ℕ
mmio_config = 0x100

-- The queue that the driver has selected.
abbrev pub selected : VirtioDevice → QueueState
selected s = queue_at s s.queue_sel

abbrev pub update_selected : VirtioDevice → QueueState → VirtioDevice
update_selected s q = set_queue s s.queue_sel q

unfoldable pub read_features : ℕ → ℕ → ℕ
read_features zero features = features
read_features (suc zero) features = 1
read_features (suc (suc sel)) features = 0

-- The `switch` of `virtio_mmio_read`; `VIRTIO_ADDR_BITS` is 64.
unfoldable pub read_reg : VirtioDevice → Reg → ℕ
unfolding read_features
read_reg s Reg.magic_value = 0x74726976
read_reg s Reg.version = 2
read_reg s Reg.device_id = s.device_id
read_reg s Reg.vendor_id = s.vendor_id
read_reg s Reg.device_features = read_features s.device_features_sel s.device_features
read_reg s Reg.device_features_sel = s.device_features_sel
read_reg s Reg.queue_sel = s.queue_sel
read_reg s Reg.queue_num_max = max_queue_num
read_reg s Reg.queue_num = (selected s).num
read_reg s Reg.queue_desc_low = u32 (selected s).desc_addr
read_reg s Reg.queue_avail_low = u32 (selected s).avail_addr
read_reg s Reg.queue_used_low = u32 (selected s).used_addr
read_reg s Reg.queue_desc_high = u32 ((selected s).desc_addr / 2 ^ 32)
read_reg s Reg.queue_avail_high = u32 ((selected s).avail_addr / 2 ^ 32)
read_reg s Reg.queue_used_high = u32 ((selected s).used_addr / 2 ^ 32)
read_reg s Reg.queue_ready = (selected s).ready
read_reg s Reg.interrupt_status = s.int_status
read_reg s Reg.status = s.status
read_reg s Reg.config_generation = 0
read_reg s _ = 0

unfoldable pub virtio_mmio_read : VirtioDevice → ℕ → ℕ → Outcome ℕ
unfolding read_reg
virtio_mmio_read s offset size_log2 =
    if leb mmio_config offset
    then virtio_config_read s (offset - mmio_config) size_log2
    else done (if size_log2 == 2 then read_reg s (reg_at offset) else 0)

unfoldable pub set_low32 : ℕ → ℕ → ℕ
set_low32 paddr val = bit_or (bit_and paddr (2 ^ 64 - 2 ^ 32)) val

unfoldable pub set_high32 : ℕ → ℕ → ℕ
set_high32 paddr val = bit_or (bit_and paddr (2 ^ 32 - 1)) (val * 2 ^ 32)

-- The cases of the `switch` of `virtio_mmio_write` that change the device alone.
unfoldable pub write_reg : VirtioDevice → Reg → ℕ → VirtioDevice
unfolding set_irq
write_reg s Reg.device_features_sel val = record s { device_features_sel = val }
write_reg s Reg.queue_sel val = if ltb val max_queue then record s { queue_sel = val } else s
write_reg s Reg.queue_num val =
    if bit_and val (sub32 val 1) == 0 && ltb 0 val
    then update_selected s (record (selected s) { num = val })
    else s
write_reg s Reg.queue_desc_low val =
    update_selected s (record (selected s) { desc_addr = set_low32 (selected s).desc_addr val })
write_reg s Reg.queue_avail_low val =
    update_selected s (record (selected s) { avail_addr = set_low32 (selected s).avail_addr val })
write_reg s Reg.queue_used_low val =
    update_selected s (record (selected s) { used_addr = set_low32 (selected s).used_addr val })
write_reg s Reg.queue_desc_high val =
    update_selected s (record (selected s) { desc_addr = set_high32 (selected s).desc_addr val })
write_reg s Reg.queue_avail_high val =
    update_selected s (record (selected s) { avail_addr = set_high32 (selected s).avail_addr val })
write_reg s Reg.queue_used_high val =
    update_selected s (record (selected s) { used_addr = set_high32 (selected s).used_addr val })
write_reg s Reg.status val =
    let t = record s { status = val } in if val == 0 then virtio_reset (set_irq t 0) else t
write_reg s Reg.queue_ready val = update_selected s (record (selected s) { ready = bit_and val 1 })
write_reg s Reg.interrupt_ack val =
    let t = record s { int_status = bit_and s.int_status (2 ^ 32 - 1 - val) } in
    if t.int_status == 0 then set_irq t 0 else t
write_reg s _ val = s

module _ {R X : Type 0} (mmu : Mmu R) (fuel : ℕ) (device_recv : DeviceRecv R X)
    (config_write : Option (Machine R X → Machine R X)) where
  -- The whole `switch`: `VIRTIO_MMIO_QUEUE_NOTIFY` runs the device.
  unfoldable pub write_switch : Machine R X → Reg → ℕ → Outcome (Machine R X)
  unfolding write_reg
  write_switch m Reg.queue_notify val =
      if ltb val max_queue then queue_notify mmu fuel device_recv m val else done m
  write_switch m r val = done (record m { dev = write_reg m.dev r val })

  unfoldable pub virtio_mmio_write : Machine R X → ℕ → ℕ → ℕ → Outcome (Machine R X)
  unfolding write_switch
  virtio_mmio_write m offset val size_log2 =
      if leb mmio_config offset
      then virtio_config_write config_write m (offset - mmio_config) val size_log2
      else if size_log2 == 2
      then write_switch m (reg_at offset) val
      else done m
