-- ===== src/Virtio/Base.antt =====
-- src/virtio.cc: `virtio_base_t::load` and `store`, through which the simulator reaches a device.
-- The simulator's `read_little_endian_reg` and `write_little_endian_reg` move a word to and from
-- the bytes of the bus: a load gives the word that goes to the first, a store takes the word that
-- comes from the second. An address is a 64-bit `reg_t` and becomes the `uint32_t` offset.
pub mod Steps
use spike_virtio_devices.Prelude.{
  ℕ, ◌+◌, ◌*◌, ◌/◌, ◌^◌, Bool, true, false, Option, none, some, ◌==◌, ltb, if◌then◌else◌, bit_or,
  u8, u16, u32, add64,
}
use spike_virtio_devices.Prelude.Outcome.{Outcome, done, ◌>>=◌}
use spike_virtio_devices.Mmu.{Mmu}
use spike_virtio_devices.Virtio.Device.{VirtioDevice, Machine}
use spike_virtio_devices.Virtio.Mmio.{virtio_mmio_read, virtio_mmio_write}
use spike_virtio_devices.Virtio.Notify.{DeviceRecv}

-- `none` for a refused access.
unfoldable pub load : VirtioDevice → ℕ → ℕ → Outcome (Option ℕ)
load s addr len =
    if ltb 8 len
    then done none
    else if len == 1
    then (do val ← virtio_mmio_read s (u32 addr) 0; done (some (u8 val)))
    else if len == 2
    then (do val ← virtio_mmio_read s (u32 addr) 1; done (some (u16 val)))
    else if len == 4
    then (do val ← virtio_mmio_read s (u32 addr) 2; done (some val))
    else if len == 8
    then (do
      low ← virtio_mmio_read s (u32 addr) 2
      high ← virtio_mmio_read s (u32 (add64 addr 4)) 2
      done (some (bit_or low (high * 2 ^ 32))))
    else done none

module _ {R X : Type 0} (mmu : Mmu R) (fuel : ℕ) (device_recv : DeviceRecv R X)
    (config_write : Option (Machine R X → Machine R X)) where
  abbrev mmio_write : Machine R X → ℕ → ℕ → ℕ → Outcome (Machine R X)
  mmio_write = virtio_mmio_write mmu fuel device_recv config_write

  -- The Boolean is what `store` returns.
  unfoldable pub store : Machine R X → ℕ → ℕ → ℕ → Outcome (Bool × Machine R X)
  store m addr len val =
      if ltb 8 len
      then done (false, m)
      else if len == 1
      then (do t ← mmio_write m (u32 addr) (u8 val) 0; done (true, t))
      else if len == 2
      then (do t ← mmio_write m (u32 addr) (u16 val) 1; done (true, t))
      else if len == 4
      then (do t ← mmio_write m (u32 addr) (u32 val) 2; done (true, t))
      else if len == 8
      then (do
        t ← mmio_write m (u32 addr) (u32 val) 2
        t' ← mmio_write t (u32 (add64 addr 4)) (u32 (val / 2 ^ 32)) 2
        done (true, t'))
      else done (false, m)
