-- ===== src/Virtio/Config.antt =====
-- src/virtio.cc: `virtio_config_read` and `virtio_config_write`, with the accessors of
-- src/cutils.h. An access outside the 256 bytes of `config_space` is a `fault`.
pub mod Window
use spike_virtio_devices.Prelude.{
  ℕ, zero, suc, ◌+◌, ◌^◌, Option, none, some, List, ltb, leb, if◌then◌else◌, sub32, set, u8, u16,
}
use spike_virtio_devices.Prelude.Outcome.{Outcome, done, aborted, within}
use spike_virtio_devices.Cutils.{byte_at, get_le16, get_le32, put_le16, put_le32}
use spike_virtio_devices.Virtio.Device.{VirtioDevice, Machine, max_config_space_size}

unfoldable pub virtio_config_read : VirtioDevice → ℕ → ℕ → Outcome ℕ
virtio_config_read s offset zero =
    if ltb offset s.config_space_size
    then within (leb (offset + 1) max_config_space_size) (byte_at s.config_space offset)
    else done 0
virtio_config_read s offset (suc zero) =
    if ltb offset (sub32 s.config_space_size 1)
    then within (leb (offset + 2) max_config_space_size) (get_le16 s.config_space offset)
    else done 0
virtio_config_read s offset (suc (suc zero)) =
    if ltb offset (sub32 s.config_space_size 3)
    then within (leb (offset + 4) max_config_space_size) (get_le32 s.config_space offset)
    else done 0
virtio_config_read s offset (suc (suc (suc size_log2))) = aborted

module _ {R X : Type 0} where
  -- `if (s->config_write) s->config_write(s)`
  unfoldable pub call_config_write : Option (Machine R X → Machine R X) → Machine R X → Machine R X
  call_config_write none m = m
  call_config_write (some f) m = f m

  abbrev pub with_config_space : Machine R X → List ℕ → Machine R X
  with_config_space m c = record m { dev = record (m.dev) { config_space = c } }

  unfoldable pub virtio_config_write :
      Option (Machine R X → Machine R X) → Machine R X → ℕ → ℕ → ℕ → Outcome (Machine R X)
  virtio_config_write cb m offset val zero =
      if ltb offset m.dev.config_space_size
      then within (leb (offset + 1) max_config_space_size)
          (call_config_write cb (with_config_space m (set m.dev.config_space offset (u8 val))))
      else done m
  virtio_config_write cb m offset val (suc zero) =
      if ltb offset (sub32 m.dev.config_space_size 1)
      then within (leb (offset + 2) max_config_space_size) (
          call_config_write cb (with_config_space m (put_le16 m.dev.config_space offset (u16 val))))
      else done m
  virtio_config_write cb m offset val (suc (suc zero)) =
      if ltb offset (sub32 m.dev.config_space_size 3)
      then within (leb (offset + 4) max_config_space_size)
          (call_config_write cb (with_config_space m (put_le32 m.dev.config_space offset val)))
      else done m
  virtio_config_write cb m offset val (suc (suc (suc size_log2))) = done m
