-- ===== src/Virtio/Regs.antt =====
-- The register map of src/virtio.cc: the `VIRTIO_MMIO_*` offsets below the config space.
use spike_virtio_devices.Prelude.{ℕ, ◌≡◌, refl, ◌==◌, if◌then◌else◌}

-- `unlisted` is every offset that is no case of the two switches, which treat it by `default`: one that
-- no `#define` names, or one of the SHM and QUEUE_RESET registers, which are not implemented.
pub data Reg : Type 0 where
  magic_value : Reg
  version : Reg
  device_id : Reg
  vendor_id : Reg
  device_features : Reg
  device_features_sel : Reg
  driver_features : Reg
  driver_features_sel : Reg
  guest_page_size : Reg
  queue_sel : Reg
  queue_num_max : Reg
  queue_num : Reg
  queue_align : Reg
  queue_pfn : Reg
  queue_ready : Reg
  queue_notify : Reg
  interrupt_status : Reg
  interrupt_ack : Reg
  status : Reg
  queue_desc_low : Reg
  queue_desc_high : Reg
  queue_avail_low : Reg
  queue_avail_high : Reg
  queue_used_low : Reg
  queue_used_high : Reg
  config_generation : Reg
  unlisted : Reg

-- The value of the `#define`; for `unlisted` an offset that none of them names.
abbrev pub offset_of : Reg → ℕ
offset_of magic_value = 0x000
offset_of version = 0x004
offset_of device_id = 0x008
offset_of vendor_id = 0x00c
offset_of device_features = 0x010
offset_of device_features_sel = 0x014
offset_of driver_features = 0x020
offset_of driver_features_sel = 0x024
offset_of guest_page_size = 0x028
offset_of queue_sel = 0x030
offset_of queue_num_max = 0x034
offset_of queue_num = 0x038
offset_of queue_align = 0x03c
offset_of queue_pfn = 0x040
offset_of queue_ready = 0x044
offset_of queue_notify = 0x050
offset_of interrupt_status = 0x060
offset_of interrupt_ack = 0x064
offset_of status = 0x070
offset_of queue_desc_low = 0x080
offset_of queue_desc_high = 0x084
offset_of queue_avail_low = 0x090
offset_of queue_avail_high = 0x094
offset_of queue_used_low = 0x0a0
offset_of queue_used_high = 0x0a4
offset_of config_generation = 0x0fc
offset_of unlisted = 0x0f8

-- The constant that a `switch (offset)` meets.
unfoldable pub reg_at : ℕ → Reg
reg_at offset =
    if offset == 0x000
    then magic_value
    else if offset == 0x004
    then version
    else if offset == 0x008
    then device_id
    else if offset == 0x00c
    then vendor_id
    else if offset == 0x010
    then device_features
    else if offset == 0x014
    then device_features_sel
    else if offset == 0x020
    then driver_features
    else if offset == 0x024
    then driver_features_sel
    else if offset == 0x028
    then guest_page_size
    else if offset == 0x030
    then queue_sel
    else if offset == 0x034
    then queue_num_max
    else if offset == 0x038
    then queue_num
    else if offset == 0x03c
    then queue_align
    else if offset == 0x040
    then queue_pfn
    else if offset == 0x044
    then queue_ready
    else if offset == 0x050
    then queue_notify
    else if offset == 0x060
    then interrupt_status
    else if offset == 0x064
    then interrupt_ack
    else if offset == 0x070
    then status
    else if offset == 0x080
    then queue_desc_low
    else if offset == 0x084
    then queue_desc_high
    else if offset == 0x090
    then queue_avail_low
    else if offset == 0x094
    then queue_avail_high
    else if offset == 0x0a0
    then queue_used_low
    else if offset == 0x0a4
    then queue_used_high
    else if offset == 0x0fc
    then config_generation
    else unlisted

-- The offsets are distinct, so that each case of a switch is reached at its own.
pub reg_at-offset_of : (r : Reg) → reg_at (offset_of r) ≡ r
unfolding reg_at
reg_at-offset_of magic_value = refl
reg_at-offset_of version = refl
reg_at-offset_of device_id = refl
reg_at-offset_of vendor_id = refl
reg_at-offset_of device_features = refl
reg_at-offset_of device_features_sel = refl
reg_at-offset_of driver_features = refl
reg_at-offset_of driver_features_sel = refl
reg_at-offset_of guest_page_size = refl
reg_at-offset_of queue_sel = refl
reg_at-offset_of queue_num_max = refl
reg_at-offset_of queue_num = refl
reg_at-offset_of queue_align = refl
reg_at-offset_of queue_pfn = refl
reg_at-offset_of queue_ready = refl
reg_at-offset_of queue_notify = refl
reg_at-offset_of interrupt_status = refl
reg_at-offset_of interrupt_ack = refl
reg_at-offset_of status = refl
reg_at-offset_of queue_desc_low = refl
reg_at-offset_of queue_desc_high = refl
reg_at-offset_of queue_avail_low = refl
reg_at-offset_of queue_avail_high = refl
reg_at-offset_of queue_used_low = refl
reg_at-offset_of queue_used_high = refl
reg_at-offset_of config_generation = refl
reg_at-offset_of unlisted = refl
