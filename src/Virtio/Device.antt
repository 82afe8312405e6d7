-- ===== src/Virtio/Device.antt =====
-- src/virtio.cc: `QueueState`, `struct VIRTIODevice`, `virtio_reset`, `virtio_init` and the
-- interrupt line of src/virtio.h.
use spike_virtio_devices.Prelude.{ℕ, zero, suc, Bool, false, List, replicate, get_or, set, bit_or}

abbrev pub max_queue : ℕ
max_queue = 8

abbrev pub max_config_space_size : ℕ
max_config_space_size = 256

abbrev pub max_queue_num : ℕ
max_queue_num = 16

pub record QueueState : Type 0 where
  pub ready : ℕ  -- uint32_t, 0 or 1
  pub num : ℕ  -- uint32_t
  pub last_avail_idx : ℕ  -- uint16_t
  pub desc_addr : ℕ  -- virtio_phys_addr_t, 64 bits
  pub avail_addr : ℕ
  pub used_addr : ℕ
  pub manual_recv : Bool

-- The two callbacks `device_recv` and `config_write` are arguments of the operations that call
-- them, and `sim` is the memory of the `Machine`.
pub record VirtioDevice : Type 0 where
  pub irq : ℕ  -- the level that `set_irq` last gave the interrupt controller
  pub debug : ℕ
  pub int_status : ℕ  -- uint32_t, as the next three
  pub status : ℕ
  pub device_features_sel : ℕ
  pub queue_sel : ℕ
  pub queue : List QueueState
  pub device_id : ℕ
  pub vendor_id : ℕ
  pub device_features : ℕ
  pub config_space_size : ℕ
  pub config_space : List ℕ

-- A device, the memory of the simulator, and what a device class adds to `VIRTIODevice`.
pub record Machine (R X : Type 0) : Type 0 where
  pub dev : VirtioDevice
  pub ram : R
  pub own : X

abbrev pub zero_queue : QueueState
zero_queue = record {
  ready = 0;
  num = 0;
  last_avail_idx = 0;
  desc_addr = 0;
  avail_addr = 0;
  used_addr = 0;
  manual_recv = false;
}

-- `s->queue[i]`; every index that the code uses is below `MAX_QUEUE`.
abbrev pub queue_at : VirtioDevice → ℕ → QueueState
queue_at s i = get_or s.queue i zero_queue

abbrev pub set_queue : VirtioDevice → ℕ → QueueState → VirtioDevice
set_queue s i q = record s { queue = set s.queue i q }

unfoldable pub set_irq : VirtioDevice → ℕ → VirtioDevice
set_irq s level = record s { irq = level }

unfoldable pub reset_queue : QueueState → QueueState
reset_queue q = record q {
  ready = 0;
  num = max_queue_num;
  last_avail_idx = 0;
  desc_addr = 0;
  avail_addr = 0;
  used_addr = 0;
}

-- The loop over the queues, from queue `i` with `n` rounds left.
unfoldable pub reset_queues : ℕ → ℕ → VirtioDevice → VirtioDevice
reset_queues zero i s = s
reset_queues (suc n) i s = reset_queues n (suc i) (set_queue s i (reset_queue (queue_at s i)))

unfoldable pub virtio_reset : VirtioDevice → VirtioDevice
virtio_reset s =
    reset_queues max_queue 0
      (record s { status = 0; queue_sel = 0; device_features_sel = 0; int_status = 0 })

-- `irq` is the level of the line that the bus hands over: nothing drives it before.
unfoldable pub virtio_init : ℕ → ℕ → VirtioDevice
virtio_init device_id config_space_size = virtio_reset (record {
  irq = 0;
  debug = 0;
  int_status = 0;
  status = 0;
  device_features_sel = 0;
  queue_sel = 0;
  queue = replicate max_queue zero_queue;
  device_id = device_id;
  vendor_id = 0xffff;
  device_features = 0;
  config_space_size = config_space_size;
  config_space = replicate max_config_space_size 0;
})

unfoldable pub virtio_set_debug : VirtioDevice → ℕ → VirtioDevice
virtio_set_debug s debug = record s { debug = debug }

unfoldable pub virtio_config_change_notify : VirtioDevice → VirtioDevice
unfolding set_irq
virtio_config_change_notify s = set_irq (record s { int_status = bit_or s.int_status 2 }) 1
