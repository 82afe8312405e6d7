-- ===== src/Virtio/Inv.antt =====
-- The invariant of a virtio device, and what resets, initialisation and queue updates make of it.
use spike_virtio_devices.Prelude.{
  ℕ, zero, suc, ◌+◌, ◌^◌, ◌≤◌, ◌<◌, ◌≡◌, refl, ◌∙◌, subst, ◌==◌, leb, ltb, ◌&&◌, if◌then◌else◌,
  arith, length, get_or-set_self, get_or-set_ne, get_or-set, length-set, replicate,
  length-replicate,
}
use spike_virtio_devices.Prelude.Bits.{IsPow2}
use spike_virtio_devices.Cutils.Endian.{AreBytes}
use spike_virtio_devices.Virtio.Device.{
  QueueState, VirtioDevice, Machine, queue_at, set_queue, reset_queue, reset_queues, virtio_reset,
  virtio_init, zero_queue, max_queue, max_config_space_size,
}
use native.Mathlib.Decide.{ℕ_discrete}

pub record IsQueue (q : QueueState) : Type 0 where
  pub ready_flag : q.ready ≤ 1
  pub num_pow2 : IsPow2 q.num
  pub num_word : q.num < 2 ^ 32
  pub index_word : q.last_avail_idx < 2 ^ 16
  pub desc_word : q.desc_addr < 2 ^ 64
  pub avail_word : q.avail_addr < 2 ^ 64
  pub used_word : q.used_addr < 2 ^ 64

abbrev pub AreQueues : VirtioDevice → Type 0
AreQueues s = (length s.queue ≡ max_queue) × ((j : ℕ) → j < max_queue → IsQueue (queue_at s j))

-- The interrupt line is up exactly while an interrupt is pending.
abbrev pub LineMatches : VirtioDevice → Type 0
LineMatches s = s.irq ≡ (if s.int_status == 0 then 0 else 1)

abbrev pub IsConfig : VirtioDevice → Type 0
IsConfig s =
    (length s.config_space ≡ max_config_space_size)
    × AreBytes s.config_space
    × (3 ≤ s.config_space_size)
    × (s.config_space_size ≤ max_config_space_size)

pub record IsValid (s : VirtioDevice) : Type 0 where
  pub queues : AreQueues s
  pub sel : s.queue_sel < max_queue
  pub int_word : s.int_status < 2 ^ 32
  pub config : IsConfig s
  pub line : LineMatches s

-- A valid device, whose class keeps `Own` of what it adds.
abbrev pub Holds : {R X : Type 0} → (X → Type 0) → Machine R X → Type 0
Holds Own m = IsValid m.dev × Own m.own

-- A class that keeps nothing of its own.
abbrev pub Anything : {X : Type 0} → X → Type 0
Anything x = Unit

pub AreQueues-set_queue :
    (s : VirtioDevice) (i : ℕ) (q : QueueState)
    → AreQueues s
    → IsQueue q
    → AreQueues (set_queue s i q)
AreQueues-set_queue s i q h ok = (length-set s.queue i q ∙ h.0, each)
  where
    each : (j : ℕ) → j < max_queue → IsQueue (queue_at (set_queue s i q) j)
    each j lt = elim (ℕ_discrete i j) [
      | yes e ↦
          let lt' : i < length s.queue = omega (arith, h.0) in
          subst (λ k. IsQueue (queue_at (set_queue s i q) k)) e
            (rw (get_or-set_self s.queue i q _ lt') ok)
      | no ne ↦ rw (get_or-set_ne s.queue i j q _ ne) (h.1 j lt)
    ]

pub IsValid-set_queue :
    {s : VirtioDevice} (i : ℕ) (q : QueueState) → IsValid s → IsQueue q → IsValid (set_queue s i q)
IsValid-set_queue {s} i q v ok = record {
  queues = AreQueues-set_queue s i q v.queues ok;
  sel = v.sel;
  int_word = v.int_word;
  config = v.config;
  line = v.line;
}

-- What the loop over the queues leaves alone.
record SameButQueues (s t : VirtioDevice) : Type 0 where
  irq : t.irq ≡ s.irq
  int_status : t.int_status ≡ s.int_status
  status : t.status ≡ s.status
  queue_sel : t.queue_sel ≡ s.queue_sel
  features : t.device_features_sel ≡ s.device_features_sel
  size : t.config_space_size ≡ s.config_space_size
  space : t.config_space ≡ s.config_space
  count : length t.queue ≡ length s.queue
  debug : t.debug ≡ s.debug
  device_id : t.device_id ≡ s.device_id
  vendor_id : t.vendor_id ≡ s.vendor_id
  device_features : t.device_features ≡ s.device_features

SameButQueues-reset_queues : (n i : ℕ) (s : VirtioDevice) → SameButQueues s (reset_queues n i s)
unfolding reset_queues
SameButQueues-reset_queues zero i s = ground arith
SameButQueues-reset_queues (suc n) i s =
    let q = reset_queue (queue_at s i) in
    ground (arith, SameButQueues-reset_queues n (suc i) (set_queue s i q), length-set s.queue i q)

-- The loop leaves the queues below `i` and resets the `n` from `i` on.
queue_at-reset_queues :
    (n i : ℕ) (s : VirtioDevice) (j : ℕ)
    → n + i ≤ length s.queue
    → queue_at (reset_queues n i s) j
      ≡ (if leb i j && ltb j (n + i) then reset_queue (queue_at s j) else queue_at s j)
unfolding reset_queues
queue_at-reset_queues zero i s j room = ground arith
queue_at-reset_queues (suc n) i s j room =
    let q = reset_queue (queue_at s i) in
    ground (
      arith,
      queue_at-reset_queues n (suc i) (set_queue s i q) j (omega (arith, length-set s.queue i q)),
      get_or-set s.queue i j q zero_queue,
    )

-- A queue as `virtio_reset` is to leave it: empty, not ready, of 16 entries, without addresses, and
-- received as before.
pub record IsResetQueue (q r : QueueState) : Type 0 where
  pub ready : r.ready ≡ 0
  pub num : r.num ≡ 16
  pub last_avail_idx : r.last_avail_idx ≡ 0
  pub desc_addr : r.desc_addr ≡ 0
  pub avail_addr : r.avail_addr ≡ 0
  pub used_addr : r.used_addr ≡ 0
  pub manual_recv : r.manual_recv ≡ q.manual_recv

reset_queue-IsResetQueue : (q : QueueState) → IsResetQueue q (reset_queue q)
unfolding reset_queue
reset_queue-IsResetQueue q = record {
  ready = refl;
  num = refl;
  last_avail_idx = refl;
  desc_addr = refl;
  avail_addr = refl;
  used_addr = refl;
  manual_recv = refl;
}

IsQueue-IsResetQueue : (q r : QueueState) → IsResetQueue q r → IsQueue r
IsQueue-IsResetQueue q r e = record {
  ready_flag = omega (arith, e.ready);
  num_pow2 = (4, e.num);
  num_word = omega (arith, e.num);
  index_word = omega (arith, e.last_avail_idx);
  desc_word = omega (arith, e.desc_addr);
  avail_word = omega (arith, e.avail_addr);
  used_word = omega (arith, e.used_addr);
}

-- Every register and every queue as `virtio_reset` is to leave it, and the rest as it was.
pub record IsReset (s t : VirtioDevice) : Type 0 where
  pub status : t.status ≡ 0
  pub queue_sel : t.queue_sel ≡ 0
  pub device_features_sel : t.device_features_sel ≡ 0
  pub int_status : t.int_status ≡ 0
  pub queues : (j : ℕ) → j < max_queue → IsResetQueue (queue_at s j) (queue_at t j)
  pub count : length t.queue ≡ length s.queue
  pub irq : t.irq ≡ s.irq
  pub debug : t.debug ≡ s.debug
  pub device_id : t.device_id ≡ s.device_id
  pub vendor_id : t.vendor_id ≡ s.vendor_id
  pub device_features : t.device_features ≡ s.device_features
  pub size : t.config_space_size ≡ s.config_space_size
  pub space : t.config_space ≡ s.config_space

-- A reset of a device with its eight queues clears status, queue selector, feature selector and
-- interrupt status, makes every queue not ready, with 16 entries, a next available index of 0
-- and no addresses, keeps `manual_recv` of each queue, and leaves the interrupt line, the
-- number of queues, the device's and vendor's identity, the device's features, the debug flags
-- and the config space as they were.
pub virtio_reset-IsReset :
    (s : VirtioDevice) → length s.queue ≡ max_queue → IsReset s (virtio_reset s)
unfolding virtio_reset
virtio_reset-IsReset s len =
    let t = record s { status = 0; queue_sel = 0; device_features_sel = 0; int_status = 0 } in
    let same = SameButQueues-reset_queues max_queue 0 t in
    record {
      status = same.status;
      queue_sel = same.queue_sel;
      device_features_sel = same.features;
      int_status = same.int_status;
      queues = λ j lt.
          let e : queue_at (virtio_reset s) j ≡ reset_queue (queue_at s j) =
            ground (arith, queue_at-reset_queues max_queue 0 t j) in
          rw e (reset_queue-IsResetQueue (queue_at s j));
      count = same.count;
      irq = same.irq;
      debug = same.debug;
      device_id = same.device_id;
      vendor_id = same.vendor_id;
      device_features = same.device_features;
      size = same.size;
      space = same.space;
    }

pub IsValid-virtio_reset :
    (s : VirtioDevice)
    → length s.queue ≡ max_queue
    → IsConfig s
    → s.irq ≡ 0
    → IsValid (virtio_reset s)
IsValid-virtio_reset s len c low =
    let r = virtio_reset-IsReset s len in
    record {
      queues = (r.count ∙ len, λ j lt. IsQueue-IsResetQueue (queue_at s j) _ (r.queues j lt));
      sel = omega (arith, r.queue_sel);
      int_word = omega (arith, r.int_status);
      config = rw (r.space, r.size) c;
      line = rw (r.int_status) (r.irq ∙ low);
    }

pub AreBytes-replicate : (n : ℕ) → AreBytes (replicate n 0)
AreBytes-replicate zero = tt
AreBytes-replicate (suc n) = (omega arith, AreBytes-replicate n)

-- `virtio_init` gives a valid device, for a config space of 3 to 256 bytes.
pub IsValid-virtio_init :
    (device_id size : ℕ)
    → 3 ≤ size
    → size ≤ max_config_space_size
    → IsValid (virtio_init device_id size)
unfolding virtio_init
IsValid-virtio_init device_id size low high =
    IsValid-virtio_reset _ refl
      (
        length-replicate {A = ℕ} max_config_space_size 0,
        AreBytes-replicate max_config_space_size,
        low,
        high,
      )
      refl
