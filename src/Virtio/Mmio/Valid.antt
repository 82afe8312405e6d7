-- ===== src/Virtio/Mmio/Valid.antt =====
-- Register writes keep a device valid.
use spike_virtio_devices.Prelude.{
  ℕ, ◌+◌, ◌-◌, ◌*◌, ◌/◌, ◌%◌, ◌^◌, ◌≤◌, ◌<◌, ◌≡◌, refl, ◌∙◌, arith, ◌==◌, ltb, ◌&&◌, ltb→lt, true,
  Bool-cases, inl, inr, bit_and, sub32,
}
use spike_virtio_devices.Prelude.Bits.{
  IsPow2, bit_and-le, bit_and_mask, bit_and-parts, bit_and-zero, bit_and_full, bit_or_fields,
  bit_or_fields_swap, IsPow2-test,
}
use spike_virtio_devices.Virtio.Device.{QueueState, VirtioDevice, max_queue}
use spike_virtio_devices.Virtio.Inv.{IsQueue, IsValid, IsValid-set_queue, IsValid-virtio_reset}
use spike_virtio_devices.Virtio.Regs.{Reg}
use spike_virtio_devices.Virtio.Mmio.{selected, set_low32, set_high32, write_reg}

-- The low half is replaced and the high half stays; and the other way round.
pub set_low32_value : (p v : ℕ) → p < 2 ^ 64 → v < 2 ^ 32 → set_low32 p v ≡ p / 2 ^ 32 * 2 ^ 32 + v
unfolding set_low32
set_low32_value p v hp hv =
    let hi = p / 2 ^ 32 in
    let kept : bit_and p (2 ^ 64 - 2 ^ 32) ≡ hi * 2 ^ 32 = ground (
      arith,
      bit_and-parts 32 hi (2 ^ 32 - 1) (p % 2 ^ 32) 0 (omega arith) (omega arith),
      bit_and_full 32 hi (omega arith),
      bit_and-zero (p % 2 ^ 32),
    ) in
    rw kept (bit_or_fields 32 hi v hv)

pub set_high32_value : (p v : ℕ) → set_high32 p v ≡ v * 2 ^ 32 + p % 2 ^ 32
unfolding set_high32
set_high32_value p v =
    rw (bit_and_mask 32 p) (bit_or_fields_swap 32 v (p % 2 ^ 32) (omega arith) ∙ omega arith)

set_low32-lt : (p v : ℕ) → p < 2 ^ 64 → v < 2 ^ 32 → set_low32 p v < 2 ^ 64
set_low32-lt p v hp hv = omega (arith, set_low32_value p v hp hv)

set_high32-lt : (p v : ℕ) → v < 2 ^ 32 → set_high32 p v < 2 ^ 64
set_high32-lt p v hv = omega (arith, set_high32_value p v)

selected-IsQueue : (s : VirtioDevice) → IsValid s → IsQueue (selected s)
selected-IsQueue s v = v.queues.1 s.queue_sel v.sel

-- `IsQueue` with another ring address, size or readiness.
with_addrs :
    (q : QueueState) (a b c : ℕ)
    → IsQueue q
    → a < 2 ^ 64
    → b < 2 ^ 64
    → c < 2 ^ 64
    → IsQueue (record q { desc_addr = a; avail_addr = b; used_addr = c })
with_addrs q a b c v ha hb hc = record {
  ready_flag = v.ready_flag;
  num_pow2 = v.num_pow2;
  num_word = v.num_word;
  index_word = v.index_word;
  desc_word = ha;
  avail_word = hb;
  used_word = hc;
}

with_size :
    (q : QueueState) (ready num : ℕ)
    → IsQueue q
    → ready ≤ 1
    → IsPow2 num
    → num < 2 ^ 32
    → IsQueue (record q { ready = ready; num = num })
with_size q ready num v hr hp hn = record {
  ready_flag = hr;
  num_pow2 = hp;
  num_word = hn;
  index_word = v.index_word;
  desc_word = v.desc_word;
  avail_word = v.avail_word;
  used_word = v.used_word;
}

-- A size that passes the test of the driver's write is a power of two.
accepted_size :
    (val : ℕ) → val < 2 ^ 32 → (bit_and val (sub32 val 1) == 0 && ltb 0 val) ≡ true → IsPow2 val
accepted_size val h ok =
    let low : sub32 val 1 ≡ val - 1 = ground arith in
    IsPow2-test val val (omega arith) (ground arith) (ground (arith, low))

-- Any register write but a notification keeps the device valid.
pub write_reg-IsValid :
    (s : VirtioDevice) (r : Reg) (val : ℕ) → val < 2 ^ 32 → IsValid s → IsValid (write_reg s r val)
unfolding write_reg
write_reg-IsValid s Reg.device_features_sel val h v = record {
  queues = v.queues;
  sel = v.sel;
  int_word = v.int_word;
  config = v.config;
  line = v.line;
}
write_reg-IsValid s Reg.queue_sel val h v = elim (Bool-cases (ltb val max_queue)) [
  | inl fits ↦ rw fits (record {
    queues = v.queues;
    sel = ltb→lt val max_queue fits;
    int_word = v.int_word;
    config = v.config;
    line = v.line;
  })
  | inr big ↦ rw big v
]
write_reg-IsValid s Reg.queue_num val h v =
    elim (Bool-cases (bit_and val (sub32 val 1) == 0 && ltb 0 val)) [
      | inl good ↦
          let q = selected-IsQueue s v in
          rw good (
            IsValid-set_queue s.queue_sel _ v (
              with_size (selected s) (selected s).ready val q q.ready_flag
                (accepted_size val h good) h))
      | inr bad ↦ rw bad v
    ]
write_reg-IsValid s Reg.status val h v = elim (Bool-cases (val == 0)) [
  | inl zero_val ↦
      rw zero_val
        (IsValid-virtio_reset (record s { status = val; irq = 0 }) v.queues.0 v.config refl)
  | inr other ↦ rw other (record {
    queues = v.queues;
    sel = v.sel;
    int_word = v.int_word;
    config = v.config;
    line = v.line;
  })
]
write_reg-IsValid s Reg.queue_ready val h v =
    let q = selected-IsQueue s v in
    IsValid-set_queue s.queue_sel _ v (
      with_size (selected s) (bit_and val 1) (selected s).num q
        (omega (arith, bit_and-le val val 1 (omega arith))) q.num_pow2 q.num_word)
write_reg-IsValid s Reg.interrupt_ack val h v =
    let left = bit_and s.int_status (2 ^ 32 - 1 - val) in
    let word : left < 2 ^ 32 =
      omega (
        arith,
        v.int_word,
        bit_and-le s.int_status s.int_status (2 ^ 32 - 1 - val) (omega arith),
      ) in
    elim (Bool-cases (left == 0)) [
      | inl clear ↦ rw clear (record {
        queues = v.queues;
        sel = v.sel;
        int_word = word;
        config = v.config;
        line = rw clear refl;
      })
      | inr pending ↦ rw pending (record {
        queues = v.queues;
        sel = v.sel;
        int_word = word;
        config = v.config;
        line = ground (arith, bit_and-le s.int_status s.int_status (2 ^ 32 - 1 - val));
      })
    ]
write_reg-IsValid s Reg.queue_desc_low val h v =
    let q = selected-IsQueue s v in
    IsValid-set_queue s.queue_sel _ v (
      with_addrs (selected s) (set_low32 (selected s).desc_addr val) (selected s).avail_addr
        (selected s).used_addr q (set_low32-lt (selected s).desc_addr val q.desc_word h)
        q.avail_word q.used_word)
write_reg-IsValid s Reg.queue_desc_high val h v =
    let q = selected-IsQueue s v in
    IsValid-set_queue s.queue_sel _ v (
      with_addrs (selected s) (set_high32 (selected s).desc_addr val) (selected s).avail_addr
        (selected s).used_addr q (set_high32-lt (selected s).desc_addr val h) q.avail_word
        q.used_word)
write_reg-IsValid s Reg.queue_avail_low val h v =
    let q = selected-IsQueue s v in
    IsValid-set_queue s.queue_sel _ v (
      with_addrs (selected s) (selected s).desc_addr (set_low32 (selected s).avail_addr val)
        (selected s).used_addr q q.desc_word
        (set_low32-lt (selected s).avail_addr val q.avail_word h) q.used_word)
write_reg-IsValid s Reg.queue_avail_high val h v =
    let q = selected-IsQueue s v in
    IsValid-set_queue s.queue_sel _ v (
      with_addrs (selected s) (selected s).desc_addr (set_high32 (selected s).avail_addr val)
        (selected s).used_addr q q.desc_word (set_high32-lt (selected s).avail_addr val h)
        q.used_word)
write_reg-IsValid s Reg.queue_used_low val h v =
    let q = selected-IsQueue s v in
    IsValid-set_queue s.queue_sel _ v (
      with_addrs (selected s) (selected s).desc_addr (selected s).avail_addr
        (set_low32 (selected s).used_addr val) q q.desc_word q.avail_word
        (set_low32-lt (selected s).used_addr val q.used_word h))
write_reg-IsValid s Reg.queue_used_high val h v =
    let q = selected-IsQueue s v in
    IsValid-set_queue s.queue_sel _ v (
      with_addrs (selected s) (selected s).desc_addr (selected s).avail_addr
        (set_high32 (selected s).used_addr val) q q.desc_word q.avail_word
        (set_high32-lt (selected s).used_addr val h))
write_reg-IsValid s _ val h v = v
