-- ===== src/Net.antt =====
-- src/virtio.cc: the virtio network device. The Ethernet backend is an argument: its state `E` is
-- the `es` of the device, and `write_packet` its function of that name, which may call the device back
-- before it returns. `malloc` gives a block of the asked size, whose bytes are arbitrary.
pub mod Valid
pub mod Refused
mod Tests
use spike_virtio_devices.Prelude.{
  ℕ, Bool, true, false, not, List, ◌++◌, ◌==◌, if◌then◌else◌, Option, none, some, take, drop, set,
  replicate, add32, sub32, add64, sext64, slt, is_neg,
}
use spike_virtio_devices.Prelude.Outcome.{Outcome, done, ◌>>=◌}
use spike_virtio_devices.Mmu.{Mmu}
use spike_virtio_devices.Virtio.Device.{VirtioDevice, Machine, queue_at, set_queue, virtio_init}
use spike_virtio_devices.Virtio.Copy.{virtio_read16}
use spike_virtio_devices.Virtio.Chain.{get_desc_rw_size, memcpy_from_queue, memcpy_to_queue}
use spike_virtio_devices.Virtio.Notify.{avail_entry, virtio_consume_desc, next_avail}

-- What `VIRTIONetDevice` adds to `VIRTIODevice`.
pub record Net (E : Type 0) : Type 0 where
  pub es : E
  pub header_size : ℕ

-- `sizeof(VIRTIONetHeader)`
abbrev pub net_header_size : ℕ
net_header_size = 12

abbrev pub net_header : List ℕ
net_header = replicate net_header_size 0

-- What a function of the backend does: it returns with its state, or first calls one of the two
-- functions that the device hands to it, `device_can_write_packet` and `device_write_packet`.
pub data Backend (E : Type 0) : Type 0 where
  returns : E → Backend E
  can_write : (Bool → Backend E) → Backend E
  deliver : List ℕ → ℕ → Backend E → Backend E

module _ {R E : Type 0} (mmu : Mmu R) (fuel : ℕ) where
  unfoldable pub virtio_net_can_write_packet : Machine R (Net E) → Bool
  virtio_net_can_write_packet m =
      let qs = queue_at m.dev 0 in
      if qs.ready == 0
      then false
      else not (qs.last_avail_idx == virtio_read16 mmu m.ram (add64 qs.avail_addr 2))

  -- A packet that fits goes to the chain `desc_idx`.
  unfoldable pub put_packet : Machine R (Net E) → ℕ → List ℕ → ℕ → ℕ → Outcome (Machine R (Net E))
  put_packet m desc_idx buf buf_len len = do
    let table = (queue_at m.dev 0).desc_addr
    let size = m.own.header_size
    (ret, ram, h) ← memcpy_to_queue mmu fuel m.ram table desc_idx 0 (replicate size 0) size
    (ret', ram', b) ← memcpy_to_queue mmu fuel ram table desc_idx size buf buf_len
    done (next_avail (virtio_consume_desc mmu (record m { ram = ram' }) 0 desc_idx len) 0)

  unfoldable pub virtio_net_write_packet :
      Machine R (Net E) → List ℕ → ℕ → Outcome (Machine R (Net E))
  virtio_net_write_packet m buf buf_len =
      let qs = queue_at m.dev 0 in
      let len = add32 m.own.header_size buf_len in
      if qs.ready == 0
      then done m
      else if qs.last_avail_idx == virtio_read16 mmu m.ram (add64 qs.avail_addr 2)
      then done m
      else do
        let desc_idx = virtio_read16 mmu m.ram (avail_entry qs)
        sizes ← get_desc_rw_size mmu fuel m.ram qs.desc_addr desc_idx
        elim sizes [
          | none ↦ done m
          | some (read_size, write_size) ↦
              if slt write_size len then done m else put_packet m desc_idx buf buf_len len
        ]

  -- A run of the backend on the device: what it asks is answered, and what it gives is delivered, at
  -- once.
  unfoldable pub run_backend : Backend E → Machine R (Net E) → Outcome (Machine R (Net E))
  unfolding virtio_net_can_write_packet virtio_net_write_packet
  run_backend (returns es) m = done (record m { own = record (m.own) { es = es } })
  run_backend (can_write next) m = run_backend (next (virtio_net_can_write_packet m)) m
  run_backend (deliver buf buf_len next) m =
      virtio_net_write_packet m buf buf_len >>= run_backend next

  module _ (malloc : ℕ → List ℕ) (write_packet : E → List ℕ → ℕ → Backend E) where
    -- The packet behind the header goes to the network.
    unfoldable pub send_to_network : Machine R (Net E) → ℕ → ℕ → ℕ → Outcome (ℕ × Machine R (Net E))
    unfolding run_backend
    send_to_network m queue_idx desc_idx read_size = do
      let table = (queue_at m.dev queue_idx).desc_addr
      let len = sub32 read_size m.own.header_size
      (ret, ram, buf) ←
          memcpy_from_queue mmu fuel m.ram table (malloc (sext64 len)) desc_idx m.own.header_size
            len
      m' ← run_backend (write_packet m.own.es buf len) (record m { ram = ram })
      done (0, virtio_consume_desc mmu m' queue_idx desc_idx 0)

    unfoldable pub virtio_net_recv_request :
        Machine R (Net E) → ℕ → ℕ → ℕ → ℕ → Outcome (ℕ × Machine R (Net E))
    virtio_net_recv_request m queue_idx desc_idx read_size write_size =
        if queue_idx == 1
        then (do
          let table = (queue_at m.dev queue_idx).desc_addr
          (ret, ram, h) ←
              memcpy_from_queue mmu fuel m.ram table net_header desc_idx 0 m.own.header_size
          let m' = record m { ram = ram }
          if is_neg ret then done (0, m') else send_to_network m' queue_idx desc_idx read_size)
        else done (0, m)

-- The config space holds the address of the interface and a status of 0.
abbrev pub net_config : List ℕ → List ℕ → List ℕ
net_config mac_addr c = set (set (take 6 mac_addr ++ drop 6 c) 6 0) 7 0

unfoldable pub virtio_net_init : {R E : Type 0} → E → List ℕ → R → Machine R (Net E)
virtio_net_init es mac_addr ram =
    let s = virtio_init 1 8 in
    let q = record (queue_at s 0) { manual_recv = true } in
    record {
      dev = record (set_queue s 0 q) {
        device_features = 32;
        config_space = net_config mac_addr s.config_space;
      };
      ram = ram;
      own = record { es = es; header_size = net_header_size };
    }
