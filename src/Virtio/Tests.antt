-- ===== src/Virtio/Tests.antt =====
-- The theorems about the transport at concrete inputs.
use spike_virtio_devices.Prelude.{
  ℕ, ◌*◌, ap, ◌<◌, ◌%◌, ◌≡◌, ◌≢◌, refl, ◌∙◌, arith, none, some, List, [], ◌∷◌, length, get_or,
  length-set, add64, u8, replicate,
}
use spike_virtio_devices.Prelude.Outcome.{done, out_of_fuel, Returns}
use spike_virtio_devices.Mmu.Sample.{Bytes, sample, sample-IsMmu}
use spike_virtio_devices.Virtio.Device.{
  Machine, virtio_init, virtio_reset, reset_queues, zero_queue, queue_at, set_queue,
  virtio_config_change_notify,
}
use spike_virtio_devices.Virtio.Inv.{
  Holds, Anything, IsValid, IsReset, IsValid-virtio_init, virtio_reset-IsReset,
}
use spike_virtio_devices.Virtio.Config.{virtio_config_read, virtio_config_write}
use spike_virtio_devices.Virtio.Config.Window.{
  config_read_back, virtio_config_read_lem, virtio_config_write-IsValid,
}
use spike_virtio_devices.Virtio.Copy.{virtio_memcpy_from_ram, virtio_memcpy_to_ram}
use spike_virtio_devices.Virtio.Copy.{load_bytes}
use spike_virtio_devices.Virtio.Copy.Flat.{virtio_memcpy_from_ram_lem, virtio_memcpy_from_ram_flat}
use spike_virtio_devices.Virtio.Copy.Back.{virtio_memcpy_to_ram_lem}
use spike_virtio_devices.Virtio.Notify.{
  DeviceRecv, avail_entry, notify_step, next_avail, queue_notify,
}
use spike_virtio_devices.Virtio.Notify.Drain.{Served, ServesAll, queue_notify-Served}
use spike_virtio_devices.Virtio.Chain.{Desc, has_next, get_desc, get_desc_rw_size}
use spike_virtio_devices.Virtio.Chain.Sizes.{
  is_read, chain_sizes, get_desc_rw_size-chain_sizes, get_desc_rw_size_cycle,
}
use spike_virtio_devices.Virtio.Mmio.{write_reg, write_switch, virtio_mmio_write}
use spike_virtio_devices.Virtio.Regs.{reg_at}
use spike_virtio_devices.Virtio.Base.{store}
use spike_virtio_devices.Virtio.Base.Steps.{bus, config_change, here, next, Reach-IsValid}
use spike_virtio_devices.Cutils.{get_le16, get_le32, get_le64}

abbrev blank : Machine Bytes (Unit {0})
blank = record { dev = virtio_init 2 8; ram = λ a. a; own = tt }

blank-IsValid : IsValid blank.dev
blank-IsValid = IsValid-virtio_init 2 8 (omega arith) (omega arith)

IsValid-virtio_init_example : IsValid (virtio_init 2 8)
IsValid-virtio_init_example = IsValid-virtio_init 2 8 (omega arith) (omega arith)

virtio_reset-IsReset_example : IsReset blank.dev (virtio_reset blank.dev)
virtio_reset-IsReset_example = virtio_reset-IsReset blank.dev (blank-IsValid.queues.0)

config_read_back_example :
    Returns (λ t. virtio_config_read t.dev 4 2 ≡ done 77) (virtio_config_write none blank 4 77 2)
unfolding virtio_init virtio_reset reset_queues
config_read_back_example =
    config_read_back blank 4 77 2 blank-IsValid (omega arith) (omega arith) (omega arith)

virtio_config_read_lem_example : virtio_config_read blank.dev 6 2 ≡ done 0
unfolding virtio_init virtio_reset reset_queues
virtio_config_read_lem_example =
    virtio_config_read_lem blank.dev 6 2 (blank-IsValid.config) (omega arith)

virtio_config_write-IsValid_example :
    Returns (Holds Anything) (virtio_config_write none blank 300 1 1)
virtio_config_write-IsValid_example =
    virtio_config_write-IsValid Anything none blank 300 1 1 tt (blank-IsValid, tt)

-- Across the border of a page.
virtio_memcpy_from_ram_lem_example :
    (length (virtio_memcpy_from_ram sample blank.ram 4094 5) ≡ 5)
    × ((i : ℕ)
        → i < 5
        → get_or (virtio_memcpy_from_ram sample blank.ram 4094 5) i 0 ≡ add64 4094 i % 256)
virtio_memcpy_from_ram_lem_example =
    virtio_memcpy_from_ram_lem sample blank.ram 4094 5 (omega arith)

abbrev three : List ℕ
three = 7 ∷ 8 ∷ 9 ∷ []

virtio_memcpy_to_ram_lem_example :
    ((i : ℕ)
      → i < 3
      → virtio_memcpy_to_ram sample blank.ram 4095 three 3 (add64 4095 i) % 256
        ≡ u8 (get_or three i 0))
    × ((a : ℕ)
        → ((i : ℕ) → i < 3 → a ≢ add64 4095 i)
        → virtio_memcpy_to_ram sample blank.ram 4095 three 3 a % 256 ≡ a % 256)
virtio_memcpy_to_ram_lem_example =
    virtio_memcpy_to_ram_lem sample sample-IsMmu blank.ram 4095 three 3 (omega arith) (omega arith)

-- Guest memory that holds the same byte everywhere, and the descriptors in it.
abbrev filled : ℕ → Bytes
filled b a = b

abbrev zero_desc : Desc
zero_desc = record { addr = 0; len = 0; flags = 0; next = 0 }

get_desc_zero : (table i : ℕ) → get_desc sample (filled 0) table i ≡ zero_desc
unfolding get_desc load_bytes get_le16 get_le32 get_le64
get_desc_zero table i =
    let flat =
      virtio_memcpy_from_ram_flat sample (filled 0) (add64 table (i * 16)) 16 (omega arith) in
    rw flat

abbrev ones_desc : Desc
ones_desc = record { addr = 0x0101010101010101; len = 0x01010101; flags = 257; next = 257 }

get_desc_ones : (table i : ℕ) → get_desc sample (filled 1) table i ≡ ones_desc
unfolding get_desc load_bytes get_le16 get_le32 get_le64
get_desc_ones table i =
    let flat =
      virtio_memcpy_from_ram_flat sample (filled 1) (add64 table (i * 16)) 16 (omega arith) in
    rw flat

get_desc_rw_size-chain_sizes_example :
    get_desc_rw_size sample 1 (filled 0) 64 3
    ≡ done (chain_sizes (get_desc sample (filled 0) 64 3 ∷ []))
get_desc_rw_size-chain_sizes_example =
    get_desc_rw_size-chain_sizes sample (filled 0) 64 1 3 [] (ap has_next (get_desc_zero 64 3))
      (omega arith)

-- Every descriptor is readable and has a successor.
get_desc_rw_size_cycle_example : get_desc_rw_size sample 100 (filled 1) 64 3 ≡ out_of_fuel
get_desc_rw_size_cycle_example =
    get_desc_rw_size_cycle sample (filled 1) 64 (λ d. d ≡ ones_desc) 3
      (λ d e. (ap has_next e, ap is_read e, get_desc_ones 64 d.next)) (get_desc_ones 64 3) 100

abbrev ignore : DeviceRecv Bytes (Unit {0})
ignore m queue_idx desc_idx read_size write_size = done (0, m)

-- The queue that the driver of `blank` has selected is resized.
abbrev resized : Machine Bytes (Unit {0})
resized = record blank { dev = set_queue blank.dev 0 (record (queue_at blank.dev 0) { num = 4 }) }

Reach-IsValid_example :
    Holds Anything (record resized { dev = virtio_config_change_notify resized.dev })
unfolding virtio_init virtio_reset reset_queues store virtio_mmio_write write_switch write_reg
    reg_at
Reach-IsValid_example =
    Reach-IsValid sample 8 ignore none Anything (λ m i d r w lt v. v) tt {m = blank}
      (next (next here (bus 0x38 4 4 refl)) config_change) (blank-IsValid, tt)

-- A device one round behind a driver whose index has wrapped.
abbrev behind : Machine Bytes (Unit {0})
behind = record {
  dev = record (blank.dev) {
    queue = replicate 8 (record zero_queue { num = 16; last_avail_idx = 65535 });
  };
  ram = filled 0;
  own = tt;
}

abbrev ZeroFilled : Machine Bytes (Unit {0}) → Type 0
ZeroFilled m = (m.ram ≡ filled 0) × (0 < length m.dev.queue)

sizes_zero :
    (r : Bytes) (table i : ℕ)
    → r ≡ filled 0
    → get_desc_rw_size sample 1 r table i ≡ done (some (0, 0))
sizes_zero r table i e =
    let d = get_desc_zero table i in
    rw e (
      get_desc_rw_size-chain_sizes sample (filled 0) table 1 i [] (ap has_next d) (omega arith)
      ∙ ap (λ x. done (chain_sizes (x ∷ []))) d)

ignore-runs :
    (m : Machine Bytes (Unit {0})) → ZeroFilled m → notify_step sample 1 ignore m 0 ≡ done (0, m)
unfolding notify_step
ignore-runs m p =
    let qs = queue_at m.dev 0 in
    rw (sizes_zero m.ram qs.desc_addr (sample.load16 m.ram (avail_entry qs)) p.0)

ignore-ServesAll :
    (m : Machine Bytes (Unit {0})) → ZeroFilled m → ServesAll sample 1 ignore 0 ZeroFilled m
unfolding next_avail
ignore-ServesAll m p = record {
  answer = 0;
  after = m;
  runs = ignore-runs m p;
  goes_on = refl;
  same_index = refl;
  has_queue = p.1;
  keeps = (p.0, omega (arith, p.1, length-set m.dev.queue 0 _));
}

queue_notify-Served_example :
    (t : Machine Bytes (Unit {0})) × (queue_notify sample 1 ignore behind 0 ≡ done t)
    × Served sample 1 ignore 0 1 behind t
    × ((queue_at t.dev 0).last_avail_idx ≡ 0)
queue_notify-Served_example =
    queue_notify-Served sample 1 ignore 0 sample-IsMmu ZeroFilled behind ignore-ServesAll
      (refl, omega arith) refl (omega arith)
