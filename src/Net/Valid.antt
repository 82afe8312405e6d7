-- ===== src/Net/Valid.antt =====
-- The invariant of the transport under the network device of src/virtio.cc, in both directions.
use spike_virtio_devices.Prelude.{
  ℕ, ◌≡◌, subst, ◌∙◌, arith, true, List, ◌++◌, length, length-append, length-set, ◌==◌, none, some,
  take, drop, set, All-append, All-take, All-drop, length-take, length-drop, if◌then◌else◌, All-set,
  add32, sub32, add64, is_neg, slt,
}
use spike_virtio_devices.Prelude.Outcome.{done, Ensures, Ensures->>=, Ensures-if, Ensures-trivial}
use spike_virtio_devices.Cutils.Endian.{IsByte, AreBytes}
use spike_virtio_devices.Mmu.{Mmu}
use spike_virtio_devices.Virtio.Device.{Machine, queue_at, virtio_init}
use spike_virtio_devices.Virtio.Inv.{Anything, IsValid, IsValid-set_queue, IsValid-virtio_init}
use spike_virtio_devices.Virtio.Copy.{virtio_read16}
use spike_virtio_devices.Virtio.Chain.{get_desc_rw_size, memcpy_from_queue, memcpy_to_queue}
use spike_virtio_devices.Virtio.Notify.{avail_entry, virtio_consume_desc}
use spike_virtio_devices.Virtio.Notify.Valid.{
  recv-KeepsValid, virtio_consume_desc-IsValid, next_avail-IsValid,
}
use spike_virtio_devices.Virtio.Base.Steps.{Step, Step-IsValid}
use spike_virtio_devices.Net.{
  Backend, returns, can_write, deliver, run_backend, Net, send_to_network, virtio_net_recv_request,
  put_packet, virtio_net_write_packet, virtio_net_init, net_config,
}

module _ {R E : Type 0} (mmu : Mmu R) (fuel : ℕ) where
  abbrev Answered : ℕ × Machine R (Net E) → Type 0
  Answered r = IsValid r.1.dev

  abbrev Left : Machine R (Net E) → Type 0
  Left t = IsValid t.dev

  put_packet-IsValid :
      (m : Machine R (Net E)) (desc_idx : ℕ) (buf : List ℕ) (buf_len len : ℕ)
      → IsValid m.dev
      → Ensures Left (put_packet mmu fuel m desc_idx buf buf_len len)
  unfolding put_packet
  put_packet-IsValid m desc_idx buf buf_len len v =
      Ensures->>= (λ _. Unit) Left (memcpy_to_queue mmu fuel m.ram _ _ _ _ _) _ (Ensures-trivial _)
        (λ r _.
          Ensures->>= (λ _. Unit) Left (memcpy_to_queue mmu fuel _ _ _ _ _ _) _ (Ensures-trivial _)
            (λ r' _.
              next_avail-IsValid (virtio_consume_desc mmu (record m { ram = r'.1 }) 0 desc_idx len)
                0 (omega arith)
                (virtio_consume_desc-IsValid mmu (record m { ram = r'.1 }) 0 desc_idx len v)))

  pub virtio_net_write_packet-IsValid :
      (m : Machine R (Net E)) (buf : List ℕ) (buf_len : ℕ)
      → IsValid m.dev
      → Ensures Left (virtio_net_write_packet mmu fuel m buf buf_len)
  unfolding virtio_net_write_packet
  virtio_net_write_packet-IsValid m buf buf_len v =
      let qs = queue_at m.dev 0 in
      let avail_idx = virtio_read16 mmu m.ram (add64 qs.avail_addr 2) in
      let desc_idx = virtio_read16 mmu m.ram (avail_entry qs) in
      let len = add32 m.own.header_size buf_len in
      Ensures-if Left (qs.ready == 0) (done m) _ v (
        Ensures-if Left (qs.last_avail_idx == avail_idx) (done m) _ v (
          Ensures->>= (λ _. Unit) Left (get_desc_rw_size mmu fuel m.ram qs.desc_addr desc_idx) _
            (Ensures-trivial _)
            (λ sizes _.
              elim sizes
                as (λ x. Ensures Left (elim x [
                  | none ↦ done m
                  | some (read_size, write_size) ↦
                      if slt write_size len
                      then done m
                      else put_packet mmu fuel m desc_idx buf buf_len len
                ])) [
                  | none ↦ v
                  | some (read_size, write_size) ↦
                      Ensures-if Left (slt write_size len) (done m) _ v
                        (put_packet-IsValid m desc_idx buf buf_len len v)
                ])))

  run_backend-IsValid :
      (b : Backend E) (m : Machine R (Net E))
      → IsValid m.dev
      → Ensures Left (run_backend mmu fuel b m)
  unfolding run_backend
  run_backend-IsValid (returns es) m v = v
  run_backend-IsValid (can_write next) m v = run_backend-IsValid (next _) m v
  run_backend-IsValid (deliver buf buf_len next) m v =
      Ensures->>= Left Left (virtio_net_write_packet mmu fuel m buf buf_len)
        (run_backend mmu fuel next) (virtio_net_write_packet-IsValid m buf buf_len v)
        (λ t ok. run_backend-IsValid next t ok)

  module _ (malloc : ℕ → List ℕ) (write_packet : E → List ℕ → ℕ → Backend E) where
    send_to_network-IsValid :
        (m : Machine R (Net E)) (queue_idx desc_idx read_size : ℕ)
        → IsValid m.dev
        → Ensures Answered
            (send_to_network mmu fuel malloc write_packet m queue_idx desc_idx read_size)
    unfolding send_to_network
    send_to_network-IsValid m queue_idx desc_idx read_size v =
        Ensures->>= (λ _. Unit) Answered (memcpy_from_queue mmu fuel m.ram _ _ _ _ _) _
          (Ensures-trivial _)
          (λ r _.
            let answer = write_packet m.own.es r.2 (sub32 read_size m.own.header_size) in
            Ensures->>= Left Answered (run_backend mmu fuel answer (record m { ram = r.1 })) _
              (run_backend-IsValid answer (record m { ram = r.1 }) v)
              (λ t ok. virtio_consume_desc-IsValid mmu t queue_idx desc_idx 0 ok))

    pub virtio_net_recv_request-IsValid :
        (m : Machine R (Net E)) (queue_idx desc_idx read_size write_size : ℕ)
        → IsValid m.dev
        → Ensures Answered (
            virtio_net_recv_request mmu fuel malloc write_packet m queue_idx desc_idx read_size
              write_size)
    unfolding virtio_net_recv_request
    virtio_net_recv_request-IsValid m queue_idx desc_idx read_size write_size v =
        Ensures-if Answered (queue_idx == 1) _ (done (0, m))
          (Ensures->>= (λ _. Unit) Answered (memcpy_from_queue mmu fuel m.ram _ _ _ _ _) _
            (Ensures-trivial _)
            (λ r _.
              Ensures-if Answered (is_neg r.0) (done (0, record m { ram = r.1 })) _ v
                (send_to_network-IsValid (record m { ram = r.1 }) queue_idx desc_idx read_size v)))
          v

length-net_config :
    (mac_addr c : List ℕ)
    → length mac_addr ≡ 6
    → length c ≡ 256
    → length (net_config mac_addr c) ≡ 256
length-net_config mac_addr c six full =
    let front = take 6 mac_addr ++ drop 6 c in
    length-set (set front 6 0) 7 0
    ∙ length-set front 6 0
    ∙ length-append (take 6 mac_addr) (drop 6 c)
    ∙ omega (arith, length-take 6 mac_addr, length-drop 6 c)

net_config-AreBytes :
    (mac_addr c : List ℕ) → AreBytes mac_addr → AreBytes c → AreBytes (net_config mac_addr c)
net_config-AreBytes mac_addr c h k =
    All-set IsByte _ 7 0
      (All-set IsByte _ 6 0
        (All-append IsByte (take 6 mac_addr) (drop 6 c) (All-take IsByte 6 mac_addr h)
          (All-drop IsByte 6 c k))
        (omega arith))
      (omega arith)

pub virtio_net_init-IsValid :
    {R E : Type 0} (es : E) (mac_addr : List ℕ) (ram : R)
    → length mac_addr ≡ 6
    → AreBytes mac_addr
    → IsValid (virtio_net_init es mac_addr ram).dev
unfolding virtio_net_init
virtio_net_init-IsValid es mac_addr ram six bytes =
    let s = virtio_init 1 8 in
    let v = IsValid-virtio_init 1 8 (omega arith) (omega arith) in
    let q = v.queues.1 0 (omega arith) in
    let w =
      IsValid-set_queue 0 (record (queue_at s 0) { manual_recv = true }) v
        (record {
          ready_flag = q.ready_flag;
          num_pow2 = q.num_pow2;
          num_word = q.num_word;
          index_word = q.index_word;
          desc_word = q.desc_word;
          avail_word = q.avail_word;
          used_word = q.used_word;
        }) in
    record {
      queues = w.queues;
      sel = w.sel;
      int_word = w.int_word;
      config = (
        length-net_config mac_addr s.config_space six v.config.0,
        net_config-AreBytes mac_addr s.config_space bytes v.config.1,
        v.config.2,
        v.config.3,
      );
      line = w.line;
    }

module _ {R E : Type 0} (mmu : Mmu R) (fuel : ℕ) (malloc : ℕ → List ℕ)
    (write_packet : E → List ℕ → ℕ → Backend E) where
  -- What happens to a network device: what happens to its transport, or what the backend does on its
  -- own, when the host's network has something for it.
  pub data NetStep (m : Machine R (Net E)) : Machine R (Net E) → Type 0 where
    guest :
        {t : Machine R (Net E)}
        → Step mmu fuel (virtio_net_recv_request mmu fuel malloc write_packet) none m t
        → NetStep m t
    backend :
        (b : Backend E) {t : Machine R (Net E)} → run_backend mmu fuel b m ≡ done t → NetStep m t

  pub data NetReach (m : Machine R (Net E)) : Machine R (Net E) → Type 0 where
    start : NetReach m m
    later : {t u : Machine R (Net E)} → NetReach m t → NetStep t u → NetReach m u

  NetStep-IsValid : {m t : Machine R (Net E)} → NetStep m t → IsValid m.dev → IsValid t.dev
  NetStep-IsValid {m} (guest s) v =
      (Step-IsValid mmu fuel _ none Anything
        (recv-KeepsValid _ (virtio_net_recv_request-IsValid mmu fuel malloc write_packet)) tt s
        (v, tt)).0
  NetStep-IsValid {m} (backend b e) v =
      subst (λ o. Ensures (λ t. IsValid t.dev) o) e (run_backend-IsValid mmu fuel b m v)

  NetReach-IsValid : {m t : Machine R (Net E)} → NetReach m t → IsValid m.dev → IsValid t.dev
  NetReach-IsValid start v = v
  NetReach-IsValid (later r s) v = NetStep-IsValid s (NetReach-IsValid r v)

  -- A network device with an address of six bytes is valid in every state that it reaches from
  -- `virtio_net_init` by bus writes of any address, length and value, by whatever the guest
  -- writes to its memory between them, by configuration changes, and by what the Ethernet
  -- backend does: on its own, or when it is given a packet to send and before it returns, it
  -- may ask the device any number of times whether it can take a packet, and deliver packets to
  -- it.
  pub NetReach-virtio_net_init :
      (es : E) (mac_addr : List ℕ) (ram : R) {t : Machine R (Net E)}
      → length mac_addr ≡ 6
      → AreBytes mac_addr
      → NetReach (virtio_net_init es mac_addr ram) t
      → IsValid t.dev
  NetReach-virtio_net_init es mac_addr ram six bytes r =
      NetReach-IsValid r (virtio_net_init-IsValid es mac_addr ram six bytes)
