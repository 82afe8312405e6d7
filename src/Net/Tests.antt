-- ===== src/Net/Tests.antt =====
-- The network device at concrete inputs.
use spike_virtio_devices.Prelude.{
  ℕ, ◌≡◌, refl, arith, List, [], ◌∷◌, ◌++◌, replicate, if◌then◌else◌,
}
use spike_virtio_devices.Prelude.Outcome.{done}
use spike_virtio_devices.Cutils.Endian.{AreBytes}
use spike_virtio_devices.Mmu.Sample.{Bytes, sample}
use spike_virtio_devices.Virtio.Device.{
  Machine, virtio_init, virtio_reset, reset_queues, reset_queue,
}
use spike_virtio_devices.Virtio.Inv.{IsValid}
use spike_virtio_devices.Virtio.Base.Steps.{memory}
use spike_virtio_devices.Net.{
  Backend, returns, can_write, deliver, run_backend, Net, virtio_net_init,
  virtio_net_can_write_packet, virtio_net_write_packet,
}
use spike_virtio_devices.Net.Valid.{start, later, guest, backend, NetReach-virtio_net_init}
use spike_virtio_devices.Net.Refused.{virtio_net_write_packet_refused}

abbrev mac : List ℕ
mac = 2 ∷ 0 ∷ 0 ∷ 0 ∷ 0 ∷ 1 ∷ []

mac-AreBytes : AreBytes mac
mac-AreBytes =
    (omega arith, (omega arith, (omega arith, (omega arith, (omega arith, (omega arith, tt))))))

-- The backend is the list of the bytes that were sent. It sends each packet back where the device has
-- room.
abbrev echo : List ℕ → List ℕ → ℕ → Backend (List ℕ)
echo es buf len =
    can_write (λ room. if room then deliver buf len (returns (es ++ buf)) else returns (es ++ buf))

abbrev fresh : Machine Bytes (Net (List ℕ))
fresh = virtio_net_init [] mac (λ a. a)

-- The receive queue is not ready after initialisation.
virtio_net_write_packet_refused_example :
    virtio_net_write_packet sample 8 fresh (1 ∷ 2 ∷ []) 2 ≡ done fresh
unfolding virtio_net_init virtio_init virtio_reset reset_queues reset_queue
    virtio_net_can_write_packet
virtio_net_write_packet_refused_example =
    virtio_net_write_packet_refused sample 8 fresh (1 ∷ 2 ∷ []) 2 refl

NetReach-virtio_net_init_example : IsValid (record fresh { ram = λ a. 1 }).dev
unfolding virtio_net_init virtio_init virtio_reset reset_queues reset_queue virtio_net_write_packet
    run_backend virtio_net_can_write_packet
NetReach-virtio_net_init_example =
    NetReach-virtio_net_init sample 8 (λ n. replicate n 0) echo [] mac (λ a. a) refl mac-AreBytes
      (later (later start (backend (echo [] (1 ∷ 2 ∷ []) 2) refl)) (guest (memory (λ a. 1))))
