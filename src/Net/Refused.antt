-- ===== src/Net/Refused.antt =====
-- What a packet from the network does to the receive queue.
use spike_virtio_devices.Prelude.{ℕ, ◌≡◌, arith, false, Bool-cases, inl, inr, List, ◌==◌, add64}
use spike_virtio_devices.Prelude.Outcome.{done}
use spike_virtio_devices.Mmu.{Mmu}
use spike_virtio_devices.Virtio.Device.{Machine, queue_at}
use spike_virtio_devices.Virtio.Copy.{virtio_read16}
use spike_virtio_devices.Net.{Net, virtio_net_can_write_packet, virtio_net_write_packet}

module _ {R E : Type 0} (mmu : Mmu R) (fuel : ℕ) where
  -- Where `virtio_net_can_write_packet` answers false, `virtio_net_write_packet` changes
  -- nothing.
  pub virtio_net_write_packet_refused :
      (m : Machine R (Net E)) (buf : List ℕ) (buf_len : ℕ)
      → virtio_net_can_write_packet mmu fuel m ≡ false
      → virtio_net_write_packet mmu fuel m buf buf_len ≡ done m
  unfolding virtio_net_can_write_packet virtio_net_write_packet
  virtio_net_write_packet_refused m buf buf_len closed =
      let qs = queue_at m.dev 0 in
      elim (Bool-cases (qs.ready == 0)) [
        | inl off ↦ rw off
        | inr on ↦
            elim (Bool-cases
              (qs.last_avail_idx == virtio_read16 mmu m.ram (add64 qs.avail_addr 2))) [
                | inl empty ↦ rw (on, empty)
                | inr more ↦ absurd (ground arith)
              ]
      ]
