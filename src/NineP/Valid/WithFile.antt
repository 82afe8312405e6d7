-- ===== src/NineP/Valid/WithFile.antt =====
-- What the requests of NineP with a fid share.
use spike_virtio_devices.Prelude.{ℕ, List}
use spike_virtio_devices.Prelude.Outcome.{Outcome}
use spike_virtio_devices.Mmu.{Mmu}
use spike_virtio_devices.Virtio.Device.{Machine}
use spike_virtio_devices.NineP.{NineP}
use spike_virtio_devices.NineP.Message.{Fmt, Args}
use spike_virtio_devices.NineP.Fs.Laws.{Has}
use spike_virtio_devices.NineP.Table.Open.{open_fds}
use spike_virtio_devices.NineP.Message.Read.{AreRead}
use spike_virtio_devices.NineP.Reply.{Request, with_args, with_fid}
use spike_virtio_devices.NineP.Kept.{IsServing, Kept, with_args-Kept, with_fid-Kept}

module _ {R S D : Type 0} (Inv : S → List D → Type 0) (mmu : Mmu R) (fuel : ℕ) (malloc : ℕ → List ℕ)
    (rq : Request) where
  -- A request that reads its arguments, finds a file, and goes on.
  pub with_file-Kept :
      (m : Machine R (NineP S D)) (offset : ℕ) (fmt : List Fmt) (fid : Args fmt → ℕ)
      (next : Args fmt → ℕ → D → Outcome (Machine R (NineP S D)))
      → IsServing Inv m
      → ((args : Args fmt) (end : ℕ) (f : D)
          → AreRead fmt args
          → Has f (open_fds m.own.fid_list)
          → Kept Inv mmu fuel malloc (next args end f))
      → Kept Inv mmu fuel malloc (
          with_args mmu fuel malloc rq m offset fmt
            (λ args end. with_fid mmu fuel malloc rq m (fid args) (next args end)))
  with_file-Kept m offset fmt fid next v h =
      with_args-Kept Inv mmu fuel malloc rq m offset fmt _ v (λ args end k.
        with_fid-Kept Inv mmu fuel malloc rq m (fid args) (next args end) v
          (λ f u. h args end f k u))
