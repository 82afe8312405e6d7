-- ===== src/NineP/Valid/AttrsKept.antt =====
-- The requests of NineP keep the device serving: attributes, versions and the like.
use spike_virtio_devices.Prelude.{ℕ, ◌≤◌, arith, List, [], ◌∷◌, ◌==◌, ltb, if◌then◌else◌}
use spike_virtio_devices.Prelude.Outcome.{Ensures-if}
use spike_virtio_devices.Mmu.{Mmu}
use spike_virtio_devices.Virtio.Device.{Machine}
use spike_virtio_devices.NineP.{NineP}
use spike_virtio_devices.NineP.Fs.{FsDevice}
use spike_virtio_devices.NineP.Fs.Laws.{IsFileSystem}
use spike_virtio_devices.NineP.Table.Open.{open_fds}
use spike_virtio_devices.NineP.Message.{fmt_s}
use spike_virtio_devices.NineP.Reply.{Request, with_fs}
use spike_virtio_devices.NineP.Attrs.{
  statfs, readlink, getattr, setattr, fsync, flush, version, stat_fmt, stat_args, max_msize,
}
use spike_virtio_devices.NineP.Kept.{
  IsServing, Kept, reply-Kept, reply_error-Kept, reply_args-Kept, reply_empty-Kept, with_args-Kept,
  with_fs-IsServing,
}
use spike_virtio_devices.NineP.Valid.WithFile.{with_file-Kept}

module _ {R S D : Type 0} (mmu : Mmu R) (fuel : ℕ) (malloc : ℕ → List ℕ) (dev : FsDevice S D)
    (Inv : S → List D → Type 0) (laws : IsFileSystem dev Inv) (rq : Request) where
  pub statfs-Kept :
      (m : Machine R (NineP S D))
      → IsServing Inv m
      → Kept Inv mmu fuel malloc (statfs mmu fuel malloc dev rq m)
  unfolding statfs
  statfs-Kept m v =
      reply_args-Kept Inv mmu fuel malloc rq _ _ _
        (with_fs-IsServing Inv Inv m v _ (laws.statfs m.own.fs (open_fds m.own.fid_list) v.files))

  pub readlink-Kept :
      (m : Machine R (NineP S D)) (offset : ℕ)
      → IsServing Inv m
      → Kept Inv mmu fuel malloc (readlink mmu fuel malloc dev rq m offset)
  unfolding readlink
  readlink-Kept m offset v =
      with_file-Kept Inv mmu fuel malloc rq m offset _ (λ a. a.0) _ v
        (λ a end f k u.
          let r = dev.fs_readlink m.own.fs 1024 f in
          let v' =
            with_fs-IsServing Inv Inv m v _
              (laws.readlink m.own.fs (open_fds m.own.fid_list) f 1024 v.files u) in
          Ensures-if (IsServing Inv) (r.0 == 0) _ _
            (reply_args-Kept Inv mmu fuel malloc rq (with_fs m r.2) (fmt_s ∷ []) (r.1, tt) v')
            (reply_error-Kept Inv mmu fuel malloc rq (with_fs m r.2) r.0 v'))

  pub getattr-Kept :
      (m : Machine R (NineP S D)) (offset : ℕ)
      → IsServing Inv m
      → Kept Inv mmu fuel malloc (getattr mmu fuel malloc dev rq m offset)
  unfolding getattr
  getattr-Kept m offset v =
      with_file-Kept Inv mmu fuel malloc rq m offset _ (λ a. a.0) _ v
        (λ a end f k u.
          let r = dev.fs_stat m.own.fs f in
          let v' =
            with_fs-IsServing Inv Inv m v _
              (laws.stat m.own.fs (open_fds m.own.fid_list) f v.files u) in
          Ensures-if (IsServing Inv) (r.0 == 0) _ _
            (reply_args-Kept Inv mmu fuel malloc rq (with_fs m r.2) stat_fmt (stat_args (a.1.0) r.1)
              v')
            (reply_error-Kept Inv mmu fuel malloc rq (with_fs m r.2) r.0 v'))

  pub setattr-Kept :
      (m : Machine R (NineP S D)) (offset : ℕ)
      → IsServing Inv m
      → Kept Inv mmu fuel malloc (setattr mmu fuel malloc dev rq m offset)
  unfolding setattr
  setattr-Kept m offset v =
      with_file-Kept Inv mmu fuel malloc rq m offset _ (λ a. a.0) _ v
        (λ a end f k u. reply_empty-Kept Inv mmu fuel malloc rq _ _ (
          with_fs-IsServing Inv Inv m v _ (
            laws.setattr m.own.fs (open_fds m.own.fid_list) f (a.1.0) (a.1.1.0) (a.1.1.1.0)
              (a.1.1.1.1.0) (a.1.1.1.1.1.0) (a.1.1.1.1.1.1.0) (a.1.1.1.1.1.1.1.0)
              (a.1.1.1.1.1.1.1.1.0) (a.1.1.1.1.1.1.1.1.1.0) v.files u)))

  pub fsync-Kept :
      (m : Machine R (NineP S D)) (offset : ℕ)
      → IsServing Inv m
      → Kept Inv mmu fuel malloc (fsync mmu fuel malloc dev rq m offset)
  unfolding fsync
  fsync-Kept m offset v =
      with_args-Kept Inv mmu fuel malloc rq m offset _ _ v
        (λ a end k. reply-Kept Inv mmu fuel malloc rq m [] 0 v)

  pub flush-Kept :
      (m : Machine R (NineP S D)) (offset : ℕ)
      → IsServing Inv m
      → Kept Inv mmu fuel malloc (flush mmu fuel malloc dev rq m offset)
  unfolding flush
  flush-Kept m offset v =
      with_args-Kept Inv mmu fuel malloc rq m offset _ _ v
        (λ a end k. reply-Kept Inv mmu fuel malloc rq m [] 0 v)

  capped : (msize : ℕ) → (if ltb max_msize msize then max_msize else msize) ≤ max_msize
  capped msize = ground arith

  pub version-Kept :
      (m : Machine R (NineP S D)) (offset : ℕ)
      → IsServing Inv m
      → Kept Inv mmu fuel malloc (version mmu fuel malloc dev rq m offset)
  unfolding version
  version-Kept m offset v = with_args-Kept Inv mmu fuel malloc rq m offset _ _ v (λ a end k.
      reply_args-Kept Inv mmu fuel malloc rq _ _ _
        (record { valid = v.valid; unique = v.unique; size = capped a.0; files = v.files }))
