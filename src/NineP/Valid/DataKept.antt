-- ===== src/NineP/Valid/DataKept.antt =====
-- The requests of NineP keep the device serving: reading, writing and locks.
use spike_virtio_devices.Prelude.{
  ℕ, ◌+◌, Option, none, some, List, [], ◌∷◌, ◌==◌, leb, if◌then◌else◌, length, add32, is_neg, u32,
}
use spike_virtio_devices.Libc.{memcpy}
use spike_virtio_devices.Prelude.Outcome.{done, fault, Ensures->>=, Ensures-if, Ensures-trivial}
use spike_virtio_devices.Cutils.{put_le32}
use spike_virtio_devices.Mmu.{Mmu}
use spike_virtio_devices.Virtio.Device.{Machine}
use spike_virtio_devices.NineP.{NineP}
use spike_virtio_devices.NineP.Fs.{FsDevice, FsLock}
use spike_virtio_devices.NineP.Fs.Laws.{Has, IsFileSystem}
use spike_virtio_devices.NineP.Table.Open.{open_fds}
use spike_virtio_devices.NineP.Message.{fmt_w, fetch}
use spike_virtio_devices.NineP.Reply.{Request, with_fs, minus_eproto}
use spike_virtio_devices.NineP.Data.{
  LockPlaces, reply_data, readdir, read, write_data, write, lock, getlock,
}
use spike_virtio_devices.NineP.Kept.{
  IsServing, Kept, reply-Kept, reply_error-Kept, reply_args-Kept, with_fs-IsServing,
}
use spike_virtio_devices.NineP.Valid.WithFile.{with_file-Kept}

module _ {R S D : Type 0} (mmu : Mmu R) (fuel : ℕ) (malloc : ℕ → List ℕ) (dev : FsDevice S D)
    (Inv : S → List D → Type 0) (laws : IsFileSystem dev Inv) (rq : Request) where
  reply_data-Kept :
      (m : Machine R (NineP S D)) (count n : ℕ) (bytes : List ℕ)
      → IsServing Inv m
      → Kept Inv mmu fuel malloc (reply_data mmu fuel malloc dev rq m count n bytes)
  unfolding reply_data
  reply_data-Kept m count n bytes v =
      Ensures->>= (λ _. Unit) (IsServing Inv)
        (if length bytes == 0
          then done (malloc (u32 (count + 4)))
          else memcpy (malloc (u32 (count + 4))) 4 bytes (length bytes))
        _ (Ensures-trivial _)
        (λ buf _.
          Ensures-if (IsServing Inv) (is_neg n) _ _ (reply_error-Kept Inv mmu fuel malloc rq m n v)
            (Ensures-if (IsServing Inv) (leb 4 (length buf)) _ fault
              (reply-Kept Inv mmu fuel malloc rq m (put_le32 buf 0 n) (add32 n 4) v) tt))

  pub readdir-Kept :
      (m : Machine R (NineP S D)) (offset : ℕ)
      → IsServing Inv m
      → Kept Inv mmu fuel malloc (readdir mmu fuel malloc dev rq m offset)
  unfolding readdir
  readdir-Kept m offset v =
      with_file-Kept Inv mmu fuel malloc rq m offset _ (λ a. a.0) _ v
        (λ a end f k u.
          let r = dev.fs_readdir m.own.fs f (a.1.0) (a.1.1.0) in
          reply_data-Kept (with_fs m r.2) (a.1.1.0) r.0 r.1 (
            with_fs-IsServing Inv Inv m v _
              (laws.readdir m.own.fs (open_fds m.own.fid_list) f (a.1.0) (a.1.1.0) v.files u)))

  pub read-Kept :
      (m : Machine R (NineP S D)) (offset : ℕ)
      → IsServing Inv m
      → Kept Inv mmu fuel malloc (read mmu fuel malloc dev rq m offset)
  unfolding read
  read-Kept m offset v =
      with_file-Kept Inv mmu fuel malloc rq m offset _ (λ a. a.0) _ v
        (λ a end f k u.
          let r = dev.fs_read m.own.fs f (a.1.0) (a.1.1.0) in
          reply_data-Kept (with_fs m r.2) (a.1.1.0) r.0 r.1 (
            with_fs-IsServing Inv Inv m v _
              (laws.read m.own.fs (open_fds m.own.fid_list) f (a.1.0) (a.1.1.0) v.files u)))

  write_data-Kept :
      (m : Machine R (NineP S D)) (f : D) (offs count : ℕ) (bytes : Option (List ℕ))
      → IsServing Inv m
      → Has f (open_fds m.own.fid_list)
      → Kept Inv mmu fuel malloc (write_data mmu fuel malloc dev rq m f offs count bytes)
  unfolding write_data
  write_data-Kept m f offs count none v u = reply_error-Kept Inv mmu fuel malloc rq m minus_eproto v
  write_data-Kept m f offs count (some buf1) v u =
      let r = dev.fs_write m.own.fs f offs buf1 count in
      let v' =
        with_fs-IsServing Inv Inv m v _
          (laws.write m.own.fs (open_fds m.own.fid_list) f offs buf1 count v.files u) in
      Ensures-if (IsServing Inv) (is_neg r.0) _ _
        (reply_error-Kept Inv mmu fuel malloc rq (with_fs m r.1) r.0 v')
        (reply_args-Kept Inv mmu fuel malloc rq (with_fs m r.1) (fmt_w ∷ []) (r.0, tt) v')

  pub write-Kept :
      (m : Machine R (NineP S D)) (offset : ℕ)
      → IsServing Inv m
      → Kept Inv mmu fuel malloc (write mmu fuel malloc dev rq m offset)
  unfolding write
  write-Kept m offset v =
      with_file-Kept Inv mmu fuel malloc rq m offset _ (λ a. a.0) _ v
        (λ a end f k u.
          Ensures->>= (λ _. Unit) (IsServing Inv)
            (fetch mmu fuel malloc m.ram _ rq.desc_idx (malloc (a.1.1.0)) end (a.1.1.0)) _
            (Ensures-trivial _) (λ bytes _. write_data-Kept m f (a.1.0) (a.1.1.0) bytes v u))

  pub lock-Kept :
      (m : Machine R (NineP S D)) (offset : ℕ)
      → IsServing Inv m
      → Kept Inv mmu fuel malloc (lock mmu fuel malloc dev rq m offset)
  unfolding lock
  lock-Kept m offset v =
      with_file-Kept Inv mmu fuel malloc rq m offset _ (λ a. a.0) _ v
        (λ a end f k u.
          let l : FsLock = record {
            type = a.1.0;
            flags = a.1.1.0;
            start = a.1.1.1.0;
            length = a.1.1.1.1.0;
            proc_id = a.1.1.1.1.1.0;
            client_id = a.1.1.1.1.1.1.0;
          } in
          let r = dev.fs_lock m.own.fs f l in
          let v' =
            with_fs-IsServing Inv Inv m v _
              (laws.lock m.own.fs (open_fds m.own.fid_list) f l v.files u) in
          Ensures-if (IsServing Inv) (is_neg r.0) _ _
            (reply_error-Kept Inv mmu fuel malloc rq (with_fs m r.1) r.0 v')
            (reply_args-Kept Inv mmu fuel malloc rq (with_fs m r.1) _ _ v'))

  pub getlock-Kept :
      (places : LockPlaces) (flags : ℕ) (m : Machine R (NineP S D)) (offset : ℕ)
      → IsServing Inv m
      → Kept Inv mmu fuel malloc (getlock mmu fuel malloc dev rq places flags m offset)
  unfolding getlock
  getlock-Kept places flags m offset v =
      with_file-Kept Inv mmu fuel malloc rq m offset _ (λ a. a.0) _ v
        (λ a end f k u.
          let l : FsLock = record {
            type = a.1.0;
            flags = flags;
            start = a.1.1.0;
            length = a.1.1.1.0;
            proc_id = a.1.1.1.1.0;
            client_id = a.1.1.1.1.1.0;
          } in
          let r = dev.fs_getlock m.own.fs f l in
          let v' =
            with_fs-IsServing Inv Inv m v _
              (laws.getlock m.own.fs (open_fds m.own.fid_list) f l v.files u) in
          Ensures-if (IsServing Inv) (is_neg r.0) _ _
            (reply_error-Kept Inv mmu fuel malloc rq (with_fs m r.2) r.0 v')
            (reply_args-Kept Inv mmu fuel malloc rq (with_fs m r.2) _ _ v'))
