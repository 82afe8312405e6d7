-- ===== src/NineP/Valid.antt =====
-- Every request keeps the 9P device serving.
pub mod WithFile
pub mod FilesKept
pub mod AttrsKept
pub mod DataKept
pub mod WalkKept
use spike_virtio_devices.Prelude.{
  ℕ, zero, suc, ◌+◌, ◌-◌, ◌/◌, ◌^◌, ◌≤◌, ◌≡◌, refl, subst, arith, Bool, true, false, Option, none,
  some, List, [], ◌∷◌, ◌++◌, ◌==◌, ltb, leb, if◌then◌else◌, Bool-cases, inl, inr, length, get_or,
  replicate, slt, sub32, add32, is_neg, u32,
}
use spike_virtio_devices.Libc.{memcpy}
use spike_virtio_devices.Prelude.Outcome.{
  Outcome, done, fault, ◌>>=◌, Ensures, Ensures->>=, Ensures-if, Ensures-trivial,
}
use spike_virtio_devices.Cutils.{put_le32, byte_at, get_le16}
use spike_virtio_devices.Mmu.{Mmu}
use spike_virtio_devices.Virtio.Device.{Machine, queue_at}
use spike_virtio_devices.NineP.{NineP, fid_find, fid_set, fid_delete}
use spike_virtio_devices.NineP.Fs.{FsDevice, FsQid, FsLock, OpenInfo}
use spike_virtio_devices.NineP.Fs.Laws.{IsText, Has, IsFileSystem}
use spike_virtio_devices.NineP.Table.Open.{open_fds}
use spike_virtio_devices.NineP.Message.{
  Fmt, Args, fmt_b, fmt_h, fmt_w, fmt_d, fmt_s, fmt_q, marshall, unmarshall, fetch,
}
use spike_virtio_devices.NineP.Reply.{
  Request, with_fs, minus_eproto, minus_enotsup, with_args, with_fid, reply_error,
  virtio_9p_open_reply, protocol_error,
}
use spike_virtio_devices.NineP.Files.{
  lopen, lcreate, symlink, mknod, mkdir, link, renameat, unlinkat, attach, clunk, walk_names,
  walk_qids, walk_reply, walk, open_info,
}
use spike_virtio_devices.NineP.Attrs.{
  statfs, readlink, getattr, setattr, xattrwalk, fsync, flush, version, stat_fmt, stat_args,
  max_msize, version_name,
}
use spike_virtio_devices.NineP.Data.{
  LockPlaces, reply_data, readdir, read, write_data, write, lock, getlock,
}
use spike_virtio_devices.NineP.Recv.{dispatch, virtio_9p_recv_request, header_len}
use spike_virtio_devices.NineP.Kept.{
  IsServing, Kept, virtio_9p_open_reply-Kept, reply-Kept, reply_error-Kept, reply_args-Kept,
  reply_empty-Kept, reply_qid-Kept, with_args-Kept, with_fid-Kept, fid_set-IsServing,
  fid_delete-IsServing, with_fs-IsServing,
}
use spike_virtio_devices.NineP.Valid.FilesKept.{
  lopen-Kept, lcreate-Kept, symlink-Kept, mknod-Kept, mkdir-Kept, unlinkat-Kept, link-Kept,
  renameat-Kept, attach-Kept, clunk-Kept,
}
use spike_virtio_devices.NineP.Valid.WalkKept.{walk-Kept}
use spike_virtio_devices.NineP.Valid.AttrsKept.{
  statfs-Kept, readlink-Kept, getattr-Kept, setattr-Kept, fsync-Kept, flush-Kept, version-Kept,
}
use spike_virtio_devices.NineP.Valid.DataKept.{
  readdir-Kept, read-Kept, write-Kept, lock-Kept, getlock-Kept,
}

module _ {R S D : Type 0} (mmu : Mmu R) (fuel : ℕ) (malloc : ℕ → List ℕ) (dev : FsDevice S D)
    (Inv : S → List D → Type 0) (laws : IsFileSystem dev Inv) (rq : Request) where
  pub dispatch-Kept :
      (places : LockPlaces) (flags : ℕ) (m : Machine R (NineP S D))
      → IsServing Inv m
      → Kept Inv mmu fuel malloc (dispatch mmu fuel malloc dev places flags rq m)
  unfolding dispatch xattrwalk
  dispatch-Kept places flags m v =
      let P : Machine R (NineP S D) → Type 0 = IsServing Inv in
      (Ensures-if P (rq.id == 8) _ _ (statfs-Kept mmu fuel malloc dev Inv laws rq m v) (
        Ensures-if P (rq.id == 12) _ _ (lopen-Kept mmu fuel malloc dev Inv laws rq m header_len v) (
          Ensures-if P (rq.id == 14) _ _
            (lcreate-Kept mmu fuel malloc dev Inv laws rq m header_len v)
            (Ensures-if P (rq.id == 16) _ _
              (symlink-Kept mmu fuel malloc dev Inv laws rq m header_len v)
              (Ensures-if P (rq.id == 18) _ _
                (mknod-Kept mmu fuel malloc dev Inv laws rq m header_len v)
                (Ensures-if P (rq.id == 22) _ _
                  (readlink-Kept mmu fuel malloc dev Inv laws rq m header_len v)
                  (Ensures-if P (rq.id == 24) _ _
                    (getattr-Kept mmu fuel malloc dev Inv laws rq m header_len v)
                    (Ensures-if P (rq.id == 26) _ _
                      (setattr-Kept mmu fuel malloc dev Inv laws rq m header_len v)
                      (Ensures-if P (rq.id == 30) _ _
                        (reply_error-Kept Inv mmu fuel malloc rq m minus_enotsup v)
                        (Ensures-if P (rq.id == 40) _ _
                          (readdir-Kept mmu fuel malloc dev Inv laws rq m header_len v)
                          (Ensures-if P (rq.id == 50) _ _
                            (fsync-Kept mmu fuel malloc dev Inv laws rq m header_len v)
                            (Ensures-if P (rq.id == 52) _ _
                              (lock-Kept mmu fuel malloc dev Inv laws rq m header_len v)
                              (Ensures-if P (rq.id == 54) _ _
                                (getlock-Kept mmu fuel malloc dev Inv laws rq places flags m
                                  header_len v)
                                (Ensures-if P (rq.id == 70) _ _
                                  (link-Kept mmu fuel malloc dev Inv laws rq m header_len v)
                                  (Ensures-if P (rq.id == 72) _ _
                                    (mkdir-Kept mmu fuel malloc dev Inv laws rq m header_len v)
                                    (Ensures-if P (rq.id == 74) _ _
                                      (renameat-Kept mmu fuel malloc dev Inv laws rq m header_len v)
                                      (Ensures-if P (rq.id == 76) _ _
                                        (unlinkat-Kept mmu fuel malloc dev Inv laws rq m header_len
                                          v)
                                        (Ensures-if P (rq.id == 100) _ _
                                          (version-Kept mmu fuel malloc dev Inv laws rq m header_len
                                            v)
                                          (Ensures-if P (rq.id == 104) _ _
                                            (attach-Kept mmu fuel malloc dev Inv laws rq m
                                              header_len v)
                                            (Ensures-if P (rq.id == 108) _ _
                                              (flush-Kept mmu fuel malloc dev Inv laws rq m
                                                header_len v)
                                              (Ensures-if P (rq.id == 110) _ _
                                                (walk-Kept mmu fuel malloc dev Inv laws rq m
                                                  header_len v)
                                                (Ensures-if P (rq.id == 116) _ _
                                                  (read-Kept mmu fuel malloc dev Inv laws rq m
                                                    header_len v)
                                                  (Ensures-if P (rq.id == 118) _ _
                                                    (write-Kept mmu fuel malloc dev Inv laws rq m
                                                      header_len v)
                                                    (Ensures-if P (rq.id == 120) _ _
                                                      (clunk-Kept mmu fuel malloc dev Inv laws rq m
                                                        header_len v)
                                                      (reply_error-Kept Inv mmu fuel malloc rq m
                                                        minus_eproto v)))))))))))))))))))))))))
