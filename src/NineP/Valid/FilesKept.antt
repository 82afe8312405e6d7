-- ===== src/NineP/Valid/FilesKept.antt =====
-- The requests of NineP keep the device serving: open, create, link, walk and the like.
use spike_virtio_devices.Prelude.{Bool, ℕ, List, [], ◌∷◌, ◌==◌, slt, sub32, subst, if◌then◌else◌}
use spike_virtio_devices.Prelude.Outcome.{Ensures-if, Ensures-test}
use spike_virtio_devices.Mmu.{Mmu}
use spike_virtio_devices.Virtio.Device.{Machine}
use spike_virtio_devices.NineP.{NineP}
use spike_virtio_devices.NineP.Fs.{FsDevice}
use spike_virtio_devices.NineP.Fs.Laws.{IsFileSystem}
use spike_virtio_devices.NineP.Table.Open.{open_fds}
use spike_virtio_devices.NineP.Message.{fmt_w, fmt_q}
use spike_virtio_devices.NineP.Reply.{Request, with_fs}
use spike_virtio_devices.NineP.Files.{
  lopen, lcreate, symlink, mknod, mkdir, link, renameat, unlinkat, attach, clunk, open_info,
}
use spike_virtio_devices.NineP.Kept.{
  IsServing, Kept, virtio_9p_open_reply-Kept, reply-Kept, reply_error-Kept, reply_args-Kept,
  reply_empty-Kept, reply_qid-Kept, with_args-Kept, with_fid-Kept, fid_set-IsServing,
  fid_delete-IsServing, Anywhere, with_fs-IsServing,
}
use spike_virtio_devices.NineP.Valid.WithFile.{with_file-Kept}

module _ {R S D : Type 0} (mmu : Mmu R) (fuel : ℕ) (malloc : ℕ → List ℕ) (dev : FsDevice S D)
    (Inv : S → List D → Type 0) (laws : IsFileSystem dev Inv) (rq : Request) where
  pub lopen-Kept :
      (m : Machine R (NineP S D)) (offset : ℕ)
      → IsServing Inv m
      → Kept Inv mmu fuel malloc (lopen mmu fuel malloc dev rq m offset)
  unfolding lopen
  lopen-Kept m offset v =
      with_file-Kept Inv mmu fuel malloc rq m offset _ (λ a. a.0) _ v
        (λ a end f k u.
          let r = dev.fs_open m.own.fs f (a.1.0) (open_info rq) in
          let kept =
            laws.open_file m.own.fs (open_fds m.own.fid_list) f (a.1.0) (open_info rq) v.files u in
          Ensures-if (IsServing Inv) (slt 0 r.0) _ _
            (record { valid = v.valid; unique = v.unique; size = v.size; files = kept })
            (virtio_9p_open_reply-Kept Inv mmu fuel malloc (with_fs m r.2) (r.1) r.0 (open_info rq)
              (with_fs-IsServing Inv Inv m v _ (kept))))

  pub lcreate-Kept :
      (m : Machine R (NineP S D)) (offset : ℕ)
      → IsServing Inv m
      → Kept Inv mmu fuel malloc (lcreate mmu fuel malloc dev rq m offset)
  unfolding lcreate
  lcreate-Kept m offset v =
      with_file-Kept Inv mmu fuel malloc rq m offset _ (λ a. a.0) _ v
        (λ a end f k u.
          let r = dev.fs_create m.own.fs f (a.1.0) (a.1.1.0) (a.1.1.1.0) (a.1.1.1.1.0) in
          let m' = with_fs m r.2 in
          let v' = with_fs-IsServing Inv Inv m v _ (
            laws.create m.own.fs (open_fds m.own.fid_list) f (a.1.0) (a.1.1.0) (a.1.1.1.0)
              (a.1.1.1.1.0) v.files u (k.1.0)) in
          Ensures-if (IsServing Inv) (r.0 == 0) _ _
            (reply_args-Kept Inv mmu fuel malloc rq m' (fmt_q ∷ fmt_w ∷ [])
              (r.1, (sub32 m.own.msize 24, tt)) v')
            (reply_error-Kept Inv mmu fuel malloc rq m' r.0 v'))

  pub symlink-Kept :
      (m : Machine R (NineP S D)) (offset : ℕ)
      → IsServing Inv m
      → Kept Inv mmu fuel malloc (symlink mmu fuel malloc dev rq m offset)
  unfolding symlink
  symlink-Kept m offset v =
      with_file-Kept Inv mmu fuel malloc rq m offset _ (λ a. a.0) _ v
        (λ a end f k u. reply_qid-Kept Inv mmu fuel malloc rq _ _ _ (
          with_fs-IsServing Inv Inv m v _ (
            laws.symlink m.own.fs (open_fds m.own.fid_list) f (a.1.0) (a.1.1.0) (a.1.1.1.0) v.files
              u (k.1.0) (k.1.1.0))))

  pub mknod-Kept :
      (m : Machine R (NineP S D)) (offset : ℕ)
      → IsServing Inv m
      → Kept Inv mmu fuel malloc (mknod mmu fuel malloc dev rq m offset)
  unfolding mknod
  mknod-Kept m offset v =
      with_file-Kept Inv mmu fuel malloc rq m offset _ (λ a. a.0) _ v
        (λ a end f k u. reply_qid-Kept Inv mmu fuel malloc rq _ _ _ (
          with_fs-IsServing Inv Inv m v _ (
            laws.mknod m.own.fs (open_fds m.own.fid_list) f (a.1.0) (a.1.1.0) (a.1.1.1.0)
              (a.1.1.1.1.0) (a.1.1.1.1.1.0) v.files u (k.1.0))))

  pub mkdir-Kept :
      (m : Machine R (NineP S D)) (offset : ℕ)
      → IsServing Inv m
      → Kept Inv mmu fuel malloc (mkdir mmu fuel malloc dev rq m offset)
  unfolding mkdir
  mkdir-Kept m offset v =
      with_file-Kept Inv mmu fuel malloc rq m offset _ (λ a. a.0) _ v
        (λ a end f k u. reply_qid-Kept Inv mmu fuel malloc rq _ _ _ (
          with_fs-IsServing Inv Inv m v _ (
            laws.mkdir m.own.fs (open_fds m.own.fid_list) f (a.1.0) (a.1.1.0) (a.1.1.1.0) v.files u
              (k.1.0))))

  pub unlinkat-Kept :
      (m : Machine R (NineP S D)) (offset : ℕ)
      → IsServing Inv m
      → Kept Inv mmu fuel malloc (unlinkat mmu fuel malloc dev rq m offset)
  unfolding unlinkat
  unlinkat-Kept m offset v =
      with_file-Kept Inv mmu fuel malloc rq m offset _ (λ a. a.0) _ v
        (λ a end f k u. reply_empty-Kept Inv mmu fuel malloc rq _ _ (
          with_fs-IsServing Inv Inv m v _
            (laws.unlinkat m.own.fs (open_fds m.own.fid_list) f (a.1.0) v.files u (k.1.0))))

  pub link-Kept :
      (m : Machine R (NineP S D)) (offset : ℕ)
      → IsServing Inv m
      → Kept Inv mmu fuel malloc (link mmu fuel malloc dev rq m offset)
  unfolding link
  link-Kept m offset v =
      with_file-Kept Inv mmu fuel malloc rq m offset _ (λ a. a.0) _ v
        (λ a end f k u. with_fid-Kept Inv mmu fuel malloc rq m (a.1.0) _ v (λ g w.
          reply_empty-Kept Inv mmu fuel malloc rq _ _ (
            with_fs-IsServing Inv Inv m v _
              (laws.link m.own.fs (open_fds m.own.fid_list) f g (a.1.1.0) v.files u w (k.1.1.0)))))

  pub renameat-Kept :
      (m : Machine R (NineP S D)) (offset : ℕ)
      → IsServing Inv m
      → Kept Inv mmu fuel malloc (renameat mmu fuel malloc dev rq m offset)
  unfolding renameat
  renameat-Kept m offset v =
      with_file-Kept Inv mmu fuel malloc rq m offset _ (λ a. a.0) _ v
        (λ a end f k u. with_fid-Kept Inv mmu fuel malloc rq m (a.1.1.0) _ v (λ g w.
          reply_empty-Kept Inv mmu fuel malloc rq _ _ (
            with_fs-IsServing Inv Inv m v _ (
              laws.renameat m.own.fs (open_fds m.own.fid_list) f (a.1.0) g (a.1.1.1.0) v.files u
                (k.1.0) w (k.1.1.1.0)))))

  pub attach-Kept :
      (m : Machine R (NineP S D)) (offset : ℕ)
      → IsServing Inv m
      → Kept Inv mmu fuel malloc (attach mmu fuel malloc dev rq m offset)
  unfolding attach
  attach-Kept m offset v = with_args-Kept Inv mmu fuel malloc rq m offset _ _ v (λ a end k.
      let fs = open_fds m.own.fid_list in
      let r = dev.fs_attach m.own.fs (a.1.1.1.1.0) (a.1.1.0) (a.1.1.1.0) in
      let m' = with_fs m r.3 in
      let kept =
        laws.attach m.own.fs fs (a.1.1.1.1.0) (a.1.1.0) (a.1.1.1.0) v.files (k.1.1.0) (k.1.1.1.0) in
      let Now : Bool → Type 0 = λ b. Inv r.3 (if b then r.1 ∷ fs else fs) in
      Ensures-test (IsServing Inv) (r.0 == 0) _ _
        (λ e.
          reply_args-Kept Inv mmu fuel malloc rq _ (fmt_q ∷ []) (r.2, tt)
            (fid_set-IsServing dev Inv laws m' (with_fs-IsServing Inv Anywhere m v r.3 tt) a.0 r.1
              (subst Now e kept)))
        (λ e.
          reply_error-Kept Inv mmu fuel malloc rq m' r.0
            (with_fs-IsServing Inv Inv m v r.3 (subst Now e kept))))

  pub clunk-Kept :
      (m : Machine R (NineP S D)) (offset : ℕ)
      → IsServing Inv m
      → Kept Inv mmu fuel malloc (clunk mmu fuel malloc dev rq m offset)
  unfolding clunk
  clunk-Kept m offset v = with_args-Kept Inv mmu fuel malloc rq m offset _ _ v (λ a end k.
      reply-Kept Inv mmu fuel malloc rq _ [] 0 (fid_delete-IsServing dev Inv laws m v a.0))
