-- ===== src/NineP/Kept.antt =====
-- The invariant of the 9P device, and what keeps it: the replies, and what the requests share.
use spike_virtio_devices.Prelude.{
  ℕ, ◌≤◌, arith, Option, none, some, List, [], ◌∷◌, ◌==◌, sub32, add32, sext64, is_neg, replicate,
}
use spike_virtio_devices.Libc.{memcpy}
use spike_virtio_devices.Prelude.Outcome.{
  Outcome, Ensures, Ensures->>=, Ensures-if, Ensures-trivial,
}
use spike_virtio_devices.Prelude.{◌≡◌, refl}
use spike_virtio_devices.Mmu.{Mmu}
use spike_virtio_devices.Virtio.Device.{Machine, queue_at}
use spike_virtio_devices.Virtio.Inv.{IsValid}
use spike_virtio_devices.Virtio.Chain.{memcpy_to_queue}
use spike_virtio_devices.Virtio.Notify.{virtio_consume_desc}
use spike_virtio_devices.Virtio.Notify.Valid.{virtio_consume_desc-IsValid}
use spike_virtio_devices.NineP.{NineP, fid_find, fid_set, fid_delete}
use spike_virtio_devices.NineP.Table.{
  AreUnique, fid_find-fid_set, fid_find-fid_delete, msize-fid_set, msize-fid_delete,
}
use spike_virtio_devices.NineP.Fs.{FsDevice, FsQid, OpenInfo}
use spike_virtio_devices.NineP.Fs.Laws.{Has, IsFileSystem}
use spike_virtio_devices.NineP.Table.Open.{open_fds, fid_find-Has, fid_set-Inv, fid_delete-Inv}
use spike_virtio_devices.NineP.Message.Read.{AreRead, Answer, unmarshall-AreRead}
use spike_virtio_devices.NineP.Message.{Fmt, fmt_w, fmt_q, Args, marshall, unmarshall}
use spike_virtio_devices.NineP.Reply.{
  Request, with_fs, virtio_9p_send_reply, virtio_9p_send_error, virtio_9p_open_reply, reply,
  reply_error, protocol_error, reply_args, reply_empty, reply_qid, with_args, with_fid,
  minus_eproto,
}
use spike_virtio_devices.NineP.Attrs.{max_msize}

-- The transport is valid, no fid is twice in the table, the message size is within its bound, and
-- the file system knows the files in the table.
pub record IsServing {R S D : Type 0} (Inv : S → List D → Type 0) (m : Machine R (NineP S D))
    : Type 0 where
  pub valid : IsValid m.dev
  pub unique : AreUnique m.own.fid_list
  pub size : m.own.msize ≤ max_msize
  pub files : Inv m.own.fs (open_fds m.own.fid_list)

module _ {R S D : Type 0} (Inv : S → List D → Type 0) (mmu : Mmu R) (fuel : ℕ)
    (malloc : ℕ → List ℕ) where
  abbrev pub Kept : Outcome (Machine R (NineP S D)) → Type 0
  Kept o = Ensures (IsServing Inv) o

  pub virtio_9p_send_reply-Kept :
      (m : Machine R (NineP S D)) (queue_idx desc_idx id tag : ℕ) (buf : List ℕ) (buf_len : ℕ)
      → IsServing Inv m
      → Kept (virtio_9p_send_reply mmu fuel malloc m queue_idx desc_idx id tag buf buf_len)
  unfolding virtio_9p_send_reply virtio_consume_desc
  virtio_9p_send_reply-Kept m queue_idx desc_idx id tag buf buf_len v =
      Ensures->>= (λ _. Unit) (IsServing Inv) (memcpy _ 7 buf (sext64 buf_len)) _
        (Ensures-trivial _)
        (λ buf1 _.
          Ensures->>= (λ _. Unit) (IsServing Inv)
            (memcpy_to_queue mmu fuel m.ram _ desc_idx 0 buf1 _) _ (Ensures-trivial _)
            (λ r _. record {
              valid =
                  virtio_consume_desc-IsValid mmu (record m { ram = r.1 }) queue_idx desc_idx
                    (add32 buf_len 7) v.valid;
              unique = v.unique;
              size = v.size;
              files = v.files;
            }))

  pub virtio_9p_send_error-Kept :
      (m : Machine R (NineP S D)) (queue_idx desc_idx tag error : ℕ)
      → IsServing Inv m
      → Kept (virtio_9p_send_error mmu fuel malloc m queue_idx desc_idx tag error)
  unfolding virtio_9p_send_error
  virtio_9p_send_error-Kept m queue_idx desc_idx tag error v =
      Ensures->>= (λ _. Unit) (IsServing Inv)
        (marshall (replicate 4 0) 0 4 (fmt_w ∷ []) (sub32 0 error, tt)) _ (Ensures-trivial _)
        (λ r _. virtio_9p_send_reply-Kept m queue_idx desc_idx 6 tag r.1 r.0 v)

  pub virtio_9p_open_reply-Kept :
      (m : Machine R (NineP S D)) (qid : FsQid) (err : ℕ) (oi : OpenInfo)
      → IsServing Inv m
      → Kept (virtio_9p_open_reply mmu fuel malloc m qid err oi)
  unfolding virtio_9p_open_reply
  virtio_9p_open_reply-Kept m qid err oi v =
      Ensures-if (IsServing Inv) (is_neg err) _ _
        (virtio_9p_send_error-Kept m oi.queue_idx oi.desc_idx oi.tag err v)
        (Ensures->>= (λ _. Unit) (IsServing Inv)
          (marshall (replicate 32 0) 0 32 (fmt_q ∷ fmt_w ∷ []) (qid, (sub32 m.own.msize 24, tt))) _
          (Ensures-trivial _)
          (λ r _. virtio_9p_send_reply-Kept m oi.queue_idx oi.desc_idx 12 oi.tag r.1 r.0 v))

  module _ (rq : Request) where
    pub reply-Kept :
        (m : Machine R (NineP S D)) (buf : List ℕ) (buf_len : ℕ)
        → IsServing Inv m
        → Kept (reply mmu fuel malloc rq m buf buf_len)
    reply-Kept m buf buf_len v =
        virtio_9p_send_reply-Kept m rq.queue_idx rq.desc_idx rq.id rq.tag buf buf_len v

    pub reply_error-Kept :
        (m : Machine R (NineP S D)) (err : ℕ)
        → IsServing Inv m
        → Kept (reply_error mmu fuel malloc rq m err)
    reply_error-Kept m err v = virtio_9p_send_error-Kept m rq.queue_idx rq.desc_idx rq.tag err v

    pub reply_args-Kept :
        (m : Machine R (NineP S D)) (fmt : List Fmt) (args : Args fmt)
        → IsServing Inv m
        → Kept (reply_args mmu fuel malloc rq m fmt args)
    unfolding reply_args
    reply_args-Kept m fmt args v =
        Ensures->>= (λ _. Unit) (IsServing Inv) (marshall (replicate 1024 0) 0 1024 fmt args) _
          (Ensures-trivial _) (λ r _. reply-Kept m r.1 r.0 v)

    pub reply_empty-Kept :
        (m : Machine R (NineP S D)) (err : ℕ)
        → IsServing Inv m
        → Kept (reply_empty mmu fuel malloc rq m err)
    unfolding reply_empty
    reply_empty-Kept m err v =
        Ensures-if (IsServing Inv) (err == 0) _ _ (reply-Kept m [] 0 v) (reply_error-Kept m err v)

    pub reply_qid-Kept :
        (m : Machine R (NineP S D)) (err : ℕ) (qid : FsQid)
        → IsServing Inv m
        → Kept (reply_qid mmu fuel malloc rq m err qid)
    unfolding reply_qid
    reply_qid-Kept m err qid v =
        Ensures-if (IsServing Inv) (err == 0) _ _ (reply_args-Kept m (fmt_q ∷ []) (qid, tt) v)
          (reply_error-Kept m err v)

    args_read :
        (m : Machine R (NineP S D)) (fmt : List Fmt) (r : Option (Args fmt × ℕ))
        (next : Args fmt → ℕ → Outcome (Machine R (NineP S D)))
        → IsServing Inv m
        → Answer (AreRead fmt) r
        → ((args : Args fmt) (end : ℕ) → AreRead fmt args → Kept (next args end))
        → Kept (elim r [
          | none ↦ protocol_error mmu fuel malloc rq m
          | some (args, end) ↦ next args end
        ])
    args_read m fmt none next v k h = reply_error-Kept m minus_eproto v
    args_read m fmt (some (args, end)) next v k h = h args end k

    pub with_args-Kept :
        (m : Machine R (NineP S D)) (offset : ℕ) (fmt : List Fmt)
        (next : Args fmt → ℕ → Outcome (Machine R (NineP S D)))
        → IsServing Inv m
        → ((args : Args fmt) (end : ℕ) → AreRead fmt args → Kept (next args end))
        → Kept (with_args mmu fuel malloc rq m offset fmt next)
    unfolding with_args
    with_args-Kept m offset fmt next v h =
        let table = (queue_at m.dev rq.queue_idx).desc_addr in
        Ensures->>= (Answer (AreRead fmt)) (IsServing Inv)
          (unmarshall mmu fuel malloc m.ram table rq.desc_idx fmt offset) _
          (unmarshall-AreRead mmu fuel malloc m.ram table rq.desc_idx fmt offset)
          (λ r k. args_read m fmt r next v k h)

    fid_read :
        (m : Machine R (NineP S D)) (fid : ℕ) (r : Option D)
        (next : D → Outcome (Machine R (NineP S D)))
        → IsServing Inv m
        → fid_find m.own fid ≡ r
        → ((f : D) → Has f (open_fds m.own.fid_list) → Kept (next f))
        → Kept (elim r [ none ↦ protocol_error mmu fuel malloc rq m | some f ↦ next f ])
    fid_read m fid none next v e h = reply_error-Kept m minus_eproto v
    fid_read m fid (some f) next v e h = h f (fid_find-Has m.own fid f e)

    pub with_fid-Kept :
        (m : Machine R (NineP S D)) (fid : ℕ) (next : D → Outcome (Machine R (NineP S D)))
        → IsServing Inv m
        → ((f : D) → Has f (open_fds m.own.fid_list) → Kept (next f))
        → Kept (with_fid mmu fuel malloc rq m fid next)
    unfolding with_fid
    with_fid-Kept m fid next v h = fid_read m fid (fid_find m.own fid) next v refl h

-- No invariant of the file system.
abbrev pub Anywhere : {S D : Type 0} → S → List D → Type 0
Anywhere s fs = Unit

module _ {R S D : Type 0} (dev : FsDevice S D) (Inv : S → List D → Type 0)
    (laws : IsFileSystem dev Inv) (m : Machine R (NineP S D)) where
  -- The new file of a fid.
  pub fid_set-IsServing :
      IsServing Anywhere m
      → (fid : ℕ) (f : D) → Inv m.own.fs (f ∷ open_fds m.own.fid_list)
      → IsServing Inv (record m { own = fid_set dev.fs_delete m.own fid f })
  fid_set-IsServing v fid f h = record {
    valid = v.valid;
    unique = (fid_find-fid_set dev.fs_delete m.own fid fid f v.unique).0;
    size = omega (arith, msize-fid_set dev.fs_delete m.own fid f, v.size);
    files = fid_set-Inv dev Inv laws m.own fid f h;
  }

  pub fid_delete-IsServing :
      IsServing Inv m
      → (fid : ℕ) → IsServing Inv (record m { own = fid_delete dev.fs_delete m.own fid })
  fid_delete-IsServing v fid = record {
    valid = v.valid;
    unique = (fid_find-fid_delete dev.fs_delete m.own fid fid v.unique).0;
    size = omega (arith, msize-fid_delete dev.fs_delete m.own fid, v.size);
    files = fid_delete-Inv dev Inv laws m.own fid v.files;
  }

-- What a file system call leaves of the machine; `Keep` is what it keeps of the files.
pub with_fs-IsServing :
    {R S D : Type 0} (Inv Keep : S → List D → Type 0) (m : Machine R (NineP S D))
    → IsServing Inv m
    → (fs : S) → Keep fs (open_fds m.own.fid_list)
    → IsServing Keep (with_fs m fs)
with_fs-IsServing Inv Keep m v fs h = record {
  valid = v.valid;
  unique = v.unique;
  size = v.size;
  files = h;
}
