-- ===== src/NineP/Reply.antt =====
-- src/virtio.cc: the replies of the 9P device, and what its requests share. `malloc` gives a block
-- of the asked size, whose bytes are arbitrary.
use spike_virtio_devices.Prelude.{
  ℕ, ◌+◌, ◌-◌, ◌^◌, none, some, List, [], ◌∷◌, ◌==◌, if◌then◌else◌, set, replicate, add32, sub32,
  sext64, is_neg, u8,
}
use spike_virtio_devices.Libc.{memcpy}
use spike_virtio_devices.Prelude.Outcome.{Outcome, done, ◌>>=◌}
use spike_virtio_devices.Cutils.{put_le16, put_le32}
use spike_virtio_devices.Mmu.{Mmu}
use spike_virtio_devices.Virtio.Device.{Machine, queue_at}
use spike_virtio_devices.Virtio.Chain.{memcpy_to_queue}
use spike_virtio_devices.Virtio.Notify.{virtio_consume_desc}
use spike_virtio_devices.NineP.{NineP, fid_find}
use spike_virtio_devices.NineP.Fs.{FsQid, OpenInfo}
use spike_virtio_devices.NineP.Message.{Fmt, fmt_w, fmt_q, Args, marshall, unmarshall}

-- `-P9_EPROTO` and `-P9_ENOTSUP`
abbrev pub minus_eproto : ℕ
minus_eproto = 2 ^ 32 - 71

abbrev pub minus_enotsup : ℕ
minus_enotsup = 2 ^ 32 - 524

-- What `virtio_9p_recv_request` knows of a request once it has read the header.
pub record Request : Type 0 where
  pub queue_idx : ℕ
  pub desc_idx : ℕ
  pub id : ℕ  -- uint8_t
  pub tag : ℕ  -- uint16_t

abbrev pub with_fs : {R S D : Type 0} → Machine R (NineP S D) → S → Machine R (NineP S D)
with_fs m fs = record m { own = record (m.own) { fs = fs } }

module _ {R S D : Type 0} (mmu : Mmu R) (fuel : ℕ) (malloc : ℕ → List ℕ) where
  unfoldable pub virtio_9p_send_reply :
      Machine R (NineP S D) → ℕ → ℕ → ℕ → ℕ → List ℕ → ℕ → Outcome (Machine R (NineP S D))
  virtio_9p_send_reply m queue_idx desc_idx id tag buf buf_len = do
    let len = add32 buf_len 7
    let header = set (put_le32 (malloc (sext64 len)) 0 len) 4 (u8 (id + 1))
    buf1 ← memcpy (put_le16 header 5 tag) 7 buf (sext64 buf_len)
    let table = (queue_at m.dev queue_idx).desc_addr
    (ret, ram, b) ← memcpy_to_queue mmu fuel m.ram table desc_idx 0 buf1 len
    done (virtio_consume_desc mmu (record m { ram = ram }) queue_idx desc_idx len)

  unfoldable pub virtio_9p_send_error :
      Machine R (NineP S D) → ℕ → ℕ → ℕ → ℕ → Outcome (Machine R (NineP S D))
  unfolding virtio_9p_send_reply
  virtio_9p_send_error m queue_idx desc_idx tag error = do
    (buf_len, buf) ← marshall (replicate 4 0) 0 4 (fmt_w ∷ []) (sub32 0 error, tt)
    virtio_9p_send_reply m queue_idx desc_idx 6 tag buf buf_len

  unfoldable pub virtio_9p_open_reply :
      Machine R (NineP S D) → FsQid → ℕ → OpenInfo → Outcome (Machine R (NineP S D))
  unfolding virtio_9p_send_error
  virtio_9p_open_reply m qid err oi =
      if is_neg err then virtio_9p_send_error m oi.queue_idx oi.desc_idx oi.tag err else do
        (buf_len, buf) ←
            marshall (replicate 32 0) 0 32 (fmt_q ∷ fmt_w ∷ []) (qid, (sub32 m.own.msize 24, tt))
        virtio_9p_send_reply m oi.queue_idx oi.desc_idx 12 oi.tag buf buf_len

  module _ (rq : Request) where
    abbrev pub reply : Machine R (NineP S D) → List ℕ → ℕ → Outcome (Machine R (NineP S D))
    reply m buf buf_len = virtio_9p_send_reply m rq.queue_idx rq.desc_idx rq.id rq.tag buf buf_len

    -- The label `error`.
    abbrev pub reply_error : Machine R (NineP S D) → ℕ → Outcome (Machine R (NineP S D))
    reply_error m err = virtio_9p_send_error m rq.queue_idx rq.desc_idx rq.tag err

    -- The labels `protocol_error` and `fid_not_found`.
    abbrev pub protocol_error : Machine R (NineP S D) → Outcome (Machine R (NineP S D))
    protocol_error m = reply_error m minus_eproto

    -- `marshall` into the 1024 bytes of `buf`, of which only what it writes is sent, and the reply.
    unfoldable pub reply_args :
        Machine R (NineP S D) → (fmt : List Fmt) → Args fmt → Outcome (Machine R (NineP S D))
    unfolding virtio_9p_send_reply
    reply_args m fmt args = do
      (buf_len, buf) ← marshall (replicate 1024 0) 0 1024 fmt args
      reply m buf buf_len

    -- `if (err) goto error;` and a reply without data, or with a qid.
    unfoldable pub reply_empty : Machine R (NineP S D) → ℕ → Outcome (Machine R (NineP S D))
    unfolding virtio_9p_send_reply virtio_9p_send_error
    reply_empty m err = if err == 0 then reply m [] 0 else reply_error m err

    unfoldable pub reply_qid : Machine R (NineP S D) → ℕ → FsQid → Outcome (Machine R (NineP S D))
    unfolding reply_args virtio_9p_send_error
    reply_qid m err qid =
        if err == 0 then reply_args m (fmt_q ∷ []) (qid, tt) else reply_error m err

    -- `if (unmarshall(...)) goto protocol_error;`
    unfoldable pub with_args :
        Machine R (NineP S D)
        → ℕ
        → (fmt : List Fmt) → (Args fmt → ℕ → Outcome (Machine R (NineP S D)))
        → Outcome (Machine R (NineP S D))
    unfolding virtio_9p_send_error
    with_args m offset fmt next = do
      let table = (queue_at m.dev rq.queue_idx).desc_addr
      r ← unmarshall mmu fuel malloc m.ram table rq.desc_idx fmt offset
      elim r [ none ↦ protocol_error m | some (args, end) ↦ next args end ]

    -- The file of a fid; an error -P9_EPROTO without one.
    unfoldable pub with_fid :
        Machine R (NineP S D)
        → ℕ
        → (D → Outcome (Machine R (NineP S D)))
        → Outcome (Machine R (NineP S D))
    unfolding virtio_9p_send_error
    with_fid m fid next = elim (fid_find m.own fid) [ none ↦ protocol_error m | some f ↦ next f ]
