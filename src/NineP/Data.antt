-- ===== src/NineP/Data.antt =====
-- src/virtio.cc: the requests of the 9P device that move the contents of files and directories, and
-- those on locks.
use spike_virtio_devices.Prelude.{
  ℕ, ◌+◌, Option, none, some, List, [], ◌∷◌, ◌==◌, leb, if◌then◌else◌, length, add32, is_neg, u32,
}
use spike_virtio_devices.Libc.{memcpy}
use spike_virtio_devices.Prelude.Outcome.{Outcome, done, fault, ◌>>=◌}
use spike_virtio_devices.Cutils.{put_le32}
use spike_virtio_devices.Mmu.{Mmu}
use spike_virtio_devices.Virtio.Device.{Machine, queue_at}
use spike_virtio_devices.NineP.{NineP}
use spike_virtio_devices.NineP.Fs.{FsDevice, FsLock}
use spike_virtio_devices.NineP.Message.{fmt_b, fmt_w, fmt_d, fmt_s, fetch}
use spike_virtio_devices.NineP.Reply.{
  Request, with_fs, reply, reply_error, protocol_error, reply_args, with_args, with_fid,
}

-- getlock marshalls the addresses of `lock`'s fields in place of their values: the addresses, and
-- the bytes of memory at the last of them.
pub record LockPlaces : Type 0 where
  pub at_type : ℕ
  pub at_start : ℕ
  pub at_length : ℕ
  pub at_proc_id : ℕ
  pub at_client_id : List ℕ

module _ {R S D : Type 0} (mmu : Mmu R) (fuel : ℕ) (malloc : ℕ → List ℕ) (dev : FsDevice S D)
    (rq : Request) where
  -- What `fs_read` or `fs_readdir` wrote to `buf + 4`, and the reply. The size that `malloc` is
  -- given is a `uint32_t`.
  unfoldable pub reply_data :
      Machine R (NineP S D) → ℕ → ℕ → List ℕ → Outcome (Machine R (NineP S D))
  unfolding memcpy
  reply_data m count n bytes = do
    let block = malloc (u32 (count + 4))
    buf ← if length bytes == 0 then done block else memcpy block 4 bytes (length bytes)
    if is_neg n
        then reply_error mmu fuel malloc rq m n
        else if leb 4 (length buf)
        then reply mmu fuel malloc rq m (put_le32 buf 0 n) (add32 n 4)
        else fault

  unfoldable pub readdir : Machine R (NineP S D) → ℕ → Outcome (Machine R (NineP S D))
  readdir m offset =
      with_args mmu fuel malloc rq m offset (fmt_w ∷ fmt_d ∷ fmt_w ∷ [])
        (λ (fid, (offs, (count, _))) _. with_fid mmu fuel malloc rq m fid (λ f.
          let (n, bytes, fs) = dev.fs_readdir m.own.fs f offs count in
          reply_data (with_fs m fs) count n bytes))

  unfoldable pub read : Machine R (NineP S D) → ℕ → Outcome (Machine R (NineP S D))
  read m offset =
      with_args mmu fuel malloc rq m offset (fmt_w ∷ fmt_d ∷ fmt_w ∷ [])
        (λ (fid, (offs, (count, _))) _. with_fid mmu fuel malloc rq m fid (λ f.
          let (n, bytes, fs) = dev.fs_read m.own.fs f offs count in
          reply_data (with_fs m fs) count n bytes))

  -- What follows the copy of the data from the queue.
  unfoldable pub write_data :
      Machine R (NineP S D) → D → ℕ → ℕ → Option (List ℕ) → Outcome (Machine R (NineP S D))
  write_data m f offs count none = protocol_error mmu fuel malloc rq m
  write_data m f offs count (some buf1) =
      let (n, fs) = dev.fs_write m.own.fs f offs buf1 count in
      let m' = with_fs m fs in
      if is_neg n
      then reply_error mmu fuel malloc rq m' n
      else reply_args mmu fuel malloc rq m' (fmt_w ∷ []) (n, tt)

  unfoldable pub write : Machine R (NineP S D) → ℕ → Outcome (Machine R (NineP S D))
  write m offset =
      with_args mmu fuel malloc rq m offset (fmt_w ∷ fmt_d ∷ fmt_w ∷ [])
        (λ (fid, (offs, (count, _))) at. with_fid mmu fuel malloc rq m fid (λ f.
          fetch mmu fuel malloc m.ram (queue_at m.dev rq.queue_idx).desc_addr rq.desc_idx
            (malloc count) at count
          >>= write_data m f offs count))

  unfoldable pub lock : Machine R (NineP S D) → ℕ → Outcome (Machine R (NineP S D))
  lock m offset =
      with_args mmu fuel malloc rq m offset
        (fmt_w ∷ fmt_b ∷ fmt_w ∷ fmt_d ∷ fmt_d ∷ fmt_w ∷ fmt_s ∷ [])
        (λ (fid, (type, (flags, (start, (len, (proc_id, (client_id, _))))))) _.
          with_fid mmu fuel malloc rq m fid (λ f.
            let l : FsLock = record {
              type = type;
              flags = flags;
              start = start;
              length = len;
              proc_id = proc_id;
              client_id = client_id;
            } in
            let (err, fs) = dev.fs_lock m.own.fs f l in
            let m' = with_fs m fs in
            if is_neg err
            then reply_error mmu fuel malloc rq m' err
            else reply_args mmu fuel malloc rq m' (fmt_b ∷ []) (err, tt)))

  -- `flags` of the lock that `fs_getlock` is given is not set by the request.
  unfoldable pub getlock :
      LockPlaces → ℕ → Machine R (NineP S D) → ℕ → Outcome (Machine R (NineP S D))
  getlock places flags m offset =
      with_args mmu fuel malloc rq m offset (fmt_w ∷ fmt_b ∷ fmt_d ∷ fmt_d ∷ fmt_w ∷ fmt_s ∷ [])
        (λ (fid, (type, (start, (len, (proc_id, (client_id, _)))))) _.
          with_fid mmu fuel malloc rq m fid (λ f.
            let l : FsLock = record {
              type = type;
              flags = flags;
              start = start;
              length = len;
              proc_id = proc_id;
              client_id = client_id;
            } in
            let (err, l', fs) = dev.fs_getlock m.own.fs f l in
            let m' = with_fs m fs in
            if is_neg err
            then reply_error mmu fuel malloc rq m' err
            else reply_args mmu fuel malloc rq m' (fmt_b ∷ fmt_d ∷ fmt_d ∷ fmt_w ∷ fmt_s ∷ []) (
              places.at_type,
              (places.at_start, (places.at_length, (places.at_proc_id, (places.at_client_id, tt)))),
            )))
