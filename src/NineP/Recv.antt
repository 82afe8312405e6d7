-- ===== src/NineP/Recv.antt =====
-- src/virtio.cc: `virtio_9p_recv_request`, the end of an asynchronous open, and the initialisation.
use spike_virtio_devices.Prelude.{
  ℕ, ◌+◌, ◌/◌, ◌^◌, false, none, some, List, [], ◌==◌, if◌then◌else◌, set, replicate, u8,
}
use spike_virtio_devices.Libc.{memcpy, strlen}
use spike_virtio_devices.Prelude.Outcome.{Outcome, done, ◌>>=◌}
use spike_virtio_devices.Cutils.{byte_at, get_le16}
use spike_virtio_devices.Mmu.{Mmu}
use spike_virtio_devices.Virtio.Device.{Machine, queue_at, virtio_init}
use spike_virtio_devices.Virtio.Chain.{minus_one}
use spike_virtio_devices.Virtio.Notify.{queue_notify}
use spike_virtio_devices.NineP.{NineP}
use spike_virtio_devices.NineP.Fs.{FsDevice, FsQid, OpenInfo}
use spike_virtio_devices.NineP.Message.{fetch}
use spike_virtio_devices.NineP.Reply.{Request, protocol_error, virtio_9p_open_reply}
use spike_virtio_devices.NineP.Files.{
  lopen, lcreate, symlink, mknod, mkdir, link, renameat, unlinkat, attach, clunk, walk,
}
use spike_virtio_devices.NineP.Attrs.{
  statfs, readlink, getattr, setattr, xattrwalk, fsync, flush, version,
}
use spike_virtio_devices.NineP.Data.{LockPlaces, readdir, read, write, lock, getlock}

-- `header_len`
abbrev pub header_len : ℕ
header_len = 7

module _ {R S D : Type 0} (mmu : Mmu R) (fuel : ℕ) (malloc : ℕ → List ℕ) (dev : FsDevice S D)
    (places : LockPlaces) (flags : ℕ) where
  -- `switch (id)`
  unfoldable pub dispatch : Request → Machine R (NineP S D) → Outcome (Machine R (NineP S D))
  dispatch rq m =
      let id = rq.id in
      let at = header_len in
      if id == 8
      then statfs mmu fuel malloc dev rq m
      else if id == 12
      then lopen mmu fuel malloc dev rq m at
      else if id == 14
      then lcreate mmu fuel malloc dev rq m at
      else if id == 16
      then symlink mmu fuel malloc dev rq m at
      else if id == 18
      then mknod mmu fuel malloc dev rq m at
      else if id == 22
      then readlink mmu fuel malloc dev rq m at
      else if id == 24
      then getattr mmu fuel malloc dev rq m at
      else if id == 26
      then setattr mmu fuel malloc dev rq m at
      else if id == 30
      then xattrwalk mmu fuel malloc dev rq m
      else if id == 40
      then readdir mmu fuel malloc dev rq m at
      else if id == 50
      then fsync mmu fuel malloc dev rq m at
      else if id == 52
      then lock mmu fuel malloc dev rq m at
      else if id == 54
      then getlock mmu fuel malloc dev rq places flags m at
      else if id == 70
      then link mmu fuel malloc dev rq m at
      else if id == 72
      then mkdir mmu fuel malloc dev rq m at
      else if id == 74
      then renameat mmu fuel malloc dev rq m at
      else if id == 76
      then unlinkat mmu fuel malloc dev rq m at
      else if id == 100
      then version mmu fuel malloc dev rq m at
      else if id == 104
      then attach mmu fuel malloc dev rq m at
      else if id == 108
      then flush mmu fuel malloc dev rq m at
      else if id == 110
      then walk mmu fuel malloc dev rq m at
      else if id == 116
      then read mmu fuel malloc dev rq m at
      else if id == 118
      then write mmu fuel malloc dev rq m at
      else if id == 120
      then clunk mmu fuel malloc dev rq m at
      else protocol_error mmu fuel malloc rq m

  unfoldable pub virtio_9p_recv_request :
      Machine R (NineP S D) → ℕ → ℕ → ℕ → ℕ → Outcome (ℕ × Machine R (NineP S D))
  unfolding dispatch
  virtio_9p_recv_request m queue_idx desc_idx read_size write_size =
      if queue_idx == 0
      then (if m.own.req_in_progress then done (minus_one, m) else do
        let table = (queue_at m.dev queue_idx).desc_addr
        header ← fetch mmu fuel malloc m.ram table desc_idx (replicate 1024 0) 0 header_len
        let unread : Request = record {
          queue_idx = queue_idx;
          desc_idx = desc_idx;
          id = 0;
          tag = 0;
        }
        m' ← elim header [
          | none ↦ protocol_error mmu fuel malloc unread m
          | some buf ↦ dispatch (record unread { id = byte_at buf 4; tag = get_le16 buf 5 }) m
        ]
        done (0, m'))
      else done (0, m)

  unfoldable pub virtio_9p_open_cb :
      Machine R (NineP S D) → FsQid → ℕ → OpenInfo → Outcome (Machine R (NineP S D))
  virtio_9p_open_cb m qid err oi = do
    m' ← virtio_9p_open_reply mmu fuel malloc m qid err oi
    let idle = record m' { own = record (m'.own) { req_in_progress = false } }
    queue_notify mmu fuel virtio_9p_recv_request idle oi.queue_idx

-- A tag that is too long for the config space is copied past its end.
unfoldable pub virtio_9p_init : {R S D : Type 0} → S → List ℕ → R → Outcome (Machine R (NineP S D))
virtio_9p_init fs mount_tag ram = do
  len ← strlen mount_tag
  let s = virtio_init 9 (2 + len)
  let cfg = set (set s.config_space 0 (u8 len)) 1 (u8 (len / 2 ^ 8))
  cfg' ← memcpy cfg 2 mount_tag len
  done (record {
    dev = record s { device_features = 1; config_space = cfg' };
    ram = ram;
    own = record { fs = fs; msize = 8192; fid_list = []; req_in_progress = false };
  })
