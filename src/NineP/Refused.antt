-- ===== src/NineP/Refused.antt =====
-- Requests that the 9P device refuses: their arguments cannot be read, or their fid is unknown.
use spike_virtio_devices.Prelude.{ℕ, ◌≡◌, ◌⊎◌, Option, none, some, List, [], ◌∷◌}
use spike_virtio_devices.Prelude.Outcome.{Outcome, done}
use spike_virtio_devices.Mmu.{Mmu}
use spike_virtio_devices.Virtio.Device.{Machine, queue_at}
use spike_virtio_devices.Virtio.Chain.Sets.{bytes32}
use spike_virtio_devices.NineP.{NineP, fid_find}
use spike_virtio_devices.NineP.Fs.{FsDevice}
use spike_virtio_devices.NineP.Message.{Fmt, fmt_b, fmt_h, fmt_w, fmt_d, fmt_s, Args, unmarshall}
use spike_virtio_devices.NineP.Reply.{Request, virtio_9p_send_reply}
use spike_virtio_devices.NineP.Data.{LockPlaces}
use spike_virtio_devices.NineP.Recv.{header_len}

-- The requests that look up a fid: their number in a message, and the arguments behind the fid.
pub data FidRequest : Type 0 where
  req_lopen : FidRequest
  req_lcreate : FidRequest
  req_symlink : FidRequest
  req_mknod : FidRequest
  req_readlink : FidRequest
  req_getattr : FidRequest
  req_setattr : FidRequest
  req_readdir : FidRequest
  req_lock : FidRequest
  req_getlock : FidRequest
  req_link : FidRequest
  req_mkdir : FidRequest
  req_renameat : FidRequest
  req_unlinkat : FidRequest
  req_walk : FidRequest
  req_read : FidRequest
  req_write : FidRequest

abbrev pub number : FidRequest → ℕ
number req_lopen = 12
number req_lcreate = 14
number req_symlink = 16
number req_mknod = 18
number req_readlink = 22
number req_getattr = 24
number req_setattr = 26
number req_readdir = 40
number req_lock = 52
number req_getlock = 54
number req_link = 70
number req_mkdir = 72
number req_renameat = 74
number req_unlinkat = 76
number req_walk = 110
number req_read = 116
number req_write = 118

abbrev pub behind_fid : FidRequest → List Fmt
behind_fid req_lopen = fmt_w ∷ []
behind_fid req_lcreate = fmt_s ∷ fmt_w ∷ fmt_w ∷ fmt_w ∷ []
behind_fid req_symlink = fmt_s ∷ fmt_s ∷ fmt_w ∷ []
behind_fid req_mknod = fmt_s ∷ fmt_w ∷ fmt_w ∷ fmt_w ∷ fmt_w ∷ []
behind_fid req_readlink = []
behind_fid req_getattr = fmt_d ∷ []
behind_fid req_setattr = fmt_w ∷ fmt_w ∷ fmt_w ∷ fmt_w ∷ fmt_d ∷ fmt_d ∷ fmt_d ∷ fmt_d ∷ fmt_d ∷ []
behind_fid req_readdir = fmt_d ∷ fmt_w ∷ []
behind_fid req_lock = fmt_b ∷ fmt_w ∷ fmt_d ∷ fmt_d ∷ fmt_w ∷ fmt_s ∷ []
behind_fid req_getlock = fmt_b ∷ fmt_d ∷ fmt_d ∷ fmt_w ∷ fmt_s ∷ []
behind_fid req_link = fmt_w ∷ fmt_s ∷ []
behind_fid req_mkdir = fmt_s ∷ fmt_w ∷ fmt_w ∷ []
behind_fid req_renameat = fmt_s ∷ fmt_w ∷ fmt_s ∷ []
behind_fid req_unlinkat = fmt_s ∷ fmt_w ∷ []
behind_fid req_walk = fmt_w ∷ fmt_h ∷ []
behind_fid req_read = fmt_d ∷ fmt_w ∷ []
behind_fid req_write = fmt_d ∷ fmt_w ∷ []

module _ {R S D : Type 0} (mmu : Mmu R) (fuel : ℕ) (malloc : ℕ → List ℕ) (rq : Request)
    (m : Machine R (NineP S D)) where
  -- The arguments behind the header: a fid and those of `fmt`.
  abbrev arguments : (fmt : List Fmt) → Outcome (Option (Args (fmt_w ∷ fmt) × ℕ))
  arguments fmt =
      unmarshall mmu fuel malloc m.ram (queue_at m.dev rq.queue_idx).desc_addr rq.desc_idx
        (fmt_w ∷ fmt) header_len

  -- They cannot be read, or their fid is not in the table.
  abbrev pub IsRefused : List Fmt → Type 0
  IsRefused fmt =
      (arguments fmt ≡ done none)
      ⊎ ((args : Args (fmt_w ∷ fmt)) × (end : ℕ) × (arguments fmt ≡ done (some (args, end)))
          × (fid_find m.own args.0 ≡ none))

  -- The reply to a refused request: message 7 with the error, and no other change.
  abbrev pub error_reply : Outcome (Machine R (NineP S D))
  error_reply =
      virtio_9p_send_reply mmu fuel malloc m rq.queue_idx rq.desc_idx 6 rq.tag (bytes32 71) 4

module _ {R S D : Type 0} (mmu : Mmu R) (fuel : ℕ) (malloc : ℕ → List ℕ) (dev : FsDevice S D)
    (places : LockPlaces) (flags : ℕ) (queue_idx desc_idx tag : ℕ) (m : Machine R (NineP S D)) where
  abbrev pub asked : FidRequest → Request
  asked q = record { queue_idx = queue_idx; desc_idx = desc_idx; id = number q; tag = tag }
