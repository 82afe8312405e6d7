-- ===== src/NineP/Reach.antt =====
-- What happens to a 9P device of src/virtio.cc, and the states that it reaches so.
use spike_virtio_devices.Prelude.{
  ℕ, ◌≤◌, ◌<◌, ◌≡◌, subst, false, Option, none, some, List, ◌==◌, replicate,
}
use spike_virtio_devices.Prelude.Outcome.{
  Outcome, done, Ensures, Ensures->>=, Ensures-if, Ensures-trivial,
}
use spike_virtio_devices.Cutils.{byte_at, get_le16}
use spike_virtio_devices.Mmu.{Mmu}
use spike_virtio_devices.Virtio.Device.{Machine, max_queue}
use spike_virtio_devices.Virtio.Inv.{Holds}
use spike_virtio_devices.Virtio.Chain.{minus_one}
use spike_virtio_devices.Virtio.Notify.Valid.{KeepsValid, queue_notify-IsValid}
use spike_virtio_devices.Virtio.Base.Steps.{Step, Step-IsValid}
use spike_virtio_devices.NineP.{NineP}
use spike_virtio_devices.NineP.Table.{AreUnique}
use spike_virtio_devices.NineP.Fs.{FsDevice, FsQid, OpenInfo}
use spike_virtio_devices.NineP.Fs.Laws.{IsFileSystem}
use spike_virtio_devices.NineP.Table.Open.{open_fds}
use spike_virtio_devices.NineP.Message.{fetch}
use spike_virtio_devices.NineP.Reply.{Request, protocol_error, minus_eproto}
use spike_virtio_devices.NineP.Attrs.{max_msize}
use spike_virtio_devices.NineP.Data.{LockPlaces}
use spike_virtio_devices.NineP.Recv.{
  header_len, dispatch, virtio_9p_recv_request, virtio_9p_open_cb,
}
use spike_virtio_devices.NineP.Kept.{IsServing, Kept, virtio_9p_open_reply-Kept, reply_error-Kept}
use spike_virtio_devices.NineP.Valid.{dispatch-Kept}

-- What the 9P device keeps of its own.
abbrev pub IsTable : {S D : Type 0} → (S → List D → Type 0) → NineP S D → Type 0
IsTable Inv s = AreUnique s.fid_list × (s.msize ≤ max_msize) × Inv s.fs (open_fds s.fid_list)

module _ {R S D : Type 0} (Inv : S → List D → Type 0) where
  serving : (m : Machine R (NineP S D)) → Holds (IsTable Inv) m → IsServing Inv m
  serving m v = record { valid = v.0; unique = v.1.0; size = v.1.1; files = v.1.2 }

  held : (m : Machine R (NineP S D)) → IsServing Inv m → Holds (IsTable Inv) m
  held m v = (v.valid, (v.unique, v.size, v.files))

module _ {R S D : Type 0} (mmu : Mmu R) (fuel : ℕ) (malloc : ℕ → List ℕ) (dev : FsDevice S D)
    (places : LockPlaces) (flags : ℕ) where
  abbrev recv : Machine R (NineP S D) → ℕ → ℕ → ℕ → ℕ → Outcome (ℕ × Machine R (NineP S D))
  recv = virtio_9p_recv_request mmu fuel malloc dev places flags

  -- What happens to a 9P device: what happens to its transport, or the end of an open that the file
  -- system had put off.
  pub data NinePStep (m : Machine R (NineP S D)) : Machine R (NineP S D) → Type 0 where
    guest : {t : Machine R (NineP S D)} → Step mmu fuel recv none m t → NinePStep m t
    opened :
        (qid : FsQid) (err : ℕ) (oi : OpenInfo) {t : Machine R (NineP S D)}
        → oi.queue_idx < max_queue
        → virtio_9p_open_cb mmu fuel malloc dev places flags m qid err oi ≡ done t
        → NinePStep m t

  pub data NinePReach (m : Machine R (NineP S D)) : Machine R (NineP S D) → Type 0 where
    start : NinePReach m m
    later : {t u : Machine R (NineP S D)} → NinePReach m t → NinePStep t u → NinePReach m u

module _ {R S D : Type 0} (mmu : Mmu R) (fuel : ℕ) (malloc : ℕ → List ℕ) (dev : FsDevice S D)
    (places : LockPlaces) (flags : ℕ) (Inv : S → List D → Type 0)
    (laws : IsFileSystem dev Inv) where
  abbrev Answered : ℕ × Machine R (NineP S D) → Type 0
  Answered r = Holds (IsTable Inv) r.1

  header_read :
      (m : Machine R (NineP S D)) (rq : Request) (header : Option (List ℕ))
      → IsServing Inv m
      → Kept Inv mmu fuel malloc (elim header [
        | none ↦ protocol_error mmu fuel malloc rq m
        | some buf ↦
            dispatch mmu fuel malloc dev places flags
              (record rq { id = byte_at buf 4; tag = get_le16 buf 5 })
              m
      ])
  header_read m rq none v = reply_error-Kept Inv mmu fuel malloc rq m minus_eproto v
  header_read m rq (some buf) v = dispatch-Kept mmu fuel malloc dev Inv laws _ places flags m v

  virtio_9p_recv_request-KeepsValid :
      KeepsValid (IsTable Inv) (recv mmu fuel malloc dev places flags)
  unfolding virtio_9p_recv_request
  virtio_9p_recv_request-KeepsValid m queue_idx desc_idx read_size write_size lt v =
      let rq : Request = record { queue_idx = queue_idx; desc_idx = desc_idx; id = 0; tag = 0 } in
      Ensures-if Answered (queue_idx == 0) _ (done (0, m))
        (Ensures-if Answered m.own.req_in_progress (done (minus_one, m)) _ v (
          Ensures->>= (λ _. Unit) Answered
            (fetch mmu fuel malloc m.ram _ desc_idx (replicate 1024 0) 0 header_len) _
            (Ensures-trivial _)
            (λ header _.
              Ensures->>= (IsServing Inv) Answered _ _ (header_read m rq header (serving Inv m v))
                (λ t ok. held Inv t ok))))
        v

  virtio_9p_open_cb-Holds :
      (m : Machine R (NineP S D)) (qid : FsQid) (err : ℕ) (oi : OpenInfo)
      → oi.queue_idx < max_queue
      → Holds (IsTable Inv) m
      → Ensures
          (Holds (IsTable Inv))
          (virtio_9p_open_cb mmu fuel malloc dev places flags m qid err oi)
  unfolding virtio_9p_open_cb
  virtio_9p_open_cb-Holds m qid err oi lt v =
      Ensures->>= (IsServing Inv) (Holds (IsTable Inv)) _ _
        (virtio_9p_open_reply-Kept Inv mmu fuel malloc m qid err oi (serving Inv m v))
        (λ t ok.
          queue_notify-IsValid (IsTable Inv) mmu fuel (recv mmu fuel malloc dev places flags)
            virtio_9p_recv_request-KeepsValid oi.queue_idx lt
            (record t { own = record (t.own) { req_in_progress = false } }) (held Inv t ok))

  NinePStep-Holds :
      {m t : Machine R (NineP S D)}
      → NinePStep mmu fuel malloc dev places flags m t
      → Holds (IsTable Inv) m
      → Holds (IsTable Inv) t
  NinePStep-Holds {m} (guest s) v =
      Step-IsValid mmu fuel (recv mmu fuel malloc dev places flags) none (IsTable Inv)
        virtio_9p_recv_request-KeepsValid tt s v
  NinePStep-Holds {m} (opened qid err oi lt e) v =
      subst (λ o. Ensures (Holds (IsTable Inv)) o) e (virtio_9p_open_cb-Holds m qid err oi lt v)

  pub NinePReach-Holds :
      {m t : Machine R (NineP S D)}
      → NinePReach mmu fuel malloc dev places flags m t
      → Holds (IsTable Inv) m
      → Holds (IsTable Inv) t
  NinePReach-Holds start v = v
  NinePReach-Holds (later r s) v = NinePStep-Holds s (NinePReach-Holds r v)
