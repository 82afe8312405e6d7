-- ===== src/NineP/Files.antt =====
-- src/virtio.cc: the requests of the 9P device that open, make, name and remove files.
use spike_virtio_devices.Prelude.{
  ℕ, zero, suc, ◌+◌, ◌-◌, true, Option, none, some, List, [], ◌∷◌, ◌++◌, ◌==◌, ltb, if◌then◌else◌,
  length, get_or, replicate, slt, sub32, is_neg,
}
use spike_virtio_devices.Prelude.Outcome.{Outcome, done, fault, ◌>>=◌}
use spike_virtio_devices.Mmu.{Mmu}
use spike_virtio_devices.Virtio.Device.{Machine, queue_at}
use spike_virtio_devices.NineP.{NineP, fid_set, fid_delete}
use spike_virtio_devices.NineP.Fs.{FsDevice, FsQid, OpenInfo}
use spike_virtio_devices.NineP.Message.{fmt_h, fmt_w, fmt_s, fmt_q, marshall, unmarshall}
use spike_virtio_devices.NineP.Reply.{
  Request, with_fs, virtio_9p_open_reply, reply, reply_error, reply_args, reply_empty, reply_qid,
  with_args, with_fid, minus_eproto,
}

abbrev pub open_info : Request → OpenInfo
open_info rq = record { queue_idx = rq.queue_idx; desc_idx = rq.desc_idx; tag = rq.tag }

abbrev zero_qid : FsQid
zero_qid = record { type = 0; version = 0; path = 0 }

module _ {R S D : Type 0} (mmu : Mmu R) (fuel : ℕ) (malloc : ℕ → List ℕ) (dev : FsDevice S D)
    (rq : Request) where
  unfoldable pub lopen : Machine R (NineP S D) → ℕ → Outcome (Machine R (NineP S D))
  lopen m offset =
      with_args mmu fuel malloc rq m offset (fmt_w ∷ fmt_w ∷ []) (λ (fid, (flags, _)) _.
        with_fid mmu fuel malloc rq m fid (λ f.
          let (err, qid, fs) = dev.fs_open m.own.fs f flags (open_info rq) in
          let m' = with_fs m fs in
          if slt 0 err
          then done (record m' { own = record (m'.own) { req_in_progress = true } })
          else virtio_9p_open_reply mmu fuel malloc m' qid err (open_info rq)))

  unfoldable pub lcreate : Machine R (NineP S D) → ℕ → Outcome (Machine R (NineP S D))
  lcreate m offset =
      with_args mmu fuel malloc rq m offset (fmt_w ∷ fmt_s ∷ fmt_w ∷ fmt_w ∷ fmt_w ∷ [])
        (λ (fid, (name, (flags, (mode, (gid, _))))) _. with_fid mmu fuel malloc rq m fid (λ f.
          let (err, qid, fs) = dev.fs_create m.own.fs f name flags mode gid in
          let m' = with_fs m fs in
          if err == 0
          then reply_args mmu fuel malloc rq m' (fmt_q ∷ fmt_w ∷ [])
              (qid, (sub32 m'.own.msize 24, tt))
          else reply_error mmu fuel malloc rq m' err))

  unfoldable pub symlink : Machine R (NineP S D) → ℕ → Outcome (Machine R (NineP S D))
  symlink m offset =
      with_args mmu fuel malloc rq m offset (fmt_w ∷ fmt_s ∷ fmt_s ∷ fmt_w ∷ [])
        (λ (fid, (name, (symgt, (gid, _)))) _. with_fid mmu fuel malloc rq m fid (λ f.
          let (err, qid, fs) = dev.fs_symlink m.own.fs f name symgt gid in
          reply_qid mmu fuel malloc rq (with_fs m fs) err qid))

  unfoldable pub mknod : Machine R (NineP S D) → ℕ → Outcome (Machine R (NineP S D))
  mknod m offset =
      with_args mmu fuel malloc rq m offset (fmt_w ∷ fmt_s ∷ fmt_w ∷ fmt_w ∷ fmt_w ∷ fmt_w ∷ [])
        (λ (fid, (name, (mode, (major, (minor, (gid, _)))))) _.
          with_fid mmu fuel malloc rq m fid (λ f.
            let (err, qid, fs) = dev.fs_mknod m.own.fs f name mode major minor gid in
            reply_qid mmu fuel malloc rq (with_fs m fs) err qid))

  unfoldable pub mkdir : Machine R (NineP S D) → ℕ → Outcome (Machine R (NineP S D))
  mkdir m offset =
      with_args mmu fuel malloc rq m offset (fmt_w ∷ fmt_s ∷ fmt_w ∷ fmt_w ∷ [])
        (λ (fid, (name, (mode, (gid, _)))) _. with_fid mmu fuel malloc rq m fid (λ f.
          let (err, qid, fs) = dev.fs_mkdir m.own.fs f name mode gid in
          reply_qid mmu fuel malloc rq (with_fs m fs) err qid))

  unfoldable pub link : Machine R (NineP S D) → ℕ → Outcome (Machine R (NineP S D))
  link m offset =
      with_args mmu fuel malloc rq m offset (fmt_w ∷ fmt_w ∷ fmt_s ∷ [])
        (λ (dfid, (fid, (name, _))) _. with_fid mmu fuel malloc rq m dfid (λ df.
          with_fid mmu fuel malloc rq m fid (λ f.
            let (err, fs) = dev.fs_link m.own.fs df f name in
            reply_empty mmu fuel malloc rq (with_fs m fs) err)))

  unfoldable pub renameat : Machine R (NineP S D) → ℕ → Outcome (Machine R (NineP S D))
  renameat m offset =
      with_args mmu fuel malloc rq m offset (fmt_w ∷ fmt_s ∷ fmt_w ∷ fmt_s ∷ [])
        (λ (fid, (name, (new_fid, (new_name, _)))) _. with_fid mmu fuel malloc rq m fid (λ f.
          with_fid mmu fuel malloc rq m new_fid (λ new_f.
            let (err, fs) = dev.fs_renameat m.own.fs f name new_f new_name in
            reply_empty mmu fuel malloc rq (with_fs m fs) err)))

  unfoldable pub unlinkat : Machine R (NineP S D) → ℕ → Outcome (Machine R (NineP S D))
  unlinkat m offset =
      with_args mmu fuel malloc rq m offset (fmt_w ∷ fmt_s ∷ fmt_w ∷ [])
        (λ (fid, (name, (flags, _))) _. with_fid mmu fuel malloc rq m fid (λ f.
          let (err, fs) = dev.fs_unlinkat m.own.fs f name in
          reply_empty mmu fuel malloc rq (with_fs m fs) err))

  unfoldable pub attach : Machine R (NineP S D) → ℕ → Outcome (Machine R (NineP S D))
  attach m offset =
      with_args mmu fuel malloc rq m offset (fmt_w ∷ fmt_w ∷ fmt_s ∷ fmt_s ∷ fmt_w ∷ [])
        (λ (fid, (afid, (uname, (aname, (uid, _))))) _.
          let (err, f, qid, fs) = dev.fs_attach m.own.fs uid uname aname in
          let m' = with_fs m fs in
          if err == 0
          then reply_args mmu fuel malloc rq
              (record m' { own = fid_set dev.fs_delete m'.own fid f }) (fmt_q ∷ []) (qid, tt)
          else reply_error mmu fuel malloc rq m' err)

  unfoldable pub clunk : Machine R (NineP S D) → ℕ → Outcome (Machine R (NineP S D))
  clunk m offset = with_args mmu fuel malloc rq m offset (fmt_w ∷ []) (λ (fid, _) _.
      reply mmu fuel malloc rq (record m { own = fid_delete dev.fs_delete m.own fid }) [] 0)

  -- The loop of walk that reads the names, with the rounds left.
  unfoldable pub walk_names :
      ℕ → Machine R (NineP S D) → ℕ → List (List ℕ) → Outcome (Option (List (List ℕ)))
  walk_names zero m offset names = done (some names)
  walk_names (suc n) m offset names = do
    let table = (queue_at m.dev rq.queue_idx).desc_addr
    r ← unmarshall mmu fuel malloc m.ram table rq.desc_idx (fmt_s ∷ []) offset
    elim r [ none ↦ done none | some ((name, _), end) ↦ walk_names n m end (names ++ (name ∷ [])) ]

  -- The loop of walk that writes the qids, with the rounds left and the index `i`.
  unfoldable pub walk_qids : ℕ → ℕ → List FsQid → List ℕ → ℕ → Outcome (ℕ × List ℕ)
  walk_qids zero i qids buf buf_len = done (buf_len, buf)
  walk_qids (suc n) i qids buf buf_len =
      if ltb i (length qids)
      then (do
        (len, buf') ←
            marshall buf buf_len (1024 - buf_len) (fmt_q ∷ []) (get_or qids i zero_qid, tt)
        walk_qids n (i + 1) qids buf' (buf_len + len))
      else fault

  -- What follows `fs_walk`.
  unfoldable pub walk_reply :
      Machine R (NineP S D) → ℕ → ℕ → D → List FsQid → Outcome (Machine R (NineP S D))
  walk_reply m newfid err f qids = if is_neg err then reply_error mmu fuel malloc rq m err else do
    (len, buf) ← marshall (replicate 1024 0) 0 1024 (fmt_h ∷ []) (err, tt)
    (buf_len, buf') ← walk_qids err 0 qids buf len
    reply mmu fuel malloc rq (record m { own = fid_set dev.fs_delete m.own newfid f }) buf' buf_len

  unfoldable pub walk : Machine R (NineP S D) → ℕ → Outcome (Machine R (NineP S D))
  walk m offset =
      with_args mmu fuel malloc rq m offset (fmt_w ∷ fmt_w ∷ fmt_h ∷ [])
        (λ (fid, (newfid, (nwname, _))) at. with_fid mmu fuel malloc rq m fid (λ f.
          walk_names nwname m at [] >>= λ r. (elim r [
            | none ↦ reply_error mmu fuel malloc rq m minus_eproto
            | some names ↦
                let (err, f', qids, fs) = dev.fs_walk m.own.fs f names in
                walk_reply (with_fs m fs) newfid err f' qids
          ])))
