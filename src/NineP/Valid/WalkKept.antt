-- ===== src/NineP/Valid/WalkKept.antt =====
-- The requests of NineP keep the device serving: walk.
use spike_virtio_devices.Prelude.{
  Bool, ℕ, Option, none, some, List, [], ◌∷◌, replicate, is_neg, ◌+◌, ◌^◌, ◌<◌, ◌≡◌, zero, suc,
  arith, ◌++◌, All, All-append, length, length-append, subst, if◌then◌else◌,
}
use spike_virtio_devices.Prelude.Outcome.{Ensures->>=, Ensures, Ensures-test, Ensures-trivial, done}
use spike_virtio_devices.Mmu.{Mmu}
use spike_virtio_devices.Virtio.Device.{Machine, queue_at}
use spike_virtio_devices.NineP.{NineP}
use spike_virtio_devices.NineP.Fs.{FsDevice, FsQid}
use spike_virtio_devices.NineP.Fs.Laws.{IsText, Has, IsFileSystem}
use spike_virtio_devices.NineP.Table.Open.{open_fds}
use spike_virtio_devices.NineP.Message.{fmt_h, fmt_s, Args, marshall, unmarshall}
use spike_virtio_devices.NineP.Message.Read.{AreRead, Answer, unmarshall-AreRead}
use spike_virtio_devices.NineP.Reply.{Request, with_fs, minus_eproto, reply_error}
use spike_virtio_devices.NineP.Files.{walk_names, walk_qids, walk_reply, walk}
use spike_virtio_devices.NineP.Kept.{
  IsServing, Kept, reply-Kept, reply_error-Kept, fid_set-IsServing, Anywhere, with_fs-IsServing,
}
use spike_virtio_devices.NineP.Valid.WithFile.{with_file-Kept}

module _ {R S D : Type 0} (mmu : Mmu R) (fuel : ℕ) (malloc : ℕ → List ℕ) (dev : FsDevice S D)
    (Inv : S → List D → Type 0) (laws : IsFileSystem dev Inv) (rq : Request) where
  walk_reply-Kept :
      (m : Machine R (NineP S D)) (newfid err : ℕ) (f : D) (qids : List FsQid)
      → IsServing Anywhere m
      → Inv m.own.fs (if is_neg err then open_fds m.own.fid_list else f ∷ open_fds m.own.fid_list)
      → Kept Inv mmu fuel malloc (walk_reply mmu fuel malloc dev rq m newfid err f qids)
  unfolding walk_reply
  walk_reply-Kept m newfid err f qids v kept =
      let fs = open_fds m.own.fid_list in
      let Now : Bool → Type 0 = λ b. Inv m.own.fs (if b then fs else f ∷ fs) in
      Ensures-test (IsServing Inv) (is_neg err) _ _
        (λ e.
          reply_error-Kept Inv mmu fuel malloc rq m err
            (with_fs-IsServing Anywhere Inv m v m.own.fs (subst Now e kept)))
        (λ e.
          Ensures->>= (λ _. Unit) (IsServing Inv)
            (marshall (replicate 1024 0) 0 1024 (fmt_h ∷ []) (err, tt)) _ (Ensures-trivial _)
            (λ r _.
              Ensures->>= (λ _. Unit) (IsServing Inv)
                (walk_qids mmu fuel malloc dev rq err 0 qids r.1 r.0) _ (Ensures-trivial _)
                (λ t _.
                  reply-Kept Inv mmu fuel malloc rq _ t.1 t.0
                    (fid_set-IsServing dev Inv laws m v newfid f (subst Now e kept)))))

  -- The names that a walk is given.
  abbrev Names : ℕ → Option (List (List ℕ)) → Type 0
  Names n none = Unit
  Names n (some names) = All IsText names × (length names ≡ n)

  name_read :
      (n : ℕ) (m : Machine R (NineP S D)) (names : List (List ℕ))
      (r : Option (Args (fmt_s ∷ []) × ℕ))
      → All IsText names
      → Answer (AreRead (fmt_s ∷ [])) r
      → ((end : ℕ) (names' : List (List ℕ))
          → All IsText names'
          → Ensures (Names (n + length names')) (walk_names mmu fuel malloc dev rq n m end names'))
      → Ensures (Names (suc n + length names)) (elim r [
        | none ↦ done none
        | some ((name, _), end) ↦ walk_names mmu fuel malloc dev rq n m end (names ++ (name ∷ []))
      ])
  name_read n m names none h k rest = tt
  name_read n m names (some ((name, _), end)) h k rest =
      let longer : n + length (names ++ (name ∷ [])) ≡ suc n + length names =
        omega (arith, length-append names (name ∷ [])) in
      subst
        (λ j. Ensures (Names j) (walk_names mmu fuel malloc dev rq n m end (names ++ (name ∷ []))))
        longer (rest end (names ++ (name ∷ [])) (All-append IsText names (name ∷ []) h (k.0, tt)))

  walk_names-Names :
      (n : ℕ) (m : Machine R (NineP S D)) (offset : ℕ) (names : List (List ℕ))
      → All IsText names
      → Ensures (Names (n + length names)) (walk_names mmu fuel malloc dev rq n m offset names)
  unfolding walk_names
  walk_names-Names zero m offset names h = (h, omega arith)
  walk_names-Names (suc n) m offset names h =
      let table = (queue_at m.dev rq.queue_idx).desc_addr in
      Ensures->>= (Answer (AreRead (fmt_s ∷ []))) (Names (suc n + length names))
        (unmarshall mmu fuel malloc m.ram table rq.desc_idx (fmt_s ∷ []) offset) _
        (unmarshall-AreRead mmu fuel malloc m.ram table rq.desc_idx (fmt_s ∷ []) offset)
        (λ r k. name_read n m names r h k (walk_names-Names n m))

  walked-Kept :
      (n : ℕ) (m : Machine R (NineP S D)) (newfid : ℕ) (f : D) (r : Option (List (List ℕ)))
      → IsServing Inv m
      → Has f (open_fds m.own.fid_list)
      → n < 2 ^ 16
      → Names (n + 0) r
      → Kept Inv mmu fuel malloc (elim r [
        | none ↦ reply_error mmu fuel malloc rq m minus_eproto
        | some names ↦
            let (err, f', qids, fs) = dev.fs_walk m.own.fs f names in
            walk_reply mmu fuel malloc dev rq (with_fs m fs) newfid err f' qids
      ])
  walked-Kept n m newfid f none v u few k = reply_error-Kept Inv mmu fuel malloc rq m minus_eproto v
  walked-Kept n m newfid f (some names) v u few k =
      let r = dev.fs_walk m.own.fs f names in
      walk_reply-Kept (with_fs m r.3) newfid r.0 r.1 r.2 (with_fs-IsServing Inv Anywhere m v r.3 tt)
        (laws.walk m.own.fs (open_fds m.own.fid_list) f names v.files u k.0 (omega (arith, k.1)))

  pub walk-Kept :
      (m : Machine R (NineP S D)) (offset : ℕ)
      → IsServing Inv m
      → Kept Inv mmu fuel malloc (walk mmu fuel malloc dev rq m offset)
  unfolding walk
  walk-Kept m offset v =
      with_file-Kept Inv mmu fuel malloc rq m offset _ (λ a. a.0) _ v
        (λ a end f k u.
          Ensures->>= (Names (a.1.1.0 + 0)) (IsServing Inv)
            (walk_names mmu fuel malloc dev rq (a.1.1.0) m end []) _
            (walk_names-Names (a.1.1.0) m end [] tt)
            (λ r names. walked-Kept (a.1.1.0) m (a.1.0) f r v u (k.1.1.0) names))
