-- ===== src/Block/Valid.antt =====
-- The block device keeps the transport valid, and tells the driver its capacity.
use spike_virtio_devices.Prelude.{
  ℕ, ◌/◌, ◌^◌, ◌<◌, ◌≡◌, ◌∙◌, arith, none, List, length, ◌==◌, ltb, is_neg, slt, sub32, sext64, u32,
  ◌∷◌, [],
}
use spike_virtio_devices.Prelude.Outcome.{
  done, aborted, fault, Ensures, Ensures->>=, Ensures-if, Ensures-trivial,
}
use spike_virtio_devices.Cutils.{get_le32, get_le64, put_le64, put_le32}
use spike_virtio_devices.Cutils.Endian.{get_le64-put_le64, put_le32-AreBytes}
use spike_virtio_devices.Mmu.{Mmu}
use spike_virtio_devices.Virtio.Device.{Machine, virtio_init}
use spike_virtio_devices.Virtio.Inv.{Anything, IsValid, IsValid-virtio_init}
use spike_virtio_devices.Virtio.Chain.{memcpy_from_queue, memcpy_to_queue}
use spike_virtio_devices.Virtio.Notify.Valid.{recv-KeepsValid, virtio_consume_desc-IsValid}
use spike_virtio_devices.Virtio.Base.Steps.{Reach, Reach-IsValid}
use spike_virtio_devices.Block.File.{
  Stdio, BlockFile, bf_read_async, bf_write_async, bf_get_sector_count,
}
use spike_virtio_devices.Block.Request.{
  Block, give_back, virtio_block_req_end, after_transfer, read_request, write_request,
  handle_block_request, virtio_block_recv_request, virtio_block_init, blk_status, blk_t_in,
  blk_t_out,
}

module _ {R F : Type 0} (mmu : Mmu R) (fuel : ℕ) where
  abbrev Answered : ℕ × Machine R (Block F) → Type 0
  Answered r = IsValid r.1.dev

  abbrev Left : Machine R (Block F) → Type 0
  Left t = IsValid t.dev

  give_back-IsValid :
      (m : Machine R (Block F)) (queue_idx desc_idx : ℕ) (buf : List ℕ) (size : ℕ)
      → IsValid m.dev
      → Ensures Left (give_back mmu fuel m queue_idx desc_idx buf size)
  unfolding give_back
  give_back-IsValid m queue_idx desc_idx buf size v =
      Ensures->>= (λ _. Unit) Left (memcpy_to_queue mmu fuel m.ram _ _ _ _ _) _ (Ensures-trivial _)
        (λ r _. virtio_consume_desc-IsValid mmu (record m { ram = r.1 }) queue_idx desc_idx size v)

  virtio_block_req_end-IsValid :
      (m : Machine R (Block F)) (ret : ℕ)
      → IsValid m.dev
      → Ensures Left (virtio_block_req_end mmu fuel m ret)
  unfolding virtio_block_req_end
  virtio_block_req_end-IsValid m ret v =
      Ensures-if Left (m.own.req.type == 0) _ _
        (Ensures-if Left (ltb (sext64 (sub32 m.own.req.write_size 1)) (length m.own.req.buf)) _
          fault
          (give_back-IsValid _ m.own.req.queue_idx m.own.req.desc_idx _ m.own.req.write_size v) tt)
        (Ensures-if Left (m.own.req.type == 1) _ aborted
          (give_back-IsValid m m.own.req.queue_idx m.own.req.desc_idx (blk_status ret ∷ []) 1 v) tt)

  after_transfer-IsValid :
      (m : Machine R (Block F)) (ret : ℕ)
      → IsValid m.dev
      → Ensures Answered (after_transfer mmu fuel m ret)
  unfolding after_transfer
  after_transfer-IsValid m ret v = Ensures-if Answered (slt 0 ret) _ _ v (
      Ensures->>= Left Answered (virtio_block_req_end mmu fuel m ret) _
        (virtio_block_req_end-IsValid m ret v) (λ t ok. ok))

  module _ (malloc : ℕ → List ℕ) (io : Stdio F) where
    read_request-IsValid :
        (m : Machine R (Block F)) (sector_num write_size : ℕ)
        → IsValid m.dev
        → Ensures Answered (read_request mmu fuel malloc io m sector_num write_size)
    unfolding read_request
    read_request-IsValid m sector_num write_size v =
        Ensures->>= (λ _. Unit) Answered (bf_read_async io m.own.bs sector_num _ _) _
          (Ensures-trivial _) (λ r _. after_transfer-IsValid _ r.0 v)

    write_request-IsValid :
        (m : Machine R (Block F)) (queue_idx desc_idx sector_num read_size write_size : ℕ)
        → IsValid m.dev
        → Ensures Answered
            (write_request mmu fuel malloc io m queue_idx desc_idx sector_num read_size write_size)
    unfolding write_request
    write_request-IsValid m queue_idx desc_idx sector_num read_size write_size v =
        Ensures-if Answered (slt 0 write_size) _ aborted
          (Ensures->>= (λ _. Unit) Answered (memcpy_from_queue mmu fuel m.ram _ _ _ _ _) _
            (Ensures-trivial _)
            (λ r _.
              Ensures->>= (λ _. Unit) Answered (bf_write_async io m.own.bs sector_num _ _) _
                (Ensures-trivial _) (λ r' _. after_transfer-IsValid _ r'.0 v)))
          tt

    handle_block_request-IsValid :
        (m : Machine R (Block F)) (h : List ℕ) (queue_idx desc_idx read_size write_size : ℕ)
        → IsValid m.dev
        → Ensures Answered
            (handle_block_request mmu fuel malloc io m h queue_idx desc_idx read_size write_size)
    unfolding handle_block_request
    handle_block_request-IsValid m h queue_idx desc_idx read_size write_size v =
        let type = get_le32 h 0 in
        let sector_num = get_le64 h 8 in
        let req = record (m.own.req) { type = type; queue_idx = queue_idx; desc_idx = desc_idx } in
        let m' = record m { own = record (m.own) { req = req } } in
        Ensures-if Answered (type == blk_t_in) _ _ (read_request-IsValid m' sector_num write_size v)
          (Ensures-if Answered (type == blk_t_out) _ (done (0, m'))
            (write_request-IsValid m' queue_idx desc_idx sector_num read_size write_size v) v)

    pub virtio_block_recv_request-IsValid :
        (m : Machine R (Block F)) (queue_idx desc_idx read_size write_size : ℕ)
        → IsValid m.dev
        → Ensures Answered
            (virtio_block_recv_request mmu fuel malloc io m queue_idx desc_idx read_size write_size)
    unfolding virtio_block_recv_request
    virtio_block_recv_request-IsValid m queue_idx desc_idx read_size write_size v =
        Ensures-if Answered m.own.req_in_progress _ _ v (
          Ensures->>= (λ _. Unit) Answered (memcpy_from_queue mmu fuel m.ram _ _ _ _ _) _
            (Ensures-trivial _)
            (λ r _.
              Ensures-if Answered (is_neg r.0) _ _ v
                (handle_block_request-IsValid _ r.2 queue_idx desc_idx read_size write_size v)))

-- `virtio_block_init` gives a valid device whose config space holds the number of sectors as a
-- 64-bit little-endian word, for fewer than 2^64 sectors.
pub virtio_block_init-IsValid :
    {R F : Type 0} (bs : BlockFile F) (ram : R)
    → bs.nb_sectors < 2 ^ 64
    → IsValid (virtio_block_init bs ram).dev
      × (get_le64 (virtio_block_init bs ram).dev.config_space 0 ≡ bs.nb_sectors)
unfolding virtio_block_init put_le64 bf_get_sector_count
virtio_block_init-IsValid bs ram small =
    let s = virtio_init 2 8 in
    let v = IsValid-virtio_init 2 8 (omega arith) (omega arith) in
    let c = v.config in
    let low = put_le32 s.config_space 0 (u32 bs.nb_sectors) in
    let high = u32 (bs.nb_sectors / 2 ^ 32) in
    let back = get_le64-put_le64 s.config_space 0 bs.nb_sectors c.1 (omega (arith, c.0)) small in
    (
      record {
        queues = v.queues;
        sel = v.sel;
        int_word = v.int_word;
        config = (
          back.1 ∙ c.0,
          put_le32-AreBytes low 4 high (put_le32-AreBytes s.config_space 0 _ c.1),
          c.2,
          c.3,
        );
        line = v.line;
      },
      back.0,
    )

module _ {R F : Type 0} (mmu : Mmu R) (fuel : ℕ) (malloc : ℕ → List ℕ) (io : Stdio F) where
  -- A block device of fewer than 2^64 sectors is valid in every state that it reaches from
  -- `virtio_block_init` by bus writes of any address, length and value, with all the requests
  -- that they start, by whatever the guest writes to its memory between them, and by
  -- configuration changes.
  pub Reach-virtio_block_init :
      (bs : BlockFile F) (ram : R) {t : Machine R (Block F)}
      → bs.nb_sectors < 2 ^ 64
      → Reach mmu fuel
          (virtio_block_recv_request mmu fuel malloc io)
          none
          (virtio_block_init bs ram)
          t
      → IsValid t.dev
  Reach-virtio_block_init bs ram small r =
      (Reach-IsValid mmu fuel _ none Anything
        (recv-KeepsValid _ (virtio_block_recv_request-IsValid mmu fuel malloc io)) tt r
        ((virtio_block_init-IsValid bs ram small).0, tt)).0
