-- ===== src/Block/Request.antt =====
-- src/virtio.cc: the requests of the virtio block device. `malloc` gives a block of the asked size,
-- whose bytes are arbitrary; a freed buffer is left where it was.
use spike_virtio_devices.Prelude.{
  ℕ, ◌-◌, ◌/◌, ◌^◌, Bool, true, false, List, [], ◌∷◌, ◌==◌, ltb, if◌then◌else◌, length, set,
  replicate, sub32, sext64, u32, is_neg, slt,
}
use spike_virtio_devices.Prelude.Outcome.{Outcome, done, aborted, fault, ◌>>=◌}
use spike_virtio_devices.Cutils.{get_le32, get_le64, put_le32}
use spike_virtio_devices.Mmu.{Mmu}
use spike_virtio_devices.Virtio.Device.{Machine, queue_at, virtio_init}
use spike_virtio_devices.Virtio.Chain.{memcpy_from_queue, memcpy_to_queue}
use spike_virtio_devices.Virtio.Notify.{virtio_consume_desc, queue_notify}
use spike_virtio_devices.Block.File.{
  Stdio, BlockFile, sector_size, bf_get_sector_count, bf_read_async, bf_write_async,
}

pub record BlockRequest : Type 0 where
  pub type : ℕ  -- uint32_t
  pub buf : List ℕ
  pub write_size : ℕ  -- int, as the next two
  pub queue_idx : ℕ
  pub desc_idx : ℕ

-- What `VIRTIOBlockDevice` adds to `VIRTIODevice`.
pub record Block (F : Type 0) : Type 0 where
  pub bs : BlockFile F
  pub req_in_progress : Bool
  pub req : BlockRequest

abbrev pub blk_t_in : ℕ
blk_t_in = 0

abbrev pub blk_t_out : ℕ
blk_t_out = 1

-- `sizeof(BlockRequestHeader)`
abbrev pub block_header_size : ℕ
block_header_size = 16

-- `x / SECTOR_SIZE` for an `int`, towards zero.
unfoldable pub div_sector : ℕ → ℕ
div_sector x = if is_neg x then u32 (2 ^ 32 - (2 ^ 32 - x) / sector_size) else x / sector_size

-- The status byte: `VIRTIO_BLK_S_IOERR` or `VIRTIO_BLK_S_OK`.
abbrev pub blk_status : ℕ → ℕ
blk_status ret = if is_neg ret then 1 else 0

module _ {R F : Type 0} (mmu : Mmu R) (fuel : ℕ) where
  -- `memcpy_to_queue` and `virtio_consume_desc`.
  unfoldable pub give_back :
      Machine R (Block F) → ℕ → ℕ → List ℕ → ℕ → Outcome (Machine R (Block F))
  give_back m queue_idx desc_idx buf size = do
    let table = (queue_at m.dev queue_idx).desc_addr
    (ret, ram, b) ← memcpy_to_queue mmu fuel m.ram table desc_idx 0 buf size
    done (virtio_consume_desc mmu (record m { ram = ram }) queue_idx desc_idx size)

  unfoldable pub virtio_block_req_end : Machine R (Block F) → ℕ → Outcome (Machine R (Block F))
  unfolding give_back
  virtio_block_req_end m ret =
      let req = m.own.req in
      let last = sext64 (sub32 req.write_size 1) in
      if req.type == blk_t_in
      then (if ltb last (length req.buf)
          then (let buf = set req.buf last (blk_status ret) in
              let m' = record m { own = record (m.own) { req = record req { buf = buf } } } in
              give_back m' req.queue_idx req.desc_idx buf req.write_size)
          else fault)
      else if req.type == blk_t_out
      then give_back m req.queue_idx req.desc_idx (blk_status ret ∷ []) 1
      else aborted

  -- After an asynchronous or a finished transfer.
  unfoldable pub after_transfer : Machine R (Block F) → ℕ → Outcome (ℕ × Machine R (Block F))
  unfolding virtio_block_req_end
  after_transfer m ret =
      if slt 0 ret
      then done (0, record m { own = record (m.own) { req_in_progress = true } })
      else (do m' ← virtio_block_req_end m ret; done (0, m'))

  module _ (malloc : ℕ → List ℕ) (io : Stdio F) where
    unfoldable pub read_request : Machine R (Block F) → ℕ → ℕ → Outcome (ℕ × Machine R (Block F))
    unfolding after_transfer
    read_request m sector_num write_size = do
      (ret, buf, bs) ←
          bf_read_async io m.own.bs sector_num (malloc (sext64 write_size))
            (div_sector (sub32 write_size 1))
      let req = record (m.own.req) { buf = buf; write_size = write_size }
      after_transfer (record m { own = record (m.own) { bs = bs; req = req } }) ret

    unfoldable pub write_request :
        Machine R (Block F) → ℕ → ℕ → ℕ → ℕ → ℕ → Outcome (ℕ × Machine R (Block F))
    unfolding after_transfer
    write_request m queue_idx desc_idx sector_num read_size write_size =
        if slt 0 write_size
        then (do
          let table = (queue_at m.dev queue_idx).desc_addr
          let len = sub32 read_size block_header_size
          (r, ram, buf) ←
              memcpy_from_queue mmu fuel m.ram table (malloc (sext64 len)) desc_idx
                block_header_size len
          (ret, bs) ← bf_write_async io m.own.bs sector_num buf (div_sector len)
          after_transfer (record m { ram = ram; own = record (m.own) { bs = bs } }) ret)
        else aborted

    -- The request behind the header `h`.
    unfoldable pub handle_block_request :
        Machine R (Block F) → List ℕ → ℕ → ℕ → ℕ → ℕ → Outcome (ℕ × Machine R (Block F))
    handle_block_request m h queue_idx desc_idx read_size write_size =
        let req = record (m.own.req) {
          type = get_le32 h 0;
          queue_idx = queue_idx;
          desc_idx = desc_idx;
        } in
        let m' = record m { own = record (m.own) { req = req } } in
        if req.type == blk_t_in
        then read_request m' (get_le64 h 8) write_size
        else if req.type == blk_t_out
        then write_request m' queue_idx desc_idx (get_le64 h 8) read_size write_size
        else done (0, m')

    unfoldable pub virtio_block_recv_request :
        Machine R (Block F) → ℕ → ℕ → ℕ → ℕ → Outcome (ℕ × Machine R (Block F))
    virtio_block_recv_request m queue_idx desc_idx read_size write_size =
        if m.own.req_in_progress then done (2 ^ 32 - 1, m) else do
          let table = (queue_at m.dev queue_idx).desc_addr
          (ret, ram, h) ←
              memcpy_from_queue mmu fuel m.ram table (replicate block_header_size 0) desc_idx 0
                block_header_size
          let m' = record m { ram = ram }
          if is_neg ret
              then done (0, m')
              else handle_block_request m' h queue_idx desc_idx read_size write_size

    unfoldable pub virtio_block_req_cb : Machine R (Block F) → ℕ → Outcome (Machine R (Block F))
    virtio_block_req_cb m ret = do
      m' ← virtio_block_req_end m ret
      let idle = record m' { own = record (m'.own) { req_in_progress = false } }
      queue_notify mmu fuel virtio_block_recv_request idle idle.own.req.queue_idx

abbrev pub no_request : BlockRequest
no_request = record { type = 0; buf = []; write_size = 0; queue_idx = 0; desc_idx = 0 }

unfoldable pub virtio_block_init : {R F : Type 0} → BlockFile F → R → Machine R (Block F)
virtio_block_init bs ram =
    let s = virtio_init 2 8 in
    let nb_sectors = bf_get_sector_count bs in
    let low = put_le32 s.config_space 0 (u32 nb_sectors) in
    record {
      dev = record s { config_space = put_le32 low 4 (u32 (nb_sectors / 2 ^ 32)) };
      ram = ram;
      own = record { bs = bs; req_in_progress = false; req = no_request };
    }
