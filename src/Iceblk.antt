-- ===== src/Iceblk.antt =====
-- src/iceblk.cc and src/iceblk.h: the iceblk block device, with requests that take time. The bus
-- helpers `read_little_endian_reg` and `write_little_endian_reg` belong to the simulator: a load
-- gives the word that goes to the first, and the second is the argument `write_le`.
pub mod Transfer
pub mod Writing
pub mod Tags
pub mod Latency
mod Tests
use spike_virtio_devices.Prelude.{
  ℕ, zero, suc, ◌+◌, ◌*◌, ◌/◌, ◌%◌, ◌^◌, Bool, true, false, not, Option, none, some, List, [], ◌∷◌,
  ◌++◌, ◌==◌, ltb, if◌then◌else◌, ◌||◌, length, get_or, set, u32, u64,
}
use spike_virtio_devices.Prelude.Outcome.{Outcome, done, aborted, fault, ◌>>=◌}
use spike_virtio_devices.Mmu.{Mmu64}

abbrev pub sector_size : ℕ
sector_size = 512

-- The rounds of `for (i = 0; i < BLKDEV_SECTOR_SIZE; i += 8)`.
abbrev pub sector_words : ℕ
sector_words = 64

abbrev pub blockdevice_latency : ℕ
blockdevice_latency = 500

abbrev pub max_request_length : ℕ
max_request_length = 16

-- `iceblk_t` and the memory. Queues have their front first; `irq` is the level last given to the
-- interrupt controller.
pub record Iceblk (R : Type 0) : Type 0 where
  pub cur_tick : ℕ
  pub blockdevice : List ℕ  -- uint64_t words
  pub blockdevice_size : ℕ
  pub idle_tags : List ℕ
  pub pending_tags : List ℕ
  pub cmpl_tags : List ℕ
  pub req_addr : ℕ  -- reg_t, 64 bits, as the next three
  pub req_offset : ℕ
  pub req_len : ℕ
  pub req_write : ℕ
  pub irq : ℕ
  pub ram : R

-- `assert(test)`
abbrev pub assert {ℓ} : {A : Type ℓ} → Bool → Outcome A → Outcome A
assert test next = if test then next else aborted

-- An access to `blockdevice[i]`.
abbrev pub in_array {ℓ} : {A : Type ℓ} → List ℕ → ℕ → Outcome A → Outcome A
in_array xs i next = if ltb i (length xs) then next else fault

-- `words` is what the allocated block holds: the image of the file, or nothing in particular.
unfoldable pub new_iceblk : {R : Type 0} → List ℕ → ℕ → R → Iceblk R
new_iceblk words size ram = record {
  cur_tick = 0;
  blockdevice = words;
  blockdevice_size = size;
  idle_tags = 0 ∷ [];
  pending_tags = [];
  cmpl_tags = [];
  req_addr = 0;
  req_offset = 0;
  req_len = 0;
  req_write = 0;
  irq = 0;
  ram = ram;
}

module _ {R : Type 0} where
  unfoldable pub read_blockdevice_u64 : Iceblk R → ℕ → ℕ → Outcome ℕ
  read_blockdevice_u64 b sidx boff =
      let byte_idx = u64 (sidx * sector_size + boff) in
      assert (boff % 8 == 0) (
        assert (ltb byte_idx b.blockdevice_size)
          (in_array b.blockdevice (byte_idx / 8) (done (get_or b.blockdevice (byte_idx / 8) 0))))

  unfoldable pub write_blockdevice_u64 : Iceblk R → ℕ → ℕ → ℕ → Outcome (Iceblk R)
  write_blockdevice_u64 b word sidx boff =
      let byte_idx = u64 (sidx * sector_size + boff) in
      assert (ltb byte_idx b.blockdevice_size) (
        in_array b.blockdevice (byte_idx / 8)
          (done (record b { blockdevice = set b.blockdevice (byte_idx / 8) word })))

module _ {R : Type 0} (mmu : Mmu64 R) where
  -- `req_addr + sidx * BLKDEV_SECTOR_SIZE + i`
  abbrev pub word_addr : Iceblk R → ℕ → ℕ → ℕ
  word_addr b sidx i = u64 (b.req_addr + sidx * sector_size + i)

  -- The inner loop of `handle_read_request`, with the rounds left.
  unfoldable pub read_words : ℕ → ℕ → ℕ → Iceblk R → Outcome (Iceblk R)
  read_words zero sidx i b = done b
  read_words (suc n) sidx i b = do
    word ← read_blockdevice_u64 b (u64 (sidx + b.req_offset)) i
    read_words n sidx (i + 8) (record b { ram = mmu.store64 b.ram (word_addr b sidx i) word })

  unfoldable pub read_sectors : ℕ → ℕ → Iceblk R → Outcome (Iceblk R)
  read_sectors zero sidx b = done b
  read_sectors (suc n) sidx b = do
    b' ← read_words sector_words sidx 0 b
    read_sectors n (sidx + 1) b'

  unfoldable pub handle_read_request : Iceblk R → Outcome (Iceblk R)
  handle_read_request b = read_sectors b.req_len 0 b

  -- The inner loop of `handle_write_request`.
  unfoldable pub write_words : ℕ → ℕ → ℕ → Iceblk R → Outcome (Iceblk R)
  write_words zero sidx i b = done b
  write_words (suc n) sidx i b = do
    b' ← write_blockdevice_u64 b (mmu.load64 b.ram (word_addr b sidx i)) sidx i
    write_words n sidx (i + 8) b'

  unfoldable pub write_sectors : ℕ → ℕ → Iceblk R → Outcome (Iceblk R)
  write_sectors zero sidx b = done b
  write_sectors (suc n) sidx b = do
    b' ← write_words sector_words sidx 0 b
    write_sectors n (sidx + 1) b'

  unfoldable pub handle_write_request : Iceblk R → Outcome (Iceblk R)
  handle_write_request b = write_sectors b.req_len 0 b

  abbrev pub raise : Iceblk R → Iceblk R
  raise b = record b { irq = 1 }

  unfoldable pub handle_request : Iceblk R → Outcome (Iceblk R)
  handle_request b = assert (b.req_addr % 8 == 0) (do
    b' ← if b.req_write == 0 then handle_read_request b else handle_write_request b
    done (raise b'))

module _ {R : Type 0} where
  -- `front()` of an empty queue is undefined.
  unfoldable pub post_request : Iceblk R → List ℕ → Outcome (Iceblk R)
  post_request b [] = fault
  post_request b (tag ∷ idle) =
      done (record b { pending_tags = b.pending_tags ++ (tag ∷ []); idle_tags = idle })

  -- `BLKDEV_COMPLETE`
  unfoldable pub complete : Iceblk R → List ℕ → Outcome (Option ℕ × Iceblk R)
  complete b [] = aborted
  complete b (tag ∷ rest) =
      let b' = record b { cmpl_tags = rest; idle_tags = b.idle_tags ++ (tag ∷ []) } in
      done (some tag, if length rest == 0 then record b' { irq = 0 } else b')

  -- What `load` does to the device, with the word that it returns: `none` for a refused access.
  -- A load of `BLKDEV_REQUEST` returns no word; the model gives 0 for what the bus already held.
  unfoldable pub load : Iceblk R → ℕ → ℕ → Outcome (Option ℕ × Iceblk R)
  load b addr len =
      if ltb 8 len
      then done (none, b)
      else if addr == 17
      then (do b' ← post_request b b.idle_tags; done (some 0, b'))
      else if addr == 18
      then done (some (u32 (length b.idle_tags)), b)
      else if addr == 20
      then done (some (u32 (length b.cmpl_tags)), b)
      else if addr == 19
      then complete b b.cmpl_tags
      else if addr == 24
      then done (some (u32 (b.blockdevice_size / sector_size)), b)
      else if addr == 28
      then done (some max_request_length, b)
      else done (none, b)

  -- `write_le old len bytes` is a register after `write_little_endian_reg`.
  unfoldable pub store : (ℕ → ℕ → List ℕ → ℕ) → Iceblk R → ℕ → ℕ → List ℕ → Bool × Iceblk R
  store write_le b addr len bytes =
      if ltb 8 len
      then (false, b)
      else if addr == 0
      then (true, record b { req_addr = write_le b.req_addr len bytes })
      else if addr == 8
      then (true, record b { req_offset = write_le b.req_offset len bytes })
      else if addr == 12
      then (true, record b { req_len = write_le b.req_len len bytes })
      else if addr == 16
      then (true, record b { req_write = write_le b.req_write len bytes })
      else (false, b)

module _ {R : Type 0} (mmu : Mmu64 R) where
  -- `++cur_tick % blockdevice_latency == 0` brings the counter back to 0.
  abbrev pub advance_tick : Iceblk R → Iceblk R
  advance_tick b =
      let t = u64 (b.cur_tick + 1) in
      record b { cur_tick = if t % blockdevice_latency == 0 then 0 else t }

  -- The request of the front tag, when it is time.
  unfoldable pub serve : Iceblk R → List ℕ → Outcome (Iceblk R)
  serve b [] = done b
  serve b (tag ∷ rest) = do
    b' ← handle_request mmu b
    done (record b' { cmpl_tags = b'.cmpl_tags ++ (tag ∷ []); pending_tags = rest })

  unfoldable pub tick : Iceblk R → Outcome (Iceblk R)
  tick b =
      let b' = advance_tick b in
      let served = serve b' b'.pending_tags in if ltb 0 b'.cur_tick then done b' else served
