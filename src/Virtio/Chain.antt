-- ===== src/Virtio/Chain.antt =====
-- src/virtio.cc: `VIRTIODesc`, `get_desc`, `memcpy_to_from_queue` and `get_desc_rw_size`.
-- A descriptor is read again from guest memory at each step, which a copy to the queue may have
-- changed. A chain may be a cycle, so each walk takes fuel. Returned `int`s are patterns.
pub mod Sizes
pub mod Blit
pub mod Sets
pub mod Stream
pub mod Fetch
pub mod ReadOnly
use spike_virtio_devices.Prelude.{
  ℕ, zero, suc, ◌+◌, ◌-◌, ◌*◌, ◌^◌, Bool, true, false, not, Option, none, some, List, ◌++◌, ◌==◌,
  ltb, leb, if◌then◌else◌, take, drop, length, bit_and, add32, sub32, add64, is_neg, slt, sext64,
}
use spike_virtio_devices.Prelude.Outcome.{Outcome, done, fault, out_of_fuel, ◌>>=◌}
use spike_virtio_devices.Cutils.{min_int, get_le16, get_le32, get_le64}
use spike_virtio_devices.Mmu.{Mmu}
use spike_virtio_devices.Virtio.Copy.{virtio_memcpy_from_ram, virtio_memcpy_to_ram}

-- `return -1`
abbrev pub minus_one : ℕ
minus_one = 2 ^ 32 - 1

abbrev pub vring_desc_f_next : ℕ
vring_desc_f_next = 1

abbrev pub vring_desc_f_write : ℕ
vring_desc_f_write = 2

pub record Desc : Type 0 where
  pub addr : ℕ  -- uint64_t
  pub len : ℕ  -- uint32_t
  pub flags : ℕ  -- uint16_t
  pub next : ℕ  -- uint16_t

abbrev pub write_flag : Desc → ℕ
write_flag d = bit_and d.flags vring_desc_f_write

-- `desc.flags & VRING_DESC_F_NEXT`, as a condition.
abbrev pub has_next : Desc → Bool
has_next d = not (bit_and d.flags vring_desc_f_next == 0)

-- `buf += l` for an `int` `l`; leaving the buffer downwards is undefined.
unfoldable pub advance : ℕ → ℕ → Outcome ℕ
advance pos l =
    if is_neg l
    then (if leb (2 ^ 32 - l) pos then done (pos - (2 ^ 32 - l)) else fault)
    else done (pos + l)

-- `n` bytes of `buf` from `pos` replaced.
abbrev pub blit : List ℕ → ℕ → List ℕ → List ℕ
blit buf pos bytes = take pos buf ++ (bytes ++ drop (pos + length bytes) buf)

module _ {R : Type 0} (mmu : Mmu R) where
  -- The bytes of the struct in guest memory, on a little-endian host. `table` is `qs->desc_addr`.
  unfoldable pub get_desc : R → ℕ → ℕ → Desc
  get_desc m table desc_idx =
      let b = virtio_memcpy_from_ram mmu m (add64 table (desc_idx * 16)) 16 in
      record {
        addr = get_le64 b 0;
        len = get_le32 b 8;
        flags = get_le16 b 12;
        next = get_le16 b 14;
      }

  -- "find the first write descriptor"
  unfoldable pub find_write : ℕ → R → ℕ → Desc → Outcome (Option Desc)
  find_write zero m table d = out_of_fuel
  find_write (suc f) m table d =
      let rest = find_write f m table (get_desc m table d.next) in
      if write_flag d == vring_desc_f_write
      then done (some d)
      else if not (has_next d)
      then done none
      else rest

  -- "find the descriptor at offset"
  unfoldable pub find_offset : ℕ → R → ℕ → ℕ → Desc → ℕ → Outcome (Option (Desc × ℕ))
  find_offset zero m table flag d offset = out_of_fuel
  find_offset (suc f) m table flag d offset =
      let rest = find_offset f m table flag (get_desc m table d.next) (sub32 offset d.len) in
      if not (write_flag d == flag)
      then done none
      else if ltb offset d.len
      then done (some (d, offset))
      else if not (has_next d)
      then done none
      else rest

  -- One piece of a copy: the memory and the buffer after it. An `l` that is not positive copies
  -- nothing.
  unfoldable pub copy_piece : Bool → R → List ℕ → ℕ → ℕ → ℕ → Outcome (R × List ℕ)
  copy_piece to_queue m buf pos addr l =
      if not (slt 0 l)
      then done (m, buf)
      else if not (leb (pos + l) (length buf))
      then fault
      else if to_queue
      then done (virtio_memcpy_to_ram mmu m addr (drop pos buf) l, buf)
      else done (m, blit buf pos (virtio_memcpy_from_ram mmu m addr l))

  -- The copying loop: `pos` is the index that `buf` points at.
  unfoldable pub copy_loop :
      ℕ → Bool → ℕ → ℕ → Desc → ℕ → ℕ → ℕ → R × List ℕ → Outcome (ℕ × R × List ℕ)
  copy_loop zero to_queue table flag d pos offset count s = out_of_fuel
  copy_loop (suc f) to_queue table flag d pos offset count (m, buf) = do
    let l = min_int count (sub32 d.len offset)
    (m', buf') ← copy_piece to_queue m buf pos (add64 d.addr (sext64 offset)) l
    if sub32 count l == 0 then done (0, m', buf') else do
      pos' ← advance pos l
      let same = copy_loop f to_queue table flag d pos' (add32 offset l) (sub32 count l) (m', buf')
      let d' = get_desc m' table d.next
      let next = copy_loop f to_queue table flag d' pos' 0 (sub32 count l) (m', buf')
      if not (add32 offset l == d.len)
          then same
          else if not (has_next d)
          then done (minus_one, m', buf')
          else if not (write_flag d' == flag)
          then done (minus_one, m', buf')
          else next

  -- The descriptor where the data starts, or `none` for a return of -1.
  unfoldable pub locate : ℕ → Bool → R → ℕ → ℕ → ℕ → Outcome (Option (Desc × ℕ))
  locate fuel true m table desc_idx offset = do
    found ← find_write fuel m table (get_desc m table desc_idx)
    elim found [ none ↦ done none | some d ↦ find_offset fuel m table vring_desc_f_write d offset ]
  locate fuel false m table desc_idx offset =
      find_offset fuel m table 0 (get_desc m table desc_idx) offset

  unfoldable pub memcpy_to_from_queue :
      ℕ → R → ℕ → List ℕ → ℕ → ℕ → ℕ → Bool → Outcome (ℕ × R × List ℕ)
  memcpy_to_from_queue fuel m table buf desc_idx offset count to_queue =
      if count == 0 then done (0, m, buf) else do
        found ← locate fuel to_queue m table desc_idx offset
        elim found [
          | none ↦ done (minus_one, m, buf)
          | some (d, o) ↦
              copy_loop fuel to_queue table (if to_queue then vring_desc_f_write else 0) d 0 o count
                (m, buf)
        ]

  unfoldable pub memcpy_from_queue : ℕ → R → ℕ → List ℕ → ℕ → ℕ → ℕ → Outcome (ℕ × R × List ℕ)
  unfolding memcpy_to_from_queue
  memcpy_from_queue fuel m table buf desc_idx offset count =
      memcpy_to_from_queue fuel m table buf desc_idx offset count false

  unfoldable pub memcpy_to_queue : ℕ → R → ℕ → ℕ → ℕ → List ℕ → ℕ → Outcome (ℕ × R × List ℕ)
  unfolding memcpy_to_from_queue
  memcpy_to_queue fuel m table desc_idx offset buf count =
      memcpy_to_from_queue fuel m table buf desc_idx offset count true

  -- The second loop of `get_desc_rw_size`.
  unfoldable pub sum_write : ℕ → R → ℕ → Desc → ℕ → ℕ → Outcome (Option (ℕ × ℕ))
  sum_write zero m table d read_size write_size = out_of_fuel
  sum_write (suc f) m table d read_size write_size =
      let total = add32 write_size d.len in
      let rest = sum_write f m table (get_desc m table d.next) read_size total in
      if write_flag d == 0
      then done none
      else if not (has_next d)
      then done (some (read_size, total))
      else rest

  -- The first loop, which goes on to the second at a write descriptor.
  unfoldable pub sum_read : ℕ → R → ℕ → Desc → ℕ → Outcome (Option (ℕ × ℕ))
  sum_read zero m table d read_size = out_of_fuel
  sum_read (suc f) m table d read_size =
      let total = add32 read_size d.len in
      let write = sum_write (suc f) m table d read_size 0 in
      let rest = sum_read f m table (get_desc m table d.next) total in
      if not (write_flag d == 0)
      then write
      else if not (has_next d)
      then done (some (total, 0))
      else rest

  -- `none` for a return of -1, else `*pread_size` and `*pwrite_size`.
  unfoldable pub get_desc_rw_size : ℕ → R → ℕ → ℕ → Outcome (Option (ℕ × ℕ))
  get_desc_rw_size fuel m table desc_idx = sum_read fuel m table (get_desc m table desc_idx) 0
