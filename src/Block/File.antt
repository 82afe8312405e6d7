-- ===== src/Block/File.antt =====
-- src/virtio.cc: `BlockDeviceFile` and the functions that read and write it. The `FILE` functions
-- of the C library are arguments.
use spike_virtio_devices.Prelude.{
  ℕ, zero, suc, ◌+◌, ◌*◌, ◌/◌, List, [], Option, none, some, ltb, leb, if◌then◌else◌, length,
  get_or, set, take, drop, replicate, add64, sext64, u32, u64, is_neg,
}
use spike_virtio_devices.Prelude.Outcome.{Outcome, done, aborted, fault, ◌>>=◌}
use spike_virtio_devices.Virtio.Chain.{blit, minus_one}

-- `F` is a `FILE`. `fread file n` gives the bytes that were read, `n` at most.
pub record Stdio (F : Type 0) : Type 0 where
  pub fseek : F → ℕ → F
  pub fread : F → ℕ → List ℕ × F
  pub fwrite : F → List ℕ → F
  pub file_size : F → ℕ  -- where `fseek` to the end of the file leaves `ftello`

abbrev pub sector_size : ℕ
sector_size = 512

pub data Mode : Type 0 where
  ro : Mode
  rw_mode : Mode
  snapshot : Mode

pub record BlockFile (F : Type 0) : Type 0 where
  pub f : Option F
  pub nb_sectors : ℕ  -- int64_t, not negative
  pub mode : Mode
  pub sector_table : List (Option (List ℕ))

-- The rounds of `for (i = 0; i < n; i++)` for an `int`.
abbrev pub rounds : ℕ → ℕ
rounds n = if is_neg n then 0 else n

-- `n * SECTOR_SIZE` as a `size_t`.
abbrev pub byte_count : ℕ → ℕ
byte_count n = sext64 (u32 (n * sector_size))

module _ {F : Type 0} where
  unfoldable pub bf_get_sector_count : BlockFile F → ℕ
  bf_get_sector_count bf = bf.nb_sectors

  module _ (io : Stdio F) where
    -- `fseek` and `fread` of `count` bytes into `buf` from `pos`.
    unfoldable pub read_file : BlockFile F → F → ℕ → List ℕ → ℕ → ℕ → Outcome (List ℕ × BlockFile F)
    read_file bf file sector_num buf pos count =
        let (bytes, file') = io.fread (io.fseek file (u64 (sector_num * sector_size))) count in
        if leb (pos + length bytes) (length buf)
        then done (blit buf pos bytes, record bf { f = some file' })
        else fault

    -- One sector of a snapshot, from its table or from the file.
    unfoldable pub read_sector :
        BlockFile F → F → ℕ → List ℕ → ℕ → Option (List ℕ) → Outcome (List ℕ × BlockFile F)
    unfolding read_file
    read_sector bf file sector_num buf pos none = read_file bf file sector_num buf pos sector_size
    read_sector bf file sector_num buf pos (some bytes) =
        if leb (pos + sector_size) (length buf) then done (blit buf pos bytes, bf) else fault

    -- The loop over the sectors; `pos` is the index that `buf` points at.
    unfoldable pub read_snapshot : ℕ → BlockFile F → ℕ → List ℕ → ℕ → Outcome (List ℕ × BlockFile F)
    read_snapshot zero bf sector_num buf pos = done (buf, bf)
    read_snapshot (suc n) bf sector_num buf pos = elim bf.f [
      | none ↦ fault
      | some file ↦
          if ltb sector_num (length bf.sector_table)
          then (do
            (buf', bf') ←
                read_sector bf file sector_num buf pos (get_or bf.sector_table sector_num none)
            read_snapshot n bf' (add64 sector_num 1) buf' (pos + sector_size))
          else fault
    ]

    unfoldable pub read_open :
        BlockFile F → F → ℕ → List ℕ → ℕ → Mode → Outcome (List ℕ × BlockFile F)
    read_open bf file sector_num buf n snapshot = read_snapshot (rounds n) bf sector_num buf 0
    read_open bf file sector_num buf n mode = read_file bf file sector_num buf 0 (byte_count n)

    -- What it returns, the buffer and the file.
    unfoldable pub bf_read_async : BlockFile F → ℕ → List ℕ → ℕ → Outcome (ℕ × List ℕ × BlockFile F)
    bf_read_async bf sector_num buf n = elim bf.f [
      | none ↦ done (minus_one, buf, bf)
      | some file ↦ read_open bf file sector_num buf n bf.mode >>= λ r. done (0, r.0, r.1)
    ]

    -- The loop that puts sectors into the table.
    unfoldable pub write_snapshot : ℕ → BlockFile F → ℕ → List ℕ → ℕ → Outcome (BlockFile F)
    write_snapshot zero bf sector_num buf pos = done bf
    write_snapshot (suc n) bf sector_num buf pos =
        if ltb sector_num (length bf.sector_table)
        then (if leb (pos + sector_size) (length buf)
            then write_snapshot n
                (record bf {
                  sector_table =
                      set bf.sector_table sector_num (some (take sector_size (drop pos buf)));
                })
                (add64 sector_num 1) buf (pos + sector_size)
            else fault)
        else fault

    unfoldable pub write_file : BlockFile F → ℕ → List ℕ → ℕ → Option F → Outcome (ℕ × BlockFile F)
    write_file bf sector_num buf count none = fault
    write_file bf sector_num buf count (some file) =
        if leb count (length buf)
        then (let sought = io.fseek file (u64 (sector_num * sector_size)) in
            done (0, record bf { f = some (io.fwrite sought (take count buf)) }))
        else fault

    unfoldable pub write_mode : BlockFile F → ℕ → List ℕ → ℕ → Mode → Outcome (ℕ × BlockFile F)
    unfolding write_file
    write_mode bf sector_num buf n ro = done (minus_one, bf)
    write_mode bf sector_num buf n rw_mode = write_file bf sector_num buf (byte_count n) bf.f
    write_mode bf sector_num buf n snapshot =
        let written = write_snapshot (rounds n) bf sector_num buf 0 in
        if ltb bf.nb_sectors (add64 sector_num (sext64 n))
        then done (minus_one, bf)
        else written >>= λ t. done (0, t)

    unfoldable pub bf_write_async : BlockFile F → ℕ → List ℕ → ℕ → Outcome (ℕ × BlockFile F)
    bf_write_async bf sector_num buf n = write_mode bf sector_num buf n bf.mode

    abbrev pub sector_table_of : ℕ → Mode → List (Option (List ℕ))
    sector_table_of nb_sectors snapshot = replicate nb_sectors none
    sector_table_of nb_sectors mode = []

    -- `f` is what `fopen` returned; a null pointer makes the program exit.
    unfoldable pub block_device_init : Option F → Mode → Outcome (BlockFile F)
    block_device_init none mode = aborted
    block_device_init (some file) mode =
        let nb_sectors = io.file_size file / 512 in
        done (record {
          f = some file;
          nb_sectors = nb_sectors;
          mode = mode;
          sector_table = sector_table_of nb_sectors mode;
        })
