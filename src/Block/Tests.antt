-- ===== src/Block/Tests.antt =====
-- The block device at concrete inputs.
use spike_virtio_devices.Prelude.{
  ℕ, ◌+◌, ◌*◌, ◌<◌, ◌≤◌, ◌⊎◌, ◌≡◌, arith, List, ◌++◌, Option, none, some, replicate, get_or,
}
use spike_virtio_devices.Prelude.Outcome.{done}
use spike_virtio_devices.Cutils.{get_le64}
use spike_virtio_devices.Mmu.Sample.{Bytes, sample}
use spike_virtio_devices.Virtio.Device.{Machine, virtio_config_change_notify}
use spike_virtio_devices.Virtio.Inv.{IsValid}
use spike_virtio_devices.Virtio.Base.Steps.{next, here, config_change}
use spike_virtio_devices.Block.File.{Stdio, BlockFile, snapshot, bf_read_async, bf_write_async}
use spike_virtio_devices.Block.Snapshot.{snapshot_file, bf_read_async-bf_write_async}
use spike_virtio_devices.Block.Request.{Block, virtio_block_init}
use spike_virtio_devices.Block.Valid.{virtio_block_init-IsValid, Reach-virtio_block_init}

-- A file of 2048 zero bytes whose position and writes are not kept.
abbrev zeros : Stdio (Unit {0})
zeros = record {
  fseek = λ f o. f;
  fread = λ f n. (replicate n 0, f);
  fwrite = λ f bytes. f;
  file_size = λ f. 2048;
}

abbrev four : BlockFile (Unit {0})
four = record { f = some tt; nb_sectors = 4; mode = snapshot; sector_table = replicate 4 none }

abbrev machine : Machine Bytes (Block (Unit {0}))
machine = virtio_block_init four (λ a. a)

virtio_block_init-IsValid_example : IsValid machine.dev × (get_le64 machine.dev.config_space 0 ≡ 4)
virtio_block_init-IsValid_example = virtio_block_init-IsValid four (λ a. a) (omega arith)

Reach-virtio_block_init_example : IsValid (virtio_config_change_notify machine.dev)
Reach-virtio_block_init_example =
    Reach-virtio_block_init sample 8 (λ n. replicate n 0) zeros four (λ a. a) (omega arith)
      (next here config_change)

abbrev empty_table : List (Option (List ℕ))
empty_table = replicate 4 none

abbrev two_sectors : List ℕ
two_sectors = replicate 512 7 ++ replicate 512 8

bf_read_async-bf_write_async_example :
    (tb : List (Option (List ℕ))) × (bf_write_async zeros
        (snapshot_file tt 4 empty_table)
        1
        two_sectors
        2
      ≡ done (0, snapshot_file tt 4 tb))
    × ((i : ℕ) → i < 1 ⊎ 1 + 2 ≤ i → get_or tb i none ≡ get_or empty_table i none)
    × ((now : List ℕ) × (bf_read_async zeros (snapshot_file tt 4 tb) 1 (replicate 1024 0) 2
          ≡ done (0, now, snapshot_file tt 4 tb))
        × ((i : ℕ) → i < 512 * 2 → get_or now i 0 ≡ get_or two_sectors i 0))
bf_read_async-bf_write_async_example =
    bf_read_async-bf_write_async zeros tt 4 empty_table 1 two_sectors 2 (replicate 1024 0)
      (omega arith) (omega arith) (omega arith) (omega arith) (omega arith) (omega arith)
