-- ===== src/Iceblk/Tests.antt =====
-- The iceblk device at concrete inputs.
use spike_virtio_devices.Prelude.{ℕ, ◌*◌, ◌≡◌, refl, arith, List, [], ◌∷◌, replicate}
use spike_virtio_devices.Prelude.Outcome.{done, ◌>>=◌, Ensures}
use spike_virtio_devices.Mmu.Sample.{Bytes, sample64, sample64-IsMmu64}
use spike_virtio_devices.Iceblk.{
  Iceblk, new_iceblk, sector_words, handle_read_request, handle_write_request, load, serve, tick,
}
use spike_virtio_devices.Iceblk.Transfer.{IsRequest, ReadWords, handle_read_request_lem}
use spike_virtio_devices.Iceblk.Writing.{with_block, WroteWords, handle_write_request_lem}
use spike_virtio_devices.Iceblk.Tags.{IsTracked, Loaded, tick-IsTracked, load-IsTracked}
use spike_virtio_devices.Iceblk.Latency.{run_ticks, run_ticks-serve}

-- Two sectors, of which the second is asked for.
abbrev two_sectors : Iceblk Bytes
two_sectors = record (new_iceblk (replicate 128 7) 1024 (λ a. a)) {
  req_addr = 4096;
  req_offset = 1;
  req_len = 1;
  pending_tags = 0 ∷ [];
  idle_tags = [];
}

two_sectors-IsRequest : IsRequest two_sectors
unfolding new_iceblk
two_sectors-IsRequest = record {
  aligned = refl;
  in_dram = omega arith;
  allocated = omega arith;
  size_word = omega arith;
}

two_sectors-IsTracked : IsTracked two_sectors
unfolding new_iceblk
two_sectors-IsTracked = record { one_tag = refl; line = refl }

handle_read_request_lem_example :
    (r : Bytes) × (handle_read_request sample64 two_sectors ≡ done (record two_sectors { ram = r }))
    × ReadWords sample64 sample64-IsMmu64 two_sectors two_sectors-IsRequest
        (two_sectors.req_len * sector_words)
        r
unfolding new_iceblk
handle_read_request_lem_example =
    handle_read_request_lem sample64 sample64-IsMmu64 two_sectors two_sectors-IsRequest
      (omega arith)

-- The offset is 1, and yet the first sector is written.
handle_write_request_lem_example :
    (ws : List ℕ) × (handle_write_request sample64 two_sectors
      ≡ done (with_block sample64 two_sectors two_sectors-IsRequest ws))
    × WroteWords sample64 two_sectors two_sectors-IsRequest (two_sectors.req_len * sector_words) ws
unfolding new_iceblk
handle_write_request_lem_example =
    handle_write_request_lem sample64 two_sectors two_sectors-IsRequest (omega arith)

tick-IsTracked_example : Ensures IsTracked (tick sample64 two_sectors)
tick-IsTracked_example = tick-IsTracked sample64 two_sectors two_sectors-IsTracked

load-IsTracked_example : Ensures Loaded (load two_sectors 19 4)
load-IsTracked_example = load-IsTracked two_sectors 19 4 two_sectors-IsTracked

run_ticks-serve_example :
    run_ticks sample64 500 two_sectors
    ≡ (serve sample64 (record two_sectors { cur_tick = 0 }) two_sectors.pending_tags >>= done)
unfolding new_iceblk
run_ticks-serve_example = run_ticks-serve sample64 499 two_sectors refl
