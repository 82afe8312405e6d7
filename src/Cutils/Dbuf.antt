-- ===== src/Cutils/Dbuf.antt =====
-- src/cutils.c: the dynamic buffer. `realloc` gives a block of the asked size that begins with what
-- the old one held.
use spike_virtio_devices.Prelude.{
  ℕ, ◌*◌, ◌/◌, List, [], ◌∷◌, ltb, if◌then◌else◌, add64, u32, u64, sext64,
}
use spike_virtio_devices.Prelude.Outcome.{Outcome, done, ◌>>=◌}
use spike_virtio_devices.Libc.{strlen, memcpy}
use spike_virtio_devices.Cutils.{max_int}

-- `buf` is the allocated block.
pub record DynBuf : Type 0 where
  pub buf : List ℕ
  pub size : ℕ  -- size_t
  pub allocated_size : ℕ  -- size_t

abbrev pub dbuf_init : DynBuf
dbuf_init = record { buf = []; size = 0; allocated_size = 0 }

-- The sizes are converted to `int` for `max_int`, and its result to `size_t`.
abbrev pub grown_size : ℕ → ℕ → ℕ
grown_size new_size allocated_size =
    sext64 (max_int (u32 new_size) (u32 (u64 (allocated_size * 3) / 2)))

module _ (realloc : List ℕ → ℕ → List ℕ) where
  unfoldable pub dbuf_write : DynBuf → ℕ → List ℕ → ℕ → Outcome DynBuf
  dbuf_write s offset bytes len = do
    let end = add64 offset len
    let grown = grown_size end s.allocated_size
    let room =
        if ltb s.allocated_size end
        then record s { buf = realloc s.buf grown; allocated_size = grown }
        else s
    buf ← memcpy room.buf offset bytes len
    done (record room { buf = buf; size = if ltb s.size end then end else s.size })

  unfoldable pub dbuf_putc : DynBuf → ℕ → Outcome DynBuf
  unfolding dbuf_write
  dbuf_putc s c = dbuf_write s s.size (c ∷ []) 1

  unfoldable pub dbuf_putstr : DynBuf → List ℕ → Outcome DynBuf
  unfolding dbuf_write
  dbuf_putstr s str = strlen str >>= λ len. dbuf_write s s.size str len

-- The block is freed.
abbrev pub dbuf_free : DynBuf → DynBuf
dbuf_free s = record { buf = []; size = 0; allocated_size = 0 }
