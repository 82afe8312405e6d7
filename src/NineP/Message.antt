-- ===== src/NineP/Message.antt =====
-- src/virtio.cc: `marshall` and `unmarshall`. A format is a list of its characters, and the variable
-- arguments are a tuple that goes with it. A C string is a buffer that holds its terminating null.
pub mod Read
use spike_virtio_devices.Prelude.{
  ℕ, ◌+◌, ◌-◌, Bool, Option, none, some, List, [], ◌∷◌, ◌==◌, leb, ltb, if◌then◌else◌, length, set,
  replicate, add32, u8, u16,
}
use spike_virtio_devices.Libc.{memcpy, strlen}
use spike_virtio_devices.Prelude.Outcome.{Outcome, done, aborted, fault, ◌>>=◌}
use spike_virtio_devices.Cutils.{
  byte_at, get_le16, get_le32, get_le64, put_le16, put_le32, put_le64,
}
use spike_virtio_devices.Mmu.{Mmu}
use spike_virtio_devices.Virtio.Chain.{memcpy_from_queue}
use spike_virtio_devices.NineP.Fs.{FsQid}

-- 'b', 'h', 'w', 'd', 's' and 'Q'
pub data Fmt : Type 0 where
  fmt_b : Fmt
  fmt_h : Fmt
  fmt_w : Fmt
  fmt_d : Fmt
  fmt_s : Fmt
  fmt_q : Fmt

abbrev pub Arg : Fmt → Type 0
Arg fmt_b = ℕ
Arg fmt_h = ℕ
Arg fmt_w = ℕ
Arg fmt_d = ℕ
Arg fmt_s = List ℕ
Arg fmt_q = FsQid

abbrev pub Args : List Fmt → Type 0
Args [] = Unit
Args (c ∷ fmt) = Arg c × Args fmt

-- `assert(test)`
abbrev pub assert : Bool → Outcome (ℕ × List ℕ) → Outcome (ℕ × List ℕ)
assert test next = if test then next else aborted

-- One character: the index that `buf` points at and the array after it. `stop` is `buf_end`.
unfoldable pub put_arg : (c : Fmt) → Arg c → ℕ → ℕ → List ℕ → Outcome (ℕ × List ℕ)
unfolding memcpy strlen
put_arg fmt_b val pos stop buf = assert (leb (pos + 1) stop) (done (pos + 1, set buf pos (u8 val)))
put_arg fmt_h val pos stop buf =
    assert (leb (pos + 2) stop) (done (pos + 2, put_le16 buf pos (u16 val)))
put_arg fmt_w val pos stop buf = assert (leb (pos + 4) stop) (done (pos + 4, put_le32 buf pos val))
put_arg fmt_d val64 pos stop buf =
    assert (leb (pos + 8) stop) (done (pos + 8, put_le64 buf pos val64))
put_arg fmt_s str pos stop buf = do
  len ← strlen str
  assert (leb len 65535) (
      assert (leb (pos + 2 + len) stop) (do
        buf' ← memcpy (put_le16 buf pos (u16 len)) (pos + 2) str len
        done (pos + 2 + len, buf')))
put_arg fmt_q qid pos stop buf = assert (leb (pos + 13) stop) (
    done (
      pos + 13,
      put_le64 (put_le32 (set buf pos (u8 qid.type)) (pos + 1) qid.version) (pos + 5) qid.path,
    ))

-- The loop of `marshall`.
unfoldable pub put_args : (fmt : List Fmt) → Args fmt → ℕ → ℕ → List ℕ → Outcome (ℕ × List ℕ)
put_args [] args pos stop buf = done (pos, buf)
put_args (c ∷ fmt) (x, args) pos stop buf =
    put_arg c x pos stop buf >>= λ r. put_args fmt args r.0 stop r.1

-- `buf1` points at index `pos` of `buf`. The length of the message, and the array after it.
unfoldable pub marshall : List ℕ → ℕ → ℕ → (fmt : List Fmt) → Args fmt → Outcome (ℕ × List ℕ)
marshall buf pos max_len fmt args = do
  (stop, buf') ← put_args fmt args pos (pos + max_len) buf
  done (stop - pos, buf')

-- `uint8_t buf[16]` of `unmarshall`, of which only what has been copied is read.
abbrev pub scratch : List ℕ
scratch = replicate 16 0

module _ {R : Type 0} (mmu : Mmu R) (fuel : ℕ) (malloc : ℕ → List ℕ) (m : R)
    (table desc_idx : ℕ) where
  -- A copy of `n` bytes from the queue; `none` if it fails. It leaves guest memory alone.
  unfoldable pub fetch : List ℕ → ℕ → ℕ → Outcome (Option (List ℕ))
  fetch buf offset n = do
    (ret, ram, buf') ← memcpy_from_queue mmu fuel m table buf desc_idx offset n
    done (if ret == 0 then some buf' else none)

  -- A number of `n` bytes.
  abbrev pub get_number : (List ℕ → ℕ) → ℕ → ℕ → Outcome (Option (ℕ × ℕ))
  get_number get n offset = do
    r ← fetch scratch offset n
    elim r [ none ↦ done none | some buf ↦ done (some (get buf, add32 offset n)) ]

  -- The bytes of a string behind its length, with a null set behind them.
  unfoldable pub get_string : ℕ → ℕ → Outcome (Option (List ℕ × ℕ))
  get_string len offset = do
    r ← fetch (malloc (len + 1)) offset len
    elim r [
      | none ↦ done none
      | some str ↦
          if ltb len (length str) then done (some (set str len 0, add32 offset len)) else fault
    ]

  -- One character: its argument and the offset after it, or `none` for a return of -1.
  unfoldable pub get_arg : (c : Fmt) → ℕ → Outcome (Option (Arg c × ℕ))
  unfolding get_string
  get_arg fmt_b offset = get_number (λ buf. byte_at buf 0) 1 offset
  get_arg fmt_h offset = get_number (λ buf. u16 (get_le16 buf 0)) 2 offset
  get_arg fmt_w offset = get_number (λ buf. get_le32 buf 0) 4 offset
  get_arg fmt_d offset = get_number (λ buf. get_le64 buf 0) 8 offset
  get_arg fmt_s offset = do
    r ← get_number (λ buf. get_le16 buf 0) 2 offset
    elim r [ none ↦ done none | some (len, offset') ↦ get_string len offset' ]
  get_arg fmt_q offset = aborted

  unfoldable pub unmarshall : (fmt : List Fmt) → ℕ → Outcome (Option (Args fmt × ℕ))
  unmarshall [] offset = done (some (tt, offset))
  unmarshall (c ∷ fmt) offset = do
    r ← get_arg c offset
    elim r [
      | none ↦ done none
      | some (x, offset') ↦ unmarshall fmt offset' >>= λ r'. (elim r' [
        | none ↦ done none
        | some (args, end) ↦ done (some ((x, args), end))
      ])
    ]
