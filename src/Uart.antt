-- ===== src/Uart.antt =====
-- src/sifive_uart.cc and src/sifive_uart.h: the SiFive UART. `canonical_terminal_t` belongs to the
-- simulator: the bytes given to its `write` are kept in `sent`, and what its `read` returns is the
-- argument of `tick`, `none` for a negative result.
pub mod Fifo
mod Tests
use spike_virtio_devices.Prelude.{
  ℕ, ◌+◌, ◌*◌, ◌/◌, ◌%◌, ◌^◌, Bool, true, false, not, ◌&&◌, ◌||◌, Option, none, some, List, [], ◌∷◌,
  ◌++◌, ◌==◌, ltb, leb, if◌then◌else◌, bit_and, bit_or, length, u8, u32,
}
use spike_virtio_devices.Prelude.Outcome.{Outcome, done, aborted}

abbrev pub rx_fifo_size : ℕ
rx_fifo_size = 8

pub record Uart : Type 0 where
  pub rx_fifo : List ℕ  -- its front first
  pub ie : ℕ  -- uint32_t, as the next four
  pub ip : ℕ
  pub txctrl : ℕ
  pub rxctrl : ℕ
  pub div : ℕ
  pub irq : ℕ  -- the level last given to the interrupt controller
  pub sent : List ℕ

unfoldable pub new_uart : Uart
new_uart = record {
  rx_fifo = [];
  ie = 0;
  ip = 0;
  txctrl = 0;
  rxctrl = 0;
  div = 0;
  irq = 0;
  sent = [];
}

-- `UART_GET_TXCNT` and `UART_GET_RXCNT`
unfoldable pub get_cnt : ℕ → ℕ
get_cnt ctrl = bit_and (ctrl / 2 ^ 16) 7

unfoldable pub read_ip : Uart → ℕ
read_ip u =
    let ret = if not (get_cnt u.txctrl == 0) then bit_or 0 1 else 0 in
    if ltb (get_cnt u.rxctrl) (length u.rx_fifo) then bit_or ret 2 else ret

-- The condition of `update_interrupts`.
unfoldable pub irq_level : ℕ → ℕ → ℕ
irq_level ie size =
    if not (bit_and ie 1 == 0) || (not (bit_and ie 2 == 0) && not (size == 0)) then 1 else 0

unfoldable pub update_interrupts : Uart → Uart
update_interrupts u = record u { irq = irq_level u.ie (length u.rx_fifo) }

unfoldable pub read_rxfifo : Uart → List ℕ → ℕ × Uart
read_rxfifo u [] = (0x80000000, u)
read_rxfifo u (r ∷ rest) = (r, update_interrupts (record u { rx_fifo = rest }))

-- `memcpy(bytes, &r, len)` on a little-endian host: the low `len` bytes of the word.
abbrev pub low_bytes : ℕ → ℕ → ℕ
low_bytes r len = r % 256 ^ len

abbrev pub answer : Uart → ℕ → ℕ → Outcome (Option ℕ × Uart)
answer u len r = done (some (low_bytes r len), u)

-- `none` for a refused access, else the value of the `len` bytes.
unfoldable pub load : Uart → ℕ → ℕ → Outcome (Option ℕ × Uart)
load u addr len =
    if leb 0x1000 addr || ltb 4 len
    then done (none, u)
    else if addr == 0x00
    then answer u len 0
    else if addr == 0x04
    then (let (r, t) = read_rxfifo u u.rx_fifo in done (some (low_bytes r len), t))
    else if addr == 0x08
    then answer u len u.txctrl
    else if addr == 0x0c
    then answer u len u.rxctrl
    else if addr == 0x10
    then answer u len u.ie
    else if addr == 0x14
    then answer u len (u32 (read_ip u))
    else if addr == 0x18
    then answer u len u.div
    else aborted

-- `memcpy(&reg, bytes, len)`: the low `len` bytes are replaced by those of `val`.
unfoldable pub copy_into : ℕ → ℕ → ℕ → ℕ
copy_into reg len val = reg / 256 ^ len * 256 ^ len + val % 256 ^ len

-- `val` is the value of the `len` bytes, the first the lowest.
unfoldable pub store : Uart → ℕ → ℕ → ℕ → Outcome (Bool × Uart)
store u addr len val =
    if leb 0x1000 addr || ltb 4 len
    then done (false, u)
    else if addr == 0x00
    then done (true, record u { sent = u.sent ++ (u8 val ∷ []) })
    else if addr == 0x08
    then done (true, record u { txctrl = copy_into u.txctrl len val })
    else if addr == 0x0c
    then done (true, record u { rxctrl = copy_into u.rxctrl len val })
    else if addr == 0x10
    then done (true, update_interrupts (record u { ie = copy_into u.ie len val }))
    else if addr == 0x18
    then done (true, record u { div = copy_into u.div len val })
    else aborted

-- The terminal is read only when the FIFO has room.
unfoldable pub tick : Uart → Option ℕ → Uart
tick u none = u
tick u (some rc) =
    if leb rx_fifo_size (length u.rx_fifo)
    then u
    else update_interrupts (record u { rx_fifo = u.rx_fifo ++ (u8 rc ∷ []) })
