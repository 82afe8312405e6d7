-- ===== src/Uart/Fifo.antt =====
-- The receive FIFO and its interrupt: bounded, in order, and the line in step with both.
use spike_virtio_devices.Prelude.{
  ℕ, ◌≤◌, ◌≡◌, Bool, ◌&&◌, Option, none, some, List, [], ◌∷◌, ◌++◌, ◌==◌, leb, if◌then◌else◌,
  length, u8,
}
use spike_virtio_devices.Prelude.Outcome.{Outcome, done, ◌>>=◌}
use spike_virtio_devices.Uart.{Uart, rx_fifo_size, irq_level, load, store, tick}

-- The FIFO is bounded, and the line is at the level that `update_interrupts` would set.
pub record IsValid (u : Uart) : Type 0 where
  pub bounded : length u.rx_fifo ≤ rx_fifo_size
  pub line : u.irq ≡ irq_level u.ie (length u.rx_fifo)

-- What the terminal and the bus do to the device.
pub data Event : Type 0 where
  ticked : Option ℕ → Event
  loaded : (addr len : ℕ) → Event
  stored : (addr len val : ℕ) → Event

unfoldable pub step : Uart → Event → Outcome Uart
step u (ticked rc) = done (tick u rc)
step u (loaded addr len) = load u addr len >>= λ r. done r.1
step u (stored addr len val) = store u addr len val >>= λ r. done r.1

-- The bytes that an event takes from the terminal, and those that it gives to the guest.
abbrev pub taken : Uart → Event → List ℕ
taken u (ticked none) = []
taken u (ticked (some rc)) = if leb rx_fifo_size (length u.rx_fifo) then [] else u8 rc ∷ []
taken u (loaded addr len) = []
taken u (stored addr len val) = []

abbrev front : List ℕ → List ℕ
front [] = []
front (r ∷ rest) = r ∷ []

abbrev pub given : Uart → Event → List ℕ
given u (ticked rc) = []
given u (loaded addr len) = if addr == 0x04 && leb len 4 then front u.rx_fifo else []
given u (stored addr len val) = []

-- The device is valid after the event, and no byte is lost, doubled or moved.
pub record Moved (u : Uart) (e : Event) (t : Uart) : Type 0 where
  pub valid : IsValid t
  pub bytes : u.rx_fifo ++ taken u e ≡ given u e ++ t.rx_fifo

abbrev Loaded : Uart → ℕ → ℕ → Option ℕ × Uart → Type 0
Loaded u addr len r = Moved u (loaded addr len) r.1

abbrev Stored : Uart → ℕ → ℕ → ℕ → Bool × Uart → Type 0
Stored u addr len val r = Moved u (stored addr len val) r.1
