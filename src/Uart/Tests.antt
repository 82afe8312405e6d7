-- ===== src/Uart/Tests.antt =====
-- The UART at concrete inputs.
use spike_virtio_devices.Prelude.{[], ◌∷◌}
use spike_virtio_devices.Uart.{Uart, new_uart}

abbrev holding : Uart
holding = record new_uart { rx_fifo = 65 ∷ 66 ∷ []; ie = 2; irq = 1 }
