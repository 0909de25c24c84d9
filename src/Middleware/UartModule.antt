-- ===== src/Middleware/UartModule.antt =====
-- middleware/include/takt/modules/uart_module.hpp and middleware/src/uart_module.cpp: the module that
-- reads a serial port in each takt, over the driver of Drivers.Uart. `publish` is the event bus, on
-- the state of the driver. `size_t` has 32 bits in the ESP32 build, to which the driver belongs.
use takt_os.Base.{
  ℕ, ◌+◌, ◌-◌, ◌%◌, ◌^◌, List, ◌++◌, Bool, true, ltb, drop, length, replicate, if◌then◌else◌,
}
use takt_os.Base.Int.{ℤ, pos, negsuc}
use takt_os.Drivers.Uart
use takt_os.Drivers.Uart.{UartApi, UartConfig, UartState}

pub record UartModule : Type 0 where
  pub port : ℤ
  pub bytes_per_tick : ℕ
  pub rx_count : ℕ
  pub rx_buf : List ℕ

-- The constructor.
abbrev pub new_uart_module : ℤ → ℕ → UartModule
new_uart_module port bytes_per_tick = record {
  port = port;
  bytes_per_tick = bytes_per_tick;
  rx_count = 0;
  rx_buf = replicate 256 0;
}

abbrev pub uart_data_received_event : ℕ
uart_data_received_event = 0x0301

-- `static_cast<size_t>` of an int.
abbrev pub size_of : ℤ → ℕ
size_of (pos n) = n % 2 ^ 32
size_of (negsuc n) = 2 ^ 32 - (n + 1)

-- The Uart::Config of `init`.
abbrev pub uart_config : UartModule → UartConfig
uart_config m = record { port = m.port; baud_rate = 115200; tx_pin = pos 1; rx_pin = pos 3 }

module _ {W : Type 0} (api : UartApi W) (publish : ℕ → ℕ → UartState W → UartState W) where
  -- A port that cannot be initialized is only reported.
  unfoldable pub init : UartModule → UartState W → Bool × UartModule × UartState W
  init m s = (true, m, (Uart.init api (uart_config m) s).1)

  -- The bytes that are read overwrite the beginning of the buffer; the driver is told no more of the
  -- buffer than `bytesPerTick_`, which may be more than its 256 bytes: then the list grows.
  unfoldable pub tick : UartModule → UartState W → UartModule × UartState W
  tick m s =
      let (n, bytes, s1) = Uart.read api m.port m.bytes_per_tick s in
      let count = size_of n in
      let m1 = record m { rx_count = count; rx_buf = bytes ++ drop (length bytes) m.rx_buf } in
      (m1, if ltb 0 count then publish uart_data_received_event (count % 2 ^ 32) s1 else s1)

  pub bytes_available : UartModule → ℕ
  bytes_available m = m.rx_count
