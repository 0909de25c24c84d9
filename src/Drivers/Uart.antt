-- ===== src/Drivers/Uart.antt =====
-- drivers/include/takt/drivers/platform.hpp and drivers/src/uart.cpp in the ESP32 build: the serial
-- ports, over ESP-IDF's UART driver as a parameter on a state `W`.
use takt_os.Base.{ℕ, List, [], Bool, true, false, not, ◌&&◌, ltb, get_or, set, if◌then◌else◌}
use takt_os.Base.Int.{ℤ, pos, negsuc, minus_one, is_negative}

pub record UartConfig : Type 0 where
  pub port : ℤ
  pub baud_rate : ℕ
  pub tx_pin : ℤ
  pub rx_pin : ℤ

-- The functions of ESP-IDF, with true for ESP_OK. The code of `read_bytes` is with the bytes that
-- were read, for a buffer of a length.
pub record UartApi (W : Type 0) : Type 0 where
  pub param_config : ℕ → ℕ → W → Bool × W
  pub set_pin : ℕ → ℤ → ℤ → W → Bool × W
  pub driver_install : ℕ → W → Bool × W
  pub read_bytes : ℕ → ℕ → W → ℤ × List ℕ × W
  pub write_bytes : ℕ → List ℕ → W → ℤ × W

-- `installed` is the array of that name, with a place for each of the 3 ports.
pub record UartState (W : Type 0) : Type 0 where
  pub installed : List Bool
  pub world : W

abbrev pub max_ports : ℕ
max_ports = 3

-- `n < 0 ? -1 : n`.
abbrev pub checked : ℤ → ℤ
checked (pos n) = pos n
checked (negsuc n) = minus_one

abbrev pub is_installed : {W : Type 0} → ℕ → UartState W → Bool
is_installed port s = ltb port max_ports && get_or s.installed port false

module _ {W : Type 0} (api : UartApi W) where
  -- The pins are set where both are given.
  unfoldable pub set_pins : ℕ → ℤ → ℤ → W → Bool × W
  set_pins port tx rx w =
      if not (is_negative tx) && not (is_negative rx) then api.set_pin port tx rx w else (true, w)

  -- `init` for a port that is not negative.
  unfoldable pub init_port : ℕ → UartConfig → UartState W → Bool × UartState W
  init_port port config s =
      let (ok, w1) = api.param_config port config.baud_rate s.world in
      let (ok_pins, w2) = set_pins port config.tx_pin config.rx_pin w1 in
      let (ok_driver, w3) = api.driver_install port w2 in
      if not (ltb port max_ports)
      then (false, s)
      else if not ok
      then (false, record s { world = w1 })
      else if not ok_pins
      then (false, record s { world = w2 })
      else if not ok_driver
      then (false, record s { world = w3 })
      else (true, record { installed = set s.installed port true; world = w3 })

  unfoldable pub init_on : ℤ → UartConfig → UartState W → Bool × UartState W
  init_on (negsuc n) config s = (false, s)
  init_on (pos port) config s = init_port port config s

  -- Uart::init.
  unfoldable pub init : UartConfig → UartState W → Bool × UartState W
  init config s = init_on config.port config s

  unfoldable pub read : ℤ → ℕ → UartState W → ℤ × List ℕ × UartState W
  read (negsuc n) len s = (minus_one, [], s)
  read (pos port) len s =
      let (n, bytes, w) = api.read_bytes port len s.world in
      if is_installed port s then (checked n, bytes, record s { world = w }) else (minus_one, [], s)

  unfoldable pub write : ℤ → List ℕ → UartState W → ℤ × UartState W
  write (negsuc n) buf s = (minus_one, s)
  write (pos port) buf s =
      let (n, w) = api.write_bytes port buf s.world in
      if is_installed port s then (checked n, record s { world = w }) else (minus_one, s)
