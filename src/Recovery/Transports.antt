-- ===== src/Recovery/Transports.antt =====
-- recovery/include/takt/recovery_transports.hpp and recovery/src/recovery_transports.cpp: the
-- transports of an image, as the host build has them. A handler is a number; no transport calls it.
use takt_os.Base.{ℕ, Bool, true, false, Option, none}

pub record BleDfu : Type 0 where
  pub active : Bool
  pub data_handler : Option ℕ

pub record WifiOta : Type 0 where
  pub active : Bool
  pub port : ℕ
  pub data_handler : Option ℕ

pub data UartState : Type 0 where
  idle header body done : UartState

pub record UartDfu : Type 0 where
  pub active : Bool
  pub port : ℕ
  pub data_handler : Option ℕ
  pub state : UartState
  pub expected_size : ℕ
  pub received : ℕ

abbrev pub new_ble : BleDfu
new_ble = record { active = false; data_handler = none }

abbrev pub new_wifi : WifiOta
new_wifi = record { active = false; port = 8080; data_handler = none }

abbrev pub new_uart : UartDfu
new_uart = record {
  active = false;
  port = 0;
  data_handler = none;
  state = UartState.idle;
  expected_size = 0;
  received = 0;
}

pub init_wifi : WifiOta → ℕ → Bool × WifiOta
init_wifi t port = (true, record t { port = port })

pub start_wifi : WifiOta → Bool × WifiOta
start_wifi t = (true, record t { active = true })

pub stop_wifi : WifiOta → WifiOta
stop_wifi t = record t { active = false }

pub set_wifi_handler : WifiOta → Option ℕ → WifiOta
set_wifi_handler t handler = record t { data_handler = handler }

pub init_ble : BleDfu → Bool × BleDfu
init_ble t = (true, t)

pub start_ble : BleDfu → Bool × BleDfu
start_ble t = (true, record t { active = true })

pub stop_ble : BleDfu → BleDfu
stop_ble t = record t { active = false }

pub set_ble_handler : BleDfu → Option ℕ → BleDfu
set_ble_handler t handler = record t { data_handler = handler }

pub init_uart : UartDfu → ℕ → Bool × UartDfu
init_uart t port = (true, record t { port = port })

pub start_uart : UartDfu → Bool × UartDfu
start_uart t = (true, record t { state = UartState.idle; active = true })

pub set_uart_handler : UartDfu → Option ℕ → UartDfu
set_uart_handler t handler = record t { data_handler = handler }

-- The body of `UartDfu::tick` is for ESP32 only, and reads nothing there.
pub tick_uart : UartDfu → UartDfu
tick_uart t = t
