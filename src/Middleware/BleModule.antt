-- ===== src/Middleware/BleModule.antt =====
-- middleware/include/takt/modules/ble_module.hpp and middleware/src/ble_module.cpp. Nothing in the
-- module sets the flag of pending events.
use takt_os.Base.{Bool, true, false, not, if◌then◌else◌}

pub record BleModule : Type 0 where
  pub event_pending : Bool

pub init : BleModule → Bool × BleModule
init m = (true, m)

pub has_work : BleModule → Bool
has_work m = m.event_pending

abbrev pub process_events : BleModule → BleModule
process_events m = record m { event_pending = false }

pub tick : BleModule → BleModule
tick m = if not m.event_pending then m else process_events m

pub shutdown : BleModule → BleModule
shutdown m = m
