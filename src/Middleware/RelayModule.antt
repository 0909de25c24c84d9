-- ===== src/Middleware/RelayModule.antt =====
-- middleware/include/takt/modules/relay_module.hpp and middleware/src/relay_module.cpp: the relay, over
-- the pins of the platform driver; `publish` is the event bus, on a state `W`.
use takt_os.Base.{ℕ, Bool, true, false, not, if◌then◌else◌}
use takt_os.Drivers.Platform.{GpioApi, GpioMode, Level, set_mode, gpio_write}

pub record RelayModule : Type 0 where
  pub gpio_pin : ℕ
  pub relay_on : Bool
  pub pending : Bool
  pub target_state : Bool

-- The constructor.
abbrev pub new_relay : ℕ → RelayModule
new_relay gpio_pin = record {
  gpio_pin = gpio_pin;
  relay_on = false;
  pending = false;
  target_state = false;
}

abbrev pub cycle_started_event : ℕ
cycle_started_event = 0x0303

abbrev pub cycle_completed_event : ℕ
cycle_completed_event = 0x0304

abbrev pub level_of : Bool → Level
level_of true = Level.high
level_of false = Level.low

unfoldable pub set_relay : RelayModule → Bool → RelayModule
set_relay m on = record m { target_state = on; pending = true }

module _ {W : Type 0} (gpio : GpioApi W) (publish : ℕ → W → W) where
  unfoldable pub init : RelayModule → W → Bool × RelayModule × W
  init m w =
      let (_, w1) = set_mode gpio m.gpio_pin GpioMode.output w in
      (true, m, gpio_write gpio m.gpio_pin Level.low w1)

  unfoldable pub tick : RelayModule → W → RelayModule × W
  tick m w =
      let on = m.target_state in
      let w1 = gpio_write gpio m.gpio_pin (level_of on) w in
      if not m.pending then (m, w) else (
        record m { pending = false; relay_on = on },
        publish (if on then cycle_started_event else cycle_completed_event) w1,
      )

  unfoldable pub shutdown : RelayModule → W → RelayModule × W
  shutdown m w = tick (set_relay m false) w
