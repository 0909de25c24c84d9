-- ===== src/Middleware/SensorModule.antt =====
-- middleware/include/takt/modules/sensor_module.hpp and middleware/src/sensor_module.cpp: one sample in
-- each takt. A voltage is a `V`; the driver of the ADC, the event bus, and the operations on voltages
-- are parameters.
use takt_os.Base.{ℕ, ◌+◌, ◌%◌, ◌^◌, Bool, true, if◌then◌else◌}

pub record SensorModule (V : Type 0) : Type 0 where
  pub last_value : V
  pub sample_count : ℕ

-- `zero` is 0.0f, `is_below_zero` the test `< 0`, and `centi` the conversion
-- `static_cast<uint32_t>(x * 100)`.
pub record Voltages (V : Type 0) : Type 0 where
  pub zero : V
  pub is_below_zero : V → Bool
  pub centi : V → ℕ

abbrev pub sensor_data_ready_event : ℕ
sensor_data_ready_event = 0x0300

module _ {V W : Type 0} (voltages : Voltages V) (init_adc : ℕ → W → Bool × W)
    (read_voltage : ℕ → W → V × W) (publish : ℕ → ℕ → W → W) where
  -- A failure of the ADC is only reported.
  pub init : SensorModule V → W → Bool × SensorModule V × W
  init m w = (true, m, (init_adc 0 w).1)

  unfoldable pub process_one_sample : SensorModule V → W → SensorModule V × W
  process_one_sample m w =
      let (value, w1) = read_voltage 0 w in
      let kept = if voltages.is_below_zero value then voltages.zero else value in
      (record { last_value = kept; sample_count = (m.sample_count + 1) % 2 ^ 32 }, w1)

  unfoldable pub tick : SensorModule V → W → SensorModule V × W
  tick m w =
      let (m1, w1) = process_one_sample m w in
      (m1, publish sensor_data_ready_event (voltages.centi m1.last_value) w1)

  pub shutdown : SensorModule V → W → SensorModule V × W
  shutdown m w = (m, w)
