-- ===== src/Drivers/Adc.antt =====
-- drivers/include/takt/drivers/platform.hpp and drivers/src/adc.cpp in the ESP32 build: the analogue
-- input, over ESP-IDF's ADC driver as a parameter on a state `W`.
-- A voltage of `readVoltage` is told by how it comes about, since the model has no floating-point
-- numbers.
use takt_os.Base.{ℕ, Option, none, some, Bool, true, false, not, if◌then◌else◌}
use takt_os.Base.Int.{ℤ, pos, negsuc, minus_one}

-- The handles: `unit` is whether adcHandle is set, `calibration` whether caliHandle is.
pub record AdcState (W : Type 0) : Type 0 where
  pub unit : Bool
  pub calibration : Bool
  pub cali_enabled : Bool
  pub world : W

-- `none` is an error. `line_fitting` is whether the chip has that calibration; its scheme is created
-- with ESP_OK or not.
pub record AdcApi (W : Type 0) : Type 0 where
  pub new_unit : W → Bool × W
  pub config_channel : W → W
  pub line_fitting : Bool
  pub create_scheme : W → Bool × W
  pub read : ℕ → W → Option ℤ × W
  pub raw_to_voltage : ℤ → W → Option ℤ

-- -1.0, `mv / 1000` and `raw * 3.3 / 4095`.
pub data Voltage : Type 0 where
  no_voltage : Voltage
  millivolts : ℤ → Voltage
  of_raw : ℤ → Voltage

abbrev pub non_negative : ℤ → Bool
non_negative (pos n) = true
non_negative (negsuc n) = false

module _ {W : Type 0} (api : AdcApi W) where
  -- Adc::init behind the unit.
  unfoldable pub calibrate : W → AdcState W
  calibrate w =
      let (ok, w1) = api.create_scheme w in
      if api.line_fitting
      then record { unit = true; calibration = ok; cali_enabled = ok; world = w1 }
      else record { unit = true; calibration = false; cali_enabled = false; world = w }

  unfoldable pub init : AdcState W → Bool × AdcState W
  init s =
      let (ok, w1) = api.new_unit s.world in
      if s.unit
      then (true, s)
      else if not ok
      then (false, record s { world = w1 })
      else (true, calibrate (api.config_channel w1))

  unfoldable pub read_raw : ℕ → AdcState W → ℤ × AdcState W
  read_raw channel s =
      let (raw, w1) = api.read channel s.world in
      if not s.unit then (minus_one, s) else elim raw [
        | none ↦ (minus_one, record s { world = w1 })
        | some x ↦ (x, record s { world = w1 })
      ]

  -- The conversion of a value that is not negative.
  unfoldable pub voltage_of : ℤ → AdcState W → Voltage
  voltage_of raw s =
      if s.cali_enabled
      then if s.calibration
        then elim (api.raw_to_voltage raw s.world) [
          | none ↦ Voltage.of_raw raw
          | some mv ↦ Voltage.millivolts mv
        ]
        else Voltage.of_raw raw
      else Voltage.of_raw raw

  unfoldable pub read_voltage : ℕ → AdcState W → Voltage × AdcState W
  read_voltage channel s =
      let (raw, s1) = read_raw channel s in
      if non_negative raw then (voltage_of raw s1, s1) else (Voltage.no_voltage, s1)
