-- ===== src/Demo/Samples.antt =====
-- The way of the samples: from the sensor through the event bus to the telemetry service.
use takt_os.Base.{
  ℕ, ◌≡◌, refl, ap, ◌∙◌, List, [], ◌∷◌, ◌++◌, true, length, map, take, if◌then◌else◌, arith,
}
use takt_os.EventBus.{EventBus, new_bus, subscribe, free_place, publish}
use takt_os.EventBus.Dispatch.{passive, publish-passive}
use takt_os.Telemetry.{TelemetryRecord, TelemetryService, add_record}
use takt_os.Telemetry.Batch.{record_all, record_all_lem}
use takt_os.Middleware.SensorModule
use takt_os.Middleware.SensorModule.{
  process_one_sample, SensorModule, Voltages, sensor_data_ready_event,
}
use takt_os.Middleware.MqttModule.{MqttApi}
use takt_os.Demo.{DemoWorld, demo_bus, demo_callback, record_sample, sample_record}

module _ {W : Type 0} (client : MqttApi W) where
  abbrev pub publish_event : ℕ → ℕ → ℕ → EventBus × DemoWorld W → EventBus × DemoWorld W
  publish_event event p1 p2 s = publish (passive (demo_callback client)) event p1 p2 s

  -- A sample's event adds its record.
  publish_sample :
      (value : ℕ) (w : DemoWorld W)
      → publish_event sensor_data_ready_event value 0 (demo_bus, w) ≡ (
        demo_bus,
        record w { telemetry = add_record w.telemetry (sample_record w.uptime_us value) },
      )
  unfolding demo_bus demo_callback record_sample subscribe free_place new_bus
  publish_sample value w =
      publish-passive (demo_callback client) sensor_data_ready_event value 0 demo_bus w refl

  module _ {V : Type 0} (voltages : Voltages V) where
    -- What a sample is recorded as: the uptime and the voltage that is read.
    abbrev pub record_of : ℕ × V → TelemetryRecord
    record_of (uptime_us, v) =
        sample_record uptime_us
          (voltages.centi (if voltages.is_below_zero v then voltages.zero else v))

    -- The turn of the sensor module in a takt at an uptime, where the driver reads a voltage.
    abbrev pub sensor_takt :
        ℕ × V → SensorModule V × EventBus × DemoWorld W → SensorModule V × EventBus × DemoWorld W
    sensor_takt (uptime_us, v) (m, b, w) =
        let (m1, s1) =
          SensorModule.tick voltages (λ _ s. (true, s)) (λ _ s. (v, s))
            (λ event p1 s. publish_event event p1 0 s) m (b, record w { uptime_us = uptime_us }) in
        (m1, s1.0, s1.1)

    abbrev pub sensor_takts :
        List (ℕ × V)
        → SensorModule V × EventBus × DemoWorld W
        → SensorModule V × EventBus × DemoWorld W
    sensor_takts [] s = s
    sensor_takts (x ∷ xs) s = sensor_takts xs (sensor_takt x s)

    sensor_takt_lem :
        (x : ℕ × V) (m : SensorModule V) (w : DemoWorld W)
        → ((sensor_takt x (m, demo_bus, w)).1 ≡ demo_bus)
          × ((sensor_takt x (m, demo_bus, w)).2
              ≡ record w { uptime_us = x.0; telemetry = add_record w.telemetry (record_of x) })
    unfolding SensorModule.tick process_one_sample
    sensor_takt_lem (uptime_us, v) m w =
        let e =
          publish_sample (voltages.centi (if voltages.is_below_zero v then voltages.zero else v))
            (record w { uptime_us = uptime_us }) in
        (ap (λ s. s.0) e, ap (λ s. s.1) e)

    sensor_takts_lem :
        (xs : List (ℕ × V)) (m : SensorModule V) (b : EventBus) (w : DemoWorld W)
        → b ≡ demo_bus
        → ((sensor_takts xs (m, b, w)).1 ≡ demo_bus)
          × ((sensor_takts xs (m, b, w)).2.telemetry ≡ record_all w.telemetry (map record_of xs))
    sensor_takts_lem [] m b w same = (same, refl)
    sensor_takts_lem (x ∷ xs) m b w same =
        let (m1, b1, w1) = sensor_takt x (m, b, w) in
        let (bus, world) = sensor_takt_lem x m w in
        let first = ap (λ c. sensor_takt x (m, c, w)) same in
        let (kept, stored) = sensor_takts_lem xs m1 b1 w1 (ap (λ s. s.1) first ∙ bus) in
        (
          kept,
          stored
              ∙ ap (λ (v : DemoWorld W). record_all v.telemetry (map record_of xs))
                  (ap (λ s. s.2) first ∙ world),
        )

    -- The bus that `main` sets up, and an empty telemetry buffer: behind the turns of the sensor
    -- module in any number of takts, the event bus is as it was, and the buffer holds the records of
    -- the samples, each with its time in seconds and the voltage in hundredths (0 for one below 0), in
    -- their order, but for those behind the first 64, which are lost.
    pub sensor_takts-records :
        (xs : List (ℕ × V)) (m : SensorModule V) (w : DemoWorld W)
        → w.telemetry.records ≡ []
        → let (_, b1, w1) = sensor_takts xs (m, demo_bus, w) in
          (b1 ≡ demo_bus) × (w1.telemetry.records ≡ take 64 (map record_of xs))
    sensor_takts-records xs m w empty =
        let (bus, stored) = sensor_takts_lem xs m demo_bus w refl in
        (
          bus,
          ap (λ (t : TelemetryService). t.records)
                (stored
                  ∙ record_all_lem (map record_of xs) w.telemetry (omega (arith, ap length empty)))
              ∙ ap (λ rs. take 64 (rs ++ map record_of xs)) empty,
        )
