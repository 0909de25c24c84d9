-- ===== src/Demo/Tests.antt =====
-- The demo at its start, and its theorem there.
use takt_os.Base.{ℕ, ◌≡◌, refl, List, [], ◌∷◌, none, true, false, take, map, replicate}
use takt_os.Base.Int.{ℤ, pos, negsuc, is_negative}
use takt_os.Telemetry.{new_telemetry}
use takt_os.Middleware.SensorModule.{SensorModule, Voltages}
use takt_os.Middleware.MqttModule.{MqttApi}
use takt_os.Middleware.RelayModule.{new_relay}
use takt_os.Demo.{DemoWorld, demo_bus}
use takt_os.Demo.Samples.{record_of, sensor_takts, sensor_takts-records}

-- Voltages in hundredths.
abbrev hundredths : Voltages ℤ
hundredths = record {
  zero = pos 0;
  is_below_zero = is_negative;
  centi = λ v. elim v [ pos n ↦ n | negsuc n ↦ 0 ];
}

abbrev silent_client : MqttApi ℕ
silent_client = record {
  broker = λ _. none;
  start = λ _ w. (true, w);
  stop = λ w. w;
  outbox_size = λ _. pos 0;
  send = λ _ _ w. (pos 1, w);
  subscribe = λ _ w. (pos 1, w);
  publish_event = λ _ w. w;
}

abbrev started : DemoWorld ℕ
started = record {
  telemetry = new_telemetry (λ _. 0) 8192;
  mqtt = record {
    client = true;
    msg_pending = false;
    connected = false;
    broker_uri = [];
    pending_topic = [];
    pending_payload = [];
  };
  relay = new_relay 26;
  on = false;
  uptime_us = 0;
  rest = 0;
}

abbrev idle_sensor : SensorModule ℤ
idle_sensor = record { last_value = pos 0; sample_count = 0 }

-- Seventy samples.
abbrev samples : List (ℕ × ℤ)
samples = (1000000, pos 165) ∷ (2000000, negsuc 3) ∷ replicate 68 (3000000, pos 170)

sensor_takts-records_example :
    let (_, b1, w1) =
      sensor_takts silent_client hundredths samples (idle_sensor, demo_bus, started) in
    (b1 ≡ demo_bus)
    × (w1.telemetry.records ≡ take 64 (map (record_of silent_client hundredths) samples))
unfolding new_telemetry
sensor_takts-records_example =
    sensor_takts-records silent_client hundredths samples idle_sensor started refl
