-- ===== src/Demo.antt =====
-- examples/demo_controller/main/main.cpp: the program that puts the modules together: what it
-- registers, what it subscribes to, and its callbacks.
-- The modules' addresses are numbers. `DemoWorld` is what the callbacks change, with the uptime that
-- they read; the MQTT client is a parameter on `W`.
pub mod Samples
mod Tests
use takt_os.Base.{
  ℕ, ◌/◌, ◌%◌, ◌^◌, List, [], ◌∷◌, some, Bool, true, false, not, ◌==◌, if◌then◌else◌,
}
use takt_os.Scheduler.{Scheduler, register_module, set_takt_period_ms, set_takt_budget_us}
use takt_os.EventBus.{EventBus, EventData, new_bus, subscribe}
use takt_os.Telemetry.{TelemetryRecord, TelemetryService, add_record}
use takt_os.Middleware.WifiModule.{wifi_connected_event}
use takt_os.Middleware.SensorModule.{sensor_data_ready_event}
use takt_os.Middleware.MqttModule
use takt_os.Middleware.MqttModule.{MqttModule, MqttApi}
use takt_os.Middleware.RelayModule.{RelayModule, set_relay}

pub record DemoWorld (W : Type 0) : Type 0 where
  pub telemetry : TelemetryService
  pub mqtt : MqttModule
  pub relay : RelayModule
  -- The static variable of the demo timer's callback.
  pub on : Bool
  pub uptime_us : ℕ
  pub rest : W

-- The modules, in the order of their registration: uart, sensor, relay, modbus, wifi, mqtt, ble,
-- webserver, ota, telemetry, configMgr and modbusGw.
abbrev pub demo_modules : List ℕ
demo_modules = 0 ∷ 1 ∷ 2 ∷ 3 ∷ 4 ∷ 5 ∷ 6 ∷ 7 ∷ 8 ∷ 9 ∷ 10 ∷ 11 ∷ []

abbrev mqtt_address : ℕ
mqtt_address = 5

abbrev telemetry_address : ℕ
telemetry_address = 9

abbrev pub register_all : List ℕ → Scheduler → Scheduler
register_all [] s = s
register_all (p ∷ ps) s = register_all ps (register_module s (some p)).1

unfoldable pub set_up : Scheduler → Scheduler
set_up s = set_takt_budget_us (set_takt_period_ms (register_all demo_modules s) 1) 8000

-- The callbacks, by number: that of WiFiConnected and that of SensorDataReady.
abbrev pub on_wifi_connected : ℕ
on_wifi_connected = 1

abbrev pub on_sensor_data : ℕ
on_sensor_data = 2

-- The bus behind the subscriptions.
unfoldable pub demo_bus : EventBus
demo_bus =
    let bus = (subscribe new_bus wifi_connected_event (some on_wifi_connected) mqtt_address).1 in
    (subscribe bus sensor_data_ready_event (some on_sensor_data) telemetry_address).1

-- The topic `takt/telemetry`.
abbrev telemetry_topic : List ℕ
telemetry_topic =
    b't' ∷ b'a' ∷ b'k' ∷ b't' ∷ b'/' ∷ b't' ∷ b'e' ∷ b'l' ∷ b'e' ∷ b'm' ∷ b'e' ∷ b't' ∷ b'r' ∷ b'y'
    ∷ []

-- The record of a sample: the time in seconds, and the event's first parameter.
abbrev pub sample_record : ℕ → ℕ → TelemetryRecord
sample_record uptime_us value = record {
  timestamp = uptime_us / 1000000 % 2 ^ 32;
  sensor_value = value;
  relay_state = 0;
  reserved = 0 ∷ 0 ∷ 0 ∷ [];
}

module _ {W : Type 0} (client : MqttApi W) where
  unfoldable pub record_sample : EventData → DemoWorld W → DemoWorld W
  record_sample d w = record w {
    telemetry = add_record w.telemetry (sample_record w.uptime_us d.param1);
  }

  unfoldable pub subscribe_topic : DemoWorld W → DemoWorld W
  subscribe_topic w =
      let (_, rest) = MqttModule.subscribe client w.mqtt telemetry_topic w.rest in
      record w { rest = rest }

  unfoldable pub demo_callback : ℕ → EventData → ℕ → DemoWorld W → DemoWorld W
  demo_callback c d user w =
      if c == on_wifi_connected
      then subscribe_topic w
      else if c == on_sensor_data
      then record_sample d w
      else w

  -- The callback of the demo timer.
  pub on_demo_timer : DemoWorld W → DemoWorld W
  on_demo_timer w = let on = not w.on in record w { on = on; relay = set_relay w.relay on }
