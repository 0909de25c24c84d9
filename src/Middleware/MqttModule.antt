-- ===== src/Middleware/MqttModule.antt =====
-- middleware/include/takt/modules/mqtt_module.hpp and middleware/src/mqtt_module.cpp in the ESP32
-- build, over ESP-IDF's MQTT client as a parameter on a state `W`.
-- `client` says that gClient is not null. `tick` publishes from the buffers that `publish` fills where
-- it fails: strncpy of a buffer onto itself is taken to leave its text.
use takt_os.Base.{
  ℕ, List, [], ◌∷◌, Option, none, some, Bool, true, false, not, ◌&&◌, ◌||◌, if◌then◌else◌,
}
use takt_os.Base.Int.{ℤ, is_negative}
use takt_os.Storage.Regions.{copied_text}

pub record MqttModule : Type 0 where
  pub client : Bool
  pub msg_pending : Bool
  pub connected : Bool
  pub broker_uri : List ℕ
  pub pending_topic : List ℕ
  pub pending_payload : List ℕ

abbrev pub mqtt_connected_event : ℕ
mqtt_connected_event = 0x0102

-- `start` is esp_mqtt_client_init for a URI, with the registration of the handler and the start; its
-- result says whether there is a client. `broker` is the setting `mqtt_broker`.
pub record MqttApi (W : Type 0) : Type 0 where
  pub broker : W → Option (List ℕ)
  pub start : List ℕ → W → Bool × W
  pub stop : W → W
  pub outbox_size : W → ℤ
  pub send : List ℕ → List ℕ → W → ℤ × W
  pub subscribe : List ℕ → W → ℤ × W
  pub publish_event : ℕ → W → W

pub has_work : MqttModule → Bool
has_work m = m.msg_pending

pub set_broker : MqttModule → List ℕ → MqttModule
set_broker m uri = record m { broker_uri = copied_text 128 uri }

module _ {W : Type 0} (api : MqttApi W) where
  pub init : MqttModule → W → Bool × MqttModule × W
  init m w =
      let m1 : MqttModule = elim (api.broker w) [ none ↦ m | some uri ↦ set_broker m uri ] in
      let (made, w1) = api.start m1.broker_uri w in (true, record m1 { client = made }, w1)

  unfoldable pub publish : MqttModule → List ℕ → List ℕ → W → Bool × MqttModule × W
  publish m topic payload w =
      let (code, w1) = api.send topic payload w in
      if not m.client || not m.connected
      then (
        false,
        record m {
          pending_topic = copied_text 64 topic;
          pending_payload = copied_text 256 payload;
          msg_pending = true;
        },
        w,
      )
      else (not (is_negative code), m, w1)

  -- The first part of `tick`.
  unfoldable pub note_connection : MqttModule → W → MqttModule × W
  note_connection m w =
      if m.client && not (is_negative (api.outbox_size w))
      then if not m.connected
        then (record m { connected = true }, api.publish_event mqtt_connected_event w)
        else (m, w)
      else (m, w)

  -- A pending message; the topic is cleared behind the attempt, whatever it returns.
  unfoldable pub publish_text : MqttModule → List ℕ → W → MqttModule × W
  publish_text m [] w = (m, w)
  publish_text m (c ∷ topic) w =
      let (_, m1, w1) = publish m (c ∷ topic) m.pending_payload w in
      (record m1 { pending_topic = [] }, w1)

  -- The second part.
  unfoldable pub send_pending : MqttModule → W → MqttModule × W
  send_pending m w =
      if m.msg_pending
      then publish_text (record m { msg_pending = false }) m.pending_topic w
      else (m, w)

  unfoldable pub tick : MqttModule → W → MqttModule × W
  tick m w = let (m1, w1) = note_connection m w in send_pending m1 w1

  pub subscribe : MqttModule → List ℕ → W → Bool × W
  subscribe m topic w =
      let (code, w1) = api.subscribe topic w in
      if not m.client then (false, w) else (not (is_negative code), w1)

  pub shutdown : MqttModule → W → MqttModule × W
  shutdown m w =
      (record m { client = false; connected = false }, if m.client then api.stop w else w)
