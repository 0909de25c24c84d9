-- ===== src/Middleware/WifiModule.antt =====
-- middleware/include/takt/modules/wifi_module.hpp and middleware/src/wifi_module.cpp in the ESP32
-- build, over ESP-IDF's WiFi functions as a parameter on a state `W`.
-- The reconnect timer is among the timers of Timer: here are its callback, and what its start and
-- registration do, as a parameter.
use takt_os.Base.{ℕ, List, [], ◌∷◌, Option, none, some, Bool, true, false, not, ◌||◌, if◌then◌else◌}
use takt_os.Storage.Regions.{copied_text}

pub record WifiConfig : Type 0 where
  pub ssid : List ℕ
  pub password : List ℕ

pub record WifiModule : Type 0 where
  pub connected : Bool
  pub reconnect_pending : Bool
  pub event_pending : Bool
  pub initialized : Bool
  pub config : WifiConfig

-- A module as it is constructed: the network name `TAKT-OS`, and no password.
abbrev pub new_wifi_module : WifiModule
new_wifi_module = record {
  connected = false;
  reconnect_pending = true;
  event_pending = false;
  initialized = false;
  config = record { ssid = b'T' ∷ b'A' ∷ b'K' ∷ b'T' ∷ b'-' ∷ b'O' ∷ b'S' ∷ []; password = [] };
}

abbrev pub wifi_connected_event : ℕ
wifi_connected_event = 0x0100

-- What the module calls: `start_station` is the sequence of calls of `init`, from esp_netif_init to
-- esp_wifi_start, with the name and the password; `connect` is esp_wifi_connect and `ap_info`
-- esp_wifi_sta_get_ap_info, with true for ESP_OK; `setting` reads a text of the settings into a buffer
-- of a size; `start_timer` registers and starts the reconnect timer.
pub record WifiApi (W : Type 0) : Type 0 where
  pub start_station : List ℕ → List ℕ → W → W
  pub stop : W → W
  pub connect : W → Bool × W
  pub ap_info : W → Bool
  pub publish : ℕ → W → W
  pub setting : List ℕ → ℕ → W → Option (List ℕ)
  pub start_timer : W → W

abbrev ssid_key : List ℕ
ssid_key = b'w' ∷ b'i' ∷ b'f' ∷ b'i' ∷ b'_' ∷ b's' ∷ b's' ∷ b'i' ∷ b'd' ∷ []

abbrev pass_key : List ℕ
pass_key = b'w' ∷ b'i' ∷ b'f' ∷ b'i' ∷ b'_' ∷ b'p' ∷ b'a' ∷ b's' ∷ b's' ∷ []

-- `strncpy` of a setting that is there.
abbrev chosen : ℕ → Option (List ℕ) → List ℕ → List ℕ
chosen size none old = old
chosen size (some text) old = copied_text size text

unfoldable pub set_config : WifiModule → WifiConfig → WifiModule
set_config m config = record m { config = config }

pub has_work : WifiModule → Bool
has_work m = m.reconnect_pending || m.event_pending

unfoldable pub process_events : WifiModule → WifiModule
process_events m = record m { event_pending = false }

-- The callback of the reconnect timer.
unfoldable pub on_reconnect_timeout : WifiModule → WifiModule
on_reconnect_timeout m = if not m.connected then record m { reconnect_pending = true } else m

module _ {W : Type 0} (api : WifiApi W) where
  pub init : WifiModule → W → Bool × WifiModule × W
  init m w =
      let config : WifiConfig = record {
        ssid = chosen 32 (api.setting ssid_key 32 w) m.config.ssid;
        password = chosen 64 (api.setting pass_key 64 w) m.config.password;
      } in
      let w1 = api.start_station config.ssid config.password w in
      (true, record m { config = config; initialized = true }, api.start_timer w1)

  -- WiFiModule::connect: the result, and the world.
  unfoldable pub connect : WifiModule → W → Bool × W
  connect m w = if not m.initialized then (false, w) else api.connect w

  -- The first part of `tick`.
  unfoldable pub reconnect : WifiModule → W → WifiModule × W
  reconnect m w =
      let m1 = record m { reconnect_pending = false } in
      let (ok, w1) = connect m1 w in
      if m.reconnect_pending
      then (record m1 { event_pending = if ok then true else m.event_pending }, w1)
      else (m, w)

  -- The second part: the event is published when the access point is seen for the first time.
  unfoldable pub note_access_point : WifiModule → W → WifiModule × W
  note_access_point m w =
      if api.ap_info w
      then if not m.connected
        then (record m { connected = true }, api.publish wifi_connected_event w)
        else (m, w)
      else (m, w)

  unfoldable pub tick : WifiModule → W → WifiModule × W
  unfolding process_events
  tick m w =
      let (m1, w1) = reconnect m w in
      let (m2, w2) = note_access_point m1 w1 in
      (if m2.event_pending then process_events m2 else m2, w2)

  unfoldable pub shutdown : WifiModule → W → WifiModule × W
  shutdown m w = (record m { connected = false }, if m.initialized then api.stop w else w)
