-- ===== src/Middleware/Tests.antt =====
-- Runs of the modules, and their theorems at such runs.
use takt_os.Base.{ℕ, ◌+◌, ◌≡◌, refl, List, [], ◌∷◌, none, true, false, ◌==◌}
use takt_os.Middleware.WifiModule.{
  WifiModule, WifiApi, new_wifi_module, tick, connect, reconnect, note_access_point, process_events,
}
use takt_os.Base.{replicate}
use takt_os.Base.Int.{pos}
use takt_os.Drivers.Platform.{GpioApi, gpio_write}
use takt_os.Drivers.Uart
use takt_os.Drivers.Uart.{UartApi, UartState, init_on, init_port, set_pins}
use takt_os.Middleware.MqttModule
use takt_os.Middleware.MqttModule.{MqttModule, MqttApi}
use takt_os.Middleware.Outbox.{publish_all, publish_all-tick}
use takt_os.Middleware.RelayModule
use takt_os.Middleware.RelayModule.{RelayModule, new_relay}
use takt_os.Middleware.RelayPin.{
  PinLaws, RelayRun, begun, commanded, ticked, code_of, RelayRun-shutdown,
}
use takt_os.Middleware.UartModule
use takt_os.Middleware.UartModule.{new_uart_module, uart_data_received_event}
use takt_os.Middleware.UartErrors.{init-tick_failed}
use takt_os.Middleware.Reconnect.{WifiStep, wifi_run, tick-connected}

-- A world that counts the connections; the access point is there behind the first.
abbrev counting : WifiApi ℕ
counting = record {
  start_station = λ _ _ w. w;
  stop = λ w. w;
  connect = λ w. (true, w + 1);
  ap_info = λ w. w == 1;
  publish = λ _ w. w;
  setting = λ _ _ _. none;
  start_timer = λ w. w;
}

abbrev started : WifiModule
started = record new_wifi_module { initialized = true }

-- The access point goes away, and the module does not connect again until it is shut down.
abbrev losses : List (WifiStep ℕ)
losses =
    WifiStep.changed 0
    ∷ WifiStep.disconnected
    ∷ WifiStep.timed_out
    ∷ WifiStep.ticked
    ∷ WifiStep.configured new_wifi_module.config
    ∷ []

tick-connected_example :
    let (m0, w0) = tick counting started 0 in
    let (m1, w1) = wifi_run counting losses (m0, w0) in
    let again = wifi_run counting (WifiStep.shutdown_called ∷ WifiStep.timed_out ∷ []) (m1, w1) in
    (m1.connected ≡ true)
    × (m1.reconnect_pending ≡ false)
    × (w1 ≡ 0)
    × (again.0.reconnect_pending ≡ true)
unfolding tick connect reconnect note_access_point process_events
tick-connected_example =
    tick-connected counting started 0 losses refl (refl, (refl, (refl, (refl, (refl, tt)))))

-- A client whose world is the list of the topics that were sent.
abbrev broker : MqttApi (List (List ℕ))
broker = record {
  broker = λ _. none;
  start = λ _ w. (true, w);
  stop = λ w. w;
  outbox_size = λ _. pos 0;
  send = λ topic _ w. (pos 1, topic ∷ w);
  subscribe = λ _ w. (pos 1, w);
  publish_event = λ _ w. w;
}

abbrev offline : MqttModule
offline = record {
  client = true;
  msg_pending = false;
  connected = false;
  broker_uri = [];
  pending_topic = [];
  pending_payload = [];
}

-- Of two messages, the second is sent.
publish_all-tick_example :
    let (m1, w1) =
      publish_all broker ((b'a' ∷ [], b'1' ∷ []) ∷ (b'b' ∷ [], b'2' ∷ []) ∷ []) (offline, []) in
    MqttModule.tick broker m1 w1
    ≡ (record offline { connected = true; pending_payload = b'2' ∷ [] }, (b'b' ∷ []) ∷ [])
publish_all-tick_example =
    publish_all-tick broker offline [] ((b'a' ∷ [], b'1' ∷ []) ∷ []) b'b' [] (b'2' ∷ []) refl refl
      refl

-- A world that is the level of the only pin.
abbrev one_pin : GpioApi ℕ
one_pin = record { config = λ _ w. (true, w); set_level = λ _ n _. n; get_level = λ _ w. w }

abbrev pin_level : ℕ → ℕ → ℕ
pin_level pin w = w

one_pin_laws : PinLaws one_pin (λ _ w. w) pin_level
one_pin_laws = record { set_lem = λ pin n w. refl; publish_lem = λ event pin w. refl }

-- Switched on in a tick, and then commanded again.
relay_history :
    RelayRun one_pin
      (λ _ w. w)
      pin_level
      26
      (RelayModule.set_relay
        (RelayModule.tick one_pin (λ _ w. w) (RelayModule.set_relay (new_relay 26) true) 0).0
        true)
      (RelayModule.tick one_pin (λ _ w. w) (RelayModule.set_relay (new_relay 26) true) 0).1
unfolding RelayModule.init gpio_write
relay_history = commanded true (ticked (commanded true (begun 0)))

RelayRun-shutdown_example :
    let (m, w) =
      RelayModule.tick one_pin (λ _ w. w) (RelayModule.set_relay (new_relay 26) true) 0 in
    let (m1, w1) = RelayModule.shutdown one_pin (λ _ w. w) (RelayModule.set_relay m true) w in
    (pin_level 26 w ≡ code_of (RelayModule.set_relay m true).relay_on)
    × (pin_level 26 w1 ≡ 0)
    × (m1.relay_on ≡ false)
    × (m1.pending ≡ false)
RelayRun-shutdown_example =
    RelayRun-shutdown one_pin (λ _ w. w) pin_level one_pin_laws 26
      (RelayModule.set_relay
        (RelayModule.tick one_pin (λ _ w. w) (RelayModule.set_relay (new_relay 26) true) 0).0 true)
      (RelayModule.tick one_pin (λ _ w. w) (RelayModule.set_relay (new_relay 26) true) 0).1
      relay_history

-- A driver that cannot be installed; the world is the last count that was published.
abbrev broken : UartApi ℕ
broken = record {
  param_config = λ _ _ w. (true, w);
  set_pin = λ _ _ _ w. (true, w);
  driver_install = λ _ w. (false, w);
  read_bytes = λ _ _ w. (pos 3, 1 ∷ 2 ∷ 3 ∷ [], w);
  write_bytes = λ _ _ w. (pos 0, w);
}

abbrev note_count : ℕ → ℕ → UartState ℕ → UartState ℕ
note_count event count s = record s { world = count }

abbrev no_ports : UartState ℕ
no_ports = record { installed = false ∷ false ∷ false ∷ []; world = 0 }

init-tick_failed_example :
    let (ok, m1, s1) = UartModule.init broken note_count (new_uart_module (pos 0) 16) no_ports in
    let (m2, s2) = UartModule.tick broken note_count m1 s1 in
    (ok ≡ true)
    × (m2.rx_count ≡ 4294967295)
    × (m2.rx_buf ≡ replicate 256 0)
    × (s2 ≡ note_count uart_data_received_event 4294967295 s1)
unfolding Uart.init init_on init_port set_pins
init-tick_failed_example =
    init-tick_failed broken note_count (new_uart_module (pos 0) 16) no_ports refl refl
