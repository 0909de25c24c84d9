-- ===== src/Middleware/Reconnect.antt =====
-- When the WiFi module connects again.
use takt_os.Base.{
  ◌≡◌, refl, ap, ◌∙◌, List, [], ◌∷◌, Bool, true, false, if◌then◌else◌, Bool-cases, inl, inr, All,
  false≢true,
}
use takt_os.Middleware.WifiModule.{
  WifiModule, WifiConfig, WifiApi, set_config, process_events, on_reconnect_timeout, init,
  reconnect, note_access_point, tick, shutdown,
}

-- What the module meets: a tick, the timer's callback, the event that the station is disconnected (on
-- which `onWifiEvent` calls `tick`) or has an address (on which it does nothing), a change of the
-- world, and the calls of its other public operations `setConfig`, `init` and `shutdown`.
pub data WifiStep (W : Type 0) : Type 0 where
  ticked timed_out disconnected got_address init_called shutdown_called : WifiStep W
  configured : WifiConfig → WifiStep W
  changed : W → WifiStep W

-- The handler `onWifiEvent`, the timer, the scheduler and other callers, step by step.
unfoldable pub wifi_step : {W : Type 0} → WifiApi W → WifiStep W → WifiModule × W → WifiModule × W
wifi_step api WifiStep.ticked s = tick api s.0 s.1
wifi_step api WifiStep.timed_out s = (on_reconnect_timeout s.0, s.1)
wifi_step api WifiStep.disconnected s = tick api s.0 s.1
wifi_step api WifiStep.got_address s = s
wifi_step api WifiStep.init_called s = let (_, m, w) = init api s.0 s.1 in (m, w)
wifi_step api WifiStep.shutdown_called s = shutdown api s.0 s.1
wifi_step api (WifiStep.configured config) s = (set_config s.0 config, s.1)
wifi_step api (WifiStep.changed w) s = (s.0, w)

abbrev pub wifi_run : {W : Type 0} → WifiApi W → List (WifiStep W) → WifiModule × W → WifiModule × W
wifi_run api [] s = s
wifi_run api (e ∷ es) s = wifi_run api es (wifi_step api e s)

-- Every step but a start and a shutdown of the module.
abbrev pub is_between : {W : Type 0} → WifiStep W → Bool
is_between WifiStep.init_called = false
is_between WifiStep.shutdown_called = false
is_between _ = true

-- A module that says it is connected and has no reconnection pending.
abbrev IsSettled : WifiModule → Type 0
IsSettled m = (m.connected ≡ true) × (m.reconnect_pending ≡ false)

-- The world behind the steps, if the module does nothing to it.
abbrev pub last_world : {W : Type 0} → W → List (WifiStep W) → W
last_world w [] = w
last_world w (WifiStep.changed w1 ∷ es) = last_world w1 es
last_world w (_ ∷ es) = last_world w es

if_event :
    (b : Bool) (m : WifiModule)
    → m.event_pending ≡ b
    → (if b then process_events m else m) ≡ record m { event_pending = false }
unfolding process_events
if_event true m h = refl
if_event false m h = ap (λ e. record m { event_pending = e }) h

module _ {W : Type 0} (api : WifiApi W) where
  note_access_point-connected :
      (m : WifiModule) (w : W) → m.connected ≡ true → note_access_point api m w ≡ (m, w)
  unfolding note_access_point
  note_access_point-connected m w h = elim (Bool-cases (api.ap_info w)) [
    | inl seen ↦ rw (note_access_point, seen, h) refl
    | inr lost ↦ rw (note_access_point, lost) refl
  ]

  reconnect_idle :
      (m : WifiModule) (w : W) → m.reconnect_pending ≡ false → reconnect api m w ≡ (m, w)
  unfolding reconnect
  reconnect_idle m w h = rw (reconnect, h)

  tick-IsSettled :
      (m : WifiModule) (w : W)
      → IsSettled m
      → tick api m w ≡ (record m { event_pending = false }, w)
  unfolding tick
  tick-IsSettled m w (on, idle) =
      rw (tick, reconnect_idle m w idle, note_access_point-connected m w on)
        (ap (λ x. (x, w)) (if_event m.event_pending m refl))

  -- A step of a module that is settled changes nothing outside it.
  wifi_step-IsSettled :
      (e : WifiStep W) (m : WifiModule) (w : W)
      → is_between e ≡ true
      → IsSettled m
      → let (m1, w1) = wifi_step api e (m, w) in IsSettled m1 × (w1 ≡ last_world w (e ∷ []))
  unfolding wifi_step on_reconnect_timeout set_config
  wifi_step-IsSettled WifiStep.ticked m w _ h = rw (tick-IsSettled m w h) (h, refl)
  wifi_step-IsSettled WifiStep.disconnected m w _ h = rw (tick-IsSettled m w h) (h, refl)
  wifi_step-IsSettled WifiStep.timed_out m w _ h = rw h.0 ((refl, h.1), refl)
  wifi_step-IsSettled WifiStep.got_address m w _ h = (h, refl)
  wifi_step-IsSettled WifiStep.init_called m w out h = absurd (false≢true out)
  wifi_step-IsSettled WifiStep.shutdown_called m w out h = absurd (false≢true out)
  wifi_step-IsSettled (WifiStep.configured config) m w _ h = (h, refl)
  wifi_step-IsSettled (WifiStep.changed w1) m w _ h = (h, refl)

  last_world_step :
      (e : WifiStep W) (w : W) (es : List (WifiStep W))
      → last_world (last_world w (e ∷ [])) es ≡ last_world w (e ∷ es)
  last_world_step WifiStep.ticked w es = refl
  last_world_step WifiStep.disconnected w es = refl
  last_world_step WifiStep.timed_out w es = refl
  last_world_step WifiStep.got_address w es = refl
  last_world_step WifiStep.init_called w es = refl
  last_world_step WifiStep.shutdown_called w es = refl
  last_world_step (WifiStep.configured config) w es = refl
  last_world_step (WifiStep.changed w1) w es = refl

  wifi_run-IsSettled :
      (es : List (WifiStep W)) (m : WifiModule) (w : W)
      → All (λ e. is_between e ≡ true) es
      → IsSettled m
      → let (m1, w1) = wifi_run api es (m, w) in IsSettled m1 × (w1 ≡ last_world w es)
  wifi_run-IsSettled [] m w between h = (h, refl)
  wifi_run-IsSettled (e ∷ es) m w (here, later) h =
      let (m1, w1) = wifi_step api e (m, w) in
      let (settled, same) = wifi_step-IsSettled e m w here h in
      let (after, world) = wifi_run-IsSettled es m1 w1 later settled in
      (after, world ∙ ap (λ x. last_world x es) same ∙ last_world_step e w es)

  reconnect-idle : (m : WifiModule) (w : W) → (reconnect api m w).0.reconnect_pending ≡ false
  unfolding reconnect
  reconnect-idle m w = elim (Bool-cases m.reconnect_pending) [
    | inl pending ↦ rw (reconnect, pending) refl
    | inr idle ↦ rw (reconnect_idle m w idle) idle
  ]

  note_access_point-idle :
      (m : WifiModule) (w : W)
      → (note_access_point api m w).0.reconnect_pending ≡ m.reconnect_pending
  unfolding note_access_point
  note_access_point-idle m w = elim (Bool-cases (api.ap_info w)) [
    | inr lost ↦ rw (note_access_point, lost) refl
    | inl seen ↦ elim (Bool-cases m.connected) [
      | inl on ↦ rw (note_access_point-connected m w on) refl
      | inr off ↦ rw (note_access_point, seen, off) refl
    ]
  ]

  -- A tick leaves no reconnection pending.
  tick-idle : (m : WifiModule) (w : W) → (tick api m w).0.reconnect_pending ≡ false
  unfolding tick
  tick-idle m w =
      let (m1, w1) = reconnect api m w in
      let (m2, _) = note_access_point api m1 w1 in
      ap (λ (x : WifiModule). x.reconnect_pending) (if_event m2.event_pending m2 refl)
      ∙ note_access_point-idle m1 w1
      ∙ reconnect-idle m w

  -- Once a tick has left the module connected, it does nothing outside itself any more until it is
  -- started again or shut down: whatever ticks, timeouts, disconnections, new addresses and
  -- configurations follow, in whatever states of the world, it never connects again and publishes no
  -- event, has no reconnection pending, and says that it is connected. A timeout behind a shutdown
  -- makes it ask for a connection again.
  pub tick-connected :
      (m : WifiModule) (w : W) (es : List (WifiStep W))
      → (tick api m w).0.connected ≡ true
      → All (λ e. is_between e ≡ true) es
      → let (m0, w0) = tick api m w in
        let (m1, w1) = wifi_run api es (m0, w0) in
        let again = wifi_run api (WifiStep.shutdown_called ∷ WifiStep.timed_out ∷ []) (m1, w1) in
        (m1.connected ≡ true)
        × (m1.reconnect_pending ≡ false)
        × (w1 ≡ last_world w0 es)
        × (again.0.reconnect_pending ≡ true)
  unfolding wifi_step shutdown on_reconnect_timeout
  tick-connected m w es on between =
      let (m0, w0) = tick api m w in
      let (settled, world) = wifi_run-IsSettled es m0 w0 between (on, tick-idle m w) in
      (settled.0, settled.1, world, refl)
