-- ===== src/Middleware/RelayPin.antt =====
-- The relay's state and the level of its pin.
use takt_os.Base.{
  ℕ, ◌≡◌, refl, ap, ◌∙◌, sym, Bool, true, false, if◌then◌else◌, Bool-cases, inl, inr,
}
use takt_os.Drivers.Platform.{GpioApi, gpio_write}
use takt_os.Middleware.RelayModule.{
  RelayModule, new_relay, cycle_started_event, cycle_completed_event, level_of, set_relay, init,
  tick, shutdown,
}

-- What the relay relies on: a pin has the level that it was set to, and an event changes no pin.
pub record PinLaws {W : Type 0} (gpio : GpioApi W) (publish : ℕ → W → W) (level : ℕ → W → ℕ)
    : Type 0 where
  pub set_lem : (pin n : ℕ) (w : W) → level pin (gpio.set_level pin n w) ≡ n
  pub publish_lem : (event pin : ℕ) (w : W) → level pin (publish event w) ≡ level pin w

-- The relay on `pin` and the world, from its `init` on: commands, ticks, shutdowns, and what changes
-- the world but for the pin.
pub data RelayRun {W : Type 0} (gpio : GpioApi W) (publish : ℕ → W → W) (level : ℕ → W → ℕ)
    (pin : ℕ) : RelayModule → W → Type 0 where
  begun :
      (w : W)
      → RelayRun gpio publish level pin (new_relay pin) (init gpio publish (new_relay pin) w).2
  commanded :
      {m : RelayModule} {w : W} (on : Bool)
      → RelayRun gpio publish level pin m w
      → RelayRun gpio publish level pin (set_relay m on) w
  ticked :
      {m : RelayModule} {w : W}
      → RelayRun gpio publish level pin m w
      → RelayRun gpio publish level pin (tick gpio publish m w).0 (tick gpio publish m w).1
  stopped :
      {m : RelayModule} {w : W}
      → RelayRun gpio publish level pin m w
      → RelayRun gpio publish level pin (shutdown gpio publish m w).0 (shutdown gpio publish m w).1
  elsewhere :
      {m : RelayModule} {w : W} (w1 : W)
      → level pin w1 ≡ level pin w
      → RelayRun gpio publish level pin m w
      → RelayRun gpio publish level pin m w1

abbrev pub code_of : Bool → ℕ
code_of true = 1
code_of false = 0

module _ {W : Type 0} (gpio : GpioApi W) (publish : ℕ → W → W) (level : ℕ → W → ℕ)
    (laws : PinLaws gpio publish level) where
  write_lem :
      (pin : ℕ) (on : Bool) (w : W) → level pin (gpio_write gpio pin (level_of on) w) ≡ code_of on
  unfolding gpio_write
  write_lem pin true w = laws.set_lem pin 1 w
  write_lem pin false w = laws.set_lem pin 0 w

  IsShown : ℕ → RelayModule → W → Type 0
  IsShown pin m w = (m.gpio_pin ≡ pin) × (level pin w ≡ code_of m.relay_on)

  tick_idle : (m : RelayModule) (w : W) → m.pending ≡ false → tick gpio publish m w ≡ (m, w)
  unfolding tick
  tick_idle m w idle = rw (tick, idle)

  tick_due :
      (m : RelayModule) (w : W)
      → m.pending ≡ true
      → tick gpio publish m w ≡ (
        record m { pending = false; relay_on = m.target_state },
        publish
            (if m.target_state then cycle_started_event else cycle_completed_event)
            (gpio_write gpio m.gpio_pin (level_of m.target_state) w),
      )
  unfolding tick
  tick_due m w due = rw (tick, due) refl

  written :
      (pin : ℕ) (m : RelayModule) (w : W) (event : ℕ)
      → m.gpio_pin ≡ pin
      → level pin (publish event (gpio_write gpio m.gpio_pin (level_of m.target_state) w))
        ≡ code_of m.target_state
  written pin m w event same =
      let w1 = gpio_write gpio m.gpio_pin (level_of m.target_state) w in
      laws.publish_lem event pin w1
      ∙ ap (λ p. level p w1) (sym same)
      ∙ write_lem m.gpio_pin m.target_state w

  tick-IsShown :
      (pin : ℕ) (m : RelayModule) (w : W)
      → IsShown pin m w
      → IsShown pin (tick gpio publish m w).0 (tick gpio publish m w).1
  unfolding IsShown
  tick-IsShown pin m w h = elim (Bool-cases m.pending) [
    | inr idle ↦ rw (tick_idle m w idle) h
    | inl due ↦ rw (tick_due m w due) (h.0, written pin m w _ h.0)
  ]

  RelayRun-IsShown :
      (pin : ℕ) {m : RelayModule} {w : W} → RelayRun gpio publish level pin m w → IsShown pin m w
  unfolding IsShown init set_relay shutdown
  RelayRun-IsShown pin (begun w) = (refl, write_lem pin false _)
  RelayRun-IsShown pin (commanded on r) = RelayRun-IsShown pin r
  RelayRun-IsShown pin (ticked {m} {w} r) = tick-IsShown pin m w (RelayRun-IsShown pin r)
  RelayRun-IsShown pin (stopped {m} {w} r) =
      tick-IsShown pin (set_relay m false) w (RelayRun-IsShown pin r)
  RelayRun-IsShown pin (elsewhere w1 same r) =
      let (on, shown) = RelayRun-IsShown pin r in (on, same ∙ shown)

  -- At every moment from `init` on, whatever commands, ticks, shutdowns and changes elsewhere there
  -- have been, the pin has the level that `isOn` tells; and a shutdown then leaves the pin low and the
  -- relay off, with nothing pending, whatever was commanded before. A pin is to keep the level that it
  -- is set to, and the event bus to change no pin.
  pub RelayRun-shutdown :
      (pin : ℕ) (m : RelayModule) (w : W)
      → RelayRun gpio publish level pin m w
      → let (m1, w1) = shutdown gpio publish m w in
        (level pin w ≡ code_of m.relay_on)
        × (level pin w1 ≡ 0)
        × (m1.relay_on ≡ false)
        × (m1.pending ≡ false)
  unfolding IsShown set_relay shutdown
  RelayRun-shutdown pin m w r =
      let (same, shown) = RelayRun-IsShown pin r in
      let due = tick_due (set_relay m false) w refl in
      rw due (shown, written pin (set_relay m false) w cycle_completed_event same, refl, refl)
