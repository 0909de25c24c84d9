-- ===== src/Timer/Tests.antt =====
-- Runs of the timers on concrete inputs.
use takt_os.Base.{
  ℕ, ◌+◌, ◌<◌, ◌≡◌, refl, sym, ◌∙◌, get_or-replicate, none, some, true, false, arith, replicate,
  get_or, ◌≢◌, ◌⊎◌,
}
use takt_os.Timer.{Timers, new_timer, max_timers, store, start, register_timer, unregister_timer}
use takt_os.Timer.Period.{counting, repeating, takts, takts-periodic, IsAt}
use takt_os.Timer.Registry.{
  IsRegistry, IsUnregistered, used_count, registered, register_timer_lem, unregister_timer_lem,
}

abbrev no_timers : Timers
no_timers = record { heap = λ p. new_timer 100 false; slots = replicate 32 none; active_count = 0 }

no_pointer : (i p : ℕ) → get_or no_timers.slots i none ≢ some p
no_pointer i p e = let clash : none ≡ some p = sym (get_or-replicate 32 i none) ∙ e in ground arith

no_timers-IsRegistry : IsRegistry no_timers
no_timers-IsRegistry = record {
  places = refl;
  counted = refl;
  handles = λ i p e. absurd (no_pointer i p e);
}

no_timers-IsUnregistered : (p : ℕ) → IsUnregistered no_timers p
no_timers-IsUnregistered p i e = no_pointer i p e

-- A timer of 25 ms at place 3, in takts of 10 ms.
abbrev blinking : Timers × ℕ
blinking = (store no_timers 7 (repeating 3 25 0 4), 0)

takts-periodic_example : IsAt 7 (repeating 3 25 10 4) 2 (takts counting 7 10 7 blinking)
takts-periodic_example =
    takts-periodic 7 10 25 3 4 2 (omega arith) (omega arith) (omega arith) 2 1 0 blinking
      (refl, refl) (omega arith)

-- A callback that starts its timer again.
abbrev restarting : ℕ → Timers × ℕ → Timers × ℕ
unfolding start
restarting c s = (start s.0 7, s.1 + 1)

abbrev one_shot : Timers × ℕ
one_shot = (
  store no_timers 7
      (record (new_timer 20 false) { active = true; elapsed_ms = 15; callback = some 1 }),
  0,
)

restarting-repeats :
    (c : ℕ) (t : Timers × ℕ) → ((restarting c t).0.heap 7).repeats ≡ (t.0.heap 7).repeats
unfolding start
restarting-repeats c t = refl

register_timer_lem_example :
    IsRegistry (register_timer no_timers 9).1
    × (((used_count no_timers.slots ≡ max_timers)
          × (register_timer no_timers 9 ≡ (false, no_timers)))
        ⊎ ((i : ℕ) × (i < max_timers)
            × (get_or no_timers.slots i none ≡ none)
            × (register_timer no_timers 9 ≡ (true, registered no_timers 9 i))))
register_timer_lem_example =
    register_timer_lem no_timers 9 no_timers-IsRegistry (no_timers-IsUnregistered 9)

abbrev one_timer : Timers
one_timer = (register_timer no_timers 9).1

unregister_timer_lem_example :
    IsRegistry (unregister_timer one_timer 9) × IsUnregistered (unregister_timer one_timer 9) 9
unregister_timer_lem_example = unregister_timer_lem one_timer 9 register_timer_lem_example.0
