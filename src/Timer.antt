-- ===== src/Timer.antt =====
-- kernel/include/takt/timer.hpp, timer_manager.hpp and kernel/src/timer.cpp: software timers and
-- their registry.
-- A timer is an object with an address; `heap` holds the objects, and the registry 32 pointers to
-- them. A callback is a number that `run` executes (`none` is an empty std::function); it may use
-- the timers, and changes whatever else `W` stands for.
pub mod Period
pub mod Registry
pub mod Moves
mod Tests
use takt_os.Base.{
  ℕ, zero, suc, ◌+◌, ◌-◌, ◌%◌, ◌^◌, List, [], ◌∷◌, Option, none, some, Bool, true, false, not, ◌&&◌,
  ltb, leb, ◌==◌, if◌then◌else◌, get_or, set, replicate,
}

abbrev pub max_timers : ℕ
max_timers = 32

-- The handle of a timer that is not registered.
abbrev pub no_handle : ℕ
no_handle = 0xFFFF

pub record Timer : Type 0 where
  pub handle : ℕ
  pub interval_ms : ℕ
  pub elapsed_ms : ℕ
  pub active : Bool
  pub repeats : Bool
  pub callback : Option ℕ

-- Timer(uint32_t intervalMs, bool repeat).
abbrev pub new_timer : ℕ → Bool → Timer
new_timer interval_ms repeats = record {
  handle = no_handle;
  interval_ms = interval_ms;
  elapsed_ms = 0;
  active = false;
  repeats = repeats;
  callback = none;
}

-- The objects, and TimerManager's timers_ and activeCount_.
pub record Timers : Type 0 where
  pub heap : ℕ → Timer
  pub slots : List (Option ℕ)
  pub active_count : ℕ

abbrev pub put : (ℕ → Timer) → ℕ → Timer → ℕ → Timer
put heap p t q = if q == p then t else heap q

-- A member function's effect on the object at `p`.
abbrev pub store : Timers → ℕ → Timer → Timers
store s p t = record s { heap = put s.heap p t }

pub start : Timers → ℕ → Timers
start s p = store s p (record (s.heap p) { elapsed_ms = 0; active = true })

pub stop : Timers → ℕ → Timers
stop s p = store s p (record (s.heap p) { active = false })

pub reset : Timers → ℕ → Timers
reset s p = store s p (record (s.heap p) { elapsed_ms = 0 })

pub set_interval : Timers → ℕ → ℕ → Timers
set_interval s p interval_ms = store s p (record (s.heap p) { interval_ms = interval_ms })

pub set_repeat : Timers → ℕ → Bool → Timers
set_repeat s p repeats = store s p (record (s.heap p) { repeats = repeats })

-- The search of `registerTimer`: the first null pointer, from index `i` on.
pub free_slot : List (Option ℕ) → ℕ → Option ℕ
free_slot [] i = none
free_slot (none ∷ slots) i = some i
free_slot (some p ∷ slots) i = free_slot slots (i + 1)

pub register_timer : Timers → ℕ → Bool × Timers
register_timer s p =
    if leb max_timers s.active_count then (false, s) else elim (free_slot s.slots 0) [
      | none ↦ (false, s)
      | some i ↦ (
        true,
        record s {
          heap = put s.heap p (record (s.heap p) { handle = i % 2 ^ 16 });
          slots = set s.slots i (some p);
          active_count = (s.active_count + 1) % 2 ^ 64;
        },
      )
    ]

-- timers_[h] == &timer.
abbrev pub points_to : Option ℕ → ℕ → Bool
points_to none p = false
points_to (some q) p = q == p

pub unregister_timer : Timers → ℕ → Timers
unregister_timer s p =
    let h = (s.heap p).handle in
    if ltb h max_timers && points_to (get_or s.slots h none) p
    then record s {
      heap = put s.heap p (record (s.heap p) { handle = no_handle });
      slots = set s.slots h none;
      active_count = (s.active_count + (2 ^ 64 - 1)) % 2 ^ 64;
    }
    else s

-- The result of registerTimer is ignored.
pub on_timeout : Timers → ℕ → Option ℕ → Timers
on_timeout s p callback =
    (register_timer (store s p (record (s.heap p) { callback = callback })) p).1

-- ~Timer: the object at `p` is gone afterwards; nothing reads it unless a pointer is left behind.
pub destroy : Timers → ℕ → Timers
destroy s p = unregister_timer s p

-- Timer(Timer&& other): a new object at `p` from the one at `q`. A moved std::function is empty.
pub move_construct : Timers → ℕ → ℕ → Timers
move_construct s p q =
    let other = s.heap q in
    store (store s p other) q (record other { handle = no_handle; callback = none })

-- operator=(Timer&& other).
pub move_assign : Timers → ℕ → ℕ → Timers
move_assign s p q =
    let s1 = unregister_timer s p in
    let other = s1.heap q in
    if p == q
    then s
    else store (store s1 p other) q (record other { handle = no_handle; callback = none })

module _ {W : Type 0} (run : ℕ → Timers × W → Timers × W) where
  -- `if (callback_) callback_();`
  abbrev pub fire : Option ℕ → Timers × W → Timers × W
  fire none s = s
  fire (some c) s = run c s

  -- What `tick` does after its callback, with the object as it is by then.
  abbrev pub rearm : ℕ → Timers × W → Timers × W
  rearm p s =
      let t = (s.0).heap p in
      if t.repeats
      then (store s.0 p (record t { elapsed_ms = 0 }), s.1)
      else (store s.0 p (record t { active = false }), s.1)

  pub tick : ℕ → ℕ → Timers × W → Timers × W
  tick p delta_ms s =
      let t = (s.0).heap p in
      let elapsed = (t.elapsed_ms + delta_ms) % 2 ^ 32 in
      let s1 : Timers × W = (store s.0 p (record t { elapsed_ms = elapsed }), s.1) in
      if not t.active
      then s
      else if leb t.interval_ms elapsed
      then rearm p (fire t.callback s1)
      else s1

  -- The body of the loop of TimerManager::tick.
  pub tick_slot : ℕ → ℕ → Timers × W → Timers × W
  tick_slot i delta_ms s = elim (get_or (s.0).slots i none) [
    | none ↦ s
    | some p ↦ tick p delta_ms s
  ]

  pub tick_from : ℕ → ℕ → ℕ → Timers × W → Timers × W
  tick_from zero i delta_ms s = s
  tick_from (suc n) i delta_ms s = tick_from n (i + 1) delta_ms (tick_slot i delta_ms s)

  -- TimerManager::tick.
  pub tick_all : ℕ → Timers × W → Timers × W
  tick_all delta_ms s = tick_from max_timers 0 delta_ms s
