-- ===== src/Scheduler.antt =====
-- kernel/include/takt/scheduler.hpp, types.hpp, imodule.hpp and kernel/src/scheduler.cpp: the table of
-- modules and the takt that calls them.
-- A module is a number; what it does, and the components that a takt calls, are `Hooks`. They may use
-- the scheduler, so they take and return it with `W`, which is whatever else they change. The build is
-- that of the host, without the watchdog and the delay; the log is left out.
pub mod Modules
pub mod Takt
pub mod Entries
pub mod Shutdown
mod Tests
use takt_os.Base.{
  ℕ, zero, suc, ◌+◌, ◌-◌, ◌%◌, ◌^◌, List, [], ◌∷◌, Option, none, some, Bool, true, false, not, ◌&&◌,
  ◌||◌, ltb, leb, ◌==◌, if◌then◌else◌, get_or, set, replicate,
}

abbrev pub max_modules : ℕ
max_modules = 48

abbrev pub invalid_module_id : ℕ
invalid_module_id = 0xFFFF

pub data ModuleType : Type 0 where
  static_type dynamic_type background_type : ModuleType

pub data ModuleState : Type 0 where
  unregistered registered initializing ready running suspended error shut_down : ModuleState

pub record ModuleStats : Type 0 where
  pub tick_count : ℕ
  pub total_us : ℕ
  pub max_us : ℕ
  pub last_us : ℕ
  pub overrun_count : ℕ
  pub skip_count : ℕ
  pub state : ModuleState

pub record ModuleEntry : Type 0 where
  pub module_id : Option ℕ
  pub stats : ModuleStats
  pub active : Bool

abbrev pub no_stats : ModuleStats
no_stats = record {
  tick_count = 0;
  total_us = 0;
  max_us = 0;
  last_us = 0;
  overrun_count = 0;
  skip_count = 0;
  state = ModuleState.unregistered;
}

abbrev pub no_module : ModuleEntry
no_module = record { module_id = none; stats = no_stats; active = false }

pub record SchedulerStats : Type 0 where
  pub total_takts : ℕ
  pub total_takt_us : ℕ
  pub max_takt_us : ℕ
  pub last_takt_us : ℕ
  pub overrun_count : ℕ
  pub registered_modules : ℕ

pub record Scheduler : Type 0 where
  pub modules : List ModuleEntry
  pub module_count : ℕ
  pub stats : SchedulerStats
  pub takt_budget_us : ℕ
  pub takt_period_ms : ℕ

-- The entry at `i`, changed in place.
abbrev pub set_entry : Scheduler → ℕ → ModuleEntry → Scheduler
set_entry s i e = record s { modules = set s.modules i e }

abbrev pub entry_at : Scheduler → ℕ → ModuleEntry
entry_at s i = get_or s.modules i no_module

abbrev pub set_state : Scheduler → ℕ → ModuleState → Scheduler
set_state s i state =
    let e = entry_at s i in set_entry s i (record e { stats = record e.stats { state = state } })

-- `none` is the null pointer. An identifier is a uint16_t.
pub register_module : Scheduler → Option ℕ → ℕ × Scheduler
register_module s none = (invalid_module_id, s)
register_module s (some mod_id) =
    let i = s.module_count in
    let e = entry_at s i in
    let e' = record e {
      module_id = some mod_id;
      active = true;
      stats = record e.stats { state = ModuleState.registered };
    } in
    if leb max_modules i
    then (invalid_module_id, s)
    else (i % 2 ^ 16, record (set_entry s i e') { module_count = (i + 1) % 2 ^ 64 })

-- The calls of the scheduler: the clock, the timers, the queued events, the overrun event, and the
-- virtual functions of a module.
pub record Hooks (W : Type 0) : Type 0 where
  pub now_us : W → ℕ × W
  pub tick_timers : ℕ → Scheduler × W → Scheduler × W
  pub dispatch_queued : Scheduler × W → Scheduler × W
  pub publish_overrun : ℕ → ℕ → Scheduler × W → Scheduler × W
  pub init : ℕ → Scheduler × W → Bool × Scheduler × W
  pub tick : ℕ → Scheduler × W → Scheduler × W
  pub shutdown : ℕ → Scheduler × W → Scheduler × W
  pub module_type : ℕ → ModuleType
  pub budget_us : ℕ → ℕ
  pub has_work : ℕ → W → Bool

abbrev pub is_background : ModuleType → Bool
is_background ModuleType.background_type = true
is_background _ = false

abbrev pub is_runnable : ModuleState → Bool
is_runnable ModuleState.ready = true
is_runnable ModuleState.running = true
is_runnable _ = false

-- Differences of uint64_t.
abbrev pub elapsed_us : ℕ → ℕ → ℕ
elapsed_us from to = (to + (2 ^ 64 - from)) % 2 ^ 64

abbrev pub max_of : ℕ → ℕ → ℕ
max_of old new = if ltb old new then new else old

-- The statistics of a module after its tick, which took `us` with a budget of `budget`.
abbrev pub ticked : ℕ → ℕ → ModuleStats → ModuleStats
ticked us budget st = record st {
  tick_count = (st.tick_count + 1) % 2 ^ 64;
  last_us = us;
  total_us = (st.total_us + us) % 2 ^ 64;
  max_us = max_of st.max_us us;
  overrun_count =
      if ltb 0 budget && ltb budget us then (st.overrun_count + 1) % 2 ^ 32 else st.overrun_count;
  state = ModuleState.ready;
}

abbrev pub skipped : ModuleStats → ModuleStats
skipped st = record st { skip_count = (st.skip_count + 1) % 2 ^ 32 }

-- The statistics of the scheduler after a takt of `us`.
abbrev pub takt_done : ℕ → ℕ → ℕ → SchedulerStats → SchedulerStats
takt_done us budget count st = record st {
  total_takts = (st.total_takts + 1) % 2 ^ 64;
  last_takt_us = us;
  total_takt_us = (st.total_takt_us + us) % 2 ^ 64;
  max_takt_us = max_of st.max_takt_us us;
  registered_modules = count % 2 ^ 32;
  overrun_count =
      if ltb 0 budget && ltb budget us then (st.overrun_count + 1) % 2 ^ 32 else st.overrun_count;
}

module _ {W : Type 0} (h : Hooks W) where
  pub unregister_module : ℕ → Scheduler × W → Scheduler × W
  unregister_module i s =
      let s1 : Scheduler × W = elim (entry_at s.0 i).module_id [
        | none ↦ s
        | some mod_id ↦ h.shutdown mod_id s
      ] in
      let e = entry_at s1.0 i in
      let e' = record e {
        active = false;
        stats = record e.stats { state = ModuleState.shut_down };
      } in
      if leb (s.0).module_count i then s else (set_entry s1.0 i e', s1.1)

  -- The body of the loop of `initAll`.
  pub init_module : ℕ → Bool × Scheduler × W → Bool × Scheduler × W
  init_module i r =
      let e = entry_at r.1 i in
      elim e.module_id [
        | none ↦ r
        | some mod_id ↦
            let (good, s1, w1) = h.init mod_id (set_state r.1 i ModuleState.initializing, r.2) in
            if not e.active
            then r
            else if good
            then (r.0, set_state s1 i ModuleState.ready, w1)
            else (false, set_state s1 i ModuleState.error, w1)
      ]

  -- The loop, with `n` places left: the table has no more than 48.
  pub init_from : ℕ → ℕ → Bool × Scheduler × W → Bool × Scheduler × W
  init_from zero i r = r
  init_from (suc n) i r =
      let rest = init_from n (i + 1) (init_module i r) in
      if ltb i (r.1).module_count then rest else r

  pub init_all : Scheduler × W → Bool × Scheduler × W
  init_all s = init_from max_modules 0 (true, s.0, s.1)

  abbrev pub should_run : ModuleEntry → W → Bool
  should_run e w = elim e.module_id [
    | none ↦ false
    | some mod_id ↦
        if not e.active || not (is_runnable e.stats.state)
        then false
        else if is_background (h.module_type mod_id)
        then h.has_work mod_id w
        else true
  ]

  -- What the loop of `runTakt` does with a module that it does not run.
  abbrev pub skip_module : ℕ → Scheduler × W → Scheduler × W
  skip_module i s =
      let e = entry_at s.0 i in
      elim e.module_id [
        | none ↦ s
        | some mod_id ↦
            if is_background (h.module_type mod_id)
            then (set_entry s.0 i (record e { stats = skipped e.stats }), s.1)
            else s
      ]

  -- The rest of the loop's body, for module `mod_id` at place `i`.
  abbrev pub tick_module : ℕ → ℕ → Scheduler × W → Scheduler × W
  tick_module mod_id i s =
      let (start, w1) = h.now_us s.1 in
      let s2 = h.tick mod_id (set_state s.0 i ModuleState.running, w1) in
      let (end, w3) = h.now_us s2.1 in
      let e = entry_at s2.0 i in
      (
        set_entry s2.0 i
            (record e { stats = ticked (elapsed_us start end) (h.budget_us mod_id) e.stats }),
        w3,
      )

  -- The body of the loop of `runTakt`.
  pub run_module : ℕ → Scheduler × W → Scheduler × W
  run_module i s =
      let e = entry_at s.0 i in
      if should_run e s.1
      then elim e.module_id [ none ↦ s | some mod_id ↦ tick_module mod_id i s ]
      else skip_module i s

  pub run_from : ℕ → ℕ → Scheduler × W → Scheduler × W
  run_from zero i s = s
  run_from (suc n) i s =
      let rest = run_from n (i + 1) (run_module i s) in if ltb i (s.0).module_count then rest else s

  pub run_takt : Scheduler × W → Scheduler × W
  run_takt s =
      let (start, w1) = h.now_us s.1 in
      let s2 = h.dispatch_queued (h.tick_timers (s.0).takt_period_ms (s.0, w1)) in
      let s3 = run_from max_modules 0 s2 in
      let (end, w4) = h.now_us s3.1 in
      let us = elapsed_us start end in
      let budget = (s3.0).takt_budget_us in
      let done = takt_done us budget (s3.0).module_count (s3.0).stats in
      let s4 : Scheduler × W = (record (s3.0) { stats = done }, w4) in
      if ltb 0 budget && ltb budget us then h.publish_overrun (us % 2 ^ 32) budget s4 else s4

  -- The body of the loop of `shutdownAll`.
  pub shutdown_module : ℕ → Scheduler × W → Scheduler × W
  shutdown_module i s =
      let e = entry_at s.0 i in
      elim e.module_id [
        | none ↦ s
        | some mod_id ↦
            let s1 = h.shutdown mod_id s in
            if e.active then (set_state s1.0 i ModuleState.shut_down, s1.1) else s
      ]

  pub shutdown_from : ℕ → ℕ → Scheduler × W → Scheduler × W
  shutdown_from zero i s = s
  shutdown_from (suc n) i s =
      let rest = shutdown_from n (i + 1) (shutdown_module i s) in
      if ltb i (s.0).module_count then rest else s

  pub shutdown_all : Scheduler × W → Scheduler × W
  shutdown_all s = shutdown_from max_modules 0 s

-- moduleStats.
pub module_stats : Scheduler → ℕ → ModuleStats
module_stats s i = if leb s.module_count i then no_stats else (entry_at s i).stats

pub set_takt_budget_us : Scheduler → ℕ → Scheduler
set_takt_budget_us s budget_us = record s { takt_budget_us = budget_us }

pub set_takt_period_ms : Scheduler → ℕ → Scheduler
set_takt_period_ms s period_ms = record s { takt_period_ms = period_ms }
