-- ===== src/Scheduler/Tests.antt =====
-- Runs of the scheduler on concrete inputs.
use takt_os.Base.{
  ℕ, List, [], ◌+◌, ◌*◌, ◌<◌, ◌≡◌, ◌≢◌, ◌⊎◌, refl, ◌∷◌, ◌++◌, Option, none, some, true, false,
  arith, replicate, take, drop, ◌==◌, if◌then◌else◌,
}
use takt_os.Scheduler.{
  Scheduler, ModuleEntry, ModuleState, ModuleType, Hooks, max_modules, invalid_module_id, no_module,
  no_stats, entry_at, register_module, run_from, shutdown_all,
}
use takt_os.Scheduler.Modules.{IsTable, register_module_lem}
use takt_os.Scheduler.Shutdown.{closed_all, shutdown_all_lem}
use takt_os.Scheduler.Takt.{visit_all, run_from_lem}

abbrev empty_scheduler : Scheduler
empty_scheduler = record {
  modules = replicate 48 no_module;
  module_count = 0;
  stats = record {
    total_takts = 0;
    total_takt_us = 0;
    max_takt_us = 0;
    last_takt_us = 0;
    overrun_count = 0;
    registered_modules = 0;
  };
  takt_budget_us = 0;
  takt_period_ms = 1;
}

empty_scheduler-IsTable : IsTable empty_scheduler
empty_scheduler-IsTable = record { places = refl; room = omega arith }

register_module_lem_example :
    let six : Option ℕ = some 6 in
    let (mod_id, s') = register_module empty_scheduler six in
    IsTable s'
    × (((mod_id ≡ invalid_module_id)
          × (s' ≡ empty_scheduler)
          × ((six ≡ none) ⊎ (empty_scheduler.module_count ≡ max_modules)))
        ⊎ ((mod_id ≡ empty_scheduler.module_count)
            × (empty_scheduler.module_count < max_modules)
            × (s'.module_count ≡ empty_scheduler.module_count + 1)
            × ((entry_at s' mod_id).module_id ≡ six)
            × ((entry_at s' mod_id).active ≡ true)
            × ((entry_at s' mod_id).stats.state ≡ ModuleState.registered)
            × ((j : ℕ) → j ≢ mod_id → entry_at s' j ≡ entry_at empty_scheduler j)))
register_module_lem_example = register_module_lem empty_scheduler (some 6) empty_scheduler-IsTable

-- The world is a clock; module `p` takes `10 * p` microseconds, and module 2 works in the background.
abbrev spend : ℕ → ℕ → ℕ
spend p w = w + 10 * p

abbrev kind_of : ℕ → ModuleType
kind_of p = if p == 2 then ModuleType.background_type else ModuleType.static_type

abbrev clock_hooks : Hooks ℕ
clock_hooks = record {
  now_us = λ w. (w, w + 1);
  tick_timers = λ period s. s;
  dispatch_queued = λ s. s;
  publish_overrun = λ us budget s. s;
  init = λ p s. (true, s.0, s.1);
  tick = λ p s. (s.0, spend p s.1);
  shutdown = λ p s. s;
  module_type = kind_of;
  budget_us = λ p. 15;
  has_work = λ p w. false;
}

abbrev ready_entry : ℕ → ModuleEntry
ready_entry p = record {
  module_id = some p;
  stats = record no_stats { state = ModuleState.ready };
  active = true;
}

abbrev three_modules : Scheduler
three_modules = record empty_scheduler {
  modules = ready_entry 1 ∷ ready_entry 2 ∷ ready_entry 3 ∷ replicate 45 no_module;
  module_count = 3;
}

three_modules-IsTable : IsTable three_modules
three_modules-IsTable = record { places = refl; room = omega arith }

run_from_lem_example : run_from clock_hooks 48 0 (three_modules, 100) ≡ (
  record three_modules {
    modules =
        (visit_all clock_hooks spend (take 3 three_modules.modules) 100).0
        ++ drop 3 three_modules.modules;
  },
  (visit_all clock_hooks spend (take 3 three_modules.modules) 100).1,
)
run_from_lem_example =
    run_from_lem clock_hooks spend (λ p s w. refl) three_modules 100 three_modules-IsTable

-- A world that is the list of the modules that were shut down, the last first.
abbrev noting_hooks : Hooks (List ℕ)
noting_hooks = record {
  now_us = λ w. (0, w);
  tick_timers = λ period s. s;
  dispatch_queued = λ s. s;
  publish_overrun = λ us budget s. s;
  init = λ p s. (true, s.0, s.1);
  tick = λ p s. s;
  shutdown = λ p s. (s.0, p ∷ s.1);
  module_type = kind_of;
  budget_us = λ p. 15;
  has_work = λ p w. false;
}

-- Module 2 was unregistered.
abbrev two_active : Scheduler
two_active = record three_modules {
  modules =
      ready_entry 1
      ∷ record (ready_entry 2) { active = false }
      ∷ ready_entry 3
      ∷ replicate 45 no_module;
}

two_active-IsTable : IsTable two_active
two_active-IsTable = record { places = refl; room = omega arith }

shutdown_all_lem_example : shutdown_all noting_hooks (two_active, []) ≡ (
  record two_active {
    modules = closed_all (take 3 two_active.modules) ++ drop 3 two_active.modules;
  },
  3 ∷ 1 ∷ [],
)
shutdown_all_lem_example =
    shutdown_all_lem (λ p w. p ∷ w) noting_hooks (λ p s w. refl) two_active [] two_active-IsTable
