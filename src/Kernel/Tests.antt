-- ===== src/Kernel/Tests.antt =====
-- Runs of the kernel, and its theorems at such runs.
use takt_os.Base.{ℕ, ◌+◌, ◌<◌, ◌≡◌, ◌≢◌, refl, ap, ◌∷◌, some, true, false, replicate, arith}
use takt_os.Scheduler.{
  Scheduler, ModuleEntry, ModuleState, ModuleType, Hooks, no_module, no_stats, entry_at, run_module,
}
use takt_os.Scheduler.Entries.{closed_entry, shutdown_all-same}
use takt_os.Diagnostics.{heap_info}
use takt_os.Kernel.{
  System, KernelHooks, new_flags, request_shutdown, set_running, set_shutdown,
  system_shutdown_event,
}
use takt_os.Kernel.Shutdown.{run_module-request_shutdown}

abbrev quiet_kernel : KernelHooks ℕ
quiet_kernel = record {
  publish = λ e s. s;
  nvs_init = λ s. (true, s.0, s.1);
  nvs_backup = λ s. s;
  heap_info = λ v. heap_info;
  check_stacks = λ v. true;
}

-- Modules that do nothing.
abbrev idle_hooks : Hooks (System ℕ)
idle_hooks = record {
  now_us = λ w. (w.rest, record w { rest = w.rest + 1 });
  tick_timers = λ period s. s;
  dispatch_queued = λ s. s;
  publish_overrun = λ us budget s. s;
  init = λ p s. (true, s.0, s.1);
  tick = λ p s. s;
  shutdown = λ p s. s;
  module_type = λ p. ModuleType.static_type;
  budget_us = λ p. 0;
  has_work = λ p w. false;
}

-- Every module requests the shutdown.
abbrev asking_hooks : Hooks (System ℕ)
asking_hooks = record idle_hooks { tick = λ p s. request_shutdown idle_hooks quiet_kernel s }

asks :
    (p : ℕ) (t : Scheduler × System ℕ)
    → asking_hooks.tick p t ≡ request_shutdown asking_hooks quiet_kernel t
unfolding request_shutdown
asks p t =
    ap (λ r. set_running false r)
      (shutdown_all-same idle_hooks asking_hooks refl
        (quiet_kernel.nvs_backup (quiet_kernel.publish system_shutdown_event (set_shutdown t))))

abbrev ready_entry : ℕ → ModuleEntry
ready_entry p = record {
  module_id = some p;
  stats = record no_stats { state = ModuleState.ready };
  active = true;
}

abbrev two_modules : Scheduler × System ℕ
two_modules = (
  record {
    modules = ready_entry 1 ∷ ready_entry 2 ∷ replicate 46 no_module;
    module_count = 2;
    stats = record {
      total_takts = 0;
      total_takt_us = 0;
      max_takt_us = 0;
      last_takt_us = 0;
      overrun_count = 0;
      registered_modules = 2;
    };
    takt_budget_us = 0;
    takt_period_ms = 1;
  },
  record { flags = record new_flags { running = true }; rest = 0 },
)

run_module-request_shutdown_example :
    let t = (run_module asking_hooks 1 two_modules).0 in
    ((entry_at t 1).stats.state ≡ ModuleState.ready)
    × ((j : ℕ) → j < 2 → j ≢ 1 → entry_at t j ≡ closed_entry (entry_at two_modules.0 j))
run_module-request_shutdown_example =
    run_module-request_shutdown asking_hooks quiet_kernel (λ p s. refl) (λ e s. refl) (λ s. refl)
      two_modules 1 2 (record { places = refl; room = omega arith }) (omega arith) refl refl
      (asks 2)
