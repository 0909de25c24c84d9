-- ===== src/Kernel/Lite.antt =====
-- lite/kernel_lite.cpp: the kernel without settings, events and diagnostics.
use takt_os.Base.{ℕ, Bool, true, false, not, if◌then◌else◌}
use takt_os.Scheduler.{Scheduler, Hooks, init_all, shutdown_all}
use takt_os.Kernel.{System, KernelStats, set_running, run_takts}

module _ {V : Type 0} (h : Hooks (System V)) where
  pub boot : Scheduler × System V → Bool × Scheduler × System V
  boot s =
      let (ready, s1, y1) = init_all h s in
      let s2 = set_running true (s1, y1) in
      if not ready then (false, s1, y1) else (true, s2.0, s2.1)

  -- The takts of `run`, which does not ask whether the kernel is booted.
  pub run : ℕ → Scheduler × System V → Scheduler × System V
  run n s = run_takts h n s

  pub request_shutdown : Scheduler × System V → Scheduler × System V
  request_shutdown s = set_running false (shutdown_all h s)

  pub collect_stats : Scheduler × System V → KernelStats
  collect_stats s = record {
    scheduler = s.0.stats;
    heap_free = 0;
    heap_min_free = 0;
    largest_block = 0;
    uptime_ms = 0;
    reset_reason = 0;
  }
