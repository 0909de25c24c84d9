-- ===== src/Kernel.antt =====
-- kernel/include/takt/kernel.hpp and kernel/src/kernel.cpp: boot, run and shutdown over the scheduler.
-- The kernel's flags lie with `rest`, what the modules change, beside the scheduler, since a module
-- may call the kernel. The build is that of the host; the log is left out.
pub mod Lite
pub mod Shutdown
mod Tests
use takt_os.Base.{ℕ, zero, suc, Bool, true, false, not, if◌then◌else◌}
use takt_os.Scheduler.{Scheduler, SchedulerStats, Hooks, init_all, run_takt, shutdown_all}
use takt_os.Diagnostics.{HeapInfo}

pub record KernelFlags : Type 0 where
  pub running : Bool
  pub shutdown : Bool
  pub boot_time_ms : ℕ

abbrev pub new_flags : KernelFlags
new_flags = record { running = false; shutdown = false; boot_time_ms = 0 }

pub record System (V : Type 0) : Type 0 where
  pub flags : KernelFlags
  pub rest : V

pub record KernelStats : Type 0 where
  pub scheduler : SchedulerStats
  pub heap_free : ℕ
  pub heap_min_free : ℕ
  pub largest_block : ℕ
  pub uptime_ms : ℕ
  pub reset_reason : ℕ

abbrev pub system_boot_event : ℕ
system_boot_event = 0x0001

abbrev pub system_ready_event : ℕ
system_ready_event = 0x0002

abbrev pub system_shutdown_event : ℕ
system_shutdown_event = 0x0003

abbrev pub stack_overflow_event : ℕ
stack_overflow_event = 0x0006

abbrev pub set_running : {V : Type 0} → Bool → Scheduler × System V → Scheduler × System V
set_running on s = (s.0, record (s.1) { flags = record (s.1.flags) { running = on } })

abbrev pub set_shutdown : {V : Type 0} → Scheduler × System V → Scheduler × System V
set_shutdown s = (s.0, record (s.1) { flags = record (s.1.flags) { shutdown = true } })

abbrev pub set_boot_time : {V : Type 0} → ℕ → Scheduler × System V → Scheduler × System V
set_boot_time ms s = (s.0, record (s.1) { flags = record (s.1.flags) { boot_time_ms = ms } })

-- What the kernel calls: the event bus, the settings and the diagnostics.
pub record KernelHooks (V : Type 0) : Type 0 where
  pub publish : ℕ → Scheduler × System V → Scheduler × System V
  pub nvs_init : Scheduler × System V → Bool × Scheduler × System V
  pub nvs_backup : Scheduler × System V → Scheduler × System V
  pub heap_info : V → HeapInfo
  pub check_stacks : V → Bool

module _ {V : Type 0} (h : Hooks (System V)) where
  -- `Scheduler::run`, which has no end, for `n` takts.
  pub run_takts : ℕ → Scheduler × System V → Scheduler × System V
  run_takts zero s = s
  run_takts (suc n) s = run_takts n (run_takt h s)

module _ {V : Type 0} (h : Hooks (System V)) (k : KernelHooks V) where
  pub boot : Scheduler × System V → Bool × Scheduler × System V
  boot s =
      let (has_nvs, s1, y1) = k.nvs_init (set_boot_time 0 s) in
      let s2 : Scheduler × System V = if not has_nvs then (s1, y1) else k.nvs_backup (s1, y1) in
      let (ready, s3, y3) = init_all h (k.publish system_boot_event s2) in
      let s4 = set_running true (k.publish system_ready_event (s3, y3)) in
      if not ready then (false, s3, y3) else (true, s4.0, s4.1)

  pub run : ℕ → Scheduler × System V → Scheduler × System V
  run n s = if not s.1.flags.running then s else run_takts h n s

  unfoldable pub request_shutdown : Scheduler × System V → Scheduler × System V
  request_shutdown s =
      let s1 = k.publish system_shutdown_event (set_shutdown s) in
      set_running false (shutdown_all h (k.nvs_backup s1))

  pub update_memory_stats : V → KernelStats → KernelStats
  update_memory_stats rest stats =
      let heap = k.heap_info rest in
      record stats {
        heap_free = heap.total_free;
        heap_min_free = heap.min_free_ever;
        largest_block = heap.largest_block;
      }

  pub detect_stack_overflow : Scheduler × System V → Scheduler × System V
  detect_stack_overflow s =
      if not (k.check_stacks s.1.rest) then k.publish stack_overflow_event s else s

  pub collect_stats : Scheduler × System V → KernelStats
  collect_stats s =
      let stats : KernelStats = record {
        scheduler = s.0.stats;
        heap_free = 0;
        heap_min_free = 0;
        largest_block = 0;
        uptime_ms = 0;
        reset_reason = 0;
      } in
      update_memory_stats s.1.rest stats
