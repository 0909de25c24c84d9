-- ===== src/Kernel/Shutdown.antt =====
-- A shutdown that a module requests in its own turn.
use takt_os.Base.{
  ℕ, ◌<◌, ◌≡◌, ◌≢◌, refl, ap, sym, subst, ◌∙◌, some, true, false, arith, length, length-set,
  get_or-set_self, get_or-set_ne,
}
use takt_os.Scheduler.{
  Scheduler, ModuleEntry, ModuleState, Hooks, no_module, entry_at, set_state, should_run,
  run_module, ticked, elapsed_us,
}
use takt_os.Scheduler.Modules.{IsTable}
use takt_os.Scheduler.Entries.{closed_entry, shutdown_all-entry_at, run_module-tick_module}
use takt_os.Kernel.{System, KernelHooks, request_shutdown, set_shutdown, system_shutdown_event}

module _ {V : Type 0} (h : Hooks (System V)) (k : KernelHooks V)
    (passive : (p : ℕ) (s : Scheduler × System V) → (h.shutdown p s).0 ≡ s.0)
    (published : (e : ℕ) (s : Scheduler × System V) → (k.publish e s).0 ≡ s.0)
    (saved : (s : Scheduler × System V) → (k.nvs_backup s).0 ≡ s.0) where
  -- With modules, subscribers and settings that leave the table alone: `requestShutdown`
  -- clears the running flag and sets every active module to the state Shutdown.
  request_shutdown_lem :
      (s : Scheduler × System V)
      → IsTable s.0
      → let t = request_shutdown h k s in
        (t.1.flags.running ≡ false)
        × (length t.0.modules ≡ length s.0.modules)
        × ((j : ℕ) → j < s.0.module_count → entry_at t.0 j ≡ closed_entry (entry_at s.0 j))
  unfolding request_shutdown
  request_shutdown_lem s v =
      let s1 = k.nvs_backup (k.publish system_shutdown_event (set_shutdown s)) in
      let same : s1.0 ≡ s.0 =
        saved (k.publish system_shutdown_event (set_shutdown s))
        ∙ published system_shutdown_event (set_shutdown s) in
      let (_, long, closed, _) = shutdown_all-entry_at h passive s1 (subst IsTable (sym same) v) in
      (
        refl,
        long ∙ ap (λ (t : Scheduler). length t.modules) same,
        λ j below.
            closed j (subst (λ (t : Scheduler). j < t.module_count) (sym same) below)
            ∙ ap (λ (t : Scheduler). closed_entry (entry_at t j)) same,
      )

  -- On a well-formed table, with modules, subscribers and settings that leave the table alone in a
  -- shutdown: when a registered module that a takt runs requests the shutdown in its tick, every other active module is in the state Shutdown
  -- behind its turn, but the module itself is in the state Ready.
  pub run_module-request_shutdown :
      (s : Scheduler × System V) (i p : ℕ)
      → IsTable s.0
      → i < s.0.module_count
      → (entry_at s.0 i).module_id ≡ some p
      → should_run h (entry_at s.0 i) s.1 ≡ true
      → ((t : Scheduler × System V) → h.tick p t ≡ request_shutdown h k t)
      → let t = (run_module h i s).0 in
        ((entry_at t i).stats.state ≡ ModuleState.ready)
        × ((j : ℕ) → j < s.0.module_count → j ≢ i → entry_at t j ≡ closed_entry (entry_at s.0 j))
  run_module-request_shutdown s i p v below taken runs asks =
      let (start, w1) = h.now_us s.1 in
      let e0 = entry_at s.0 i in
      let running : ModuleEntry = record e0 {
        stats = record e0.stats { state = ModuleState.running };
      } in
      let s1 : Scheduler × System V = (set_state s.0 i ModuleState.running, w1) in
      let places = length-set s.0.modules i running in
      let v1 : IsTable s1.0 = record { places = places ∙ v.places; room = v.room } in
      let (_, long, closed) = request_shutdown_lem s1 v1 in
      let s2 = request_shutdown h k s1 in
      let asked : h.tick p s1 ≡ s2 = asks s1 in
      let (end, w3) = h.now_us s2.1 in
      let e = entry_at s2.0 i in
      let e' : ModuleEntry = record e {
        stats = ticked (elapsed_us start end) (h.budget_us p) e.stats;
      } in
      let inside : i < length s2.0.modules = omega (arith, long, places, v.places, v.room) in
      rw (run_module-tick_module h i p s runs taken, asked)
        (
          ap (λ (x : ModuleEntry). x.stats.state)
              (get_or-set_self s2.0.modules i e' no_module inside),
          λ j low ne.
              get_or-set_ne s2.0.modules i j e' no_module (λ q. ne (sym q))
              ∙ closed j low
              ∙ ap closed_entry (get_or-set_ne s.0.modules i j running no_module (λ q. ne (sym q))),
        )
