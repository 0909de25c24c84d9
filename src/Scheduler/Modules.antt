-- ===== src/Scheduler/Modules.antt =====
-- The table of modules: registration, and which modules a takt calls.
use takt_os.Base.{
  ℕ, ◌+◌, ◌%◌, ◌^◌, ◌≤◌, ◌<◌, ◌≡◌, ◌≢◌, refl, ap, sym, ◌∙◌, Option, none, some, true, false, leb,
  ◌⊎◌, arith, inl, inr, get_or, set, length, length-set, get_or-set_self, get_or-set_ne, ℕ_discrete,
}
use takt_os.Scheduler.{
  Scheduler, ModuleState, max_modules, invalid_module_id, no_module, entry_at, register_module,
}

-- The table has 48 places, of which those below the count are taken.
pub record IsTable (s : Scheduler) : Type 0 where
  pub places : length s.modules ≡ max_modules
  pub room : s.module_count ≤ max_modules

-- On a well-formed table, `registerModule` refuses the null pointer, and every module once 48
-- are registered; then nothing changes. Otherwise it returns the next identifier, under which
-- the module is registered and active, and leaves all other entries as they were. The table
-- stays well formed.
pub register_module_lem :
    (s : Scheduler) (mod_ptr : Option ℕ)
    → IsTable s
    → let (mod_id, s') = register_module s mod_ptr in
      IsTable s'
      × (((mod_id ≡ invalid_module_id)
            × (s' ≡ s)
            × ((mod_ptr ≡ none) ⊎ (s.module_count ≡ max_modules)))
          ⊎ ((mod_id ≡ s.module_count)
              × (s.module_count < max_modules)
              × (s'.module_count ≡ s.module_count + 1)
              × ((entry_at s' mod_id).module_id ≡ mod_ptr)
              × ((entry_at s' mod_id).active ≡ true)
              × ((entry_at s' mod_id).stats.state ≡ ModuleState.registered)
              × ((j : ℕ) → j ≢ mod_id → entry_at s' j ≡ entry_at s j)))
unfolding register_module
register_module_lem s none v = (v, inl (refl, refl, inl refl))
register_module_lem s (some p) v = elim (ℕ_discrete s.module_count max_modules) [
  | yes full ↦
      let above : leb max_modules s.module_count ≡ true = ground arith in
      rw above (v, inl (refl, refl, inr full))
  | no ne ↦
      let free : s.module_count < max_modules = omega (arith, v.room) in
      let below : leb max_modules s.module_count ≡ false = ground arith in
      let id16 : s.module_count % 2 ^ 16 ≡ s.module_count = omega arith in
      let next : (s.module_count + 1) % 2 ^ 64 ≡ s.module_count + 1 = omega arith in
      let e = entry_at s s.module_count in
      let e' = record e {
        module_id = some p;
        active = true;
        stats = record e.stats { state = ModuleState.registered };
      } in
      let at : get_or (set s.modules s.module_count e') s.module_count no_module ≡ e' =
        get_or-set_self s.modules s.module_count e' no_module (omega (arith, v.places)) in
      rw (below, id16, next)
        (
          record { places = length-set s.modules s.module_count e' ∙ v.places; room = omega arith },
          inr (
            refl,
            free,
            refl,
            ap (λ x. x.module_id) at,
            ap (λ x. x.active) at,
            ap (λ x. x.stats.state) at,
            λ j d. get_or-set_ne s.modules s.module_count j e' no_module (λ x. d (sym x)),
          ),
        )
]
