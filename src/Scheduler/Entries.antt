-- ===== src/Scheduler/Entries.antt =====
-- Which entries of the table a shutdown changes, and what it calls.
use takt_os.Base.{
  ℕ, zero, suc, ◌+◌, ◌≤◌, ◌<◌, ◌≡◌, ◌≢◌, refl, ap, sym, ◌∙◌, Option, none, some, Bool, true, false,
  ltb, if◌then◌else◌, arith, subst, Bool-cases, ◌⊎◌, inl, inr, ℕ_discrete, length, length-set,
  get_or-set_self, get_or-set_ne,
}
use takt_os.Scheduler.{
  Scheduler, ModuleEntry, ModuleState, Hooks, max_modules, no_module, entry_at, set_state,
  should_run, run_module, tick_module, shutdown_module, shutdown_from, shutdown_all,
}
use takt_os.Scheduler.Modules.{IsTable}

-- What a shutdown makes of an entry: an active module is shut down. The module and whether it is
-- active are arguments of their own.
abbrev closed_as : Option ℕ → Bool → ModuleEntry → ModuleEntry
closed_as none active e = e
closed_as (some p) false e = e
closed_as (some p) true e = record e { stats = record e.stats { state = ModuleState.shut_down } }

abbrev pub closed_entry : ModuleEntry → ModuleEntry
closed_entry e = closed_as e.module_id e.active e

-- A step of the loop, on the scheduler alone.
abbrev step_as : Option ℕ → Bool → ℕ → Scheduler → Scheduler
step_as none active i s = s
step_as (some p) false i s = s
step_as (some p) true i s = set_state s i ModuleState.shut_down

-- What a step keeps, and what it changes.
record IsStep (o : Option ℕ) (active : Bool) (i : ℕ) (s t : Scheduler) : Type 0 where
  same_count : t.module_count ≡ s.module_count
  same_length : length t.modules ≡ length s.modules
  here : i < length s.modules → entry_at t i ≡ closed_as o active (entry_at s i)
  others : (j : ℕ) → j ≢ i → entry_at t j ≡ entry_at s j

same-IsStep :
    (o : Option ℕ) (active : Bool) (i : ℕ) (s : Scheduler)
    → closed_as o active (entry_at s i) ≡ entry_at s i
    → IsStep o active i s s
same-IsStep o active i s e = record {
  same_count = refl;
  same_length = refl;
  here = λ h. sym e;
  others = λ j ne. refl;
}

step_as-IsStep :
    (o : Option ℕ) (active : Bool) (i : ℕ) (s : Scheduler)
    → IsStep o active i s (step_as o active i s)
step_as-IsStep none active i s = same-IsStep none active i s refl
step_as-IsStep (some p) false i s = same-IsStep (some p) false i s refl
step_as-IsStep (some p) true i s =
    let e = closed_as (some p) true (entry_at s i) in
    record {
      same_count = refl;
      same_length = length-set s.modules i e;
      here = λ h. get_or-set_self s.modules i e no_module h;
      others = λ j ne. get_or-set_ne s.modules i j e no_module (λ q. ne (sym q));
    }

module _ {W : Type 0} (h : Hooks W)
    (passive : (p : ℕ) (s : Scheduler × W) → (h.shutdown p s).0 ≡ s.0) where
  shut_as-step_as :
      (o : Option ℕ) (active : Bool) (i : ℕ) (s : Scheduler × W)
      → (elim o as (λ _. Scheduler × W) [
        | none ↦ s
        | some p ↦
            if active
            then (set_state (h.shutdown p s).0 i ModuleState.shut_down, (h.shutdown p s).1)
            else s
      ]).0
        ≡ step_as o active i s.0
  shut_as-step_as none active i s = refl
  shut_as-step_as (some p) false i s = refl
  shut_as-step_as (some p) true i s = ap (λ t. set_state t i ModuleState.shut_down) (passive p s)

  shutdown_module-IsStep :
      (i : ℕ) (s : Scheduler × W)
      → IsStep (entry_at s.0 i).module_id (entry_at s.0 i).active i s.0 (shutdown_module h i s).0
  unfolding shutdown_module
  shutdown_module-IsStep i s =
      let o = (entry_at s.0 i).module_id in
      let active = (entry_at s.0 i).active in
      subst (IsStep o active i s.0) (sym (shut_as-step_as o active i s))
        (step_as-IsStep o active i s.0)

  -- The loop from place `i` on.
  record IsClosed (n i : ℕ) (s t : Scheduler) : Type 0 where
    same_count : t.module_count ≡ s.module_count
    same_length : length t.modules ≡ length s.modules
    reached :
        (j : ℕ)
        → i ≤ j
        → j < s.module_count
        → j < i + n
        → entry_at t j ≡ closed_entry (entry_at s j)
    others : (j : ℕ) → (j < i) ⊎ (s.module_count ≤ j) → entry_at t j ≡ entry_at s j

  shutdown_from-IsClosed :
      (n i : ℕ) (s : Scheduler × W)
      → s.0.module_count ≤ length s.0.modules
      → IsClosed n i s.0 (shutdown_from h n i s).0
  unfolding shutdown_from
  shutdown_from-IsClosed zero i s room = record {
    same_count = refl;
    same_length = refl;
    reached = λ j low below high. absurd (omega arith);
    others = λ j out. refl;
  }
  shutdown_from-IsClosed (suc n) i s room =
      let s1 = shutdown_module h i s in
      let step = shutdown_module-IsStep i s in
      elim (Bool-cases (ltb i s.0.module_count)) [
        | inr end ↦ rw end (record {
          same_count = refl;
          same_length = refl;
          reached = λ j low below high.
              let past : s.0.module_count ≤ i = ground (arith, end) in absurd (omega arith);
          others = λ j out. refl;
        })
        | inl more ↦
            let rest =
              shutdown_from-IsClosed n (i + 1) s1
                (omega (arith, step.same_count, step.same_length)) in
            rw more (record {
              same_count = rest.same_count ∙ step.same_count;
              same_length = rest.same_length ∙ step.same_length;
              reached = λ j low below high. elim (ℕ_discrete i j) [
                | yes same ↦
                    rest.others j (inl (omega arith))
                    ∙ ap (λ k. entry_at s1.0 k) (sym same)
                    ∙ step.here (omega (arith, below, room, same))
                    ∙ ap (λ k. closed_entry (entry_at s.0 k)) same
                | no ne ↦
                    rest.reached j (omega arith) (omega (arith, step.same_count)) (omega arith)
                    ∙ ap closed_entry (step.others j (λ q. ne (sym q)))
              ];
              others = λ j out.
                  let before : i < s.0.module_count = ground (arith, more) in
                  let ne : j ≢ i =
                    λ q. elim out [ inl a ↦ omega (arith, q) | inr a ↦ omega (arith, q, a) ] in
                  rest.others j (elim out [
                    | inl a ↦ inl (omega arith)
                    | inr a ↦ inr (omega (arith, a, step.same_count))
                  ])
                  ∙ step.others j ne;
            })
      ]

  -- On a well-formed table, with modules whose `shutdown` leaves the table alone: `shutdownAll` sets
  -- every active module that is registered to the state Shutdown. It keeps all other entries, the
  -- count and the number of places.
  pub shutdown_all-entry_at :
      (s : Scheduler × W)
      → IsTable s.0
      → let t = (shutdown_all h s).0 in
        (t.module_count ≡ s.0.module_count)
        × (length t.modules ≡ length s.0.modules)
        × ((j : ℕ) → j < s.0.module_count → entry_at t j ≡ closed_entry (entry_at s.0 j))
        × ((j : ℕ) → s.0.module_count ≤ j → entry_at t j ≡ entry_at s.0 j)
  unfolding shutdown_all
  shutdown_all-entry_at s v =
      let done = shutdown_from-IsClosed max_modules 0 s (omega (arith, v.places, v.room)) in
      (
        done.same_count,
        done.same_length,
        λ j below. done.reached j (omega arith) below (omega (arith, v.room)),
        λ j out. done.others j (inr out),
      )

-- The turn of a module that a takt runs.
pub run_module-tick_module :
    {W : Type 0} (h : Hooks W) (i p : ℕ) (s : Scheduler × W)
    → should_run h (entry_at s.0 i) s.1 ≡ true
    → (entry_at s.0 i).module_id ≡ some p
    → run_module h i s ≡ tick_module h p i s
unfolding run_module
run_module-tick_module {W} h i p s runs taken =
    rw runs
      (ap (λ o. elim o as (λ _. Scheduler × W) [ none ↦ s | some q ↦ tick_module h q i s ]) taken)

-- `shutdownAll` calls nothing of the modules but `shutdown`.
shutdown_as : {W : Type 0} → (ℕ → Scheduler × W → Scheduler × W) → ℕ → Scheduler × W → Scheduler × W
shutdown_as {W} f i s = elim (entry_at s.0 i).module_id as (λ _. Scheduler × W) [
  | none ↦ s
  | some p ↦
      if (entry_at s.0 i).active
      then (set_state (f p s).0 i ModuleState.shut_down, (f p s).1)
      else s
]

module _ {W : Type 0} (h g : Hooks W) (same : h.shutdown ≡ g.shutdown) where
  shutdown_from-same : (n i : ℕ) (s : Scheduler × W) → shutdown_from h n i s ≡ shutdown_from g n i s
  unfolding shutdown_from shutdown_module shutdown_as
  shutdown_from-same zero i s = refl
  shutdown_from-same (suc n) i s =
      let one : shutdown_module h i s ≡ shutdown_module g i s = ap (λ f. shutdown_as f i s) same in
      ap (λ r. if ltb i (s.0).module_count then r else s)
        (shutdown_from-same n (i + 1) (shutdown_module h i s) ∙ ap (shutdown_from g n (i + 1)) one)

  pub shutdown_all-same : (s : Scheduler × W) → shutdown_all h s ≡ shutdown_all g s
  unfolding shutdown_all
  shutdown_all-same s = shutdown_from-same max_modules 0 s
