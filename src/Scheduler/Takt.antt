-- ===== src/Scheduler/Takt.antt =====
-- The loop of a takt visits the registered modules once each, in the order of registration.
use takt_os.Base.{
  ℕ, zero, suc, ◌+◌, ◌≤◌, ◌≡◌, refl, ap, ◌∙◌, List, [], ◌∷◌, ◌++◌, Option, none, some, Bool, true,
  false, ltb, if◌then◌else◌, arith, Bool-cases, inl, inr, get_or, set, length, take, drop,
  take-append-drop, length-append, length-take,
}
use takt_os.Scheduler.{
  Scheduler, ModuleEntry, ModuleState, ModuleStats, Hooks, max_modules, no_module, should_run,
  skip_module, tick_module, run_module, run_from, ticked, elapsed_us, skipped, is_background,
}
use takt_os.Scheduler.Modules.{IsTable}

abbrev pub with_modules : Scheduler → List ModuleEntry → Scheduler
with_modules s modules = record s { modules = modules }

pub get_or-middle :
    (front back : List ModuleEntry) (e : ModuleEntry)
    → get_or (front ++ e ∷ back) (length front) no_module ≡ e
get_or-middle [] back e = refl
get_or-middle (x ∷ front) back e = get_or-middle front back e

pub set-middle :
    (front back : List ModuleEntry) (e e' : ModuleEntry)
    → set (front ++ e ∷ back) (length front) e' ≡ front ++ e' ∷ back
set-middle [] back e e' = refl
set-middle (x ∷ front) back e e' = ap (λ xs. x ∷ xs) (set-middle front back e e')

pub append_assoc : (xs ys zs : List ModuleEntry) → (xs ++ ys) ++ zs ≡ xs ++ (ys ++ zs)
append_assoc [] ys zs = refl
append_assoc (x ∷ xs) ys zs = ap (λ l. x ∷ l) (append_assoc xs ys zs)

module _ {W : Type 0} (h : Hooks W) (act : ℕ → W → W) where
  -- A module that a takt runs, with its statistics and the world afterwards.
  abbrev pub visit_ticked : ModuleEntry → ℕ → W → ModuleEntry × W
  visit_ticked e p w =
      let start = h.now_us w in
      let end = h.now_us (act p start.1) in
      (record e { stats = ticked (elapsed_us start.0 end.0) (h.budget_us p) e.stats }, end.1)

  abbrev pub visit_skipped : ModuleEntry → ℕ → ModuleEntry
  visit_skipped e p =
      if is_background (h.module_type p) then record e { stats = skipped e.stats } else e

  -- One module's turn.
  pub visit : ModuleEntry → W → ModuleEntry × W
  visit e w = elim e.module_id [
    | none ↦ (e, w)
    | some p ↦ if should_run h e w then visit_ticked e p w else (visit_skipped e p, w)
  ]

  -- The turns of a list of modules, one after the other.
  pub visit_all : List ModuleEntry → W → List ModuleEntry × W
  visit_all [] w = ([], w)
  visit_all (e ∷ es) w =
      let here = visit e w in let rest = visit_all es here.1 in (here.0 ∷ rest.0, rest.1)

  module _ (passive : (p : ℕ) (s : Scheduler) (w : W) → h.tick p (s, w) ≡ (s, act p w)) where
    tick_module-visit :
        (s : Scheduler) (front back : List ModuleEntry) (e : ModuleEntry) (p : ℕ) (w : W)
        → tick_module h p (length front) (with_modules s (front ++ e ∷ back), w)
          ≡ (with_modules s (front ++ (visit_ticked e p w).0 ∷ back), (visit_ticked e p w).1)
    tick_module-visit s front back e p w =
        let busy = record e { stats = record e.stats { state = ModuleState.running } } in
        rw
          (
            get_or-middle front back e,
            set-middle front back e busy,
            passive p (with_modules s (front ++ busy ∷ back)) (h.now_us w).1,
            get_or-middle front back busy,
          )
          (ap (λ l. (with_modules s l, (visit_ticked e p w).1))
            (set-middle front back busy (visit_ticked e p w).0))

    skip_module-visit :
        (s : Scheduler) (front back : List ModuleEntry) (mod_id : Option ℕ) (st : ModuleStats)
        (active : Bool) (w : W)
        → let e : ModuleEntry = record { module_id = mod_id; stats = st; active = active } in
          skip_module h (length front) (with_modules s (front ++ e ∷ back), w) ≡ (
            with_modules s (front ++ elim mod_id [ none ↦ e | some p ↦ visit_skipped e p ] ∷ back),
            w,
          )
    skip_module-visit s front back none st active w =
        let e : ModuleEntry = record { module_id = none; stats = st; active = active } in
        rw (skip_module, get_or-middle front back e) refl
    skip_module-visit s front back (some p) st active w =
        let e : ModuleEntry = record { module_id = some p; stats = st; active = active } in
        elim (Bool-cases (is_background (h.module_type p))) [
          | inl back_type ↦
              rw (skip_module, get_or-middle front back e, back_type, get_or-middle front back e)
                (ap (λ l. (with_modules s l, w))
                  (set-middle front back e (record e { stats = skipped e.stats })))
          | inr other ↦ rw (skip_module, get_or-middle front back e, other) refl
        ]

    run_module-visit :
        (s : Scheduler) (front back : List ModuleEntry) (mod_id : Option ℕ) (st : ModuleStats)
        (active : Bool) (w : W)
        → let e : ModuleEntry = record { module_id = mod_id; stats = st; active = active } in
          run_module h (length front) (with_modules s (front ++ e ∷ back), w)
          ≡ (with_modules s (front ++ (visit e w).0 ∷ back), (visit e w).1)
    unfolding run_module visit
    run_module-visit s front back none st active w =
        let e : ModuleEntry = record { module_id = none; stats = st; active = active } in
        rw (get_or-middle front back e) (skip_module-visit s front back none st active w)
    run_module-visit s front back (some p) st active w =
        let e : ModuleEntry = record { module_id = some p; stats = st; active = active } in
        elim (Bool-cases (should_run h e w)) [
          | inl runs ↦ rw (get_or-middle front back e, runs) (tick_module-visit s front back e p w)
          | inr idle ↦
              rw (get_or-middle front back e, idle)
                (skip_module-visit s front back (some p) st active w)
        ]

    -- The loop on a table of which the places before `i` are done.
    run_from-visit :
        (n : ℕ) (s : Scheduler) (front todo back : List ModuleEntry) (w : W)
        → s.module_count ≡ length front + length todo
        → length todo ≤ n
        → run_from h n (length front) (with_modules s (front ++ (todo ++ back)), w)
          ≡ (with_modules s (front ++ ((visit_all todo w).0 ++ back)), (visit_all todo w).1)
    unfolding run_from visit_all
    run_from-visit zero s front [] back w count room = refl
    run_from-visit zero s front (e ∷ todo) back w count room = absurd (omega arith)
    run_from-visit (suc n) s front [] back w count room =
        let over : ltb (length front) s.module_count ≡ false = ground arith in rw over refl
    run_from-visit (suc n) s front (e ∷ todo) back w count room =
        let under : ltb (length front) s.module_count ≡ true = ground arith in
        let here = visit e w in
        let front' = front ++ here.0 ∷ [] in
        let next : length front' ≡ length front + 1 = length-append front (here.0 ∷ []) in
        let rest = visit_all todo here.1 in
        let ih =
          run_from-visit n s front' todo back here.1 (omega (arith, next, count)) (omega arith) in
        rw (under, run_module-visit s front (todo ++ back) e.module_id e.stats e.active w)
          (rw
            (
              next,
              append_assoc front (here.0 ∷ []) (todo ++ back),
              append_assoc front (here.0 ∷ []) (rest.0 ++ back),
            )
            at ih)

    -- On a well-formed table with modules whose ticks leave the scheduler alone, the loop
    -- of a takt gives each registered module one turn, in the order of registration, and
    -- leaves the rest of the table as it was. In its turn a module that may run is ticked
    -- and its time counted; a background module that does not run has its skips counted.
    pub run_from_lem :
        (s : Scheduler) (w : W)
        → IsTable s
        → run_from h max_modules 0 (s, w) ≡ (
          record s {
            modules =
                (visit_all (take s.module_count s.modules) w).0 ++ drop s.module_count s.modules;
          },
          (visit_all (take s.module_count s.modules) w).1,
        )
    run_from_lem s w v =
        let todo = take s.module_count s.modules in
        let back = drop s.module_count s.modules in
        let all : todo ++ back ≡ s.modules = take-append-drop s.module_count s.modules in
        let size : length todo ≡ s.module_count =
          length-take s.module_count s.modules ∙ omega (arith, v.room, v.places) in
        let run =
          run_from-visit max_modules s [] todo back w (omega (arith, size))
            (omega (arith, size, v.room)) in
        rw all at run
