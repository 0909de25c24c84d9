-- ===== src/Scheduler/Shutdown.antt =====
-- The shutdown of all modules: each active module once, in the order of registration.
use takt_os.Base.{
  ℕ, zero, suc, ◌+◌, ◌≤◌, ◌≡◌, refl, ap, ◌∙◌, List, [], ◌∷◌, ◌++◌, Option, none, some, Bool, true,
  false, ltb, arith, length, take, drop, take-append-drop, length-append, length-take,
}
use takt_os.Scheduler.{
  Scheduler, ModuleEntry, ModuleStats, Hooks, max_modules, shutdown_module, shutdown_from,
  shutdown_all,
}
use takt_os.Scheduler.Modules.{IsTable}
use takt_os.Scheduler.Entries.{closed_entry}
use takt_os.Scheduler.Takt.{with_modules, get_or-middle, set-middle, append_assoc}

-- The table behind a shutdown.
abbrev pub closed_all : List ModuleEntry → List ModuleEntry
closed_all [] = []
closed_all (e ∷ es) = closed_entry e ∷ closed_all es

module _ {W : Type 0} (act : ℕ → W → W) where
  -- What the `shutdown` of an entry's module does to the world, if the entry is active.
  abbrev pub shut_as : Option ℕ → Bool → W → W
  shut_as none active w = w
  shut_as (some p) false w = w
  shut_as (some p) true w = act p w

  -- The shutdowns of a list of modules, one after the other.
  abbrev pub shut_each : List ModuleEntry → W → W
  shut_each [] w = w
  shut_each (e ∷ es) w = shut_each es (shut_as e.module_id e.active w)

  module _ (h : Hooks W)
      (passive : (p : ℕ) (s : Scheduler) (w : W) → h.shutdown p (s, w) ≡ (s, act p w)) where
    shutdown_module-middle :
        (s : Scheduler) (front back : List ModuleEntry) (o : Option ℕ) (st : ModuleStats)
        (active : Bool) (w : W)
        → let e : ModuleEntry = record { module_id = o; stats = st; active = active } in
          shutdown_module h (length front) (with_modules s (front ++ e ∷ back), w)
          ≡ (with_modules s (front ++ closed_entry e ∷ back), shut_as o active w)
    unfolding shutdown_module
    shutdown_module-middle s front back none st active w =
        rw
          (
            shutdown_module,
            get_or-middle front back (record { module_id = none; stats = st; active = active }),
          )
          refl
    shutdown_module-middle s front back (some p) st false w =
        let e : ModuleEntry = record { module_id = some p; stats = st; active = false } in
        rw (shutdown_module, get_or-middle front back e, get_or-middle front back e) refl
    shutdown_module-middle s front back (some p) st true w =
        let e : ModuleEntry = record { module_id = some p; stats = st; active = true } in
        rw
          (
            shutdown_module,
            get_or-middle front back e,
            get_or-middle front back e,
            passive p (with_modules s (front ++ e ∷ back)) w,
            get_or-middle front back e,
          )
          (ap (λ l. (with_modules s l, act p w)) (set-middle front back e (closed_entry e)))

    -- The loop on a table of which the places before `i` are done.
    shutdown_from-middle :
        (n : ℕ) (s : Scheduler) (front todo back : List ModuleEntry) (w : W)
        → s.module_count ≡ length front + length todo
        → length todo ≤ n
        → shutdown_from h n (length front) (with_modules s (front ++ (todo ++ back)), w)
          ≡ (with_modules s (front ++ (closed_all todo ++ back)), shut_each todo w)
    unfolding shutdown_from
    shutdown_from-middle zero s front [] back w count room = refl
    shutdown_from-middle zero s front (e ∷ todo) back w count room = absurd (omega arith)
    shutdown_from-middle (suc n) s front [] back w count room =
        let over : ltb (length front) s.module_count ≡ false = ground arith in rw over refl
    shutdown_from-middle (suc n) s front (e ∷ todo) back w count room =
        let under : ltb (length front) s.module_count ≡ true = ground arith in
        let here = closed_entry e in
        let front' = front ++ here ∷ [] in
        let next : length front' ≡ length front + 1 = length-append front (here ∷ []) in
        let ih =
          shutdown_from-middle n s front' todo back (shut_as e.module_id e.active w)
            (omega (arith, next, count)) (omega arith) in
        rw (under, shutdown_module-middle s front (todo ++ back) e.module_id e.stats e.active w)
          (rw
            (
              next,
              append_assoc front (here ∷ []) (todo ++ back),
              append_assoc front (here ∷ []) (closed_all todo ++ back),
            )
            at ih)

    -- On a well-formed table with modules whose `shutdown` leaves the scheduler alone, `shutdownAll`
    -- calls the `shutdown` of every registered module that is active, once and in the order of
    -- registration, and of no other; it sets these modules to the state Shutdown and keeps the rest
    -- of the table and of the scheduler as it was.
    pub shutdown_all_lem :
        (s : Scheduler) (w : W)
        → IsTable s
        → shutdown_all h (s, w) ≡ (
          record s {
            modules = closed_all (take s.module_count s.modules) ++ drop s.module_count s.modules;
          },
          shut_each (take s.module_count s.modules) w,
        )
    unfolding shutdown_all
    shutdown_all_lem s w v =
        let todo = take s.module_count s.modules in
        let back = drop s.module_count s.modules in
        let all : todo ++ back ≡ s.modules = take-append-drop s.module_count s.modules in
        let size : length todo ≡ s.module_count =
          length-take s.module_count s.modules ∙ omega (arith, v.room, v.places) in
        let run =
          shutdown_from-middle max_modules s [] todo back w (omega (arith, size))
            (omega (arith, size, v.room)) in
        rw all at run
