-- ===== src/Sdk/Tests.antt =====
-- Calls of the C interface on fresh components, and its theorems at such calls.
use takt_os.Base.{ℕ, ◌+◌, ◌≤◌, ◌<◌, ◌≡◌, refl, List, [], ◌∷◌, none, some, ◌⊎◌, arith, replicate}
use takt_os.Base.Int.{pos, minus_one}
use takt_os.Scheduler.{Scheduler, no_module, entry_at}
use takt_os.Scheduler.Modules.{IsTable}
use takt_os.EventBus.{new_bus, deliver}
use takt_os.EventBus.Subscribers.{new_bus-IsCounted}
use takt_os.Sdk.{TaktModule, TaktModuleType, no_statics, takt_subscribe, callbacks}
use takt_os.Sdk.First.{register_list, register_list_first, takt_subscribe_first}

abbrev blinker : TaktModule
blinker = record {
  name = none;
  module_type = TaktModuleType.static_module;
  init = none;
  tick = some 1;
  shutdown = none;
  has_work = none;
  budget_us = 100;
  ctx = 7;
}

abbrev logger : TaktModule
logger = record blinker { tick = some 2; ctx = 8 }

abbrev empty_table : Scheduler
empty_table = record {
  modules = replicate 48 no_module;
  module_count = 0;
  stats = record {
    total_takts = 0;
    total_takt_us = 0;
    max_takt_us = 0;
    last_takt_us = 0;
    overrun_count = 0;
    registered_modules = 0;
  };
  takt_budget_us = 5000;
  takt_period_ms = 1;
}

empty_table-IsTable : IsTable empty_table
empty_table-IsTable = record { places = refl; room = omega arith }

register_list_first_example :
    let (statics, after) =
      register_list 500 501 502 (blinker ∷ logger ∷ []) (no_statics, empty_table) in
    (statics.adapter ≡ some blinker)
    × (after.module_count ≡ 2)
    × ((j : ℕ) → 0 ≤ j → j < after.module_count → (entry_at after j).module_id ≡ some 500)
register_list_first_example =
    register_list_first 500 501 502 blinker (logger ∷ []) (no_statics, empty_table) refl
      empty_table-IsTable

takt_subscribe_first_example :
    let (_, statics1, bus1) = takt_subscribe 500 501 502 0x0100 (some 1) 7 (no_statics, new_bus) in
    let (code, statics2, bus2) = takt_subscribe 500 501 502 0x0300 (some 2) 8 (statics1, bus1) in
    (code ≡ minus_one)
    ⊎ ((i : ℕ) × (code ≡ pos i)
        × ((p1 p2 : ℕ) (blob : List ℕ) (w : ℕ)
            → deliver
                (callbacks 500 501 502
                  (λ fn _ _ _ user s. (s.0, fn + user))
                  (λ _ _ _ s. s)
                  statics2)
                i
                (record { id = 0x0300; param1 = p1; param2 = p2; blob = blob })
                (bus2, w)
              ≡ (bus2, 1 + 7)))
takt_subscribe_first_example =
    takt_subscribe_first 500 501 502 (λ fn _ _ _ user s. (s.0, fn + user)) (λ _ _ _ s. s) no_statics
      new_bus 0x0100 0x0300 1 7 8 (some 2) refl new_bus-IsCounted
