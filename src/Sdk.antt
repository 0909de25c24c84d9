-- ===== src/Sdk.antt =====
-- sdk/include/takt_sdk.h and sdk/src/takt_sdk.cpp: the C interface for modules of third parties, over
-- the scheduler, the event bus and the settings. The log helpers are output.
-- A function pointer and an address are numbers, 0 the null pointer of a context. The static objects
-- of `takt_register_module` and `takt_subscribe` are `Statics`: C++ constructs each at the first call
-- that reaches it.
pub mod First
mod Tests
use takt_os.Base.{ℕ, List, [], ◌∷◌, Option, none, some, Bool, true, false, ◌==◌, if◌then◌else◌}
use takt_os.Base.Int.{ℤ, minus_one, as_int}
use takt_os.Scheduler.{Scheduler, ModuleType, register_module}
use takt_os.EventBus.{EventBus, EventData, subscribe, publish}
use takt_os.Nvs.{HostNvs, set_u32, get_u32}

pub data TaktModuleType : Type 0 where
  static_module dynamic_module background_module : TaktModuleType

-- takt_module_t.
pub record TaktModule : Type 0 where
  pub name : Option (List ℕ)
  pub module_type : TaktModuleType
  pub init : Option ℕ
  pub tick : Option ℕ
  pub shutdown : Option ℕ
  pub has_work : Option ℕ
  pub budget_us : ℕ
  pub ctx : ℕ

pub record EventCtx : Type 0 where
  pub cb : Option ℕ
  pub user : ℕ

pub record Statics : Type 0 where
  pub adapter : Option TaktModule
  pub event_ctx : Option EventCtx

abbrev pub no_statics : Statics
no_statics = record { adapter = none; event_ctx = none }

abbrev pub first_of {ℓ} : {A : Type ℓ} → Option A → A → A
first_of none a = a
first_of (some b) a = b

-- SdkModuleAdapter: the virtual functions, with `call` for the functions of the descriptor.
pub adapter_type : TaktModule → ModuleType
adapter_type d = elim d.module_type [
  | TaktModuleType.dynamic_module ↦ ModuleType.dynamic_type
  | TaktModuleType.background_module ↦ ModuleType.background_type
  | TaktModuleType.static_module ↦ ModuleType.static_type
]

pub adapter_name : TaktModule → List ℕ
adapter_name d = first_of d.name (b'S' ∷ b'd' ∷ b'k' ∷ b'M' ∷ b'o' ∷ b'd' ∷ b'u' ∷ b'l' ∷ b'e' ∷ [])

pub adapter_budget_us : TaktModule → ℕ
adapter_budget_us d = d.budget_us

module _ {W : Type 0} (call : ℕ → ℕ → W → W) (ask : ℕ → ℕ → W → Bool × W) where
  pub adapter_init : TaktModule → W → Bool × W
  adapter_init d w = elim d.init [ none ↦ (true, w) | some fn ↦ ask fn d.ctx w ]

  unfoldable pub adapter_tick : TaktModule → W → W
  adapter_tick d w = elim d.tick [ none ↦ w | some fn ↦ call fn d.ctx w ]

  pub adapter_shutdown : TaktModule → W → W
  adapter_shutdown d w = elim d.shutdown [ none ↦ w | some fn ↦ call fn d.ctx w ]

  pub adapter_has_work : TaktModule → W → Bool × W
  adapter_has_work d w = elim d.has_work [ none ↦ (true, w) | some fn ↦ ask fn d.ctx w ]

-- The addresses of the static objects, and of the function sdkEventBridge.
module _ (adapter_address bridge ctx_address : ℕ) where
  unfoldable pub takt_register_module :
      Option TaktModule → Statics × Scheduler → ℤ × Statics × Scheduler
  takt_register_module none s = (minus_one, s.0, s.1)
  takt_register_module (some d) s =
      let (id, scheduler) = register_module s.1 (some adapter_address) in
      (as_int id, record (s.0) { adapter = some (first_of s.0.adapter d) }, scheduler)

  unfoldable pub takt_subscribe : ℕ → Option ℕ → ℕ → Statics × EventBus → ℤ × Statics × EventBus
  takt_subscribe event cb user s =
      let ctx = first_of s.0.event_ctx (record { cb = cb; user = user }) in
      let (id, bus) = subscribe s.1 event (some bridge) ctx_address in
      (id, record (s.0) { event_ctx = some ctx }, bus)

  module _ {W : Type 0} (user_call : ℕ → ℕ → ℕ → ℕ → ℕ → EventBus × W → EventBus × W)
      (call : ℕ → EventData → ℕ → EventBus × W → EventBus × W) where
    abbrev pub forward : Option EventCtx → EventData → EventBus × W → EventBus × W
    forward none d s = s
    forward (some ctx) d s = elim ctx.cb [
      | none ↦ s
      | some fn ↦ user_call fn d.id d.param1 d.param2 ctx.user s
    ]

    -- sdkEventBridge; `user` is the address of the static context or the null pointer.
    unfoldable pub sdk_event_bridge : Statics → EventData → ℕ → EventBus × W → EventBus × W
    sdk_event_bridge statics d user s =
        if user == ctx_address then forward statics.event_ctx d s else s

    -- The callbacks of the event bus: the bridge, and those of others.
    unfoldable pub callbacks : Statics → ℕ → EventData → ℕ → EventBus × W → EventBus × W
    callbacks statics fn d user s =
        if fn == bridge then sdk_event_bridge statics d user s else call fn d user s

pub takt_publish :
    {W : Type 0}
    → (ℕ → EventData → ℕ → EventBus × W → EventBus × W)
    → ℕ
    → ℕ
    → ℕ
    → EventBus × W
    → EventBus × W
takt_publish call event p1 p2 s = publish call event p1 p2 s

pub takt_nvs_set_u32 : HostNvs → List ℕ → ℕ → Bool × HostNvs
takt_nvs_set_u32 n key value = set_u32 n key value 1

-- `none` is the null pointer for the value; else the variable's value before.
pub takt_nvs_get_u32 : HostNvs → List ℕ → Option ℕ → Bool × Option ℕ
takt_nvs_get_u32 n key none = (false, none)
takt_nvs_get_u32 n key (some value) = let (ok, value1) = get_u32 n key value in (ok, some value1)
