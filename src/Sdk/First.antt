-- ===== src/Sdk/First.antt =====
-- The static objects of the C interface: what the second call and all later ones meet.
use takt_os.Base.{
  ℕ, ◌+◌, ◌≤◌, ◌<◌, ◌≡◌, min, refl, ap, subst, ◌∙◌, List, [], ◌∷◌, Option, none, some, true, length,
  ◌&&◌, ◌==◌, if◌then◌else◌, ◌⊎◌, inl, inr, arith, ==_refl, dec_lt, get_or, get_or-set_self,
}
use takt_os.Base.Int.{ℤ, pos, minus_one}
use takt_os.Scheduler.{Scheduler, entry_at, register_module}
use takt_os.Scheduler.Modules.{IsTable, register_module_lem}
use takt_os.EventBus.{EventBus, EventData, Subscription, no_subscription, subscribe, deliver}
use takt_os.EventBus.Subscribers.{IsCounted, subscribe_lem, subscribe-IsCounted}
use takt_os.Sdk.{
  TaktModule, Statics, EventCtx, first_of, takt_register_module, takt_subscribe, sdk_event_bridge,
  callbacks,
}

module _ (adapter_address bridge ctx_address : ℕ) where
  -- The modules, registered one behind the other.
  abbrev pub register_list : List TaktModule → Statics × Scheduler → Statics × Scheduler
  register_list [] s = s
  register_list (d ∷ ds) s =
      let (_, statics, scheduler) =
        takt_register_module adapter_address bridge ctx_address (some d) s in
      register_list ds (statics, scheduler)

  register_list-adapter :
      (ds : List TaktModule) (s : Statics × Scheduler) (d : TaktModule)
      → s.0.adapter ≡ some d
      → (register_list ds s).0.adapter ≡ some d
  unfolding takt_register_module
  register_list-adapter [] s d h = h
  register_list-adapter (x ∷ ds) s d h =
      register_list-adapter ds _ d (ap (λ (o : Option TaktModule). some (first_of o x)) h)

  -- What registrations make of the table.
  record Filled (before after : Scheduler) (n : ℕ) : Type 0 where
    table : IsTable after
    count : after.module_count ≡ min 48 (before.module_count + n)
    old : (j : ℕ) → j < before.module_count → entry_at after j ≡ entry_at before j
    new :
        (j : ℕ)
        → before.module_count ≤ j
        → j < after.module_count
        → (entry_at after j).module_id ≡ some adapter_address
    grows : before.module_count ≤ after.module_count

  register_one :
      (s : Scheduler) → IsTable s → Filled s (register_module s (some adapter_address)).1 1
  register_one s v =
      let (v1, outcome) = register_module_lem s (some adapter_address) v in
      elim outcome [
        | inl (_, same, inl null) ↦ cc
        | inl (_, same, inr full) ↦ record {
          table = v1;
          count = ap (λ (x : Scheduler). x.module_count) same ∙ omega (arith, full);
          old = λ j h. ap (λ x. entry_at x j) same;
          new = λ j low high.
              absurd (omega (arith, ap (λ (x : Scheduler). x.module_count) same, low, high));
          grows = omega (arith, ap (λ (x : Scheduler). x.module_count) same);
        }
        | inr (id, room, count, here, _, _, others) ↦ record {
          table = v1;
          count = omega (arith, room, count);
          old = λ j h. others j (λ e. omega (arith, id, e, h));
          new = λ j low high.
              let at : j ≡ (register_module s (some adapter_address)).0 =
                omega (arith, id, count, low, high) in
              ap (λ k. (entry_at (register_module s (some adapter_address)).1 k).module_id) at
              ∙ here;
          grows = omega (arith, count);
        }
      ]

  Filled-trans : (a b c : Scheduler) (m n : ℕ) → Filled a b m → Filled b c n → Filled a c (m + n)
  Filled-trans a b c m n f g = record {
    table = g.table;
    count = omega (arith, f.count, g.count);
    old = λ j h. g.old j (omega (arith, f.count, f.grows, h)) ∙ f.old j h;
    new = λ j low high. elim (dec_lt j b.module_count) [
      | yes before ↦ ap (λ e. e.module_id) (g.old j before) ∙ f.new j low before
      | no behind ↦ g.new j (omega (arith, behind)) high
    ];
    grows = omega (arith, f.grows, g.grows);
  }

  register_list-Filled :
      (ds : List TaktModule) (s : Statics × Scheduler)
      → IsTable s.1
      → Filled s.1 (register_list ds s).1 (length ds)
  unfolding takt_register_module
  register_list-Filled [] s v = record {
    table = v;
    count = omega (arith, v.room);
    old = λ j h. refl;
    new = λ j low high. absurd (omega (arith, low, high));
    grows = omega arith;
  }
  register_list-Filled (d ∷ ds) s v =
      let one = register_one s.1 v in
      subst (Filled s.1 (register_list (d ∷ ds) s).1) (omega arith)
        (Filled-trans s.1 _ _ 1 (length ds) one (register_list-Filled ds _ one.table))

  -- The C interface before its first module, on a well-formed table: whatever modules are registered
  -- one behind the other, all that find a place, up to 48, are registered as the one static adapter,
  -- and that is the adapter of the first of them. So the scheduler runs the functions of the first in
  -- the places of all.
  pub register_list_first :
      (d : TaktModule) (ds : List TaktModule) (s : Statics × Scheduler)
      → s.0.adapter ≡ none
      → IsTable s.1
      → let (statics, after) = register_list (d ∷ ds) s in
        (statics.adapter ≡ some d)
        × (after.module_count ≡ min 48 (s.1.module_count + length (d ∷ ds)))
        × ((j : ℕ)
            → s.1.module_count ≤ j
            → j < after.module_count
            → (entry_at after j).module_id ≡ some adapter_address)
  unfolding takt_register_module
  register_list_first d ds s fresh v =
      let filled = register_list-Filled (d ∷ ds) s v in
      (
        register_list-adapter ds _ d (ap (λ (o : Option TaktModule). some (first_of o d)) fresh),
        filled.count,
        filled.new,
      )

  module _ {W : Type 0} (user_call : ℕ → ℕ → ℕ → ℕ → ℕ → EventBus × W → EventBus × W)
      (call : ℕ → EventData → ℕ → EventBus × W → EventBus × W) where
    abbrev run : Statics → ℕ → EventData → ℕ → EventBus × W → EventBus × W
    run statics = callbacks adapter_address bridge ctx_address user_call call statics

    -- The bridge runs the callback of the static context.
    deliver-bridge :
        (statics : Statics) (cb user i event : ℕ) (p1 p2 : ℕ) (blob : List ℕ) (b : EventBus) (w : W)
        → statics.event_ctx ≡ some (record { cb = some cb; user = user })
        → get_or b.subscriptions i no_subscription
          ≡ record { event = event; callback = some bridge; user_data = ctx_address; active = true }
        → deliver
            (run statics)
            i
            (record { id = event; param1 = p1; param2 = p2; blob = blob })
            (b, w)
          ≡ user_call cb event p1 p2 user (b, w)
    unfolding deliver callbacks sdk_event_bridge
    deliver-bridge statics cb user i event p1 p2 blob b w ctx here =
        let d : EventData = record { id = event; param1 = p1; param2 = p2; blob = blob } in
        let known : run statics bridge d ctx_address (b, w) ≡ user_call cb event p1 p2 user (b, w) =
          rw (==_refl bridge, ==_refl ctx_address, ctx) refl in
        ap
          (λ (sub : Subscription).
            if sub.active && (sub.event == event)
            then elim sub.callback [ none ↦ (b, w) | some c ↦ run statics c d sub.user_data (b, w) ]
            else (b, w))
          here
        ∙ rw (==_refl event) known

    -- Two subscriptions through the C interface, the first it sees and another: unless the bus has no
    -- place for it, the second is told an event of its own, at the place that it was given, through
    -- the callback and with the user pointer of the first.
    pub takt_subscribe_first :
        (statics : Statics) (bus : EventBus) (event1 event2 cb1 user1 user2 : ℕ) (cb2 : Option ℕ)
        → statics.event_ctx ≡ none
        → IsCounted bus
        → let (_, statics1, bus1) =
            takt_subscribe adapter_address bridge ctx_address event1
              (some cb1)
              user1
              (statics, bus) in
          let (code, statics2, bus2) =
            takt_subscribe adapter_address bridge ctx_address event2 cb2 user2 (statics1, bus1) in
          (code ≡ minus_one)
          ⊎ ((i : ℕ) × (code ≡ pos i)
              × ((p1 p2 : ℕ) (blob : List ℕ) (w : W)
                  → deliver
                      (callbacks adapter_address bridge ctx_address user_call call statics2)
                      i
                      (record { id = event2; param1 = p1; param2 = p2; blob = blob })
                      (bus2, w)
                    ≡ user_call cb1 event2 p1 p2 user1 (bus2, w)))
    unfolding takt_subscribe
    takt_subscribe_first statics bus event1 event2 cb1 user1 user2 cb2 fresh v =
        let bus1 = (subscribe bus event1 (some bridge) ctx_address).1 in
        let v1 = subscribe-IsCounted bus event1 (some bridge) ctx_address v in
        let ctx1 : EventCtx = record { cb = some cb1; user = user1 } in
        let ctx2 : EventCtx = record { cb = cb2; user = user2 } in
        let held : some (first_of (some (first_of statics.event_ctx ctx1)) ctx2) ≡ some ctx1 =
          ap (λ (o : Option EventCtx). some (first_of o ctx1)) fresh in
        elim (subscribe_lem bus1 event2 (some bridge) ctx_address v1) [
          | inl (_, e) ↦ inl (ap (λ r. r.0) e)
          | inr (i, high, _, _, e) ↦ inr (
            i,
            ap (λ r. r.0) e,
            λ p1 p2 blob w. deliver-bridge _ cb1 user1 i event2 p1 p2 blob _ w held (
                ap (λ (r : ℤ × EventBus). get_or (r.1).subscriptions i no_subscription) e
                ∙ get_or-set_self bus1.subscriptions i _ no_subscription
                    (omega (arith, high, v1.places))),
          )
        ]
