-- ===== src/EventBus/Subscribers.antt =====
-- The table of subscriptions: its counter, and which handle a subscriber gets.
use takt_os.Base.{
  ℕ, zero, suc, ◌+◌, ◌-◌, ◌%◌, ◌^◌, ◌≤◌, ◌<◌, ◌≡◌, ◌≢◌, ◌⊎◌, refl, ap, sym, ◌∙◌, List, [], ◌∷◌,
  Option, none, some, ℕ_discrete, true, false, leb, if◌then◌else◌, get_or, set, length, arith,
  length-set, get_or-set_self, get_or-set_ne, Bool-cases, Option-cases, inl, inr,
}
use takt_os.Base.Int.{ℤ, pos, negsuc, minus_one, as_int, as_int_small}
use takt_os.EventBus.{
  EventBus, Subscription, no_subscription, max_event_subscribers, new_bus, free_place, subscribe,
  unsubscribe,
}

abbrev pub active_count : List Subscription → ℕ
active_count [] = 0
active_count (s ∷ subs) = (if s.active then 1 else 0) + active_count subs

-- The counter counts the active places of the table of 32.
pub record IsCounted (b : EventBus) : Type 0 where
  pub places : length b.subscriptions ≡ max_event_subscribers
  pub counted : b.subscriber_count ≡ active_count b.subscriptions

active_count-le-length : (subs : List Subscription) → active_count subs ≤ length subs
active_count-le-length [] = omega arith
active_count-le-length (s ∷ subs) = ground (arith, active_count-le-length subs)

-- What the search finds: an inactive place in the list, above which all places before it are active.
free_place-some :
    (subs : List Subscription) (i j : ℕ)
    → free_place subs i ≡ some j
    → (i ≤ j) × (j < i + length subs) × ((get_or subs (j - i) no_subscription).active ≡ false)
unfolding free_place
free_place-some [] i j e = ground arith
free_place-some (s ∷ subs) i j e = elim (Bool-cases s.active) [
  | inl t ↦
      let (lo, hi, off) = free_place-some subs (i + 1) j (rw t at e) in
      let k : j - i ≡ suc (j - (i + 1)) = omega arith in (omega arith, omega arith, rw k off)
  | inr t ↦
      let here : i ≡ j = ground arith in
      let k : j - i ≡ 0 = omega arith in (omega arith, omega arith, rw k t)
]

free_place-none :
    (subs : List Subscription) (i : ℕ) → free_place subs i ≡ none → active_count subs ≡ length subs
unfolding free_place
free_place-none [] i e = refl
free_place-none (s ∷ subs) i e = elim (Bool-cases s.active) [
  | inl t ↦ rw t (omega (arith, free_place-none subs (i + 1) (rw t at e)))
  | inr t ↦ ground arith
]

abbrev active_one : Subscription → ℕ
active_one s = if s.active then 1 else 0

active_count-set :
    (subs : List Subscription) (i : ℕ) (s : Subscription)
    → i < length subs
    → active_count (set subs i s) + active_one (get_or subs i no_subscription)
      ≡ active_count subs + active_one s
active_count-set [] i s h = elim h [ ]
active_count-set (x ∷ subs) zero s h = omega arith
active_count-set (x ∷ subs) (suc i) s h = omega (arith, active_count-set subs i s (omega arith))

pub new_bus-IsCounted : IsCounted new_bus
unfolding new_bus
new_bus-IsCounted = record { places = refl; counted = refl }

-- The entry that `subscribe` makes.
abbrev pub subscription : ℕ → Option ℕ → ℕ → Subscription
subscription event callback user_data = record {
  event = event;
  callback = callback;
  user_data = user_data;
  active = true;
}

-- The bus with a new subscription at place `i`.
abbrev pub subscribed : EventBus → ℕ → Subscription → EventBus
subscribed b i s = record b {
  subscriptions = set b.subscriptions i s;
  subscriber_count = b.subscriber_count + 1;
}

module _ (b : EventBus) (event : ℕ) (callback : Option ℕ) (user_data : ℕ) (v : IsCounted b) where
  subscribe_at :
      (i : ℕ)
      → active_count b.subscriptions < max_event_subscribers
      → free_place b.subscriptions 0 ≡ some i
      → subscribe b event callback user_data
        ≡ (pos i, subscribed b i (subscription event callback user_data))
  unfolding subscribe
  subscribe_at i room e =
      let (lo, hi, off) = free_place-some b.subscriptions 0 i e in
      let below : leb max_event_subscribers b.subscriber_count ≡ false =
        ground (arith, v.counted) in
      let count : (b.subscriber_count + 1) % 2 ^ 64 ≡ b.subscriber_count + 1 =
        omega (arith, v.counted) in
      let code : as_int i ≡ pos i = as_int_small i (omega (arith, v.places)) in
      rw (below, e, count, code) refl

  -- On a bus whose counter is the number of active places: with a free place, `subscribe`
  -- returns the handle of an inactive place of the table, fills it, and counts it; when all
  -- places are active it fails and leaves the bus as it was.
  pub subscribe_lem :
      ((active_count b.subscriptions ≡ max_event_subscribers)
        × (subscribe b event callback user_data ≡ (minus_one, b)))
      ⊎ ((i : ℕ) × (i < max_event_subscribers)
          × (active_count b.subscriptions < max_event_subscribers)
          × ((get_or b.subscriptions i no_subscription).active ≡ false)
          × (subscribe b event callback user_data
              ≡ (pos i, subscribed b i (subscription event callback user_data))))
  unfolding subscribe
  subscribe_lem =
      let most = active_count-le-length b.subscriptions in
      elim (ℕ_discrete (active_count b.subscriptions) max_event_subscribers) [
        | yes full ↦
            let above : leb max_event_subscribers b.subscriber_count ≡ true =
              ground (arith, v.counted) in
            inl (full, rw above refl)
        | no ne ↦
            let room : active_count b.subscriptions < max_event_subscribers =
              omega (arith, v.places) in
            elim (Option-cases (free_place b.subscriptions 0)) [
              | inl none_free ↦
                  absurd (omega (arith, free_place-none b.subscriptions 0 none_free, v.places))
              | inr (i, e) ↦
                  let (lo, hi, off) = free_place-some b.subscriptions 0 i e in
                  let first : i - 0 ≡ i = omega arith in
                  inr (i, omega (arith, v.places), room, rw first at off, subscribe_at i room e)
            ]
      ]

-- The counter stays right when a place is filled.
subscribed-IsCounted :
    (b : EventBus) (i : ℕ) (s : Subscription)
    → IsCounted b
    → i < max_event_subscribers
    → s.active ≡ true
    → (get_or b.subscriptions i no_subscription).active ≡ false
    → IsCounted (subscribed b i s)
subscribed-IsCounted b i s v h t off = record {
  places = length-set b.subscriptions i s ∙ v.places;
  counted =
      ground (arith, active_count-set b.subscriptions i s (omega (arith, v.places)), v.counted);
}

pub subscribe-IsCounted :
    (b : EventBus) (event : ℕ) (callback : Option ℕ) (user_data : ℕ)
    → IsCounted b
    → IsCounted (subscribe b event callback user_data).1
subscribe-IsCounted b event callback user_data v =
    elim (subscribe_lem b event callback user_data v) [
      | inl (full, e) ↦ rw e v
      | inr (i, h, room, off, e) ↦ rw e (subscribed-IsCounted b i _ v h refl off)
    ]

unsubscribed-IsCounted :
    (b : EventBus) (i : ℕ)
    → IsCounted b
    → i < max_event_subscribers
    → (get_or b.subscriptions i no_subscription).active ≡ true
    → IsCounted (record b {
      subscriptions =
          set b.subscriptions i
            (record (get_or b.subscriptions i no_subscription) { active = false });
      subscriber_count = (b.subscriber_count + (2 ^ 64 - 1)) % 2 ^ 64;
    })
unsubscribed-IsCounted b i v h on =
    let off = record (get_or b.subscriptions i no_subscription) { active = false } in
    let count = active_count-set b.subscriptions i off (omega (arith, v.places)) in
    let most = active_count-le-length b.subscriptions in
    let one : active_one (get_or b.subscriptions i no_subscription) ≡ 1 = rw on refl in
    record {
      places = length-set b.subscriptions i off ∙ v.places;
      counted = omega (arith, count, one, most, v.counted, v.places);
    }

-- Unsubscribing keeps the counter right, whatever the handle.
pub unsubscribe-IsCounted :
    (b : EventBus) (handle : ℤ) → IsCounted b → IsCounted (unsubscribe b handle)
unfolding unsubscribe
unsubscribe-IsCounted b (negsuc n) v = v
unsubscribe-IsCounted b (pos i) v =
    let s = get_or b.subscriptions i no_subscription in
    elim (Bool-cases (leb max_event_subscribers i)) [
      | inl out ↦ rw out v
      | inr within ↦ elim (Bool-cases s.active) [
        | inr off ↦ rw (within, off) v
        | inl on ↦ rw (within, on) (unsubscribed-IsCounted b i v (ground arith) on)
      ]
    ]

unsubscribe-subscribed :
    (b : EventBus) (i : ℕ) (s : Subscription)
    → IsCounted b
    → i < max_event_subscribers
    → s.active ≡ true
    → unsubscribe (subscribed b i s) (pos i) ≡ record b {
      subscriptions = set (set b.subscriptions i s) i (record s { active = false });
      subscriber_count = (b.subscriber_count + 1 + (2 ^ 64 - 1)) % 2 ^ 64;
    }
unfolding unsubscribe
unsubscribe-subscribed b i s v h on =
    let within : leb max_event_subscribers i ≡ false = ground arith in
    rw (within, get_or-set_self b.subscriptions i s no_subscription (omega (arith, v.places)), on)
      refl

restored :
    (b : EventBus) (i : ℕ) (s : Subscription)
    → IsCounted b
    → i < max_event_subscribers
    → (get_or b.subscriptions i no_subscription).active ≡ false
    → s.active ≡ true
    → let c = unsubscribe (subscribed b i s) (pos i) in
      (c.subscriber_count ≡ b.subscriber_count)
      × ((j : ℕ)
          → ◌≢◌ {A = ℤ} (pos i) (pos j)
          → get_or c.subscriptions j no_subscription ≡ get_or b.subscriptions j no_subscription)
      × ((j : ℕ)
          → (get_or c.subscriptions j no_subscription).active
            ≡ (get_or b.subscriptions j no_subscription).active)
restored b i s v h off on = rw (unsubscribe-subscribed b i s v h on) (
  omega (arith, v.counted, active_count-le-length b.subscriptions, v.places),
  λ j ne. other j (λ e. ne (ap pos e)),
  λ j. elim (ℕ_discrete i j) [
    | yes e ↦ rw (← e) (ap (λ (t : Subscription). t.active) self ∙ sym off)
    | no ne ↦ ap (λ (t : Subscription). t.active) (other j ne)
  ],
)
  where
    gone : Subscription
    gone = record s { active = false }

    len : length (set b.subscriptions i s) ≡ length b.subscriptions
    len = length-set b.subscriptions i s

    self : get_or (set (set b.subscriptions i s) i gone) i no_subscription ≡ gone
    self =
        get_or-set_self (set b.subscriptions i s) i gone no_subscription
          (omega (arith, len, v.places))

    other :
        (j : ℕ)
        → i ≢ j
        → get_or (set (set b.subscriptions i s) i gone) j no_subscription
          ≡ get_or b.subscriptions j no_subscription
    other j ne =
        get_or-set_ne (set b.subscriptions i s) i j gone no_subscription ne
        ∙ get_or-set_ne b.subscriptions i j s no_subscription ne

-- On a bus whose counter is the number of active places, with a free place: taking a new
-- subscription back by its handle restores the counter, leaves every other place as it was,
-- and leaves the same places active.
pub unsubscribe-subscribe :
    (b : EventBus) (event : ℕ) (callback : Option ℕ) (user_data : ℕ)
    → IsCounted b
    → active_count b.subscriptions < max_event_subscribers
    → let (handle, b') = subscribe b event callback user_data in
      let c = unsubscribe b' handle in
      (c.subscriber_count ≡ b.subscriber_count)
      × ((j : ℕ)
          → handle ≢ pos j
          → get_or c.subscriptions j no_subscription ≡ get_or b.subscriptions j no_subscription)
      × ((j : ℕ)
          → (get_or c.subscriptions j no_subscription).active
            ≡ (get_or b.subscriptions j no_subscription).active)
unsubscribe-subscribe b event callback user_data v room =
    elim (subscribe_lem b event callback user_data v) [
      | inl (full, e) ↦ absurd (omega arith)
      | inr (i, h, _, off, e) ↦
          rw e (restored b i (subscription event callback user_data) v h off refl)
    ]
