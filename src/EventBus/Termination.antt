-- ===== src/EventBus/Termination.antt =====
-- `dispatchQueued` runs until the queue is empty, also of the events that its callbacks add: when
-- that ends, and callbacks with which it does not.
use takt_os.Base.{
  ℕ, zero, suc, ◌+◌, ◌≤◌, ◌<◌, ◌≡◌, ◌⊎◌, refl, ap, subst, sym, ◌∙◌, [], ◌∷◌, ◌++◌, none, some, true,
  false, ◌&&◌, ◌==◌, get_or, length, length-append, arith, Bool-cases, Option-cases, inl, inr, All,
  All-append,
}
use takt_os.EventBus.{
  EventBus, EventData, no_subscription, max_event_subscribers, take_event, deliver, dispatch_from,
  dispatch, dispatch_queued, enqueue,
}
use takt_os.EventBus.Queue.{
  IsRing, waiting, take_event_lem, enqueue_lem, length-waiting, count-take_event,
  subscriptions-take_event, subscriptions-enqueue,
}
use takt_os.EventBus.Dispatch.{Quiet}

module _ {W : Type 0} (call : ℕ → EventData → ℕ → EventBus × W → EventBus × W)
    (quiet : Quiet call) where
  abbrev NoLonger : EventBus × W → EventBus × W → Type 0
  NoLonger s t = IsRing t.0 × (t.0.queue_count ≤ s.0.queue_count)

  deliver-NoLonger :
      (i : ℕ) (d : EventData) (s : EventBus × W) → IsRing s.0 → NoLonger s (deliver call i d s)
  unfolding deliver
  deliver-NoLonger i d s v =
      let sub = get_or (s.0).subscriptions i no_subscription in
      elim (Bool-cases (sub.active && (sub.event == d.id))) [
        | inr skip ↦ rw skip (v, omega arith)
        | inl hit ↦ elim (Option-cases sub.callback) [
          | inl null ↦ rw (hit, null) (v, omega arith)
          | inr (c, e) ↦ rw (hit, e) (quiet c d sub.user_data s v)
        ]
      ]

  dispatch_from-NoLonger :
      (n i : ℕ) (d : EventData) (s : EventBus × W)
      → IsRing s.0
      → NoLonger s (dispatch_from call n i d s)
  unfolding dispatch_from
  dispatch_from-NoLonger zero i d s v = (v, omega arith)
  dispatch_from-NoLonger (suc n) i d s v =
      let (v1, le1) = deliver-NoLonger i d s v in
      let (v2, le2) = dispatch_from-NoLonger n (i + 1) d (deliver call i d s) v1 in
      (v2, omega arith)

  -- If no callback leaves more events waiting than it found, `dispatchQueued` ends, after at
  -- most as many rounds as there are events, and leaves the queue empty.
  pub dispatch_queued_ends :
      (fuel : ℕ) (s : EventBus × W)
      → IsRing s.0
      → s.0.queue_count < fuel
      → (t : EventBus × W) × (dispatch_queued call fuel s ≡ some t) × (t.0.queue_count ≡ 0)
  unfolding dispatch_queued dispatch
  dispatch_queued_ends zero s v h = elim h [ ]
  dispatch_queued_ends (suc fuel) s v h = elim (Bool-cases (s.0.queue_count == 0)) [
    | inl done ↦ (s, rw done refl, ground arith)
    | inr more ↦
        let pending : 0 < s.0.queue_count = ground arith in
        let d = (take_event s.0).0 in
        let b1 = (take_event s.0).1 in
        let (_, v1) = take_event_lem s.0 v pending in
        let (v2, le) = dispatch_from-NoLonger max_event_subscribers 0 d (b1, s.1) v1 in
        let (t, run, empty) =
          dispatch_queued_ends fuel (dispatch call d (b1, s.1)) v2
            (omega (arith, count-take_event s.0)) in
        (t, rw more run, empty)
  ]

-- A callback that puts the event that it was called with back into the queue.
abbrev pub requeue : {W : Type 0} → ℕ → EventData → ℕ → EventBus × W → EventBus × W
requeue c d u s = ((enqueue s.0 d).1, s.1)

module _ {W : Type 0} (event c u : ℕ) where
  -- Place 0 holds an active subscription to the event, and only that event waits.
  pub record IsEchoing (s : EventBus × W) : Type 0 where
    pub ring : IsRing s.0
    pub listener :
        get_or s.0.subscriptions 0 no_subscription
        ≡ record { event = event; callback = some c; user_data = u; active = true }
    pub only : All (λ (d : EventData). d.id ≡ event) (waiting s.0)

  requeue-IsEchoing :
      (c' u' : ℕ) (d : EventData) (s : EventBus × W)
      → d.id ≡ event
      → IsEchoing s
      → IsEchoing (requeue c' d u' s) × (0 < (requeue c' d u' s).0.queue_count)
  requeue-IsEchoing c' u' d s e v =
      let (ok, holds, ring) = enqueue_lem s.0 d v.ring in
      let len = length-waiting (enqueue s.0 d).1 in
      elim (Bool-cases (enqueue s.0 d).0) [
        | inl room ↦
            let added : waiting (enqueue s.0 d).1 ≡ waiting s.0 ++ (d ∷ []) =
              holds ∙ rw room refl in
            (
              record {
                ring = ring;
                listener = rw (subscriptions-enqueue s.0 d) v.listener;
                only = subst (All (λ (d : EventData). d.id ≡ event)) (sym added) (
                    All-append (λ (d : EventData). d.id ≡ event) (waiting s.0) (d ∷ []) v.only
                      (e, tt));
              },
              omega (arith, ap length added, length-append (waiting s.0) (d ∷ []), len),
            )
        | inr full ↦
            let same : waiting (enqueue s.0 d).1 ≡ waiting s.0 = holds ∙ rw full refl in
            (
              record {
                ring = ring;
                listener = rw (subscriptions-enqueue s.0 d) v.listener;
                only = subst (All (λ (d : EventData). d.id ≡ event)) (sym same) v.only;
              },
              ground (arith, ap length same, length-waiting s.0, len, ok, full),
            )
      ]

  deliver-IsEchoing :
      (i : ℕ) (d : EventData) (s : EventBus × W)
      → d.id ≡ event
      → IsEchoing s
      → IsEchoing (deliver requeue i d s)
        × (s.0.queue_count ≤ 0 ⊎ 0 < (deliver requeue i d s).0.queue_count)
  unfolding deliver
  deliver-IsEchoing i d s e v =
      let sub = get_or (s.0).subscriptions i no_subscription in
      elim (Bool-cases (sub.active && (sub.event == d.id))) [
        | inr skip ↦ rw skip (v, omega arith)
        | inl hit ↦ elim (Option-cases sub.callback) [
          | inl null ↦ rw (hit, null) (v, omega arith)
          | inr (c', q) ↦
              rw (hit, q) (let (v', n) = requeue-IsEchoing c' sub.user_data d s e v in (v', inr n))
        ]
      ]

  dispatch_from-IsEchoing :
      (n i : ℕ) (d : EventData) (s : EventBus × W)
      → d.id ≡ event
      → IsEchoing s
      → 0 < s.0.queue_count
      → IsEchoing (dispatch_from requeue n i d s)
        × (0 < (dispatch_from requeue n i d s).0.queue_count)
  unfolding dispatch_from
  dispatch_from-IsEchoing zero i d s e v h = (v, h)
  dispatch_from-IsEchoing (suc n) i d s e v h =
      let (v1, more) = deliver-IsEchoing i d s e v in
      dispatch_from-IsEchoing n (i + 1) d (deliver requeue i d s) e v1 (omega (arith, more))

  deliver-listener :
      (d : EventData) (s : EventBus × W)
      → d.id ≡ event
      → IsEchoing s
      → deliver requeue 0 d s ≡ requeue c d u s
  unfolding deliver
  deliver-listener d s e v =
      let hit : (event == d.id) ≡ true = ground arith in rw (v.listener, hit) refl

  dispatch-split :
      (d : EventData) (s : EventBus × W)
      → dispatch requeue d s ≡ dispatch_from requeue 31 1 d (deliver requeue 0 d s)
  unfolding dispatch dispatch_from
  dispatch-split d s = refl

  -- The subscriber at place 0 hears the event and puts it back.
  dispatch-IsEchoing :
      (d : EventData) (s : EventBus × W)
      → d.id ≡ event
      → IsEchoing s
      → IsEchoing (dispatch requeue d s) × (0 < (dispatch requeue d s).0.queue_count)
  dispatch-IsEchoing d s e v =
      let (v1, n1) = requeue-IsEchoing c u d s e v in
      rw (dispatch-split d s, deliver-listener d s e v)
        (dispatch_from-IsEchoing 31 1 d (requeue c d u s) e v1 n1)

  take_event-IsEchoing :
      (s : EventBus × W)
      → IsEchoing s
      → 0 < s.0.queue_count
      → ((take_event s.0).0.id ≡ event) × IsEchoing ((take_event s.0).1, s.1)
  take_event-IsEchoing s v h =
      let (split, ring) = take_event_lem s.0 v.ring h in
      let (e, rest) = subst (All (λ (d : EventData). d.id ≡ event)) split v.only in
      (
        e,
        record {
          ring = ring;
          listener = rw (subscriptions-take_event s.0) v.listener;
          only = rest;
        },
      )

  -- A subscriber that queues the event again keeps `dispatchQueued` running for ever: with such a
  -- subscription, once the event waits, no number of rounds empties the queue.
  pub dispatch_queued-requeue :
      (fuel : ℕ) (s : EventBus × W)
      → IsEchoing s
      → 0 < s.0.queue_count
      → dispatch_queued requeue fuel s ≡ none
  unfolding dispatch_queued
  dispatch_queued-requeue zero s v h = refl
  dispatch_queued-requeue (suc fuel) s v h =
      let (e, v1) = take_event-IsEchoing s v h in
      let t = take_event s.0 in
      let (v2, n2) = dispatch-IsEchoing t.0 (t.1, s.1) e v1 in
      let more : (s.0.queue_count == 0) ≡ false = ground arith in
      rw more (dispatch_queued-requeue fuel (dispatch requeue t.0 (t.1, s.1)) v2 n2)
