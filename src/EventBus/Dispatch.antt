-- ===== src/EventBus/Dispatch.antt =====
-- Delivery: who is called and in which order, and when `dispatchQueued` ends.
use takt_os.Base.{
  ℕ, zero, suc, ◌+◌, ◌≤◌, ◌<◌, ◌≡◌, refl, ap, sym, ◌∙◌, List, [], ◌∷◌, none, some, ◌&&◌, ◌==◌,
  if◌then◌else◌, get_or, length, arith, Bool-cases, inl, inr, drop, drop-get_or, drop-all,
}
use takt_os.EventBus.{
  EventBus, EventData, Subscription, no_subscription, max_event_subscribers, take_event, deliver,
  dispatch_from, dispatch, dispatch_queued, publish, no_event,
}
use takt_os.EventBus.Queue.{
  IsRing, waiting, take_event_lem, waiting-zero, subscriptions-take_event, count-take_event,
}

module _ {W : Type 0} (act : ℕ → EventData → ℕ → W → W) where
  -- Callbacks that do not use the bus.
  abbrev pub passive : ℕ → EventData → ℕ → EventBus × W → EventBus × W
  passive c d u s = (s.0, act c d u s.1)

  -- One subscriber's share of a delivery.
  abbrev pub notify_one : Subscription → EventData → W → W
  notify_one sub d w =
      if sub.active && (sub.event == d.id)
      then elim sub.callback [ none ↦ w | some c ↦ act c d sub.user_data w ]
      else w

  -- The active subscribers of the event, in the order of the table.
  abbrev pub notify : List Subscription → EventData → W → W
  notify [] d w = w
  notify (sub ∷ subs) d w = notify subs d (notify_one sub d w)

  -- Event after event.
  abbrev pub notify_all : List Subscription → List EventData → W → W
  notify_all subs [] w = w
  notify_all subs (d ∷ ds) w = notify_all subs ds (notify subs d w)

  deliver-passive :
      (i : ℕ) (d : EventData) (b : EventBus) (w : W)
      → deliver passive i d (b, w) ≡ (b, notify_one (get_or b.subscriptions i no_subscription) d w)
  unfolding deliver
  deliver-passive i d b w = ground arith

  dispatch_from-passive :
      (n i : ℕ) (d : EventData) (b : EventBus) (w : W)
      → i + n ≡ length b.subscriptions
      → dispatch_from passive n i d (b, w) ≡ (b, notify (drop i b.subscriptions) d w)
  unfolding dispatch_from
  dispatch_from-passive zero i d b w e = rw (drop-all i b.subscriptions (omega arith)) refl
  dispatch_from-passive (suc n) i d b w e =
      let next : i + 1 ≡ suc i = omega arith in
      rw
        (
          deliver-passive i d b w,
          drop-get_or i b.subscriptions no_subscription (omega arith),
          ← next,
        )
        (dispatch_from-passive n (i + 1) d b _ (omega arith))

  -- A dispatch calls the callbacks of the active subscriptions to the event, once each and in the
  -- order of their handles, and leaves the bus alone if the callbacks do.
  pub dispatch-passive :
      (d : EventData) (b : EventBus) (w : W)
      → length b.subscriptions ≡ max_event_subscribers
      → dispatch passive d (b, w) ≡ (b, notify b.subscriptions d w)
  unfolding dispatch
  dispatch-passive d b w e = dispatch_from-passive max_event_subscribers 0 d b w (omega arith)

  pub publish-passive :
      (event p1 p2 : ℕ) (b : EventBus) (w : W)
      → length b.subscriptions ≡ max_event_subscribers
      → publish passive event p1 p2 (b, w)
        ≡ (b, notify b.subscriptions (record no_event { id = event; param1 = p1; param2 = p2 }) w)
  unfolding publish
  publish-passive event p1 p2 b w e =
      dispatch-passive (record no_event { id = event; param1 = p1; param2 = p2 }) b w e

  -- With subscribers that leave the bus alone and fuel for each waiting event,
  -- `dispatchQueued` ends with an empty queue and the same subscriptions, and has delivered
  -- the waiting events oldest first, each to its subscribers.
  pub dispatch_queued-passive :
      (fuel : ℕ) (b : EventBus) (w : W)
      → IsRing b
      → length b.subscriptions ≡ max_event_subscribers
      → b.queue_count < fuel
      → (b' : EventBus) × (dispatch_queued passive fuel (b, w)
          ≡ some (b', notify_all b.subscriptions (waiting b) w))
        × (waiting b' ≡ [])
        × (b'.subscriptions ≡ b.subscriptions)
        × IsRing b'
  unfolding dispatch_queued
  dispatch_queued-passive zero b w v e h = elim h [ ]
  dispatch_queued-passive (suc fuel) b w v e h = elim (Bool-cases (b.queue_count == 0)) [
    | inl done ↦
        let empty : waiting b ≡ [] = waiting-zero b (ground arith) in
        (b, rw (done, empty) refl, empty, refl, v)
    | inr more ↦
        let d = (take_event b).0 in
        let b1 = (take_event b).1 in
        let pending : 0 < b.queue_count = ground arith in
        let (split, v1) = take_event_lem b v pending in
        let subs = subscriptions-take_event b in
        let sent = dispatch-passive d b1 w (ap length subs ∙ e) in
        let (b', run, empty, same, v') =
          dispatch_queued-passive fuel b1 (notify b1.subscriptions d w) v1 (ap length subs ∙ e)
            (omega (arith, count-take_event b)) in
        (
          b',
          rw more (
              ap (dispatch_queued passive fuel) sent
              ∙ run
              ∙ ap (λ l. some (b', notify_all l (waiting b1) (notify l d w))) subs
              ∙ ap (λ l. some (b', notify_all b.subscriptions l w)) (sym split)),
          empty,
          same ∙ subs,
          v',
        )
  ]

-- Callbacks that may use the bus, but leave no more events waiting than they found.
abbrev pub Quiet : {W : Type 0} → (ℕ → EventData → ℕ → EventBus × W → EventBus × W) → Type 0
Quiet call =
    (c : ℕ) (d : EventData) (u : ℕ) (s : _)
    → IsRing s.0
    → IsRing (call c d u s).0 × ((call c d u s).0.queue_count ≤ s.0.queue_count)
