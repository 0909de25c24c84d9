-- ===== src/EventBus/Tests.antt =====
-- Runs of the event bus, and its theorems at such runs.
use takt_os.Base.{ℕ, ◌≡◌, refl, List, [], ◌∷◌, ◌++◌, true, some, arith}
use takt_os.Base.Int.{pos}
use takt_os.EventBus.{
  EventBus, EventData, no_event, new_bus, subscribe, free_place, unsubscribe, enqueue,
  dispatch_queued,
}
use takt_os.EventBus.Subscribers.{
  IsCounted, new_bus-IsCounted, subscribe-IsCounted, unsubscribe-IsCounted,
}
use takt_os.EventBus.Queue.{IsRing, waiting, new_bus-IsRing, enqueue_lem}
use takt_os.EventBus.Dispatch.{passive, dispatch_queued-passive, Quiet}
use takt_os.EventBus.Termination.{IsEchoing, dispatch_queued_ends}

abbrev boot : EventData
boot = record no_event { id = 1 }

-- A bus with one subscription, to event 1.
abbrev listening : EventBus
listening = (subscribe new_bus 1 (some 5) 9).1

-- Callbacks that note who was called.
abbrev note : ℕ → EventData → ℕ → List ℕ → List ℕ
note c d u log = log ++ (c ∷ d.id ∷ u ∷ [])

unsubscribe-IsCounted_example : IsCounted (unsubscribe listening (pos 0))
unsubscribe-IsCounted_example =
    unsubscribe-IsCounted listening (pos 0)
      (subscribe-IsCounted new_bus 1 (some 5) 9 new_bus-IsCounted)

enqueue_lem_example :
    let (ok, b') = enqueue new_bus boot in (ok ≡ true) × (waiting b' ≡ boot ∷ []) × IsRing b'
unfolding enqueue new_bus
enqueue_lem_example = enqueue_lem new_bus boot new_bus-IsRing

abbrev one_waiting : EventBus
one_waiting = (enqueue listening boot).1

listening-IsRing : IsRing listening
unfolding subscribe free_place new_bus
listening-IsRing = record {
  places = refl;
  head_in = omega arith;
  count_in = omega arith;
  tail_at = refl;
}

dispatch_queued-passive_example :
    (b' : EventBus) × (dispatch_queued (passive note) 2 (one_waiting, [])
      ≡ some (b', 5 ∷ 1 ∷ 9 ∷ []))
    × (waiting b' ≡ [])
    × (b'.subscriptions ≡ one_waiting.subscriptions)
    × IsRing b'
unfolding enqueue subscribe free_place new_bus
dispatch_queued-passive_example =
    dispatch_queued-passive note 2 one_waiting [] (enqueue_lem listening boot listening-IsRing).2
      refl (omega arith)

-- Callbacks that leave the bus alone are quiet.
passive-Quiet : Quiet (passive note)
passive-Quiet c d u s v = (v, omega arith)

dispatch_queued_ends_example :
    (t : EventBus × List ℕ) × (dispatch_queued (passive note) 2 (one_waiting, []) ≡ some t)
    × (t.0.queue_count ≡ 0)
unfolding enqueue subscribe free_place new_bus
dispatch_queued_ends_example =
    dispatch_queued_ends (passive note) passive-Quiet 2 (one_waiting, [])
      (enqueue_lem listening boot listening-IsRing).2 (omega arith)

one_waiting-IsEchoing : IsEchoing 1 5 9 (one_waiting, tt)
unfolding enqueue subscribe free_place new_bus
one_waiting-IsEchoing = record {
  ring = (enqueue_lem listening boot listening-IsRing).2;
  listener = refl;
  only = (refl, tt);
}
