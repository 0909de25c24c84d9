-- ===== src/EventBus.antt =====
-- kernel/include/takt/event_bus.hpp, event.hpp and kernel/src/event_bus.cpp: publish and subscribe,
-- with a queue for deferred delivery.
-- An event is its number, a callback a number that `call` runs (`none` is the null pointer), and
-- `user_data` the pointer's value. `W` is whatever else the callbacks change; they may also use the
-- bus itself, so a call takes and returns both.
pub mod Subscribers
pub mod Queue
pub mod Dispatch
pub mod Termination
mod Tests
use takt_os.Base.{
  ℕ, zero, suc, ◌+◌, ◌-◌, ◌%◌, ◌^◌, List, [], ◌∷◌, Option, none, some, Bool, true, false, not, ◌&&◌,
  ltb, leb, ◌==◌, if◌then◌else◌, get_or, set, replicate,
}
use takt_os.Base.Int.{ℤ, pos, negsuc, minus_one, as_int}

abbrev pub max_event_subscribers : ℕ
max_event_subscribers = 32

abbrev pub event_queue_depth : ℕ
event_queue_depth = 64

pub record EventData : Type 0 where
  pub id : ℕ
  pub param1 : ℕ
  pub param2 : ℕ
  pub blob : List ℕ

abbrev pub no_event : EventData
no_event = record { id = 0; param1 = 0; param2 = 0; blob = replicate 8 0 }

pub record Subscription : Type 0 where
  pub event : ℕ
  pub callback : Option ℕ
  pub user_data : ℕ
  pub active : Bool

abbrev pub no_subscription : Subscription
no_subscription = record { event = 0; callback = none; user_data = 0; active = false }

pub record EventBus : Type 0 where
  pub subscriptions : List Subscription
  pub subscriber_count : ℕ
  pub queue : List EventData
  pub queue_head : ℕ
  pub queue_tail : ℕ
  pub queue_count : ℕ

-- A bus as it is constructed.
unfoldable pub new_bus : EventBus
new_bus = record {
  subscriptions = replicate max_event_subscribers no_subscription;
  subscriber_count = 0;
  queue = replicate event_queue_depth no_event;
  queue_head = 0;
  queue_tail = 0;
  queue_count = 0;
}

-- The loop of `subscribe`: the first place that is not active, from index `i` on.
unfoldable pub free_place : List Subscription → ℕ → Option ℕ
free_place [] i = none
free_place (s ∷ subs) i = if not s.active then some i else free_place subs (i + 1)

unfoldable pub subscribe : EventBus → ℕ → Option ℕ → ℕ → ℤ × EventBus
subscribe b event callback user_data =
    if leb max_event_subscribers b.subscriber_count
    then (minus_one, b)
    else elim (free_place b.subscriptions 0) [
      | none ↦ (minus_one, b)
      | some i ↦ (
        as_int i,
        record b {
          subscriptions =
              set b.subscriptions i (record {
                event = event;
                callback = callback;
                user_data = user_data;
                active = true;
              });
          subscriber_count = (b.subscriber_count + 1) % 2 ^ 64;
        },
      )
    ]

-- `--subscriberCount_` wraps as a size_t does.
unsubscribe_at : EventBus → ℕ → EventBus
unsubscribe_at b i =
    let s = get_or b.subscriptions i no_subscription in
    if s.active
    then record b {
      subscriptions = set b.subscriptions i (record s { active = false });
      subscriber_count = (b.subscriber_count + (2 ^ 64 - 1)) % 2 ^ 64;
    }
    else b

pub unsubscribe : EventBus → ℤ → EventBus
unfolding unsubscribe_at
unsubscribe b (negsuc n) = b
unsubscribe b (pos i) = if leb max_event_subscribers i then b else unsubscribe_at b i

pub enqueue : EventBus → EventData → Bool × EventBus
enqueue b d = if leb event_queue_depth b.queue_count then (false, b) else (
  true,
  record b {
    queue = set b.queue b.queue_tail d;
    queue_tail = (b.queue_tail + 1) % event_queue_depth;
    queue_count = b.queue_count + 1;
  },
)

-- The head of the queue, taken off; the loop body of `dispatchQueued` before its dispatch.
pub take_event : EventBus → EventData × EventBus
take_event b = (
  get_or b.queue b.queue_head no_event,
  record b { queue_head = (b.queue_head + 1) % event_queue_depth; queue_count = b.queue_count - 1 },
)

module _ {W : Type 0} (call : ℕ → EventData → ℕ → EventBus × W → EventBus × W) where
  -- The body of the loop of `dispatch`, at place `i` of the bus as it is by then.
  unfoldable pub deliver : ℕ → EventData → EventBus × W → EventBus × W
  deliver i d s =
      let sub = get_or (s.0).subscriptions i no_subscription in
      if sub.active && (sub.event == d.id)
      then elim sub.callback [ none ↦ s | some c ↦ call c d sub.user_data s ]
      else s

  pub dispatch_from : ℕ → ℕ → EventData → EventBus × W → EventBus × W
  dispatch_from zero i d s = s
  dispatch_from (suc n) i d s = dispatch_from n (i + 1) d (deliver i d s)

  pub dispatch : EventData → EventBus × W → EventBus × W
  dispatch d s = dispatch_from max_event_subscribers 0 d s

  -- publish(const EventData&).
  pub publish_data : EventData → EventBus × W → EventBus × W
  publish_data d s = dispatch d s

  -- publish(Event, uint32_t, uint32_t).
  pub publish : ℕ → ℕ → ℕ → EventBus × W → EventBus × W
  publish event param1 param2 s =
      dispatch (record no_event { id = event; param1 = param1; param2 = param2 }) s

  -- `none`: the fuel ran out before the queue was empty.
  pub dispatch_queued : ℕ → EventBus × W → Option (EventBus × W)
  dispatch_queued zero s = none
  dispatch_queued (suc fuel) s =
      let t = take_event s.0 in
      let rest = dispatch_queued fuel (dispatch t.0 (t.1, s.1)) in
      if (s.0).queue_count == 0 then some s else rest
