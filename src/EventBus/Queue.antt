-- ===== src/EventBus/Queue.antt =====
-- The deferred queue: an array of 64 places used as a ring, against the list of its events.
use takt_os.Base.{
  ℕ, zero, suc, ◌+◌, ◌-◌, ◌%◌, ◌≤◌, ◌<◌, ◌≡◌, refl, ap, ap₂, ◌∙◌, List, [], ◌∷◌, ◌++◌, leb, ltb,
  if◌then◌else◌, get_or, set, length, arith, length-set, get_or-set_self, get_or-set_ne, Bool-cases,
  inl, inr,
}
use native.Mathlib.Numerals.{add-one}
use takt_os.EventBus.{
  EventBus, EventData, no_event, event_queue_depth, new_bus, enqueue, take_event,
}

-- `n` places from `head` on, going round after the last.
abbrev pub ring_from : List EventData → ℕ → ℕ → List EventData
ring_from queue head zero = []
ring_from queue head (suc n) =
    get_or queue head no_event ∷ ring_from queue ((head + 1) % event_queue_depth) n

-- The events that wait, oldest first.
abbrev pub waiting : EventBus → List EventData
waiting b = ring_from b.queue b.queue_head b.queue_count

pub record IsRing (b : EventBus) : Type 0 where
  pub places : length b.queue ≡ event_queue_depth
  pub head_in : b.queue_head < event_queue_depth
  pub count_in : b.queue_count ≤ event_queue_depth
  pub tail_at : b.queue_tail ≡ (b.queue_head + b.queue_count) % event_queue_depth

pub new_bus-IsRing : IsRing new_bus
unfolding new_bus
new_bus-IsRing = record {
  places = refl;
  head_in = omega arith;
  count_in = omega arith;
  tail_at = refl;
}

-- A write just behind the events adds one to them.
ring_from-set :
    (queue : List EventData) (d : EventData) (n head tail : ℕ)
    → length queue ≡ event_queue_depth
    → head < event_queue_depth
    → n < event_queue_depth
    → tail ≡ (head + n) % event_queue_depth
    → ring_from (set queue tail d) head (suc n) ≡ ring_from queue head n ++ (d ∷ [])
ring_from-set queue d zero head tail len hh hn e =
    let here : tail ≡ head = omega arith in
    rw here (ap (λ x. x ∷ []) (get_or-set_self queue head d no_event (omega arith)))
ring_from-set queue d (suc n) head tail len hh hn e =
    ap₂ ◌∷◌ (get_or-set_ne queue tail head d no_event (omega arith)) (
      ring_from-set queue d n ((head + 1) % event_queue_depth) tail len (omega arith) (omega arith)
        (omega arith))

ring_from-pos :
    (queue : List EventData) (head n : ℕ)
    → 0 < n
    → ring_from queue head n
      ≡ get_or queue head no_event ∷ ring_from queue ((head + 1) % event_queue_depth) (n - 1)
ring_from-pos queue head zero h = elim h [ ]
ring_from-pos queue head (suc n) h =
    ap (λ k. get_or queue head no_event ∷ ring_from queue ((head + 1) % event_queue_depth) k)
      (omega arith)

length-ring_from : (queue : List EventData) (head n : ℕ) → length (ring_from queue head n) ≡ n
length-ring_from queue head zero = refl
length-ring_from queue head (suc n) =
    ap suc (length-ring_from queue ((head + 1) % event_queue_depth) n)

-- `enqueue` adds the event behind those that wait; with 64 waiting it drops the event and changes
-- nothing. The ring stays well formed.
pub enqueue_lem :
    (b : EventBus) (d : EventData)
    → IsRing b
    → let (ok, b') = enqueue b d in
      (ok ≡ ltb (length (waiting b)) event_queue_depth)
      × (waiting b' ≡ (if ok then waiting b ++ (d ∷ []) else waiting b))
      × IsRing b'
unfolding enqueue
enqueue_lem b d v = elim (Bool-cases (leb event_queue_depth b.queue_count)) [
  | inl full ↦
      rw full (rw (length-ring_from b.queue b.queue_head b.queue_count) (ground arith), refl, v)
  | inr room ↦
      let n = b.queue_count in
      let lt : n < event_queue_depth = ground arith in
      rw room (
        rw (length-ring_from b.queue b.queue_head n) (ground arith),
        rw (add-one n)
            (ring_from-set b.queue d n b.queue_head b.queue_tail v.places v.head_in lt v.tail_at),
        record {
          places = length-set b.queue b.queue_tail d ∙ v.places;
          head_in = v.head_in;
          count_in = omega arith;
          tail_at = omega (arith, v.tail_at);
        },
      )
]

-- Taking an event from a queue that is not empty takes the oldest.
pub take_event_lem :
    (b : EventBus)
    → IsRing b
    → 0 < b.queue_count
    → let (d, b') = take_event b in (waiting b ≡ d ∷ waiting b') × IsRing b'
unfolding take_event
take_event_lem b v h = (
  ring_from-pos b.queue b.queue_head b.queue_count h,
  record {
    places = v.places;
    head_in = omega arith;
    count_in = omega (arith, v.count_in);
    tail_at = omega (arith, v.tail_at);
  },
)

pub waiting-zero : (b : EventBus) → b.queue_count ≡ 0 → waiting b ≡ []
waiting-zero b e = ap (ring_from b.queue b.queue_head) e

pub length-waiting : (b : EventBus) → length (waiting b) ≡ b.queue_count
length-waiting b = length-ring_from b.queue b.queue_head b.queue_count

pub subscriptions-take_event : (b : EventBus) → (take_event b).1.subscriptions ≡ b.subscriptions
unfolding take_event
subscriptions-take_event b = refl

pub count-take_event : (b : EventBus) → (take_event b).1.queue_count ≡ b.queue_count - 1
unfolding take_event
count-take_event b = refl

pub subscriptions-enqueue :
    (b : EventBus) (d : EventData) → (enqueue b d).1.subscriptions ≡ b.subscriptions
unfolding enqueue
subscriptions-enqueue b d = ground arith
