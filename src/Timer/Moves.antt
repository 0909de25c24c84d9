-- ===== src/Timer/Moves.antt =====
-- What is left in the registry when a timer is moved, or gets its callback a second time.
use takt_os.Base.{
  ℕ, ◌+◌, ◌<◌, ◌≡◌, ◌≢◌, refl, ap, sym, ◌∙◌, Option, none, some, true, false, ltb, ◌==◌, ◌&&◌,
  arith, get_or, set,
}
use takt_os.Base.{length, length-set, get_or-set_self, get_or-set_ne}
use takt_os.Timer.Registry.{
  IsRegistry, IsUnregistered, used_count, used_one, used_count-set, registered, register_timer-room,
}
use takt_os.Timer.{
  on_timeout, Timers, store, max_timers, no_handle, points_to, unregister_timer, destroy,
  move_construct,
}

-- The timer at `q` is registered, and knows its place.
abbrev pub IsRegistered : Timers → ℕ → Type 0
IsRegistered s q =
    ((s.heap q).handle < max_timers) × (get_or s.slots (s.heap q).handle none ≡ some q)

-- `unregisterTimer` does nothing where the handle's place holds another pointer.
pub unregister_timer-other :
    (s : Timers) (p : ℕ)
    → (ltb (s.heap p).handle max_timers && points_to (get_or s.slots (s.heap p).handle none) p)
      ≡ false
    → unregister_timer s p ≡ s
unfolding unregister_timer
unregister_timer-other s p e = rw e refl

unregister_timer-here :
    (s : Timers) (p : ℕ)
    → (s.heap p).handle < max_timers
    → get_or s.slots (s.heap p).handle none ≡ some p
    → (unregister_timer s p).slots ≡ set s.slots (s.heap p).handle none
unfolding unregister_timer
unregister_timer-here s p h at =
    let low : ltb (s.heap p).handle max_timers ≡ true = ground arith in
    let pp : (p == p) ≡ true = ground arith in rw (low, at, pp) refl

-- Moving a registered timer to a new object leaves the registry's pointer at the old one, and neither
-- destructor removes it: when both objects are gone, the registry is as it was before the move, with
-- its pointer at the old object.
pub destroy-move_construct :
    (s : Timers) (p q : ℕ)
    → IsRegistered s q
    → p ≢ q
    → let t = destroy (destroy (move_construct s p q) q) p in
      (t.slots ≡ s.slots)
      × (t.active_count ≡ s.active_count)
      × (get_or t.slots (s.heap q).handle none ≡ some q)
unfolding destroy
destroy-move_construct s p q (room, at) apart =
    let t = move_construct s p q in
    let pq : (p == q) ≡ false = ground arith in
    let qp : (q == p) ≡ false = ground arith in
    let pp : (p == p) ≡ true = ground arith in
    let qq : (q == q) ≡ true = ground arith in
    let same : (t.slots ≡ s.slots) × (t.active_count ≡ s.active_count) =
      unfold move_construct in (refl, refl) in
    let old : (t.heap q).handle ≡ no_handle = unfold move_construct in rw qq refl in
    let new : (t.heap p).handle ≡ (s.heap q).handle = unfold move_construct in rw (pq, pp) refl in
    let e1 : unregister_timer t q ≡ t = unregister_timer-other t q (rw old refl) in
    let e2 : unregister_timer t p ≡ t =
      unregister_timer-other t p (rw (new, same.0, at, qp) (ground arith)) in
    rw (e1, e2) (same.0, same.1, rw same.0 at)

-- On a well-formed registry with two free places, for a timer that is not registered: the
-- second call of `onTimeout` registers it again. The registry then has two pointers to the
-- timer, and its destructor removes only one of them.
pub on_timeout-on_timeout :
    (s : Timers) (p : ℕ) (a b : Option ℕ)
    → IsRegistry s
    → IsUnregistered s p
    → used_count s.slots + 1 < max_timers
    → let t = on_timeout (on_timeout s p a) p b in
      (i : ℕ) × (j : ℕ) × (i ≢ j)
      × (get_or t.slots i none ≡ some p)
      × (get_or t.slots j none ≡ some p)
      × (get_or (destroy t p).slots i none ≡ some p)
unfolding on_timeout destroy
on_timeout-on_timeout s p a b v fresh room =
    let u = store s p (record (s.heap p) { callback = a }) in
    let (i, hi, fi, ei) = register_timer-room u p v.places v.counted (omega arith) in
    let s1 = registered u p i in
    let in_i : get_or s1.slots i none ≡ some p =
      get_or-set_self s.slots i (some p) none (omega (arith, v.places)) in
    let c = used_count-set s.slots i (some p) (omega (arith, v.places)) in
    let z : used_one (get_or s.slots i none) ≡ 0 = rw fi refl in
    let u1 = store s1 p (record (s1.heap p) { callback = b }) in
    let places : length u1.slots ≡ max_timers = length-set s.slots i (some p) ∙ v.places in
    let (j, hj, fj, ej) =
      register_timer-room u1 p places (omega (arith, c, z, v.counted)) (omega (arith, c, z)) in
    let t = registered u1 p j in
    let ne : i ≢ j = λ e.
      let clash : some p ≡ none = sym in_i ∙ (ap (λ k. get_or s1.slots k none) e ∙ fj) in
      ground arith in
    let at_i : get_or t.slots i none ≡ some p =
      get_or-set_ne s1.slots j i (some p) none (λ e. ne (sym e)) ∙ in_i in
    let at_j : get_or t.slots j none ≡ some p =
      get_or-set_self s1.slots j (some p) none (omega arith) in
    let pp : (p == p) ≡ true = ground arith in
    let place : (t.heap p).handle ≡ j = rw pp refl in
    let left : get_or (unregister_timer t p).slots i none ≡ some p =
      rw (unregister_timer-here t p (rw place hj) (rw place at_j), place)
        (get_or-set_ne t.slots j i none none (λ e. ne (sym e)) ∙ at_i) in
    let once : on_timeout s p a ≡ s1 = ap (λ r. r.1) ei in
    let twice : on_timeout s1 p b ≡ t = ap (λ r. r.1) ej in
    rw (once, twice) (i, j, ne, at_i, at_j, left)
