-- ===== src/Timer/Registry.antt =====
-- The registry of timers: a table of 32 pointers, and the number of those that are not null.
use takt_os.Base.{
  ℕ, zero, suc, ◌+◌, ◌-◌, ◌%◌, ◌^◌, ◌≤◌, ◌<◌, ◌≡◌, ◌≢◌, refl, ap, sym, ◌∙◌, List, [], ◌∷◌, Option,
  none, some, Bool, true, false, leb, ltb, ◌==◌, ◌&&◌, arith, Bool-cases, Option-cases, inl, inr,
  ◌⊎◌, get_or, set, length, length-set, get_or-set_self, get_or-set_ne, ℕ_discrete, false≢true,
}
use takt_os.Timer.{
  Timers, put, max_timers, no_handle, points_to, free_slot, register_timer, unregister_timer,
}

abbrev pub used_one : Option ℕ → ℕ
used_one none = 0
used_one (some p) = 1

-- How many pointers are not null.
abbrev pub used_count : List (Option ℕ) → ℕ
used_count [] = 0
used_count (x ∷ slots) = used_one x + used_count slots

pub record IsRegistry (s : Timers) : Type 0 where
  pub places : length s.slots ≡ max_timers
  pub counted : s.active_count ≡ used_count s.slots
  -- A timer that the table points to knows its place.
  pub handles : (i p : ℕ) → get_or s.slots i none ≡ some p → (s.heap p).handle ≡ i

-- No pointer of the table is `p`.
abbrev pub IsUnregistered : Timers → ℕ → Type 0
IsUnregistered s p = (i : ℕ) → get_or s.slots i none ≢ some p

used_one-le : (x : Option ℕ) → used_one x ≤ 1
used_one-le none = omega arith
used_one-le (some p) = omega arith

used_count-le-length : (slots : List (Option ℕ)) → used_count slots ≤ length slots
used_count-le-length [] = omega arith
used_count-le-length (x ∷ slots) = omega (arith, used_count-le-length slots, used_one-le x)

pub used_count-set :
    (slots : List (Option ℕ)) (i : ℕ) (x : Option ℕ)
    → i < length slots
    → used_count (set slots i x) + used_one (get_or slots i none) ≡ used_count slots + used_one x
used_count-set [] i x h = elim h [ ]
used_count-set (y ∷ slots) zero x h = omega arith
used_count-set (y ∷ slots) (suc i) x h = omega (arith, used_count-set slots i x (omega arith))

-- What the search finds: a null pointer of the table.
free_slot-some :
    (slots : List (Option ℕ)) (i j : ℕ)
    → free_slot slots i ≡ some j
    → (i ≤ j) × (j < i + length slots) × (get_or slots (j - i) none ≡ none)
unfolding free_slot
free_slot-some [] i j e = ground arith
free_slot-some (none ∷ slots) i j e =
    let here : i ≡ j = ground arith in
    let k : j - i ≡ 0 = omega arith in (omega arith, omega arith, rw k refl)
free_slot-some (some p ∷ slots) i j e =
    let (lo, hi, off) = free_slot-some slots (i + 1) j e in
    let k : j - i ≡ suc (j - (i + 1)) = omega arith in (omega arith, omega arith, rw k off)

free_slot-none :
    (slots : List (Option ℕ)) (i : ℕ) → free_slot slots i ≡ none → used_count slots ≡ length slots
unfolding free_slot
free_slot-none [] i e = refl
free_slot-none (none ∷ slots) i e = ground arith
free_slot-none (some p ∷ slots) i e = omega (arith, free_slot-none slots (i + 1) e)

get_or-in : (slots : List (Option ℕ)) (i p : ℕ) → get_or slots i none ≡ some p → i < length slots
get_or-in [] i p e = ground arith
get_or-in (x ∷ slots) zero p e = omega arith
get_or-in (x ∷ slots) (suc i) p e = omega (arith, get_or-in slots i p e)

-- The registry with `p` at place `i`.
abbrev pub registered : Timers → ℕ → ℕ → Timers
registered s p i = record s {
  heap = put s.heap p (record (s.heap p) { handle = i });
  slots = set s.slots i (some p);
  active_count = s.active_count + 1;
}

registered-IsRegistry :
    (s : Timers) (p i : ℕ)
    → IsRegistry s
    → IsUnregistered s p
    → i < max_timers
    → get_or s.slots i none ≡ none
    → IsRegistry (registered s p i)
registered-IsRegistry s p i v fresh h free = record {
  places = length-set s.slots i (some p) ∙ v.places;
  counted =
      let c = used_count-set s.slots i (some p) (omega (arith, v.places)) in
      let z : used_one (get_or s.slots i none) ≡ 0 = rw free refl in omega (arith, v.counted, c, z);
  handles = λ j q e. elim (ℕ_discrete i j) [
    | yes same ↦
        let at : some p ≡ some q =
          sym (get_or-set_self s.slots i (some p) none (omega (arith, v.places)))
          ∙ (ap (λ k. get_or (set s.slots i (some p)) k none) same ∙ e) in
        let pq : (q == p) ≡ true = ground arith in rw pq same
    | no ne ↦
        let old : get_or s.slots j none ≡ some q =
          sym (get_or-set_ne s.slots i j (some p) none ne) ∙ e in
        let pq : (q == p) ≡ false = elim (ℕ_discrete q p) [
          | yes eq ↦ absurd (fresh j (old ∙ ap (λ x. some x) eq))
          | no d ↦ ground arith
        ] in
        rw pq (v.handles j q old)
  ];
}

-- With a null pointer in the table, `registerTimer` succeeds.
pub register_timer-room :
    (s : Timers) (p : ℕ)
    → length s.slots ≡ max_timers
    → s.active_count ≡ used_count s.slots
    → used_count s.slots < max_timers
    → (i : ℕ) × (i < max_timers)
      × (get_or s.slots i none ≡ none)
      × (register_timer s p ≡ (true, registered s p i))
unfolding register_timer
register_timer-room s p places counted room =
    let below : leb max_timers s.active_count ≡ false = ground arith in
    elim (Option-cases (free_slot s.slots 0)) [
      | inl e ↦ absurd (omega (arith, free_slot-none s.slots 0 e))
      | inr (i, e) ↦
          let (lo, hi, free) = free_slot-some s.slots 0 i e in
          let first : i - 0 ≡ i = omega arith in
          let place : i % 2 ^ 16 ≡ i = omega arith in
          let count : (s.active_count + 1) % 2 ^ 64 ≡ s.active_count + 1 = omega arith in
          (i, omega arith, rw first at free, rw (below, e, place, count) refl)
    ]

-- On a well-formed registry that does not point to the timer: with fewer than 32 timers
-- `registerTimer` puts it at a null pointer, tells it the place and counts it; with 32 it
-- fails and changes nothing. The registry stays well formed: the counter is the number of
-- pointers, and each timer knows its place.
pub register_timer_lem :
    (s : Timers) (p : ℕ)
    → IsRegistry s
    → IsUnregistered s p
    → IsRegistry (register_timer s p).1
      × (((used_count s.slots ≡ max_timers) × (register_timer s p ≡ (false, s)))
          ⊎ ((i : ℕ) × (i < max_timers)
              × (get_or s.slots i none ≡ none)
              × (register_timer s p ≡ (true, registered s p i))))
unfolding register_timer
register_timer_lem s p v fresh =
    let most = used_count-le-length s.slots in
    elim (ℕ_discrete (used_count s.slots) max_timers) [
      | yes full ↦
          let above : leb max_timers s.active_count ≡ true = ground (arith, v.counted) in
          rw above (v, inl (full, refl))
      | no ne ↦
          let (i, room, free, e) =
            register_timer-room s p v.places v.counted (omega (arith, v.places)) in
          let w : IsRegistry (register_timer s p).1 =
            rw e (registered-IsRegistry s p i v fresh room free) in
          (w, inr (i, room, free, e))
    ]

-- The place of `p`'s handle holds `p`.
abbrev pub found : Timers → ℕ → Bool
found s p = ltb (s.heap p).handle max_timers && points_to (get_or s.slots (s.heap p).handle none) p

found-true :
    (s : Timers) (p : ℕ)
    → found s p ≡ true
    → ((s.heap p).handle < max_timers) × (get_or s.slots (s.heap p).handle none ≡ some p)
found-true s p e = elim (Option-cases (get_or s.slots (s.heap p).handle none)) [
  | inl null ↦
      absurd
        (let h : (ltb (s.heap p).handle max_timers && false) ≡ true = rw null at e in ground arith)
  | inr (q, at) ↦
      let h : (ltb (s.heap p).handle max_timers && (q == p)) ≡ true = rw at at e in
      let eq : q ≡ p = ground arith in (ground arith, at ∙ ap (λ x. some x) eq)
]

-- The registry without the pointer to `p`.
unregistered : Timers → ℕ → Timers
unregistered s p = record s {
  heap = put s.heap p (record (s.heap p) { handle = no_handle });
  slots = set s.slots (s.heap p).handle none;
  active_count = (s.active_count + (2 ^ 64 - 1)) % 2 ^ 64;
}

removed :
    (s : Timers) (p : ℕ)
    → IsRegistry s
    → (s.heap p).handle < max_timers
    → get_or s.slots (s.heap p).handle none ≡ some p
    → IsRegistry (unregistered s p) × IsUnregistered (unregistered s p) p
unfolding unregistered
removed s p v room at =
    let h = (s.heap p).handle in
    let c = used_count-set s.slots h none (omega (arith, v.places)) in
    let most = used_count-le-length s.slots in
    let one : used_one (get_or s.slots h none) ≡ 1 = rw at refl in
    let clear : get_or (set s.slots h none) h none ≡ none =
      get_or-set_self s.slots h none none (omega (arith, v.places)) in
    let elsewhere : (j q : ℕ)
        → get_or (set s.slots h none) j none ≡ some q
        → (h ≢ j) × (get_or s.slots j none ≡ some q) =
      λ j q e. elim (ℕ_discrete h j) [
        | yes same ↦ absurd (
            let clash : none ≡ some q =
              sym clear ∙ (ap (λ k. get_or (set s.slots h none) k none) same ∙ e) in
            ground arith)
        | no ne ↦ (ne, sym (get_or-set_ne s.slots h j none none ne) ∙ e)
      ] in
    let gone : IsUnregistered (unregistered s p) p =
      λ j e. let (ne, old) = elsewhere j p e in ne (v.handles j p old) in
    (
      record {
        places = length-set s.slots h none ∙ v.places;
        counted = omega (arith, v.counted, v.places, c, most, one);
        handles = λ j q e.
            let (ne, old) = elsewhere j q e in
            let apart : (q == p) ≡ false = elim (ℕ_discrete q p) [
              | yes eq ↦ absurd (gone j (e ∙ ap (λ x. some x) eq))
              | no d ↦ ground arith
            ] in
            rw apart (v.handles j q old);
      },
      gone,
    )

-- On a well-formed registry, `unregisterTimer` leaves no pointer to the timer, whether it was
-- registered or not, and keeps the registry well formed.
pub unregister_timer_lem :
    (s : Timers) (p : ℕ)
    → IsRegistry s
    → IsRegistry (unregister_timer s p) × IsUnregistered (unregister_timer s p) p
unfolding unregister_timer unregistered
unregister_timer_lem s p v = elim (Bool-cases (found s p)) [
  | inr off ↦ rw off (
    v,
    λ i e.
        let h = v.handles i p e in
        let lt = get_or-in s.slots i p e in
        let at : get_or s.slots (s.heap p).handle none ≡ some p = rw h e in
        let pp : (p == p) ≡ true = ground arith in
        let low : ltb (s.heap p).handle max_timers ≡ true = ground (arith, v.places) in
        false≢true (sym off ∙ (rw (at, low, pp) refl)),
  )
  | inl on ↦ let (room, at) = found-true s p on in rw on (removed s p v room at)
]
