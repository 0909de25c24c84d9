-- ===== src/Cache/Lines.antt =====
-- Which line of the cache a key finds.
use takt_os.Base.{
  ℕ, zero, suc, ◌+◌, ◌%◌, ◌^◌, ◌<◌, ◌≡◌, refl, ap, ◌∙◌, List, [], ◌∷◌, ◌++◌, Option, none, some,
  Bool, true, false, ◌&&◌, ltb, ◌==◌, length, get_or, set, if◌then◌else◌, arith, Bool-cases, inl,
  inr, subst, ◌⊎◌, ==_refl, length-set,
}
use takt_os.Cache.{
  CacheEntry, CacheManager, empty_entry, next, find_index, line_key, find_line, lru_from, lru_index,
  entry_at, touched,
}

-- A changed entry with the same key and validity changes no search.
pub find_index-set :
    (key : ℕ) (es : List CacheEntry) (i : ℕ) (e : CacheEntry)
    → e.valid ≡ (get_or es i empty_entry).valid
    → e.key ≡ (get_or es i empty_entry).key
    → find_index key (set es i e) ≡ find_index key es
unfolding find_index
find_index-set key [] i e v k = refl
find_index-set key (x ∷ es) zero e v k = rw (v, k) refl
find_index-set key (x ∷ es) (suc i) e v k = rw (find_index-set key es i e v k) refl

no_hit :
    (hit : Bool) (o : Option ℕ)
    → (if hit then some 0 else next o) ≡ none
    → (hit ≡ false) × (o ≡ none)
no_hit true o h = cc
no_hit false none h = (refl, refl)
no_hit false (some i) h = cc

-- What a search that fails says of the first entry and the others.
find_index-none :
    (key : ℕ) (x : CacheEntry) (es : List CacheEntry)
    → find_index key (x ∷ es) ≡ none
    → ((x.valid && (x.key == key)) ≡ false) × (find_index key es ≡ none)
unfolding find_index
find_index-none key x es h = no_hit (x.valid && (x.key == key)) (find_index key es) h

-- An entry put where no key matched before is found.
pub find_index-put :
    (key : ℕ) (es : List CacheEntry) (i : ℕ) (e : CacheEntry)
    → find_index key es ≡ none
    → i < length es
    → e.valid ≡ true
    → e.key ≡ key
    → find_index key (set es i e) ≡ some i
unfolding find_index
find_index-put key [] i e h k v s = elim k [ ]
find_index-put key (x ∷ es) zero e h k v s = rw (v, s, ==_refl key) refl
find_index-put key (x ∷ es) (suc i) e h k v s =
    let (miss, rest) = find_index-none key x es h in
    rw (miss, find_index-put key es i e rest (omega arith) v s) refl

pub find_index-push :
    (key : ℕ) (es : List CacheEntry) (e : CacheEntry)
    → find_index key es ≡ none
    → e.valid ≡ true
    → e.key ≡ key
    → find_index key (es ++ (e ∷ [])) ≡ some (length es)
unfolding find_index
find_index-push key [] e h v s = rw (v, s, ==_refl key) refl
find_index-push key (x ∷ es) e h v s =
    let (miss, rest) = find_index-none key x es h in
    rw (miss, find_index-push key es e rest v s) refl

lru_from-lt :
    (best access i : ℕ) (es : List CacheEntry)
    → best < i
    → lru_from best access i es < i + length es
unfolding lru_from
lru_from-lt best access i [] h = omega arith
lru_from-lt best access i (e ∷ es) h = elim (Bool-cases (ltb e.last_access access)) [
  | inl t ↦ rw t (omega (arith, lru_from-lt i e.last_access (i + 1) es (omega arith)))
  | inr t ↦ rw t (omega (arith, lru_from-lt best access (i + 1) es (omega arith)))
]

pub lru_index-lt : (es : List CacheEntry) → 0 < length es → lru_index es < length es
unfolding lru_index
lru_index-lt [] h = elim h [ ]
lru_index-lt (e ∷ es) h = omega (arith, lru_from-lt 0 e.last_access 1 es (omega arith))

from_some : ℕ → Option ℕ → ℕ
from_some d none = d
from_some d (some i) = i

next-lt :
    (hit : Bool) (o : Option ℕ) (i n : ℕ)
    → (if hit then some 0 else next o) ≡ some i
    → ((j : ℕ) → o ≡ some j → j < n)
    → i < suc n
unfolding from_some
next-lt true o i n h lt = let e = ap (from_some i) h in omega (arith, e)
next-lt false none i n h lt = cc
next-lt false (some j) i n h lt =
    let e = ap (from_some i) h in let less = lt j refl in omega (arith, e, less)

find_index-lt :
    (key : ℕ) (es : List CacheEntry) (i : ℕ) → find_index key es ≡ some i → i < length es
unfolding find_index
find_index-lt key [] i h = cc
find_index-lt key (x ∷ es) i h =
    next-lt (x.valid && (x.key == key)) (find_index key es) i (length es) h (find_index-lt key es)

-- A search finds the first entry, or what a search behind it finds.
next-some :
    (hit : Bool) (o : Option ℕ) (i : ℕ)
    → (if hit then some 0 else next o) ≡ some i
    → ((hit ≡ true) × (0 ≡ i)) ⊎ ((j : ℕ) × (o ≡ some j) × (suc j ≡ i))
unfolding from_some
next-some true o i h = inl (refl, ap (from_some i) h)
next-some false none i h = cc
next-some false (some j) i h = inr (j, refl, ap (from_some i) h)

pub find_index-valid :
    (key : ℕ) (es : List CacheEntry) (i : ℕ)
    → find_index key es ≡ some i
    → (get_or es i empty_entry).valid ≡ true
unfolding find_index
find_index-valid key [] i h = cc
find_index-valid key (x ∷ es) i h =
    elim (next-some (x.valid && (x.key == key)) (find_index key es) i h) [
      | inl (hit, e) ↦
          subst (λ n. (get_or (x ∷ es) n empty_entry).valid ≡ true) e (both x.valid _ hit)
      | inr (j, p, e) ↦
          subst (λ n. (get_or (x ∷ es) n empty_entry).valid ≡ true) e (find_index-valid key es j p)
    ]
  where
    both : (b c : Bool) → (b && c) ≡ true → b ≡ true
    both true c h = refl
    both false c h = h

-- A line that is found is found again after the hit.
pub touched-found :
    (c : CacheManager) (offset i : ℕ)
    → find_index (line_key c offset) c.entries ≡ some i
    → let c1 = touched c i in
      (c1.line_size ≡ c.line_size)
      × (i < length c1.entries)
      × (find_index (line_key c1 offset) c1.entries ≡ some i)
touched-found c offset i hit =
    let e : CacheEntry = record (entry_at c i) {
      last_access = ((c.hits + 1) % 2 ^ 32 + c.misses) % 2 ^ 32;
    } in
    (
      refl,
      omega (arith, find_index-lt (line_key c offset) c.entries i hit, length-set c.entries i e),
      find_index-set (line_key c offset) c.entries i e refl refl ∙ hit,
    )

pub find_line_hit :
    (c : CacheManager) (offset i : ℕ)
    → find_index (line_key c offset) c.entries ≡ some i
    → find_line c offset ≡ (some i, touched c i)
unfolding find_line
find_line_hit c offset i hit = rw (find_line, hit)

pub find_line_miss :
    (c : CacheManager) (offset : ℕ)
    → find_index (line_key c offset) c.entries ≡ none
    → find_line c offset ≡ (none, record c { misses = (c.misses + 1) % 2 ^ 32 })
unfolding find_line
find_line_miss c offset miss = rw (find_line, miss)
