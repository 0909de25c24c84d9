-- ===== src/Nvs/Host.antt =====
-- What the host build reads of a store.
use takt_os.Base.{
  ℕ, ◌≡◌, refl, ap, ap₂, sym, ◌∙◌, List, [], ◌∷◌, ◌++◌, none, some, Bool, true, false, ltb, length,
  if◌then◌else◌, ◌==◌, arith, ==_refl, Bool-cases, inl, inr, false≢true,
}
use takt_os.Storage.Regions.{same_text, same_text_refl}
use takt_os.Nvs.{
  HostNvs, HostNvsEntry, Store, find, assign, full_key, check_entry, compute_crc, write_entry,
  read_entry,
}

pub same_text-eq : (xs ys : List ℕ) → same_text xs ys ≡ true → xs ≡ ys
unfolding same_text
same_text-eq [] [] h = refl
same_text-eq [] (y ∷ ys) h = absurd (false≢true h)
same_text-eq (x ∷ xs) [] h = absurd (false≢true h)
same_text-eq (x ∷ xs) (y ∷ ys) h = elim (Bool-cases (x == y)) [
  | inl e ↦ ap₂ ◌∷◌ (ground (arith, e)) (same_text-eq xs ys (rw e at h))
  | inr e ↦ absurd (false≢true (rw e at h))
]

-- The names of a namespace differ where the keys do.
same_text-prefix : (p xs ys : List ℕ) → same_text (p ++ xs) (p ++ ys) ≡ same_text xs ys
unfolding same_text
same_text-prefix [] xs ys = refl
same_text-prefix (x ∷ p) xs ys = rw (==_refl x) (same_text-prefix p xs ys)

if_twice {ℓ} :
    {A : Type ℓ} (b : Bool) (x y z : A)
    → (if b then x else z) ≡ (if b then x else if b then y else z)
if_twice true x y z = refl
if_twice false x y z = refl

if_swap {ℓ} :
    {A : Type ℓ} (a b : Bool) (x y z : A)
    → (a ≡ true → b ≡ true → ⊥)
    → (if a then x else if b then y else z) ≡ (if b then y else if a then x else z)
if_swap true true x y z h = absurd (h refl refl)
if_swap true false x y z h = refl
if_swap false true x y z h = refl
if_swap false false x y z h = refl

find-assign :
    (key other : List ℕ) (e : HostNvsEntry) (store : Store)
    → find other (assign key e store) ≡ (if same_text key other then some e else find other store)
unfolding find assign
find-assign key other e [] = refl
find-assign key other e ((k, x) ∷ rest) = elim (Bool-cases (same_text k key)) [
  | inl same ↦
      let eq : k ≡ key = same_text-eq k key same in
      let here : same_text k other ≡ same_text key other = ap (λ t. same_text t other) eq in
      rw (same, here) (if_twice (same_text key other) (some e) (some x) (find other rest))
  | inr differ ↦
      let apart : same_text k other ≡ true → same_text key other ≡ true → ⊥ = λ p q.
        let eq : k ≡ key = same_text-eq k other p ∙ sym (same_text-eq key other q) in
        false≢true (sym differ ∙ (ap (λ t. same_text t key) eq ∙ same_text_refl key)) in
      rw (differ, find-assign key other e rest)
        (if_swap (same_text k other) (same_text key other) (some x) (some e) (find other rest)
          apart)
]

-- On the host: behind a `writeEntry` of a key, `readEntry` of that key yields the bytes and the
-- version if the buffer has room for them, and nothing else; and `readEntry` of every other key
-- yields what it did before.
pub read_entry-write_entry :
    (n : HostNvs) (key other bytes : List ℕ) (version max_len : ℕ)
    → let (ok, n1) = write_entry n key bytes version in
      (ok ≡ true)
      × (read_entry n1 other max_len ≡ (
          if same_text key other
          then if ltb max_len (length bytes) then (false, [], none) else (true, bytes, some version)
          else read_entry n other max_len))
unfolding write_entry read_entry
read_entry-write_entry n key other bytes version max_len =
    let e : HostNvsEntry = record { bytes = bytes; version = version; crc32 = compute_crc bytes } in
    let name = n.manager.name in
    let found =
      find-assign (full_key n.manager key) (full_key n.manager other) e n.store
      ∙ ap (λ t. if t then some e else find (full_key n.manager other) n.store)
          (same_text-prefix name (58 ∷ key) (58 ∷ other) ∙ same_text-prefix (58 ∷ []) key other) in
    elim (Bool-cases (same_text key other)) [
      | inl same ↦
          (refl, ap (check_entry max_len) found ∙ rw (same, ==_refl (compute_crc bytes)) refl)
      | inr differ ↦ (refl, ap (check_entry max_len) found ∙ rw differ refl)
    ]
