-- ===== src/Storage/Regions.antt =====
-- The named regions of StorageManager: registerRegion and getRegion.
use takt_os.Base.{
  ℕ, ◌-◌, ◌<◌, ◌≡◌, refl, ap, sym, ◌∙◌, List, [], ◌∷◌, ◌++◌, Option, none, some, Bool, true, false,
  ◌&&◌, leb, ltb, length, take, length-take, if◌then◌else◌, ◌==◌, arith, Bool-cases, inl, inr,
}
use takt_os.Storage.{StorageManager, Region, max_regions}

-- strcmp(a, b) == 0, of texts that hold no zero byte.
unfoldable pub same_text : List ℕ → List ℕ → Bool
same_text [] [] = true
same_text [] (_ ∷ _) = false
same_text (_ ∷ _) [] = false
same_text (x ∷ xs) (y ∷ ys) = x == y && same_text xs ys

abbrev pub first_some {ℓ} : {A : Type ℓ} → Option A → Option A → Option A
first_some none o = o
first_some (some a) o = some a

-- The text that strncpy leaves in a cleared `char[size]`, for `strncpy(dst, src, size - 1)`.
abbrev pub copied_text : ℕ → List ℕ → List ℕ
copied_text size src = take (size - 1) src

unfoldable pub find_region : List Region → List ℕ → Option Region
find_region [] name = none
find_region (r ∷ rs) name = if same_text r.name name then some r else find_region rs name

module _ {F : Type 0} where
  unfoldable pub register_region : StorageManager F → List ℕ → ℕ → ℕ → Bool × StorageManager F
  register_region m name offset size = if leb max_regions (length m.regions) then (false, m) else (
    true,
    record m {
      regions =
          m.regions ++ (record { name = copied_text 32 name; offset = offset; size = size } ∷ []);
    },
  )

  unfoldable pub get_region : StorageManager F → List ℕ → Option Region
  get_region m name = find_region m.regions name

pub same_text_refl : (xs : List ℕ) → same_text xs xs ≡ true
unfolding same_text
same_text_refl [] = refl
same_text_refl (x ∷ xs) = ground (arith, same_text_refl xs)

same_text-length : (xs ys : List ℕ) → same_text xs ys ≡ true → length xs ≡ length ys
unfolding same_text
same_text-length [] [] h = refl
same_text-length [] (y ∷ ys) h = ground arith
same_text-length (x ∷ xs) [] h = ground arith
same_text-length (x ∷ xs) (y ∷ ys) h = ground (arith, same_text-length xs ys)

first_some-none {ℓ} : {A : Type ℓ} (o : Option A) → first_some o none ≡ o
first_some-none none = refl
first_some-none (some a) = refl

find_region-append :
    (rs : List Region) (r : Region) (q : List ℕ)
    → find_region (rs ++ (r ∷ [])) q
      ≡ first_some (find_region rs q) (if same_text r.name q then some r else none)
unfolding find_region
find_region-append [] r q = refl
find_region-append (s ∷ rs) r q = elim (Bool-cases (same_text s.name q)) [
  | inl t ↦ rw t
  | inr t ↦ rw t (find_region-append rs r q)
]

module _ {F : Type 0} (m : StorageManager F) (name : List ℕ) (offset size : ℕ) where
  -- A lookup after a registration, for every text that is looked up: the table has sixteen places;
  -- beyond them the registration is refused and changes nothing, and below the new region is found,
  -- under the text that strncpy keeps, where no older one is.
  pub get_region-register_region :
      (q : List ℕ)
      → let (ok, m') = register_region m name offset size in
        (ok ≡ ltb (length m.regions) max_regions)
        × (get_region m' q
            ≡ first_some (get_region m q) (
                if ok && same_text (copied_text 32 name) q
                then some (record { name = copied_text 32 name; offset = offset; size = size })
                else none))
  unfolding register_region get_region
  get_region-register_region q = elim (Bool-cases (leb max_regions (length m.regions))) [
    | inl full ↦ rw (full) (ground arith, sym (first_some-none (get_region m q)))
    | inr room ↦ rw (room) (ground arith, find_region-append m.regions _ q)
  ]

  -- A region registered under a name of 32 characters or more cannot be looked up by that name: the
  -- copy is cut to 31.
  pub get_region_long_name :
      31 < length name → get_region (register_region m name offset size).1 name ≡ get_region m name
  get_region_long_name h =
      (get_region-register_region name).1
      ∙ ap (first_some (get_region m name)) (rw cut (ground arith))
      ∙ first_some-none (get_region m name)
    where
      cut : same_text (copied_text 32 name) name ≡ false
      cut = elim (Bool-cases (same_text (copied_text 32 name) name)) [
        | inl t ↦
            absurd
              (omega (arith, same_text-length (copied_text 32 name) name t, length-take 31 name))
        | inr t ↦ t
      ]
