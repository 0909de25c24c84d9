-- ===== src/Diagnostics/Stacks.antt =====
-- What the check of the stacks decides.
use takt_os.Base.{
  ℕ, ◌≡◌, ◌↔◌, refl, ap, sym, ◌∙◌, List, [], ◌∷◌, Option, none, some, Bool, true, false, ◌&&◌, All,
  ==_iff, ◌==◌, false≢true,
}
use takt_os.Diagnostics.{StackEntry, stack_canary, is_sound, check_stacks}

-- The canary of a stack is there; a stack without an address has none.
abbrev pub KeepsCanary : (ℕ → ℕ) → StackEntry → Type 0
KeepsCanary word e = (a : ℕ) → e.top ≡ some a → word a ≡ stack_canary

from_some : ℕ → Option ℕ → ℕ
from_some d none = d
from_some d (some a) = a

is_sound_iff : (word : ℕ → ℕ) (e : StackEntry) → (is_sound word e ≡ true) ↔ KeepsCanary word e
unfolding from_some
is_sound_iff word e = on e.top
  where
    on :
        (top : Option ℕ)
        → ((elim top as (λ _. Bool) [ none ↦ true | some a ↦ word a == stack_canary ]) ≡ true)
          ↔ ((a : ℕ) → top ≡ some a → word a ≡ stack_canary)
    on none = (λ h a e. cc, λ k. refl)
    on (some x) = (
      λ h a e. ap word (sym (ap (from_some x) e)) ∙ (==_iff (word x) stack_canary).0 h,
      λ k. (==_iff (word x) stack_canary).1 (k x refl),
    )

both_true : (a b : Bool) → ((a && b) ≡ true) ↔ ((a ≡ true) × (b ≡ true))
both_true true b = (λ h. (refl, h), λ h. h.1)
both_true false b = (λ h. absurd (false≢true h), λ h. h.0)

-- `checkStacks` says whether every stack that is registered has its canary.
pub check_stacks_iff :
    (word : ℕ → ℕ) (stacks : List StackEntry)
    → (check_stacks word stacks ≡ true) ↔ All (KeepsCanary word) stacks
unfolding check_stacks
check_stacks_iff word [] = (λ h. tt, λ h. refl)
check_stacks_iff word (e ∷ rest) =
    let (split, join) = both_true (is_sound word e) (check_stacks word rest) in
    let (first, first') = is_sound_iff word e in
    let (others, others') = check_stacks_iff word rest in
    (λ h. (first (split h).0, others (split h).1), λ h. join (first' h.0, others' h.1))
