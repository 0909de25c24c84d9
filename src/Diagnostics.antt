-- ===== src/Diagnostics.antt =====
-- kernel/include/takt/diagnostics.hpp and kernel/src/diagnostics.cpp: the figures of the heap, which
-- are constants in the host build, and the stacks that are watched. The reports are output.
pub mod Stacks
use takt_os.Base.{
  ℕ, List, [], ◌∷◌, ◌++◌, Option, none, some, Bool, true, ◌&&◌, leb, length, if◌then◌else◌, ◌==◌,
  ◌*◌,
}

pub record HeapInfo : Type 0 where
  pub total_free : ℕ
  pub min_free_ever : ℕ
  pub largest_block : ℕ
  pub allocated : ℕ

pub heap_info : HeapInfo
heap_info = record {
  total_free = 256 * 1024;
  min_free_ever = 200 * 1024;
  largest_block = 128 * 1024;
  allocated = 56 * 1024;
}

abbrev pub stack_canary : ℕ
stack_canary = 0xDEADBEEF

abbrev pub max_stacks : ℕ
max_stacks = 16

-- `top` is the address of the canary; `none` is the null pointer.
pub record StackEntry : Type 0 where
  pub name : Option (List ℕ)
  pub top : Option ℕ
  pub size : ℕ

-- The stacks that are registered.
abbrev pub register_stack : List StackEntry → StackEntry → List StackEntry
register_stack stacks e = if leb max_stacks (length stacks) then stacks else stacks ++ (e ∷ [])

-- `word a` is the uint32_t at address `a`.
abbrev pub is_sound : (ℕ → ℕ) → StackEntry → Bool
is_sound word e = elim e.top [ none ↦ true | some a ↦ word a == stack_canary ]

pub check_stacks : (ℕ → ℕ) → List StackEntry → Bool
check_stacks word [] = true
check_stacks word (e ∷ rest) = is_sound word e && check_stacks word rest
