-- ===== src/Base/Bits.antt =====
-- Laws of the exclusive or at variables, and of masks of low bits.
-- A law about halves and parities is proved digit by digit, on a bound of the operands.
use Prim.Native.Nat.{
  ℕ, zero, suc, ◌+◌, ◌*◌, ◌/◌, ◌%◌, ◌^◌, ◌≤◌, ◌<◌, min, bit_and, bit_xor, digits, bit_xor-bitwise,
  bit_and-bitwise,
}
use Prim.Native.Nat.{differ}
use mathlib.Core.Path.{◌≡◌, refl, ap, sym, ◌∙◌}
use native.Mathlib.Nat.{pow-suc}
use native.Mathlib.Omega.{arith}

module _ (z : ℕ → ℕ) (f : ℕ → ℕ → ℕ) where
  -- The count of digits does not matter once it is large enough.
  digits_enough : (n m a b : ℕ) → a ≤ n → a ≤ m → digits z f n a b ≡ digits z f m a b
  digits_enough zero zero a b p q = refl
  digits_enough zero (suc m) zero b p q = refl
  digits_enough zero (suc m) (suc a) b p q = elim p [ ]
  digits_enough (suc n) zero zero b p q = refl
  digits_enough (suc n) zero (suc a) b p q = elim q [ ]
  digits_enough (suc n) (suc m) zero b p q = refl
  digits_enough (suc n) (suc m) (suc a) b p q =
      ap (λ (r : ℕ). r * 2 + f (suc a % 2) (b % 2))
        (digits_enough n m (suc a / 2) (b / 2) (omega arith) (omega arith))

differ_parity : (x y : ℕ) → x < 2 → y < 2 → differ x y ≡ (x + y) % 2
differ_parity zero y p q = omega arith
differ_parity (suc zero) zero p q = refl
differ_parity (suc zero) (suc zero) p q = refl
differ_parity (suc zero) (suc (suc y)) p q = absurd (omega arith)
differ_parity (suc (suc x)) y p q = absurd (omega arith)

-- The lowest digit of an exclusive or, and the rest.
pub xor_digit : (a b : ℕ) → bit_xor a b ≡ bit_xor (a / 2) (b / 2) * 2 + (a + b) % 2
xor_digit zero b = omega (arith, bit_xor-bitwise 0 b, bit_xor-bitwise 0 (b / 2))
xor_digit (suc a) b = omega (
  arith,
  bit_xor-bitwise (suc a) b,
  bit_xor-bitwise (suc a / 2) (b / 2),
  digits_enough (λ t. t) differ a (suc a / 2) (suc a / 2) (b / 2) (omega arith) (omega arith),
  differ_parity (suc a % 2) (b % 2) (omega arith) (omega arith),
)

pub half-xor : (a b : ℕ) → bit_xor a b / 2 ≡ bit_xor (a / 2) (b / 2)
half-xor a b = omega (arith, xor_digit a b)

pub parity-xor : (a b : ℕ) → bit_xor a b % 2 ≡ (a + b) % 2
parity-xor a b = omega (arith, xor_digit a b)

pub zero-xor : (b : ℕ) → bit_xor 0 b ≡ b
zero-xor b = bit_xor-bitwise 0 b

xor_comm_below : (n a b : ℕ) → a ≤ n → b ≤ n → bit_xor a b ≡ bit_xor b a
xor_comm_below zero zero zero p q = refl
xor_comm_below zero zero (suc b) p q = elim q [ ]
xor_comm_below zero (suc a) b p q = elim p [ ]
xor_comm_below (suc n) a b p q = omega (
  arith,
  xor_digit a b,
  xor_digit b a,
  xor_comm_below n (a / 2) (b / 2) (omega arith) (omega arith),
)

pub xor_comm : (a b : ℕ) → bit_xor a b ≡ bit_xor b a
xor_comm a b = xor_comm_below (a + b) a b (omega arith) (omega arith)

pub xor-zero : (a : ℕ) → bit_xor a 0 ≡ a
xor-zero a = xor_comm a 0 ∙ zero-xor a

xor_assoc_below :
    (n a b c : ℕ) → a ≤ n → b ≤ n → c ≤ n → bit_xor (bit_xor a b) c ≡ bit_xor a (bit_xor b c)
xor_assoc_below zero zero zero zero p q r = refl
xor_assoc_below zero zero zero (suc c) p q r = elim r [ ]
xor_assoc_below zero zero (suc b) c p q r = elim q [ ]
xor_assoc_below zero (suc a) b c p q r = elim p [ ]
xor_assoc_below (suc n) a b c p q r = omega (
  arith,
  xor_digit (bit_xor a b) c,
  xor_digit a (bit_xor b c),
  parity-xor a b,
  parity-xor b c,
  ap (λ t. bit_xor t (c / 2)) (half-xor a b),
  ap (λ t. bit_xor (a / 2) t) (half-xor b c),
  xor_assoc_below n (a / 2) (b / 2) (c / 2) (omega arith) (omega arith) (omega arith),
)

pub xor_assoc : (a b c : ℕ) → bit_xor (bit_xor a b) c ≡ bit_xor a (bit_xor b c)
xor_assoc a b c = xor_assoc_below (a + b + c) a b c (omega arith) (omega arith) (omega arith)

xor_self_below : (n a : ℕ) → a ≤ n → bit_xor a a ≡ 0
xor_self_below zero zero p = refl
xor_self_below zero (suc a) p = elim p [ ]
xor_self_below (suc n) a p = omega (arith, xor_digit a a, xor_self_below n (a / 2) (omega arith))

pub xor_self : (a : ℕ) → bit_xor a a ≡ 0
xor_self a = xor_self_below a a (omega arith)

-- An exclusive or that is 0 has equal operands.
pub xor_eq_zero : (a b : ℕ) → bit_xor a b ≡ 0 → a ≡ b
xor_eq_zero a b e =
    sym (zero-xor a)
    ∙ ap (λ t. bit_xor t a) (sym e')
    ∙ xor_assoc b a a
    ∙ ap (bit_xor b) (xor_self a)
    ∙ xor-zero b
  where
    e' : bit_xor b a ≡ 0
    e' = xor_comm b a ∙ e

-- The result fits the width of the operands.
pub xor-lt : (k a b : ℕ) → a < 2 ^ k → b < 2 ^ k → bit_xor a b < 2 ^ k
xor-lt zero zero zero p q = p
xor-lt zero zero (suc b) p q = absurd (omega arith)
xor-lt zero (suc a) b p q = absurd (omega arith)
xor-lt (suc k) a b p q = omega (
  arith,
  pow-suc 2 k,
  xor_digit a b,
  xor-lt k (a / 2) (b / 2) (omega (arith, pow-suc 2 k)) (omega (arith, pow-suc 2 k)),
)

-- Fields that share no digit are joined by an exclusive or as by a sum.
pub xor_fields : (k lo hi : ℕ) → lo < 2 ^ k → bit_xor lo (hi * 2 ^ k) ≡ lo + hi * 2 ^ k
xor_fields zero zero hi p = omega (arith, zero-xor (hi * 2 ^ 0))
xor_fields zero (suc lo) hi p = absurd (omega arith)
xor_fields (suc k) lo hi p = omega (
  arith,
  twice,
  xor_digit lo (hi * 2 ^ suc k),
  ap (bit_xor (lo / 2)) half,
  xor_fields k (lo / 2) hi (omega (arith, pow-suc 2 k)),
)
  where
    twice : hi * 2 ^ suc k ≡ 2 * (hi * 2 ^ k)
    twice = omega (arith, ap (λ (t : ℕ). hi * t) (pow-suc 2 k))

    half : hi * 2 ^ suc k / 2 ≡ hi * 2 ^ k
    half = omega (arith, twice)

-- The lowest digit of a conjunction, and the rest.
and_digit : (a b : ℕ) → bit_and a b ≡ bit_and (a / 2) (b / 2) * 2 + min (a % 2) (b % 2)
and_digit zero b = omega (arith, bit_and-bitwise 0 b, bit_and-bitwise 0 (b / 2))
and_digit (suc a) b = omega (
  arith,
  bit_and-bitwise (suc a) b,
  bit_and-bitwise (suc a / 2) (b / 2),
  digits_enough (λ _. 0) min a (suc a / 2) (suc a / 2) (b / 2) (omega arith) (omega arith),
)

and_zero_below : (n a : ℕ) → a ≤ n → bit_and a 0 ≡ 0
and_zero_below zero zero p = refl
and_zero_below zero (suc a) p = elim p [ ]
and_zero_below (suc n) a p = omega (arith, and_digit a 0, and_zero_below n (a / 2) (omega arith))

-- `x & 1` is the parity.
pub and-one : (a : ℕ) → bit_and a 1 ≡ a % 2
and-one a = omega (arith, and_digit a 1, and_zero_below (a / 2) (a / 2) (omega arith))

and-three : (a : ℕ) → bit_and a 3 ≡ a % 4
and-three a = omega (arith, and_digit a 3, and-one (a / 2))

and-fifteen : (a : ℕ) → bit_and a 15 ≡ a % 16
and-fifteen a = omega (arith, and_digit a 15, and_digit (a / 2) 7, and-three (a / 2 / 2))

-- `x & 0xFF` is the low byte.
pub and_byte : (a : ℕ) → bit_and a 255 ≡ a % 256
and_byte a = omega (
  arith,
  and_digit a 255,
  and_digit (a / 2) 127,
  and_digit (a / 2 / 2) 63,
  and_digit (a / 2 / 2 / 2) 31,
  and-fifteen (a / 2 / 2 / 2 / 2),
)
