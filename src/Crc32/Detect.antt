-- ===== src/Crc32/Detect.antt =====
-- What the checksum detects, and how it is computed in pieces.
use takt_os.Base.{
  ℕ, zero, suc, inl, inr, ◌/◌, ◌%◌, ◌^◌, ◌<◌, ◌≡◌, ◌≢◌, refl, ap, sym, ◌∙◌, List, [], ◌∷◌, ◌++◌,
  bit_xor, arith, All,
}
use takt_os.Base.Bits.{xor_assoc, xor_comm, xor-zero, zero-xor, xor_self, xor_eq_zero, xor-lt}
use takt_os.Crc32.{
  polynomial, repeat, finalize, initial, update_byte, update, compute, config_step, config_byte,
}
use takt_os.Crc32.Linear.{config_step-parity, feedback, repeat-xor, update_byte-eq, parity_cases}

-- A checksum taken piece by piece, as FirmwareCache does, is that of the whole.
pub update-append : (c : ℕ) (xs ys : List ℕ) → update c (xs ++ ys) ≡ update (update c xs) ys
unfolding update
update-append c [] ys = refl
update-append c (x ∷ xs) ys = update-append (update_byte c x) xs ys

feedback-lt : (x : ℕ) → feedback x < 2 ^ 32
feedback-lt zero = omega arith
feedback-lt (suc x) = omega arith

config_step-lt : (c : ℕ) → c < 2 ^ 32 → config_step c < 2 ^ 32
config_step-lt c h = omega (
  arith,
  config_step-parity c,
  xor-lt 32 (c / 2) (feedback (c % 2)) (omega arith) (feedback-lt (c % 2)),
)

repeat-lt : (n c : ℕ) → c < 2 ^ 32 → repeat n config_step c < 2 ^ 32
unfolding repeat
repeat-lt zero c h = h
repeat-lt (suc n) c h = repeat-lt n (config_step c) (config_step-lt c h)

-- The polynomial has its top bit set, so that only 0 is mapped to 0.
config_step_eq_zero : (c : ℕ) → c < 2 ^ 32 → config_step c ≡ 0 → c ≡ 0
config_step_eq_zero c h e = elim (parity_cases c) [
  | inl even ↦ omega (arith, ap (λ t. bit_xor (c / 2) (feedback t)) even, xor-zero (c / 2), e')
  | inr odd ↦
      let top =
        xor_eq_zero (c / 2) polynomial (ap (λ t. bit_xor (c / 2) (feedback t)) (sym odd) ∙ e') in
      absurd (omega arith)
]
  where
    e' : bit_xor (c / 2) (feedback (c % 2)) ≡ 0
    e' = sym (config_step-parity c) ∙ e

repeat_eq_zero : (n c : ℕ) → c < 2 ^ 32 → repeat n config_step c ≡ 0 → c ≡ 0
unfolding repeat
repeat_eq_zero zero c h e = e
repeat_eq_zero (suc n) c h e =
    config_step_eq_zero c h (repeat_eq_zero n (config_step c) (config_step-lt c h) e)

repeat_injective :
    (n a b : ℕ) → a < 2 ^ 32 → b < 2 ^ 32 → repeat n config_step a ≡ repeat n config_step b → a ≡ b
repeat_injective n a b ha hb e = xor_eq_zero a b (
    repeat_eq_zero n (bit_xor a b) (xor-lt 32 a b ha hb) (
      repeat-xor n a b
      ∙ ap (λ t. bit_xor t (repeat n config_step b)) e
      ∙ xor_self (repeat n config_step b)))

xor_cancel_left : (a b c : ℕ) → bit_xor a b ≡ bit_xor a c → b ≡ c
xor_cancel_left a b c e = cc (xor_assoc a a b, xor_assoc a a c, xor_self a, zero-xor b, zero-xor c)

update_byte-lt : (c b : ℕ) → c < 2 ^ 32 → b < 256 → update_byte c b < 2 ^ 32
unfolding config_byte
update_byte-lt c b hc hb =
    omega (arith, update_byte-eq c b hb, repeat-lt 8 (bit_xor c b) (xor-lt 32 c b hc (omega arith)))

-- The registers after a byte tell the registers before it and the byte.
update_byte_injective :
    (c d x y : ℕ)
    → c < 2 ^ 32
    → d < 2 ^ 32
    → x < 256
    → y < 256
    → update_byte c x ≡ update_byte d y
    → bit_xor c x ≡ bit_xor d y
unfolding config_byte
update_byte_injective c d x y hc hd hx hy e =
    repeat_injective 8 (bit_xor c x) (bit_xor d y) (xor-lt 32 c x hc (omega arith))
      (xor-lt 32 d y hd (omega arith)) (sym (update_byte-eq c x hx) ∙ e ∙ update_byte-eq d y hy)

pub update-lt :
    (c : ℕ) (bytes : List ℕ) → c < 2 ^ 32 → All (λ b. b < 256) bytes → update c bytes < 2 ^ 32
unfolding update
update-lt c [] hc h = hc
update-lt c (b ∷ bytes) hc h = update-lt (update_byte c b) bytes (update_byte-lt c b hc h.0) h.1

update_injective :
    (c d : ℕ) (bytes : List ℕ)
    → c < 2 ^ 32
    → d < 2 ^ 32
    → All (λ b. b < 256) bytes
    → update c bytes ≡ update d bytes
    → c ≡ d
unfolding update
update_injective c d [] hc hd h e = e
update_injective c d (b ∷ bytes) hc hd h e = cancel (
    update_byte_injective c d b b hc hd h.0 h.0 (
      update_injective (update_byte c b) (update_byte d b) bytes (update_byte-lt c b hc h.0)
        (update_byte-lt d b hd h.0) h.1 e))
  where
    cancel : bit_xor c b ≡ bit_xor d b → c ≡ d
    cancel p = xor_cancel_left b c d (xor_comm b c ∙ p ∙ xor_comm d b)

finalize_injective : (a b : ℕ) → finalize a ≡ finalize b → a ≡ b
unfolding finalize
finalize_injective a b e =
    xor_cancel_left 0xFFFFFFFF a b (xor_comm 0xFFFFFFFF a ∙ e ∙ xor_comm b 0xFFFFFFFF)

-- The checksum tells apart any two messages of bytes that differ in one byte only.
pub compute_detects :
    (front : List ℕ) (x y : ℕ) (back : List ℕ)
    → All (λ b. b < 256) front
    → x < 256
    → y < 256
    → All (λ b. b < 256) back
    → x ≢ y
    → compute (front ++ x ∷ back) ≢ compute (front ++ y ∷ back)
unfolding compute update initial
compute_detects front x y back hf hx hy hb ne e =
    let c = update initial front in
    let hc : c < 2 ^ 32 = update-lt initial front (omega arith) hf in
    let e1 : update (update_byte c x) back ≡ update (update_byte c y) back =
      sym (update-append initial front (x ∷ back))
      ∙ finalize_injective _ _ e
      ∙ update-append initial front (y ∷ back) in
    let e2 =
      update_injective (update_byte c x) (update_byte c y) back (update_byte-lt c x hc hx)
        (update_byte-lt c y hc hy) hb e1 in
    ne (xor_cancel_left c x y (update_byte_injective c c x y hc hc hx hy e2))
