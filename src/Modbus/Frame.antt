-- ===== src/Modbus/Frame.antt =====
-- The checksum of a request.
use takt_os.Base.{
  ℕ, zero, suc, ◌*◌, ◌/◌, ◌%◌, ◌^◌, ◌<◌, ◌≡◌, refl, ap, sym, ◌∙◌, List, [], ◌∷◌, ◌++◌, true,
  bit_and, bit_xor, arith, ◌==◌, All, Bool-cases, inl, inr,
}
use takt_os.Base.Bits.{and-one, xor-lt, xor_fields, xor_comm, xor_assoc, xor_self, xor-zero}
use takt_os.Modbus.{crc_step, crc_steps, crc_from, crc16, request, frame}

crc_step-lt : (c : ℕ) → c < 2 ^ 16 → crc_step c < 2 ^ 16
crc_step-lt c h = elim (Bool-cases (bit_and c 1 == 0)) [
  | inl even ↦ rw even (omega arith)
  | inr odd ↦ rw odd (xor-lt 16 (c / 2) 0xA001 (omega arith) (omega arith))
]

crc_steps-lt : (n c : ℕ) → c < 2 ^ 16 → crc_steps n c < 2 ^ 16
unfolding crc_steps
crc_steps-lt zero c h = h
crc_steps-lt (suc n) c h = crc_steps-lt n (crc_step c) (crc_step-lt c h)

crc_from-lt :
    (c : ℕ) (bytes : List ℕ) → c < 2 ^ 16 → All (λ b. b < 256) bytes → crc_from c bytes < 2 ^ 16
unfolding crc_from
crc_from-lt c [] h small = h
crc_from-lt c (x ∷ rest) h small =
    crc_from-lt (crc_steps 8 (bit_xor c x)) rest
      (crc_steps-lt 8 (bit_xor c x) (xor-lt 16 c x h (omega (arith, small.0)))) small.1

-- An even number is only shifted.
crc_step_even : (x : ℕ) → crc_step (x * 2) ≡ x
crc_step_even x =
    let even : (bit_and (x * 2) 1 == 0) ≡ true = ground (arith, and-one (x * 2)) in
    rw even (omega arith)

abbrev doubled : ℕ → ℕ → ℕ
doubled zero x = x
doubled (suc n) x = doubled n x * 2

crc_steps-doubled : (n x : ℕ) → crc_steps n (doubled n x) ≡ x
unfolding crc_steps
crc_steps-doubled zero x = refl
crc_steps-doubled (suc n) x = ap (crc_steps n) (crc_step_even (doubled n x)) ∙ crc_steps-doubled n x

crc_steps_shift : (x : ℕ) → crc_steps 8 (x * 2 ^ 8) ≡ x
crc_steps_shift x =
    let eight : x * 2 ^ 8 ≡ doubled 8 x = omega arith in
    ap (crc_steps 8) eight ∙ crc_steps-doubled 8 x

-- The low byte of a number cancels itself.
xor_low_byte : (c : ℕ) → bit_xor c (c % 256) ≡ c / 256 * 2 ^ 8
xor_low_byte c =
    let low = c % 256 in
    let high = c / 256 * 2 ^ 8 in
    let parts : c ≡ bit_xor low high = omega (arith, xor_fields 8 low (c / 256) (omega arith)) in
    ap (λ t. bit_xor t low) parts
    ∙ xor_comm (bit_xor low high) low
    ∙ sym (xor_assoc low low high)
    ∙ ap (λ t. bit_xor t high) (xor_self low)
    ∙ xor_comm 0 high
    ∙ xor-zero high

crc_from-append : (c : ℕ) (xs ys : List ℕ) → crc_from c (xs ++ ys) ≡ crc_from (crc_from c xs) ys
unfolding crc_from
crc_from-append c [] ys = refl
crc_from-append c (x ∷ xs) ys = crc_from-append (crc_steps 8 (bit_xor c x)) xs ys

-- A checksum followed by itself, the low byte first, is 0.
crc_from_self : (c : ℕ) → c < 2 ^ 16 → crc_from c (c % 256 ∷ c / 256 % 256 ∷ []) ≡ 0
unfolding crc_from
crc_from_self c h =
    let high : c / 256 % 256 ≡ c / 256 = omega arith in
    let first : crc_steps 8 (bit_xor c (c % 256)) ≡ c / 256 =
      ap (crc_steps 8) (xor_low_byte c) ∙ crc_steps_shift (c / 256) in
    rw (first, high, xor_self (c / 256)) (crc_steps_shift 0)

-- A request for a slave and an address that fit their types is a frame whose checksum, over all its
-- bytes, is 0: a receiver that checks it accepts it.
pub crc16-frame : (slave addr : ℕ) → slave < 256 → addr < 2 ^ 16 → crc16 (frame slave addr) ≡ 0
unfolding crc16 frame
crc16-frame slave addr hs ha =
    let body = request slave addr in
    let small : All (λ b. b < 256) body = omega arith in
    crc_from-append 0xFFFF body (crc16 body % 256 ∷ crc16 body / 256 % 256 ∷ [])
    ∙ crc_from_self (crc16 body) (crc_from-lt 0xFFFF body (omega arith) small)
