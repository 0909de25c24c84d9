-- ===== src/Crc32/Linear.antt =====
-- The step of the checksum is linear over the exclusive or; so a table look-up and a shift do the
-- work of eight steps, and the two implementations of the checksum agree.
use takt_os.Base.{
  ℕ, zero, suc, ◌+◌, ◌*◌, ◌/◌, ◌%◌, ◌^◌, ◌<◌, ◌≡◌, refl, ap, ap₂, sym, ◌∙◌, List, [], ◌∷◌, bit_xor,
  arith, get_or, All, inl, inr, ◌⊎◌,
}
use takt_os.Base.Bits.{
  xor_assoc, xor_comm, xor-zero, half-xor, parity-xor, and-one, and_byte, xor_fields,
}
use native.Mathlib.Nat.{pow-suc}
use takt_os.Crc32.{
  polynomial, table_step, repeat, table_entry, entries_from, table, initial, finalize, update_byte,
  update, compute, config_step, config_byte, config_update, crc32_config,
}

-- The term that the step mixes in, by the parity of the register.
abbrev pub feedback : ℕ → ℕ
feedback zero = 0
feedback (suc _) = polynomial

pub config_step-parity : (c : ℕ) → config_step c ≡ bit_xor (c / 2) (feedback (c % 2))
unfolding config_step
config_step-parity c = rw (and-one c) (ground arith)

pub parity_cases : (c : ℕ) → (c % 2 ≡ 0) ⊎ (c % 2 ≡ 1)
parity_cases c = omega arith

-- Exchange of the two inner operands.
xor_medial :
    (a b c d : ℕ) → bit_xor (bit_xor a b) (bit_xor c d) ≡ bit_xor (bit_xor a c) (bit_xor b d)
xor_medial a b c d = cc (
  xor_assoc a b (bit_xor c d),
  xor_assoc b c d,
  xor_comm b c,
  xor_assoc c b d,
  xor_assoc a c (bit_xor b d),
)

feedback-xor : (a b : ℕ) → feedback ((a + b) % 2) ≡ bit_xor (feedback (a % 2)) (feedback (b % 2))
feedback-xor a b = elim (parity_cases a) [
  | inl p ↦ elim (parity_cases b) [
    | inl q ↦ rw (p, q, even p q) (refl)
    | inr q ↦ rw (p, q, odd p q) (refl)
  ]
  | inr p ↦ elim (parity_cases b) [
    | inl q ↦ rw (p, q, odd' p q) (refl)
    | inr q ↦ rw (p, q, even' p q) (refl)
  ]
]
  where
    even : a % 2 ≡ 0 → b % 2 ≡ 0 → (a + b) % 2 ≡ 0
    even p q = omega arith

    odd : a % 2 ≡ 0 → b % 2 ≡ 1 → (a + b) % 2 ≡ 1
    odd p q = omega arith

    odd' : a % 2 ≡ 1 → b % 2 ≡ 0 → (a + b) % 2 ≡ 1
    odd' p q = omega arith

    even' : a % 2 ≡ 1 → b % 2 ≡ 1 → (a + b) % 2 ≡ 0
    even' p q = omega arith

config_step-xor : (a b : ℕ) → config_step (bit_xor a b) ≡ bit_xor (config_step a) (config_step b)
config_step-xor a b = cc (
  config_step-parity (bit_xor a b),
  config_step-parity a,
  config_step-parity b,
  half-xor a b,
  parity-xor a b,
  feedback-xor a b,
  xor_medial (a / 2) (feedback (a % 2)) (b / 2) (feedback (b % 2)),
)

pub repeat-xor :
    (n a b : ℕ)
    → repeat n config_step (bit_xor a b) ≡ bit_xor (repeat n config_step a) (repeat n config_step b)
unfolding repeat
repeat-xor zero a b = refl
repeat-xor (suc n) a b =
    ap (repeat n config_step) (config_step-xor a b) ∙ repeat-xor n (config_step a) (config_step b)

-- Low zeros are shifted out.
repeat_shift : (k h : ℕ) → repeat k config_step (h * 2 ^ k) ≡ h
unfolding repeat
repeat_shift zero h = omega arith
repeat_shift (suc k) h = rw shifted (repeat_shift k h)
  where
    twice : h * 2 ^ suc k ≡ 2 * (h * 2 ^ k)
    twice = omega (arith, ap (λ (t : ℕ). h * t) (pow-suc 2 k))

    half : h * 2 ^ suc k / 2 ≡ h * 2 ^ k
    half = omega (arith, twice)

    parity : h * 2 ^ suc k % 2 ≡ 0
    parity = omega (arith, twice)

    shifted : config_step (h * 2 ^ suc k) ≡ h * 2 ^ k
    shifted =
        config_step-parity (h * 2 ^ suc k)
        ∙ ap₂ bit_xor half (ap feedback parity)
        ∙ xor-zero (h * 2 ^ k)

table_step-eq : (c : ℕ) → table_step c ≡ config_step c
unfolding table_step config_step
table_step-eq c = ground (arith, xor-zero (c / 2))

repeat-table_step : (n c : ℕ) → repeat n table_step c ≡ repeat n config_step c
unfolding repeat
repeat-table_step zero c = refl
repeat-table_step (suc n) c =
    repeat-table_step n (table_step c) ∙ ap (repeat n config_step) (table_step-eq c)

get_or-entries_from : (n i j : ℕ) → j < n → get_or (entries_from n i) j 0 ≡ table_entry (i + j)
unfolding entries_from
get_or-entries_from zero i j h = elim h [ ]
get_or-entries_from (suc n) i zero h = ap table_entry (omega arith)
get_or-entries_from (suc n) i (suc j) h =
    get_or-entries_from n (i + 1) j (omega arith) ∙ ap table_entry (omega arith)

table_lem : (j : ℕ) → j < 256 → get_or table j 0 ≡ repeat 8 config_step j
unfolding table table_entry
table_lem j h =
    get_or-entries_from 256 0 j h
    ∙ repeat-table_step 8 (0 + j)
    ∙ ap (repeat 8 config_step) (omega arith)

halves : ℕ → ℕ → ℕ
halves zero a = a
halves (suc k) a = halves k (a / 2)

halves-xor : (k a b : ℕ) → halves k (bit_xor a b) ≡ bit_xor (halves k a) (halves k b)
unfolding halves
halves-xor zero a b = refl
halves-xor (suc k) a b = ap (halves k) (half-xor a b) ∙ halves-xor k (a / 2) (b / 2)

halves_eight : (a : ℕ) → halves 8 a ≡ a / 256
unfolding halves
halves_eight a = omega arith

high-xor : (c b : ℕ) → b < 256 → bit_xor c b / 256 ≡ c / 256
high-xor c b h =
    sym (halves_eight (bit_xor c b))
    ∙ halves-xor 8 c b
    ∙ ap₂ bit_xor (halves_eight c) low
    ∙ xor-zero (c / 256)
  where
    low : halves 8 b ≡ 0
    low = omega (arith, halves_eight b)

-- Eight steps on a register: a look-up of its low byte, and a shift of the rest.
repeat_eight : (x : ℕ) → repeat 8 config_step x ≡ bit_xor (repeat 8 config_step (x % 256)) (x / 256)
repeat_eight x =
    ap (repeat 8 config_step) split
    ∙ repeat-xor 8 (x % 256) (x / 256 * 2 ^ 8)
    ∙ ap (bit_xor (repeat 8 config_step (x % 256))) (repeat_shift 8 (x / 256))
  where
    split : x ≡ bit_xor (x % 256) (x / 256 * 2 ^ 8)
    split = omega (arith, xor_fields 8 (x % 256) (x / 256) (omega arith))

pub update_byte-eq : (c b : ℕ) → b < 256 → update_byte c b ≡ config_byte c b
unfolding update_byte config_byte
update_byte-eq c b h =
    ap₂ bit_xor
      (ap (λ t. get_or table t 0) (and_byte (bit_xor c b))
        ∙ table_lem (bit_xor c b % 256) (omega arith))
      (sym (high-xor c b h))
    ∙ sym (repeat_eight (bit_xor c b))

pub update-eq :
    (c : ℕ) (bytes : List ℕ) → All (λ b. b < 256) bytes → update c bytes ≡ config_update c bytes
unfolding update config_update
update-eq c [] h = refl
update-eq c (b ∷ bytes) h =
    update-eq (update_byte c b) bytes h.1 ∙ ap (λ t. config_update t bytes) (update_byte-eq c b h.0)

-- On bytes, the table-driven Crc32::compute and the bit-by-bit Bootloader::crc32Config give the
-- same checksum.
pub compute-eq-crc32_config :
    (bytes : List ℕ) → All (λ b. b < 256) bytes → compute bytes ≡ crc32_config bytes
unfolding compute crc32_config finalize initial
compute-eq-crc32_config bytes h = ap (λ t. bit_xor t 0xFFFFFFFF) (update-eq initial bytes h)
