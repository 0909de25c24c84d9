-- ===== src/Storage/Write.antt =====
-- The effect of a write through the storage manager on every byte of the flash.
use takt_os.Base.{
  ℕ, zero, suc, ◌+◌, ◌-◌, ◌*◌, ◌/◌, ◌%◌, ◌^◌, ◌≤◌, ◌<◌, ◌≡◌, refl, sym, ap, ◌∙◌, List, some, true,
  false, ltb, length, get_or, if◌then◌else◌, arith, inl, inr, Bool-cases, dec_lt, false≢true,
}
use takt_os.Base.Int.{pos, minus_one, as_int, is_negative, is_zero, is_zero_eq}
use native.Mathlib.Nat.{div-add-mod, mod-lt}
use takt_os.Storage.{
  FlashBackend, StorageManager, erase_sectors, start_sector, end_sector, write, add_size,
}
use takt_os.Storage.Backend.{within, FlashLaws, Reliable}

-- A round of the loop that goes on, and what is left of the loop.
erase_sectors-suc :
    {F : Type 0} (b : FlashBackend F) (n s : ℕ) (f : F)
    → s * b.sector_size < 2 ^ 32
    → (erase_sectors b (suc n) s f).0 ≡ true
    → let r = b.erase f (s * b.sector_size) b.sector_size in
      (r.0 ≡ pos 0) × (erase_sectors b (suc n) s f ≡ erase_sectors b n (s + 1) r.1)
unfolding erase_sectors
erase_sectors-suc b n s f h e =
    let small : s * b.sector_size % 2 ^ 32 ≡ s * b.sector_size = omega arith in
    let e' = rw small at e in
    elim (Bool-cases (is_zero (b.erase f (s * b.sector_size) b.sector_size).0)) [
      | inl t ↦ (is_zero_eq _ t, rw (small, t))
      | inr t ↦ absurd (false≢true (rw t at e'))
    ]

module _ {F : Type 0} (b : FlashBackend F) (byte : F → ℕ → ℕ) (laws : FlashLaws b byte) where
  -- The loop erases exactly its sectors.
  pub erase_sectors_lem :
      (n s : ℕ) (f : F) (a : ℕ)
      → (s + n) * b.sector_size < 2 ^ 32 + b.sector_size
      → (erase_sectors b n s f).0 ≡ true
      → byte (erase_sectors b n s f).1 a
        ≡ (if within (s * b.sector_size) (n * b.sector_size) a then 255 else byte f a)
  erase_sectors_lem zero s f a h e = unfold erase_sectors in ground arith
  erase_sectors_lem (suc n) s f a h e =
      let (ok, go) = erase_sectors-suc b n s f (omega arith) e in
      let f' = (b.erase f (s * b.sector_size) b.sector_size).1 in
      let ih = erase_sectors_lem n (s + 1) f' a (omega arith) (ap (λ r. r.0) (sym go) ∙ e) in
      rw go (ground (arith, ih, laws.erase_lem f s a ok))

-- The sectors of a write, without the machine arithmetic.
abbrev pub last_sector : ℕ → ℕ → ℕ → ℕ
last_sector d offset len = (offset + len - 1) / d

abbrev pub sector_count : ℕ → ℕ → ℕ → ℕ
sector_count d offset len = last_sector d offset len + 1 - offset / d

-- A quotient, times the divisor, falls short by less than the divisor.
pub div_bounds : (x d : ℕ) → 0 < d → (x / d * d ≤ x) × (x < x / d * d + d)
div_bounds x d h = omega (arith, div-add-mod x d, mod-lt x h)

mul_mono : (p q d : ℕ) → p ≤ q → p * d ≤ q * d
mul_mono p q d h = grind arith

-- The first sector is not above the last.
sectors_ordered : (off len d : ℕ) → 0 < d → 0 < len → off / d ≤ (off + len - 1) / d
sectors_ordered off len d h k =
    let first = off / d in
    let last = (off + len - 1) / d in
    let (below, above) = div_bounds off d h in
    let (below', above') = div_bounds (off + len - 1) d h in
    elim (dec_lt last first) [
      | yes lt ↦ absurd (let step = mul_mono (last + 1) first d (omega arith) in omega arith)
      | no ge ↦ omega arith
    ]

-- The sectors of a range, counted from the first, end where the last ends.
pub sectors_end :
    (off len d : ℕ)
    → 0 < d
    → 0 < len
    → let last = (off + len - 1) / d in (off / d + (last + 1 - off / d)) * d ≡ (last + 1) * d
sectors_end off len d h k =
    let ordered = sectors_ordered off len d h k in ap (λ (t : ℕ). t * d) (omega arith)

-- The sectors from the first to the last cover the range, and the last begins inside it.
pub sectors_cover :
    (off len d : ℕ)
    → 0 < d
    → 0 < len
    → let first = off / d in
      let count = (off + len - 1) / d + 1 - first in
      (first * d ≤ off)
      × (off + len ≤ first * d + count * d)
      × ((first + count) * d ≤ off + len - 1 + d)
sectors_cover off len d h k =
    let (below, above) = div_bounds off d h in
    let (below', above') = div_bounds (off + len - 1) d h in
    let ends = sectors_end off len d h k in (below, omega arith, omega arith)

pub quotient_le : (a d : ℕ) → a / d ≤ a
quotient_le a d = grind arith

end_sector_lem :
    {F : Type 0} (b : FlashBackend F) (offset len : ℕ)
    → 0 < len
    → offset + len < 2 ^ 32
    → end_sector b offset len ≡ last_sector b.sector_size offset len
unfolding end_sector
end_sector_lem b offset len h k =
    rw (wrap) (omega (arith, quotient_le (offset + len - 1) b.sector_size))
  where
    wrap : (offset + len + (2 ^ 64 - 1)) % 2 ^ 64 ≡ offset + len - 1
    wrap = omega arith

-- What `write` runs inside the bounds.
write-run :
    {F : Type 0} (m : StorageManager F) {b : FlashBackend F} (f : F) (offset : ℕ) (buf : List ℕ)
    → m.backend ≡ some b
    → 0 < length buf
    → offset + length buf ≤ b.total_size
    → b.total_size < 2 ^ 32
    → let erased =
        erase_sectors b
          (sector_count b.sector_size offset (length buf))
          (offset / b.sector_size)
          f in
      write m f offset buf
      ≡ (if erased.0 then b.write erased.1 offset buf else (minus_one, erased.1))
unfolding write start_sector
write-run m {b} f offset buf e h k t =
    let fits : ltb b.total_size (add_size offset (length buf)) ≡ false = ground arith in
    rw (e, fits, end_sector_lem b offset (length buf) h (omega arith)) refl

-- A write that does not fail lies inside the flash.
write-within :
    {F : Type 0} (m : StorageManager F) {b : FlashBackend F} (f : F) (offset : ℕ) (buf : List ℕ)
    → m.backend ≡ some b
    → offset + length buf < 2 ^ 64
    → is_negative (write m f offset buf).0 ≡ false
    → offset + length buf ≤ b.total_size
unfolding write
write-within m {b} f offset buf e k h =
    elim (Bool-cases (ltb b.total_size (add_size offset (length buf)))) [
      | inl t ↦ absurd (false≢true (sym (rw (e, write, t) at h)))
      | inr t ↦ ground arith
    ]

-- What a write leaves of the flash, with sectors of `d` bytes.
abbrev pub Written : {F : Type 0} → (F → ℕ → ℕ) → ℕ → F → ℕ → List ℕ → F → Type 0
Written byte d f offset buf f' =
    (a : ℕ)
    → byte f' a ≡ (
        if within offset (length buf) a
        then get_or buf (a - offset) 0
        else if within (offset / d * d) (sector_count d offset (length buf) * d) a
        then 255
        else byte f a)

module _ {F : Type 0} (m : StorageManager F) (b : FlashBackend F) (byte : F → ℕ → ℕ)
    (laws : FlashLaws b byte) (installed : m.backend ≡ some b) (sectors : 0 < b.sector_size)
    (small : b.total_size < 2 ^ 32) where
  -- On a flash of less than 4 GB whose backend meets the flash laws, a write of some bytes
  -- that succeeds lies inside the flash, returns the length of the buffer, and leaves every
  -- byte as `Written` says: the buffer in its range, 0xFF in the rest of the sectors that
  -- the range touches, and the others as they were.
  pub write_lem :
      (f : F) (offset : ℕ) (buf : List ℕ)
      → 0 < length buf
      → offset + length buf < 2 ^ 64
      → is_negative (write m f offset buf).0 ≡ false
      → (offset + length buf ≤ b.total_size)
        × ((write m f offset buf).0 ≡ as_int (length buf))
        × Written byte b.sector_size f offset buf (write m f offset buf).1
  write_lem f offset buf h k nonneg =
      let fits = write-within m f offset buf installed k nonneg in
      let run = write-run m f offset buf installed h fits small in
      let first = offset / b.sector_size in
      let count = sector_count b.sector_size offset (length buf) in
      let erased = erase_sectors b count first f in
      let cover = sectors_cover offset (length buf) b.sector_size sectors h in
      elim (Bool-cases erased.0) [
        | inl t ↦
            let e : write m f offset buf ≡ b.write erased.1 offset buf = run ∙ rw t refl in
            let nonneg' = rw e at nonneg in
            let clean = λ (a : ℕ). erase_sectors_lem b byte laws count first f a (omega arith) t in
            rw e (
              fits,
              laws.write_code erased.1 offset buf nonneg',
              λ a. ground (
                arith,
                clean a,
                laws.write_lem erased.1 offset buf nonneg' (λ c hc. ground (arith, clean c)) a,
              ),
            )
        | inr t ↦ absurd (false≢true (sym (rw (run, t) at nonneg)))
      ]

module _ {F : Type 0} (b : FlashBackend F) (reliable : Reliable b)
    (small : b.total_size < 2 ^ 32) where
  erase_sectors-succeeds :
      (n s : ℕ) (f : F) → (s + n) * b.sector_size ≤ b.total_size → (erase_sectors b n s f).0 ≡ true
  unfolding erase_sectors
  erase_sectors-succeeds zero s f h = refl
  erase_sectors-succeeds (suc n) s f h =
      let offset : s * b.sector_size % 2 ^ 32 ≡ s * b.sector_size = omega arith in
      rw (offset, reliable.erases f (s * b.sector_size) b.sector_size (omega arith))
        (erase_sectors-succeeds n (s + 1) (b.erase f (s * b.sector_size) b.sector_size).1
          (omega arith))

  -- On a flash of less than 4 GB, of whole sectors, with a backend that does not fail, every
  -- write of some bytes inside the flash succeeds.
  pub write_succeeds :
      (m : StorageManager F) (f : F) (offset sector_total : ℕ) (buf : List ℕ)
      → m.backend ≡ some b
      → 0 < b.sector_size
      → b.total_size ≡ sector_total * b.sector_size
      → 0 < length buf
      → offset + length buf ≤ b.total_size
      → is_negative (write m f offset buf).0 ≡ false
  write_succeeds m f offset sector_total buf e sectors whole h fits =
      let d = b.sector_size in
      let first = offset / d in
      let last = (offset + length buf - 1) / d in
      let count = sector_count b.sector_size offset (length buf) in
      let (below, above) = div_bounds (offset + length buf - 1) d sectors in
      let cover = sectors_cover offset (length buf) d sectors h in
      let inside : last < sector_total = elim (dec_lt last sector_total) [
        | yes lt ↦ lt
        | no ge ↦ absurd (let over = mul_mono sector_total last d (omega arith) in omega arith)
      ] in
      let top = mul_mono (last + 1) sector_total d (omega arith) in
      let ends = sectors_end offset (length buf) d sectors h in
      let done = erase_sectors-succeeds count first f (omega arith) in
      let run = write-run m f offset buf e h fits small in
      rw (run, done) (reliable.writes (erase_sectors b count first f).1 offset buf fits)
