-- ===== src/Storage/Hazards.antt =====
-- A write of no bytes.
use takt_os.Base.{
  ℕ, ◌+◌, ◌-◌, ◌*◌, ◌/◌, ◌%◌, ◌^◌, ◌≤◌, ◌<◌, ◌≡◌, refl, sym, ◌∙◌, [], some, true, false, ltb,
  if◌then◌else◌, arith, Bool-cases, inl, inr, false≢true,
}
use takt_os.Base.Int.{minus_one, is_negative}
use takt_os.Storage.{
  FlashBackend, StorageManager, erase_sectors, start_sector, end_sector, write, add_size,
}
use takt_os.Storage.Backend.{FlashLaws, within}
use takt_os.Storage.Write.{erase_sectors_lem, div_bounds, quotient_le}
use native.Mathlib.Nat.{le-div_iff_mul-le, div-mul-le_self}

-- Where the offset is not the start of its sector, the byte before it lies in the same sector.
same_sector : (offset d : ℕ) → 0 < d → offset / d * d < offset → (offset - 1) / d ≡ offset / d
same_sector offset d h inside =
    let low = (le-div_iff_mul-le {k = d} {x = offset / d} {y = offset - 1} h).1 (omega arith) in
    let back = div-mul-le_self (offset - 1) d in
    let high = (le-div_iff_mul-le {k = d} {x = (offset - 1) / d} {y = offset} h).1 (omega arith) in
    omega arith

nowhere : (offset c : ℕ) → within offset 0 c ≡ true → ⊥
nowhere offset c h = ground arith

write-nothing :
    {F : Type 0} (m : StorageManager F) (b : FlashBackend F) (f : F) (offset : ℕ)
    → m.backend ≡ some b
    → offset ≤ b.total_size
    → b.total_size < 2 ^ 32
    → (offset - 1) / b.sector_size ≡ offset / b.sector_size
    → 0 < offset
    → let erased = erase_sectors b 1 (offset / b.sector_size) f in
      write m f offset [] ≡ (if erased.0 then b.write erased.1 offset [] else (minus_one, erased.1))
unfolding write start_sector end_sector
write-nothing m b f offset e h small same pos =
    let d = b.sector_size in
    let fits : ltb b.total_size (add_size offset 0) ≡ false = ground arith in
    let minus : (offset + 0 + (2 ^ 64 - 1)) % 2 ^ 64 ≡ offset - 1 = omega arith in
    let fit32 : offset / d % 2 ^ 32 ≡ offset / d =
      omega (arith, div-mul-le_self offset d, quotient_le offset d) in
    let one : offset / d + 1 - offset / d ≡ 1 = omega arith in
    rw (e, fits, minus, same, fit32, one) refl

module _ {F : Type 0} (m : StorageManager F) (b : FlashBackend F) (byte : F → ℕ → ℕ)
    (laws : FlashLaws b byte) (installed : m.backend ≡ some b) (sectors : 0 < b.sector_size)
    (small : b.total_size < 2 ^ 32) where
  -- On a flash of less than 4 GB whose backend meets the flash laws, a write of no bytes
  -- inside a sector, not at its start, erases that sector: if it does not fail, every byte
  -- of the sector is 0xFF afterwards.
  pub write_nothing_erases :
      (f : F) (offset a : ℕ)
      → offset ≤ b.total_size
      → offset / b.sector_size * b.sector_size < offset
      → is_negative (write m f offset []).0 ≡ false
      → within (offset / b.sector_size * b.sector_size) b.sector_size a ≡ true
      → byte (write m f offset []).1 a ≡ 255
  write_nothing_erases f offset a h inside nonneg at =
      let q = offset / b.sector_size in
      let run =
        write-nothing m b f offset installed h small
          (same_sector offset b.sector_size sectors inside) (omega arith) in
      let (below, _) = div_bounds offset b.sector_size sectors in
      elim (Bool-cases (erase_sectors b 1 q f).0) [
        | inr failed ↦ absurd (false≢true (sym (rw (run, failed) at nonneg)))
        | inl ok ↦
            let f1 = (erase_sectors b 1 q f).1 in
            let e : write m f offset [] ≡ b.write f1 offset [] = run ∙ rw ok refl in
            let clean = erase_sectors_lem b byte laws 1 q f a (omega arith) ok in
            let one : 1 * b.sector_size ≡ b.sector_size = omega arith in
            let kept =
              laws.write_lem f1 offset [] (rw e at nonneg) (λ c hc. absurd (nowhere offset c hc))
                a in
            rw e (ground (arith, kept, clean, one, at))
      ]
