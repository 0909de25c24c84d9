-- ===== src/Cache/Flush.antt =====
-- `flush` over a backend that returns the number of bytes written.
use takt_os.Base.{
  ℕ, zero, suc, ◌+◌, ◌-◌, ◌*◌, ◌^◌, ◌<◌, ◌≤◌, ◌≡◌, refl, ap, sym, ◌∙◌, List, some, true, false,
  ◌&&◌, ltb, length, arith, dec_lt, false≢true, Bool-cases, inl, inr,
}
use takt_os.Base.Int.{ℤ, pos, negsuc, minus_one, as_int, as_int_small, is_zero, is_negative}
use takt_os.Storage
use takt_os.Storage.{
  FlashBackend, StorageManager, erase_sectors, start_sector, end_sector, add_size,
}
use takt_os.Storage.Backend.{FlashLaws, bytes_at}
use takt_os.Storage.Read.{length-bytes_at}
use takt_os.Cache.{CacheManager, pool_byte, entry_at, write_line, flush_line, flush_lines, flush}

-- A code that is negative or a positive length is not 0.
not_zero :
    (x : ℤ) (n : ℕ)
    → (is_negative x ≡ false → x ≡ as_int n)
    → 0 < n
    → n < 2 ^ 31
    → is_zero x ≡ false
not_zero (negsuc k) n h some_bytes small = refl
not_zero (pos k) n h some_bytes small = ap is_zero (h refl ∙ as_int_small n small) ∙ ground arith

module _ {F : Type 0} (m : StorageManager F) (b : FlashBackend F) (byte : F → ℕ → ℕ)
    (laws : FlashLaws b byte) (installed : m.backend ≡ some b) where
  write_not_zero :
      (f : F) (offset : ℕ) (buf : List ℕ)
      → 0 < length buf
      → length buf < 2 ^ 31
      → is_zero (Storage.write m f offset buf).0 ≡ false
  unfolding Storage.write
  write_not_zero f offset buf some_bytes small =
      let first = start_sector b offset in
      let rounds = end_sector b offset (length buf) + 1 - first in
      let erased = erase_sectors b rounds first f in
      elim (Bool-cases (ltb b.total_size (add_size offset (length buf)))) [
        | inl out ↦ rw (installed, out) refl
        | inr fits ↦ elim (Bool-cases erased.0) [
          | inr bad ↦ rw (installed, fits, bad) refl
          | inl ok ↦
              rw (installed, fits, ok)
                (not_zero (b.write erased.1 offset buf).0 (length buf)
                  (laws.write_code erased.1 offset buf) some_bytes small)
        ]
      ]

  -- The loop stops at the first dirty line, before it has changed the cache.
  flush_lines_fails :
      (n i j : ℕ) (c : CacheManager) (f : F)
      → 0 < c.line_size
      → c.line_size < 2 ^ 31
      → i ≤ j
      → j < i + n
      → ((entry_at c j).valid && (entry_at c j).dirty) ≡ true
      → let (code, c1, _) = flush_lines m n i c f in (code ≡ minus_one) × (c1 ≡ c)
  unfolding flush_lines flush_line
  flush_lines_fails zero i j c f some_bytes small low high live = absurd (omega arith)
  flush_lines_fails (suc n) i j c f some_bytes small low high live =
      let e = entry_at c i in
      elim (Bool-cases (e.valid && e.dirty)) [
        | inl dirty ↦
            let size = length-bytes_at pool_byte c.pool (i * c.line_size) c.line_size in
            let bad : is_zero (write_line m c i f).0 ≡ false =
              write_not_zero f _ (bytes_at pool_byte c.pool (i * c.line_size) c.line_size)
                (omega (arith, size)) (omega (arith, size)) in
            rw (dirty, bad) (refl, refl)
        | inr clean ↦
            let later : i + 1 ≤ j = elim (dec_lt i j) [
              | yes p ↦ omega arith
              | no n ↦
                  let same : i ≡ j = omega arith in
                  absurd (
                    false≢true (
                      sym clean
                      ∙ ap (λ k. (entry_at c k).valid && (entry_at c k).dirty) same
                      ∙ live))
            ] in
            rw clean (flush_lines_fails n (i + 1) j c f some_bytes small later (omega arith) live)
      ]

  -- Over a backend that meets the flash laws, and so returns the number of bytes that it has written:
  -- a flush of a cache with a dirty line, of 1 to 2 ^ 31 - 1 bytes, returns -1 and changes nothing of
  -- the cache. All its dirty lines are still dirty.
  pub flush_fails :
      (c : CacheManager) (f : F) (j : ℕ)
      → 0 < c.line_size
      → c.line_size < 2 ^ 31
      → j < length c.entries
      → (entry_at c j).valid ≡ true
      → (entry_at c j).dirty ≡ true
      → let (code, c1, _) = flush m c f in (code ≡ minus_one) × (c1 ≡ c)
  unfolding flush
  flush_fails c f j some_bytes small in_use valid dirty =
      flush_lines_fails (length c.entries) 0 j c f some_bytes small (omega arith) (omega arith)
        (rw (valid, dirty))
