-- ===== src/Storage/Read.antt =====
-- Reads through the storage manager, and buffers against the bytes of the flash.
use takt_os.Base.{
  ℕ, zero, suc, ◌+◌, ◌^◌, ◌≤◌, ◌<◌, ◌≡◌, refl, ap, ap₂, ◌∙◌, List, [], ◌∷◌, ◌++◌, some, false, ltb,
  length, get_or, arith,
}
use takt_os.Base.Int.{as_int}
use takt_os.Storage.{FlashBackend, StorageManager, read, add_size}
use takt_os.Storage.Backend.{FlashLaws, Reliable, bytes_at}

module _ {F : Type 0} (byte : F → ℕ → ℕ) where
  pub bytes_at-add :
      (f : F) (offset n k : ℕ)
      → bytes_at byte f offset (n + k) ≡ bytes_at byte f offset n ++ bytes_at byte f (offset + n) k
  bytes_at-add f offset zero k =
      let z : 0 + k ≡ k = omega arith in let o : offset + 0 ≡ offset = omega arith in rw (z, o) refl
  bytes_at-add f offset (suc n) k =
      let s : suc n + k ≡ suc (n + k) = omega arith in
      let o : offset + suc n ≡ offset + 1 + n = omega arith in
      rw (s, o) (ap (◌∷◌ (byte f offset)) (bytes_at-add f (offset + 1) n k))

  -- The bytes of the flash are those of a buffer if they are so place by place.
  pub bytes_at-eq :
      (f : F) (offset : ℕ) (buf : List ℕ)
      → ((i : ℕ) → i < length buf → byte f (offset + i) ≡ get_or buf i 0)
      → bytes_at byte f offset (length buf) ≡ buf
  bytes_at-eq f offset [] h = refl
  bytes_at-eq f offset (x ∷ buf) h =
      ap₂ ◌∷◌ (ap (byte f) (omega arith) ∙ h 0 (omega arith)) (
        bytes_at-eq f (offset + 1) buf
          (λ i hi. ap (byte f) (omega arith) ∙ h (suc i) (omega arith)))

  pub bytes_at-same :
      (f g : F) (offset n : ℕ)
      → ((i : ℕ) → i < n → byte f (offset + i) ≡ byte g (offset + i))
      → bytes_at byte f offset n ≡ bytes_at byte g offset n
  bytes_at-same f g offset zero h = refl
  bytes_at-same f g offset (suc n) h = ap₂ ◌∷◌ first (
      bytes_at-same f g (offset + 1) n
        (λ i hi. ap (byte f) (omega arith) ∙ h (suc i) (omega arith) ∙ ap (byte g) (omega arith)))
    where
      first : byte f offset ≡ byte g offset
      first = ap (byte f) (omega arith) ∙ h 0 (omega arith) ∙ ap (byte g) (omega arith)

  pub length-bytes_at : (f : F) (offset n : ℕ) → length (bytes_at byte f offset n) ≡ n
  length-bytes_at f offset zero = refl
  length-bytes_at f offset (suc n) = ap suc (length-bytes_at f (offset + 1) n)

-- A read inside the flash, on a backend that does not fail, yields the bytes of the flash.
pub read_lem :
    {F : Type 0} (m : StorageManager F) (b : FlashBackend F) (byte : F → ℕ → ℕ)
    → FlashLaws b byte
    → Reliable b
    → m.backend ≡ some b
    → b.total_size < 2 ^ 32
    → (f : F) (offset n : ℕ) → offset + n ≤ b.total_size
    → read m f offset n ≡ (as_int n, bytes_at byte f offset n)
unfolding read
read_lem m b byte laws reliable e small f offset n h =
    let fits : ltb b.total_size (add_size offset n) ≡ false = ground arith in
    rw (e, fits) (laws.read_lem f offset n (reliable.reads f offset n h))
