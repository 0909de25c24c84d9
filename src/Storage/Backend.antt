-- ===== src/Storage/Backend.antt =====
-- What the storage manager relies on of a flash backend, as the drivers of drivers/src/flash_backend.cpp
-- and the memory of tests/test_firmware_cache.cpp provide it.
-- An operation may fail at any time, with a negative code; the laws speak of those that succeed.
use takt_os.Base.{
  ℕ, zero, suc, ◌+◌, ◌-◌, ◌*◌, ◌≤◌, ◌≡◌, List, [], ◌∷◌, Bool, true, false, ◌&&◌, ltb, leb, length,
  get_or, if◌then◌else◌,
}
use takt_os.Base.Int.{pos, as_int, is_negative}
use takt_os.Storage.{FlashBackend}

-- `a` lies in the `n` bytes from `offset` on.
abbrev pub within : ℕ → ℕ → ℕ → Bool
within offset n a = leb offset a && ltb a (offset + n)

module _ {F : Type 0} (byte : F → ℕ → ℕ) where
  abbrev pub bytes_at : F → ℕ → ℕ → List ℕ
  bytes_at f offset zero = []
  bytes_at f offset (suc n) = byte f offset ∷ bytes_at f (offset + 1) n

-- `byte f a` is the byte of the flash at address `a`.
-- A read that succeeds yields the bytes; an erase sets a sector to 0xFF; a write changes bytes that
-- are erased to those of the buffer. (On bytes that are not erased a write may do anything.)
pub record FlashLaws {F : Type 0} (b : FlashBackend F) (byte : F → ℕ → ℕ) : Type 0 where
  pub read_lem :
      (f : F) (offset n : ℕ)
      → is_negative (b.read f offset n).0 ≡ false
      → b.read f offset n ≡ (as_int n, bytes_at byte f offset n)
  pub erase_lem :
      (f : F) (s a : ℕ)
      → (b.erase f (s * b.sector_size) b.sector_size).0 ≡ pos 0
      → byte (b.erase f (s * b.sector_size) b.sector_size).1 a
        ≡ (if within (s * b.sector_size) b.sector_size a then 255 else byte f a)
  pub write_lem :
      (f : F) (offset : ℕ) (buf : List ℕ)
      → is_negative (b.write f offset buf).0 ≡ false
      → ((a : ℕ) → within offset (length buf) a ≡ true → byte f a ≡ 255)
      → (a : ℕ)
      → byte (b.write f offset buf).1 a
        ≡ (if within offset (length buf) a then get_or buf (a - offset) 0 else byte f a)
  pub write_code :
      (f : F) (offset : ℕ) (buf : List ℕ)
      → is_negative (b.write f offset buf).0 ≡ false
      → (b.write f offset buf).0 ≡ as_int (length buf)

-- A backend that does not fail inside its size.
pub record Reliable {F : Type 0} (b : FlashBackend F) : Type 0 where
  pub reads :
      (f : F) (offset n : ℕ) → offset + n ≤ b.total_size → is_negative (b.read f offset n).0 ≡ false
  pub erases : (f : F) (offset n : ℕ) → offset + n ≤ b.total_size → (b.erase f offset n).0 ≡ pos 0
  pub writes :
      (f : F) (offset : ℕ) (buf : List ℕ)
      → offset + length buf ≤ b.total_size
      → is_negative (b.write f offset buf).0 ≡ false
