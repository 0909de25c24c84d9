-- ===== src/Storage/Memory.antt =====
-- The memory backend of tests/test_firmware_cache.cpp: it meets the laws of a flash, and never fails
-- inside its size.
use takt_os.Base.{
  ℕ, ◌+◌, ◌-◌, ◌*◌, ◌≡◌, refl, List, false, ltb, length, get_or, sym, ap, false≢true, if◌then◌else◌,
  some, [], arith, Bool-cases, inl, inr,
}
use takt_os.Base.Int.{ℤ, pos, minus_one, as_int, is_negative}
use takt_os.Storage.{FlashBackend, StorageManager}
use takt_os.Storage.Backend.{FlashLaws, Reliable, bytes_at, within}

abbrev pub Memory : Type 0
Memory = ℕ → ℕ

abbrev pub cell : Memory → ℕ → ℕ
cell f a = f a

abbrev pub mem_size : ℕ
mem_size = 65536

unfoldable pub mem_read : Memory → ℕ → ℕ → ℤ × List ℕ
mem_read f offset n =
    if ltb mem_size (offset + n) then (minus_one, []) else (as_int n, bytes_at cell f offset n)

unfoldable pub mem_write : Memory → ℕ → List ℕ → ℤ × Memory
mem_write f offset buf = if ltb mem_size (offset + length buf) then (minus_one, f) else (
  as_int (length buf),
  λ a. if within offset (length buf) a then get_or buf (a - offset) 0 else f a,
)

unfoldable pub mem_erase : Memory → ℕ → ℕ → ℤ × Memory
mem_erase f offset n =
    if ltb mem_size (offset + n)
    then (minus_one, f)
    else (pos 0, λ a. if within offset n a then 255 else f a)

-- MemBackend::setup.
abbrev pub mem_backend : FlashBackend Memory
mem_backend = record {
  read = mem_read;
  write = mem_write;
  erase = mem_erase;
  total_size = mem_size;
  sector_size = 4096;
}

read_ok :
    (f : Memory) (offset n : ℕ)
    → is_negative (mem_read f offset n).0 ≡ false
    → mem_read f offset n ≡ (as_int n, bytes_at cell f offset n)
unfolding mem_read
read_ok f offset n h = elim (Bool-cases (ltb mem_size (offset + n))) [
  | inl out ↦ absurd (false≢true (sym (rw out at h)))
  | inr fits ↦ rw fits refl
]

erase_ok :
    (f : Memory) (offset n a : ℕ)
    → (mem_erase f offset n).0 ≡ pos 0
    → (mem_erase f offset n).1 a ≡ (if within offset n a then 255 else f a)
unfolding mem_erase
erase_ok f offset n a h = elim (Bool-cases (ltb mem_size (offset + n))) [
  | inl out ↦ let e = rw out at h in cc
  | inr fits ↦ rw fits refl
]

write_ok :
    (f : Memory) (offset : ℕ) (buf : List ℕ)
    → is_negative (mem_write f offset buf).0 ≡ false
    → mem_write f offset buf ≡ (
      as_int (length buf),
      λ a. if within offset (length buf) a then get_or buf (a - offset) 0 else f a,
    )
unfolding mem_write
write_ok f offset buf h = elim (Bool-cases (ltb mem_size (offset + length buf))) [
  | inl out ↦ absurd (false≢true (sym (rw out at h)))
  | inr fits ↦ rw fits refl
]

pub mem_laws : FlashLaws mem_backend cell
mem_laws = record {
  read_lem = read_ok;
  erase_lem = λ f s a h. erase_ok f (s * 4096) 4096 a h;
  write_lem = λ f offset buf h _ a. ap (λ (r : ℤ × Memory). r.1 a) (write_ok f offset buf h);
  write_code = λ f offset buf h. ap (λ (r : ℤ × Memory). r.0) (write_ok f offset buf h);
}

pub mem-Reliable : Reliable mem_backend
unfolding mem_read mem_write mem_erase
mem-Reliable = record {
  reads = λ f offset n h. ground arith;
  erases = λ f offset n h. ground arith;
  writes = λ f offset buf h. ground arith;
}

-- The manager after `init` with this backend.
abbrev pub mem_manager : StorageManager Memory
mem_manager = record { backend = some mem_backend; regions = [] }
