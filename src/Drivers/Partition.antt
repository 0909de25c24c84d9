-- ===== src/Drivers/Partition.antt =====
-- drivers/include/takt/drivers/flash_backend.hpp and drivers/src/flash_backend.cpp in the ESP32 build:
-- the flash backend on a partition.
-- The lambdas of a backend point to one static context, g_storageCtx; so the backend's device is the
-- context's partition (`none` is the null pointer) and the flash. `size_t` has 32 bits in this build.
use takt_os.Base.{
  ℕ, ◌+◌, ◌-◌, ◌%◌, ◌^◌, ◌≡◌, List, [], ◌∷◌, Option, none, some, Bool, true, false, ltb, length,
  get_or, if◌then◌else◌,
}
use takt_os.Base.Int.{ℤ, pos, minus_one, as_int}
use takt_os.Storage
use takt_os.Storage.{FlashBackend, BackendOffer, StorageManager}
use takt_os.Storage.Backend.{bytes_at, within}

-- What the code uses of an esp_partition_t: the address in the flash, and the size.
pub record EspPartition : Type 0 where
  pub address : ℕ
  pub size : ℕ

-- The functions of ESP-IDF: the search for a label, and the access at an offset in a partition, with
-- true for ESP_OK.
pub record PartitionApi (F : Type 0) : Type 0 where
  pub find_first : List ℕ → Option EspPartition
  pub read : EspPartition → F → ℕ → ℕ → Bool × List ℕ
  pub write : EspPartition → F → ℕ → List ℕ → Bool × F
  pub erase_range : EspPartition → F → ℕ → ℕ → Bool × F

abbrev pub Device : Type 0 → Type 0
Device F = Option EspPartition × F

abbrev pub code_of : Bool → ℤ → ℤ
code_of ok code = if ok then code else minus_one

-- Addition of a uint32_t and a size_t.
abbrev pub end_of : ℕ → ℕ → ℕ
end_of offset len = (offset + len) % 2 ^ 32

module _ {F : Type 0} (api : PartitionApi F) where
  unfoldable pub partition_read : Device F → ℕ → ℕ → ℤ × List ℕ
  partition_read (none, f) offset len = (minus_one, [])
  partition_read (some p, f) offset len =
      let (ok, bytes) = api.read p f offset len in
      if ltb p.size (end_of offset len) then (minus_one, []) else (code_of ok (as_int len), bytes)

  unfoldable pub partition_write : Device F → ℕ → List ℕ → ℤ × Device F
  partition_write (none, f) offset buf = (minus_one, (none, f))
  partition_write (some p, f) offset buf =
      let (ok, f1) = api.write p f offset buf in
      if ltb p.size (end_of offset (length buf))
      then (minus_one, (some p, f))
      else (code_of ok (as_int (length buf)), (some p, f1))

  unfoldable pub partition_erase : Device F → ℕ → ℕ → ℤ × Device F
  partition_erase (none, f) offset len = (minus_one, (none, f))
  partition_erase (some p, f) offset len =
      let (ok, f1) = api.erase_range p f offset len in (code_of ok (pos 0), (some p, f1))

  -- The backend that `createPartitionBackend` sets up, of a size.
  abbrev pub partition_offer : ℕ → BackendOffer (Device F)
  partition_offer size = record {
    read = some partition_read;
    write = some partition_write;
    erase = some partition_erase;
    total_size = size;
    sector_size = 4096;
  }

  unfoldable pub create_partition_backend :
      BackendOffer (Device F) → List ℕ → Device F → Bool × BackendOffer (Device F) × Device F
  create_partition_backend offer label s = elim (api.find_first label) [
    | none ↦ (false, offer, (none, s.1))
    | some p ↦ (true, partition_offer p.size, (some p, s.1))
  ]

  -- FlashBackend as it is constructed.
  abbrev pub empty_offer : BackendOffer (Device F)
  empty_offer = record {
    read = none;
    write = none;
    erase = none;
    total_size = 0;
    sector_size = 4096;
  }

  abbrev pub storage_label : List ℕ
  storage_label = b's' ∷ b't' ∷ b'o' ∷ b'r' ∷ b'a' ∷ b'g' ∷ b'e' ∷ []

  pub create_storage_backend :
      BackendOffer (Device F) → Device F → Bool × BackendOffer (Device F) × Device F
  create_storage_backend offer s = create_partition_backend offer storage_label s

  unfoldable pub init_storage_from_partition :
      StorageManager (Device F) → List ℕ → Device F → Bool × StorageManager (Device F) × Device F
  init_storage_from_partition m label s =
      let (made, offer, s1) = create_partition_backend empty_offer label s in
      let (ok, m1) = Storage.init m offer in if made then (ok, m1, s1) else (false, m, s1)

  -- The backend that the storage manager has then.
  abbrev pub partition_backend : ℕ → FlashBackend (Device F)
  partition_backend size = record {
    read = partition_read;
    write = partition_write;
    erase = partition_erase;
    total_size = size;
    sector_size = 4096;
  }

-- What ESP-IDF documents: a read that succeeds yields the bytes, a write that succeeds changes bytes
-- that are erased to those of the buffer, an erase that succeeds sets the range to 0xFF. `byte p f a`
-- is the byte at offset `a` of the partition `p`.
pub record PartitionLaws {F : Type 0} (api : PartitionApi F) (byte : EspPartition → F → ℕ → ℕ)
    : Type 0 where
  pub read_ok :
      (p : EspPartition) (f : F) (offset n : ℕ)
      → (api.read p f offset n).0 ≡ true
      → (api.read p f offset n).1 ≡ bytes_at (byte p) f offset n
  pub write_ok :
      (p : EspPartition) (f : F) (offset : ℕ) (buf : List ℕ)
      → (api.write p f offset buf).0 ≡ true
      → ((a : ℕ) → within offset (length buf) a ≡ true → byte p f a ≡ 255)
      → (a : ℕ)
      → byte p (api.write p f offset buf).1 a
        ≡ (if within offset (length buf) a then get_or buf (a - offset) 0 else byte p f a)
  pub erase_ok :
      (p : EspPartition) (f : F) (offset n a : ℕ)
      → (api.erase_range p f offset n).0 ≡ true
      → byte p (api.erase_range p f offset n).1 a ≡ (if within offset n a then 255 else byte p f a)

-- The byte of the context's partition.
abbrev pub device_byte : {F : Type 0} → (EspPartition → F → ℕ → ℕ) → Device F → ℕ → ℕ
device_byte byte (none, f) a = 0
device_byte byte (some p, f) a = byte p f a
