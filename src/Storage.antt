-- ===== src/Storage.antt =====
-- kernel/include/takt/storage_manager.hpp and kernel/src/storage_manager.cpp: byte access to the
-- flash through a backend, with erase before write.
-- `F` is the contents of the flash device. A backend's functions return the code of the C++ function
-- with the buffer that was read or the new contents. `size_t` has 64 bits, as on the host.
pub mod Backend
pub mod Write
pub mod Read
pub mod Regions
pub mod Memory
pub mod Hazards
mod Tests
use takt_os.Base.{
  ℕ, zero, suc, ◌+◌, ◌-◌, ◌*◌, ◌/◌, ◌%◌, ◌^◌, List, [], ◌∷◌, Option, none, some, Bool, true, false,
  ltb, leb, length, if◌then◌else◌, ◌==◌,
}
use takt_os.Base.Int.{ℤ, pos, minus_one, is_zero}

-- FlashBackend with all three functions present. (`init` refuses any other.)
pub record FlashBackend (F : Type 0) : Type 0 where
  pub read : F → ℕ → ℕ → ℤ × List ℕ
  pub write : F → ℕ → List ℕ → ℤ × F
  pub erase : F → ℕ → ℕ → ℤ × F
  pub total_size : ℕ
  pub sector_size : ℕ

-- FlashBackend as it is handed to `init`, where a std::function may be empty.
pub record BackendOffer (F : Type 0) : Type 0 where
  pub read : Option (F → ℕ → ℕ → ℤ × List ℕ)
  pub write : Option (F → ℕ → List ℕ → ℤ × F)
  pub erase : Option (F → ℕ → ℕ → ℤ × F)
  pub total_size : ℕ
  pub sector_size : ℕ

-- NamedRegion: the name, and the region's offset and size.
pub record Region : Type 0 where
  pub name : List ℕ
  pub offset : ℕ
  pub size : ℕ

abbrev pub max_regions : ℕ
max_regions = 16

-- `regions` are the entries below regionCount_; entries are active from then on.
pub record StorageManager (F : Type 0) : Type 0 where
  pub backend : Option (FlashBackend F)
  pub regions : List Region

-- Addition of `size_t`.
abbrev pub add_size : ℕ → ℕ → ℕ
add_size a b = (a + b) % 2 ^ 64

module _ {F : Type 0} where
  unfoldable pub init : StorageManager F → BackendOffer F → Bool × StorageManager F
  init m offer = elim offer.read [
    | none ↦ (false, m)
    | some r ↦ elim offer.write [
      | none ↦ (false, m)
      | some w ↦ elim offer.erase [
        | none ↦ (false, m)
        | some e ↦ (
          true,
          record m {
            backend = some (record {
              read = r;
              write = w;
              erase = e;
              total_size = offer.total_size;
              sector_size = offer.sector_size;
            });
          },
        )
      ]
    ]
  ]

  unfoldable pub read : StorageManager F → F → ℕ → ℕ → ℤ × List ℕ
  read m f offset len = elim m.backend [
    | none ↦ (minus_one, [])
    | some b ↦
        if ltb b.total_size (add_size offset len) then (minus_one, []) else b.read f offset len
  ]

  -- The loop of `write` from sector `s`, with `n` rounds to go. `s * sector` is a uint32_t.
  unfoldable pub erase_sectors : FlashBackend F → ℕ → ℕ → F → Bool × F
  erase_sectors b zero s f = (true, f)
  erase_sectors b (suc n) s f =
      let r = b.erase f (s * b.sector_size % 2 ^ 32) b.sector_size in
      let rest = erase_sectors b n (s + 1) r.1 in if is_zero r.0 then rest else (false, r.1)

  unfoldable pub start_sector : FlashBackend F → ℕ → ℕ
  start_sector b offset = offset / b.sector_size

  -- `(offset + len - 1) / sector`, stored in a uint32_t.
  unfoldable pub end_sector : FlashBackend F → ℕ → ℕ → ℕ
  end_sector b offset len = (offset + len + (2 ^ 64 - 1)) % 2 ^ 64 / b.sector_size % 2 ^ 32

  -- The rounds of the loop are those of `s <= end_sector`. At an end of 2 ^ 32 - 1 that test never
  -- fails; the model's loop stops after that sector.
  unfoldable pub write : StorageManager F → F → ℕ → List ℕ → ℤ × F
  write m f offset buf = elim m.backend [
    | none ↦ (minus_one, f)
    | some b ↦
        if ltb b.total_size (add_size offset (length buf))
        then (minus_one, f)
        else let first = start_sector b offset in
          let rounds = end_sector b offset (length buf) + 1 - first in
          let erased = erase_sectors b rounds first f in
          if erased.0 then b.write erased.1 offset buf else (minus_one, erased.1)
  ]

  pub erase_sector : StorageManager F → F → ℕ → ℤ × F
  erase_sector m f offset = elim m.backend [
    | none ↦ (minus_one, f)
    | some b ↦ b.erase f offset b.sector_size
  ]

  pub total_size : StorageManager F → ℕ
  total_size m = elim m.backend [ none ↦ 0 | some b ↦ b.total_size ]
