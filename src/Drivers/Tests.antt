-- ===== src/Drivers/Tests.antt =====
-- A chip with the partition table of tools/partitions.csv, and the drivers' theorems on it.
use takt_os.Base.{
  ℕ, ◌+◌, ◌-◌, ◌≡◌, refl, [], ◌∷◌, none, some, Bool, true, false, leb, length, get_or,
  if◌then◌else◌, arith,
}
use takt_os.Base.Int.{minus_one}
use takt_os.Storage.{StorageManager}
use takt_os.Storage.Backend.{FlashLaws, bytes_at, within}
use takt_os.Storage.Regions.{same_text}
use takt_os.Firmware.{FirmwareCache, begin_write, write_chunk, verify}
use takt_os.Drivers.Partition.{
  EspPartition, PartitionApi, PartitionLaws, Device, device_byte, partition_backend,
}
use takt_os.Drivers.Platform.{OtaApi, platform_init}
use takt_os.Drivers.Flash.{partition_backend-FlashLaws}
use takt_os.Drivers.Update.{platform_init-refuses}

abbrev storage : EspPartition
storage = record { address = 0x3D0000; size = 0x30000 }

abbrev app_0 : EspPartition
app_0 = record { address = 0x150000; size = 0x140000 }

abbrev app_1 : EspPartition
app_1 = record { address = 0x290000; size = 0x140000 }

abbrev chip_byte : EspPartition → (ℕ → ℕ) → ℕ → ℕ
chip_byte p f a = f (p.address + a)

abbrev in_partition : EspPartition → ℕ → ℕ → Bool
in_partition p offset n = leb (offset + n) p.size

abbrev chip : PartitionApi (ℕ → ℕ)
chip = record {
  find_first = λ label.
      if same_text label (b's' ∷ b't' ∷ b'o' ∷ b'r' ∷ b'a' ∷ b'g' ∷ b'e' ∷ [])
      then some storage
      else none;
  read = λ p f offset n. (in_partition p offset n, bytes_at (chip_byte p) f offset n);
  write = λ p f offset buf. (
    in_partition p offset (length buf),
    λ x.
        if within (p.address + offset) (length buf) x
        then get_or buf (x - (p.address + offset)) 0
        else f x,
  );
  erase_range = λ p f offset n.
      (in_partition p offset n, λ x. if within (p.address + offset) n x then 255 else f x);
}

-- Whether an address is in a range does not depend on where the partition begins.
within_shift : (base offset n a : ℕ) → within (base + offset) n (base + a) ≡ within offset n a
within_shift base offset n a = ground arith

chip_laws : PartitionLaws chip chip_byte
chip_laws = record {
  read_ok = λ p f offset n ok. refl;
  write_ok = λ p f offset buf ok erased a.
      let moved : p.address + a - (p.address + offset) ≡ a - offset = omega arith in
      rw (within_shift p.address offset (length buf) a, moved) refl;
  erase_ok = λ p f offset n a ok. rw (within_shift p.address offset n a) refl;
}

partition_backend-FlashLaws_example :
    FlashLaws (partition_backend chip 0x30000) (device_byte chip_byte)
partition_backend-FlashLaws_example = partition_backend-FlashLaws chip chip_byte chip_laws 0x30000

abbrev powered : Device (ℕ → ℕ)
powered = (none, λ _. 255)

abbrev ota_partitions : OtaApi
ota_partitions = record { ota_0 = some app_0; ota_1 = some app_1; running_label = none }

abbrev no_storage : StorageManager (Device (ℕ → ℕ))
no_storage = record { backend = none; regions = [] }

abbrev new_cache : FirmwareCache
new_cache = record {
  slot_a_offset = 0;
  slot_b_offset = 0;
  slot_size = 0;
  active_slot = 0;
  write_offset = 0;
  write_crc = 0;
  write_image_size = 0;
  write_version = 0;
  writing = false;
}

-- With the partition table of the repository no firmware can be stored.
platform_init-refuses_example :
    let (_, m1, c1, s1) = platform_init chip ota_partitions no_storage new_cache powered in
    let (ok, c2) = begin_write c1 1000 1 in
    (ok ≡ true)
    × (write_chunk m1 c2 s1 (1 ∷ 2 ∷ 3 ∷ []) ≡ (minus_one, c2, s1))
    × ((slot : ℕ) → verify m1 c1 s1 slot ≡ false)
unfolding same_text
platform_init-refuses_example =
    platform_init-refuses chip ota_partitions no_storage new_cache powered storage app_0 app_1 1000
      1 (1 ∷ 2 ∷ 3 ∷ []) refl refl refl (omega arith) (omega arith) (omega arith) (omega arith)
      (omega arith) (omega arith) (omega arith)
