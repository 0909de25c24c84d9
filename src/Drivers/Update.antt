-- ===== src/Drivers/Update.antt =====
-- The firmware cache on the device that `Platform::init` sets up.
use takt_os.Base.{
  ℕ, ◌+◌, ◌^◌, ◌≤◌, ◌<◌, ◌≡◌, refl, List, Option, some, true, false, length, arith, Option-cases,
  inl, inr,
}
use takt_os.Base.Int.{minus_one}
use takt_os.Storage
use takt_os.Storage.{StorageManager}
use takt_os.Firmware.{FirmwareCache, begin_write, write_chunk, verify}
use takt_os.Firmware.Refused.{Behind, verify-Behind, write_chunk-Behind, init_lem}
use takt_os.Drivers.Partition.{
  EspPartition, PartitionApi, Device, storage_label, partition_backend, init_storage_from_partition,
}
use takt_os.Drivers.Flash.{create_found}
use takt_os.Drivers.Platform.{OtaApi, init_firmware, init_slots, platform_init}

module _ {F : Type 0} (api : PartitionApi F) (ota : OtaApi) where
  init_storage_found :
      (m : StorageManager (Device F)) (label : List ℕ) (s : Device F) (p : EspPartition)
      → api.find_first label ≡ some p
      → init_storage_from_partition api m label s
        ≡ (true, record m { backend = some (partition_backend api p.size) }, (some p, s.1))
  unfolding init_storage_from_partition Storage.init
  init_storage_found m label s p here = rw (create_found api _ label s p here) refl

  init_slots_lem :
      (m : StorageManager (Device F)) (c : FirmwareCache) (s : Device F) (a b : EspPartition)
      (found_a found_b : Option EspPartition)
      → found_a ≡ some a
      → found_b ≡ some b
      → let c1 = init_slots api ota found_a found_b m c s in
        (c1.slot_a_offset ≡ a.address) × (c1.slot_b_offset ≡ b.address) × (c1.slot_size ≡ a.size)
  unfolding init_firmware
  init_slots_lem m c s a b found_a found_b is_a is_b = elim (Option-cases ota.running_label) [
    | inl unknown ↦
        rw (is_a, is_b, init_firmware, unknown) (init_lem m c s a.address b.address a.size)
    | inr (label, running) ↦ rw (is_a, is_b, init_firmware, running) (refl, refl, refl)
  ]

  -- What `Platform::init` leaves: a storage manager on the storage partition, and a firmware cache
  -- with slots at the addresses of the application partitions.
  platform_init_lem :
      (m : StorageManager (Device F)) (c : FirmwareCache) (s : Device F) (p a b : EspPartition)
      → api.find_first (storage_label api) ≡ some p
      → ota.ota_0 ≡ some a
      → ota.ota_1 ≡ some b
      → let (_, m1, c1, s1) = platform_init api ota m c s in
        (m1.backend ≡ some (partition_backend api p.size))
        × (c1.slot_a_offset ≡ a.address)
        × (c1.slot_b_offset ≡ b.address)
        × (c1.slot_size ≡ a.size)
        × (s1 ≡ (some p, s.1))
  unfolding platform_init
  platform_init_lem m c s p a b here is_a is_b =
      let m1 = record m { backend = some (partition_backend api p.size) } in
      let (x, y, z) = init_slots_lem m1 c (some p, s.1) a b ota.ota_0 ota.ota_1 is_a is_b in
      rw (init_storage_found m (storage_label api) s p here) (refl, x, y, z, refl)

  -- `Platform::init` hands the flash addresses of the application partitions to the firmware cache,
  -- whose storage manager counts from the beginning of the storage partition. Where these addresses
  -- are not below the size of the storage partition: behind it, an update is begun with success, its
  -- first chunk, whatever it holds, is refused with -1 and changes nothing, and no slot verifies.
  -- The addresses and the chunk are to be below 2 GB, and the image to fit the slot.
  pub platform_init-refuses :
      (m : StorageManager (Device F)) (c : FirmwareCache) (s : Device F) (p a b : EspPartition)
      (image_size version : ℕ) (chunk : List ℕ)
      → api.find_first (storage_label api) ≡ some p
      → ota.ota_0 ≡ some a
      → ota.ota_1 ≡ some b
      → p.size ≤ a.address
      → p.size ≤ b.address
      → a.address < 2 ^ 31
      → b.address < 2 ^ 31
      → a.size < 2 ^ 32
      → image_size + 4096 ≤ a.size
      → length chunk < 2 ^ 31
      → let (_, m1, c1, s1) = platform_init api ota m c s in
        let (ok, c2) = begin_write c1 image_size version in
        (ok ≡ true)
        × (write_chunk m1 c2 s1 chunk ≡ (minus_one, c2, s1))
        × ((slot : ℕ) → verify m1 c1 s1 slot ≡ false)
  platform_init-refuses m c s p a b image_size version chunk here is_a is_b low_a low_b small_a
        small_b size fits short =
      let (_, m1, c1, s1) = platform_init api ota m c s in
      let (installed, at_a, at_b, whole, _) = platform_init_lem m c s p a b here is_a is_b in
      let behind : Behind p.size c1 = record {
        a_behind = omega (arith, at_a);
        b_behind = omega (arith, at_b);
        a_small = omega (arith, at_a);
        b_small = omega (arith, at_b);
      } in
      let backend = partition_backend api p.size in
      let (ok, refused) =
        write_chunk-Behind m1 backend installed c1 s1 image_size version chunk behind
          (omega (arith, whole)) (omega (arith, whole)) short in
      (ok, refused, λ slot. verify-Behind m1 backend installed c1 s1 slot behind)
