-- ===== src/Firmware/Activate.antt =====
-- The activation of the slot that an update has filled.
use takt_os.Base.{
  ℕ, ◌+◌, ◌%◌, ◌^◌, ◌≤◌, ◌<◌, ◌≡◌, refl, ap, sym, ◌∙◌, List, some, true, false, ◌==◌, ltb, length,
  bit_and, bit_or, arith, ==_refl, All,
}
use takt_os.Crc32
use takt_os.Storage
use takt_os.Storage.{FlashBackend, StorageManager}
use takt_os.Storage.Backend.{FlashLaws, Reliable, bytes_at}
use takt_os.Storage.Read.{bytes_at-same}
use takt_os.Firmware.{
  FirmwareHeader, FirmwareCache, firmware_magic, header_reserved, header_bytes, slot_offset,
  inactive_slot, get_header, verify, activate_slot, finalize_write, final_header,
}
use takt_os.Firmware.Header.{InRange}
use takt_os.Firmware.Verify.{get_header_lem, verify_lem, stored_header, is_valid}
use takt_os.Firmware.Update.{base, IsWriting}
use takt_os.Firmware.Finalize.{
  inactive_slot-lt, header_written, closed, final_header-InRange, finalize_write_lem,
}

-- A slot holds a header of an image, and the image.
pub record IsImage {F : Type 0} (byte : F → ℕ → ℕ) (c : FirmwareCache) (f : F) (slot : ℕ)
    (hdr : FirmwareHeader) (image : List ℕ) : Type 0 where
  pub stored : stored_header byte c f slot ≡ hdr
  pub body : bytes_at byte f (slot_offset c slot + header_reserved) (length image) ≡ image
  pub magic_of : hdr.magic ≡ firmware_magic
  pub size_of : hdr.size ≡ length image
  pub crc_of : hdr.crc32 ≡ Crc32.compute image
  pub valid_flag : (bit_and hdr.flags 1 == 0) ≡ false

module _ {F : Type 0} (m : StorageManager F) (b : FlashBackend F) (byte : F → ℕ → ℕ)
    (laws : FlashLaws b byte) (reliable : Reliable b) (installed : m.backend ≡ some b)
    (small : b.total_size < 2 ^ 31) (sectors : b.sector_size ≡ 4096)
    (whole : b.total_size % 4096 ≡ 0) where
  pub IsImage-verifies :
      (c : FirmwareCache) (f : F) (slot : ℕ) (hdr : FirmwareHeader) (image : List ℕ)
      → IsImage byte c f slot hdr image
      → slot < 2
      → slot_offset c slot + header_reserved + length image ≤ b.total_size
      → verify m c f slot ≡ true
  IsImage-verifies c f slot hdr image v h k =
      let size = ap (λ (x : FirmwareHeader). x.size) v.stored in
      let magic : (hdr.magic == firmware_magic) ≡ true = ground (arith, v.magic_of) in
      verify_lem m b byte laws reliable installed small c f slot h (omega (arith, size, v.size_of))
      ∙ ap (is_valid byte c f slot) v.stored
      ∙ rw (v.size_of, v.body, v.crc_of, v.valid_flag, magic) (==_refl (Crc32.compute image))

  -- On a flash of less than 2 GB with sectors of 4096 bytes, whose backend meets the flash laws and
  -- does not fail: `activateSlot` of an inactive slot that holds a valid image, not yet marked as
  -- active, succeeds. It makes the slot the active one and sets the second flag of its header; the
  -- image still verifies, and no byte outside the header's sector changes.
  pub activate_slot_lem :
      (c : FirmwareCache) (f : F) (hdr : FirmwareHeader) (image : List ℕ)
      → IsImage byte c f (inactive_slot c) hdr image
      → InRange hdr
      → hdr.flags ≡ 1
      → base c % 4096 ≡ 0
      → base c + header_reserved + length image ≤ b.total_size
      → let (ok, c', f') = activate_slot m c f (inactive_slot c) in
        (ok ≡ true)
        × (c' ≡ record c { active_slot = inactive_slot c })
        × IsImage byte c' f' (inactive_slot c) (record hdr { flags = 3 }) image
        × (verify m c' f' (inactive_slot c) ≡ true)
        × ((a : ℕ) → (a < base c) → byte f' a ≡ byte f a)
        × ((a : ℕ) → (base c + header_reserved ≤ a) → byte f' a ≡ byte f a)
  unfolding activate_slot
  activate_slot_lem c f hdr image v range flags aligned k =
      let slot = inactive_slot c in
      let low : ltb 1 slot ≡ false = ground (arith, inactive_slot-lt c) in
      let verified = IsImage-verifies c f slot hdr image v (inactive_slot-lt c) k in
      let found : (get_header m c f slot).1 ≡ hdr =
        ap (λ r. r.1)
          (get_header_lem m b byte laws reliable installed small c f slot (inactive_slot-lt c)
            (omega arith))
        ∙ v.stored in
      let hdr' : FirmwareHeader = record hdr { flags = 3 } in
      let marked : record ((get_header m c f slot).1) {
        flags = bit_or ((get_header m c f slot).1).flags 2;
      }
          ≡ hdr' =
        ap (λ (x : FirmwareHeader). record x { flags = bit_or x.flags 2 }) found
        ∙ ap (λ n. record hdr { flags = bit_or n 2 }) flags in
      let c' : FirmwareCache = record c { active_slot = slot } in
      let f' = (Storage.write m f (base c) (header_bytes hdr')).1 in
      let run : activate_slot m c f slot ≡ (true, c', f') =
        rw (low, verified)
          (λ i. (true, c', (Storage.write m f (base c) (header_bytes (marked i))).1)) in
      let (stored, before, behind) =
        header_written m b byte laws reliable installed small sectors whole c f hdr'
          (record {
            magic_in = range.magic_in;
            version_in = range.version_in;
            size_in = range.size_in;
            crc32_in = range.crc32_in;
            timestamp_in = range.timestamp_in;
          })
          aligned (omega arith) in
      let v' : IsImage byte c' f' slot hdr' image = record {
        stored = stored;
        body =
            bytes_at-same byte f' f (base c + header_reserved) (length image)
              (λ i hi. behind (base c + header_reserved + i) (omega arith))
            ∙ v.body;
        magic_of = v.magic_of;
        size_of = v.size_of;
        crc_of = v.crc_of;
        valid_flag = refl;
      } in
      rw run (
        refl,
        refl,
        v',
        IsImage-verifies c' f' slot hdr' image v' (inactive_slot-lt c) k,
        before,
        behind,
      )

  -- What `finalizeWrite` leaves is a valid image.
  pub finalize_write-IsImage :
      (c : FirmwareCache) (f : F) (image : List ℕ)
      → IsWriting byte c f image
      → base c % 4096 ≡ 0
      → length image ≡ c.write_image_size
      → All (λ x. x < 256) image
      → c.write_version < 2 ^ 32
      → base c + header_reserved + length image ≤ b.total_size
      → (f' : F) × (finalize_write m c f ≡ (true, closed c, f'))
        × IsImage byte (closed c) f' (inactive_slot c) (final_header c) image
        × InRange (final_header c)
        × ((a : ℕ) → (a < base c) → byte f' a ≡ byte f a)
  unfolding Crc32.compute
  finalize_write-IsImage c f image v aligned size bytes version k =
      let (ok, closes, stored, body, before, _) =
        finalize_write_lem m b byte laws reliable installed small sectors whole c f image v aligned
          size bytes version k in
      let f' = (finalize_write m c f).2 in
      (
        f',
        λ i. (ok i, closes i, f'),
        record {
          stored =
              ap (λ (t : FirmwareCache). stored_header byte t f' (inactive_slot c)) (sym closes)
              ∙ stored;
          body = body;
          magic_of = refl;
          size_of = sym size;
          crc_of = ap Crc32.finalize v.crc_of;
          valid_flag = refl;
        },
        final_header-InRange byte c f image v bytes version (omega arith),
        before,
      )
