-- ===== src/Firmware/Finalize.antt =====
-- The end of an update, and an update as a whole.
use takt_os.Base.{
  ℕ, ◌+◌, ◌-◌, ◌%◌, ◌^◌, ◌≤◌, ◌<◌, ◌≡◌, refl, ap, sym, ◌∙◌, List, some, true, false, length, get_or,
  arith, All, ==_refl,
}
use takt_os.Base.Bits.{xor-lt}
use takt_os.Crc32
use takt_os.Crc32.Detect.{update-lt}
use takt_os.Storage
use takt_os.Storage.{FlashBackend, StorageManager}
use takt_os.Storage.Backend.{FlashLaws, Reliable, bytes_at}
use takt_os.Storage.Read.{bytes_at-eq, bytes_at-same}
use takt_os.Firmware.{
  FirmwareHeader, FirmwareCache, header_reserved, header_size, header_bytes, inactive_slot,
  final_header, parse_header, finalize_write, verify,
}
use takt_os.Firmware.Header.{InRange, length-header_bytes, parse_header-header_bytes}
use takt_os.Firmware.Verify.{verify_lem, stored_header, is_valid}
use takt_os.Firmware.Update.{base, IsWriting, write_works}

pub inactive_slot-lt : (c : FirmwareCache) → inactive_slot c < 2
inactive_slot-lt c = ground arith

-- The cache after `finalize_write`.
abbrev pub closed : FirmwareCache → FirmwareCache
closed c = record c { writing = false }

pub final_header-InRange :
    {F : Type 0} (byte : F → ℕ → ℕ) (c : FirmwareCache) (f : F) (image : List ℕ)
    → IsWriting byte c f image
    → All (λ x. x < 256) image
    → c.write_version < 2 ^ 32
    → c.write_image_size < 2 ^ 32
    → InRange (final_header c)
unfolding Crc32.finalize Crc32.initial
final_header-InRange byte c f image v small version size = record {
  magic_in = omega arith;
  version_in = version;
  size_in = size;
  crc32_in =
      xor-lt 32 c.write_crc 0xFFFFFFFF
        (omega (arith, v.crc_of, update-lt 0xFFFFFFFF image (omega arith) small)) (omega arith);
  timestamp_in = omega arith;
}

module _ {F : Type 0} (m : StorageManager F) (b : FlashBackend F) (byte : F → ℕ → ℕ)
    (laws : FlashLaws b byte) (reliable : Reliable b) (installed : m.backend ≡ some b)
    (small : b.total_size < 2 ^ 31) (sectors : b.sector_size ≡ 4096)
    (whole : b.total_size % 4096 ≡ 0) where
  header_verifies :
      (c : FirmwareCache) (f : F) (image : List ℕ)
      → c.write_crc ≡ Crc32.update Crc32.initial image
      → length image ≡ c.write_image_size
      → bytes_at byte f (base c + header_reserved) (length image) ≡ image
      → stored_header byte (closed c) f (inactive_slot c) ≡ final_header c
      → base c + header_reserved + length image ≤ b.total_size
      → verify m (closed c) f (inactive_slot c) ≡ true
  unfolding Crc32.compute
  header_verifies c f image crc size body stored k =
      let fits : base c + header_reserved + (stored_header byte (closed c) f (inactive_slot c)).size
          ≤ b.total_size =
        omega (arith, ap (λ (h : FirmwareHeader). h.size) stored) in
      verify_lem m b byte laws reliable installed small (closed c) f (inactive_slot c)
        (inactive_slot-lt c) fits
      ∙ ap (is_valid byte (closed c) f (inactive_slot c)) stored
      ∙ rw (← size, body, crc) (==_refl (Crc32.finalize (Crc32.update Crc32.initial image)))

  -- A header that is written to the inactive slot is stored there, and nothing outside its sector
  -- changes.
  pub header_written :
      (c : FirmwareCache) (f : F) (hdr : FirmwareHeader)
      → InRange hdr
      → base c % 4096 ≡ 0
      → base c + header_reserved ≤ b.total_size
      → let f' = (Storage.write m f (base c) (header_bytes hdr)).1 in
        (parse_header (bytes_at byte f' (base c) header_size) ≡ hdr)
        × ((a : ℕ) → (a < base c) → byte f' a ≡ byte f a)
        × ((a : ℕ) → (base c + header_reserved ≤ a) → byte f' a ≡ byte f a)
  header_written c f hdr v aligned k =
      let buf = header_bytes hdr in
      let len = length-header_bytes hdr in
      let (ok, effect) =
        write_works m b byte laws reliable installed small sectors whole f (base c) buf
          (omega (arith, len)) (omega (arith, len)) in
      let f' = (Storage.write m f (base c) buf).1 in
      let header_at : bytes_at byte f' (base c) header_size ≡ buf =
        ap (bytes_at byte f' (base c)) (sym len)
        ∙ bytes_at-eq byte f' (base c) buf (λ i hi.
          let e : base c + i - base c ≡ i = omega arith in
          ground (arith, effect (base c + i), ap (λ j. get_or buf j 0) e)) in
      (
        ap parse_header header_at ∙ parse_header-header_bytes hdr v,
        λ a p. ground (arith, effect a, len),
        λ a p. ground (arith, effect a, len),
      )

  -- On a flash of less than 2 GB that consists of whole sectors of 4096 bytes, whose backend meets
  -- the flash laws and does not fail: when an update has stored the bytes announced to `beginWrite`
  -- in the inactive slot, which begins at a multiple of 4096 and whose header area and image lie in
  -- the flash, with a version of 32 bits, `finalizeWrite` succeeds. It leaves the image and its
  -- header in the inactive slot, closes the update, and changes no byte outside the 4096 bytes at
  -- the slot's beginning.
  pub finalize_write_lem :
      (c : FirmwareCache) (f : F) (image : List ℕ)
      → IsWriting byte c f image
      → base c % 4096 ≡ 0
      → length image ≡ c.write_image_size
      → All (λ x. x < 256) image
      → c.write_version < 2 ^ 32
      → base c + header_reserved + length image ≤ b.total_size
      → let (ok, c', f') = finalize_write m c f in
        (ok ≡ true)
        × (c' ≡ closed c)
        × (stored_header byte c' f' (inactive_slot c) ≡ final_header c)
        × (bytes_at byte f' (base c + header_reserved) (length image) ≡ image)
        × ((a : ℕ) → (a < base c) → byte f' a ≡ byte f a)
        × ((a : ℕ) → (base c + header_reserved ≤ a) → byte f' a ≡ byte f a)
  unfolding finalize_write
  finalize_write_lem c f image v aligned size bytes version k =
      let hdr = final_header c in
      let f' = (Storage.write m f (base c) (header_bytes hdr)).1 in
      let (stored, before, behind) =
        header_written c f hdr (final_header-InRange byte c f image v bytes version (omega arith))
          aligned (omega arith) in
      let body : bytes_at byte f' (base c + header_reserved) (length image) ≡ image =
        bytes_at-same byte f' f (base c + header_reserved) (length image)
          (λ i hi. behind (base c + header_reserved + i) (omega arith))
        ∙ v.stored in
      let verified = header_verifies c f' image v.crc_of size body stored (omega arith) in
      rw v.writes (verified, refl, stored, body, before, behind)
