-- ===== src/Firmware/Verify.antt =====
-- What `verify` decides, in terms of the bytes of the flash.
use takt_os.Base.{
  ℕ, zero, suc, ◌+◌, ◌-◌, ◌*◌, ◌/◌, ◌^◌, ◌≤◌, ◌<◌, ◌≡◌, refl, ap, sym, ◌∙◌, some, Bool, false, not,
  ◌&&◌, ltb, ◌==◌, if◌then◌else◌, bit_and, arith, dec_lt,
}
use takt_os.Base.Int.{as_int, eq_ℤ_refl}
use takt_os.Crc32
use takt_os.Crc32.Detect.{update-append}
use takt_os.Storage
use takt_os.Storage.{FlashBackend, StorageManager}
use takt_os.Storage.Backend.{FlashLaws, Reliable, bytes_at}
use takt_os.Storage.Read.{read_lem, bytes_at-add}
use takt_os.Firmware.{
  FirmwareHeader, FirmwareCache, firmware_magic, verify_chunk, header_reserved, header_size,
  slot_offset, add_u32, parse_header, get_header, verify_loop, verify,
}

-- The length of the next chunk.
abbrev chunk_of : ℕ → ℕ
chunk_of remaining = if ltb verify_chunk remaining then verify_chunk else remaining

-- The header that a slot holds.
abbrev pub stored_header : {F : Type 0} → (F → ℕ → ℕ) → FirmwareCache → F → ℕ → FirmwareHeader
stored_header byte c f slot = parse_header (bytes_at byte f (slot_offset c slot) header_size)

-- What makes a header of a slot valid, given the bytes behind its sector.
abbrev pub is_valid : {F : Type 0} → (F → ℕ → ℕ) → FirmwareCache → F → ℕ → FirmwareHeader → Bool
is_valid byte c f slot h =
    (h.magic == firmware_magic)
    && (not (bit_and h.flags 1 == 0)
        && (Crc32.compute (bytes_at byte f (slot_offset c slot + header_reserved) h.size)
            == h.crc32))

module _ {F : Type 0} (m : StorageManager F) (b : FlashBackend F) (byte : F → ℕ → ℕ)
    (laws : FlashLaws b byte) (reliable : Reliable b) (installed : m.backend ≡ some b)
    (small : b.total_size < 2 ^ 31) where
  read_in :
      (f : F) (offset n : ℕ)
      → offset + n ≤ b.total_size
      → Storage.read m f offset n ≡ (as_int n, bytes_at byte f offset n)
  read_in f offset n h = read_lem m b byte laws reliable installed (omega arith) f offset n h

  verify_loop-round :
      (fuel : ℕ) (f : F) (crc remaining offset : ℕ)
      → 0 < remaining
      → offset + remaining ≤ b.total_size
      → verify_loop m (suc fuel) f crc remaining offset
        ≡ verify_loop m fuel f
            (Crc32.update crc (bytes_at byte f offset (chunk_of remaining)))
            (remaining - chunk_of remaining)
            (offset + chunk_of remaining)
  unfolding verify_loop
  verify_loop-round fuel f crc remaining offset h k =
      let chunk = chunk_of remaining in
      let part : chunk ≤ remaining = ground arith in
      let go : (remaining == 0) ≡ false = ground arith in
      let next : add_u32 offset chunk ≡ offset + chunk = omega arith in
      rw (go, read_in f offset chunk (omega arith), eq_ℤ_refl (as_int chunk), next) refl

  -- The loop takes the checksum of all remaining bytes, and the fuel of its caller is enough.
  verify_loop_lem :
      (fuel : ℕ) (f : F) (crc remaining offset : ℕ)
      → remaining ≤ fuel * verify_chunk
      → offset + remaining ≤ b.total_size
      → verify_loop m (suc fuel) f crc remaining offset
        ≡ some (Crc32.update crc (bytes_at byte f offset remaining))
  verify_loop_lem zero f crc remaining offset h k =
      let z : remaining ≡ 0 = omega arith in rw z (unfold verify_loop Crc32.update in refl)
  verify_loop_lem (suc fuel) f crc remaining offset h k = elim (dec_lt 0 remaining) [
    | no empty ↦
        let z : remaining ≡ 0 = omega arith in rw z (unfold verify_loop Crc32.update in refl)
    | yes more ↦
        let chunk = chunk_of remaining in
        let part : chunk ≤ remaining = ground arith in
        let fuel_left : remaining - chunk ≤ fuel * verify_chunk = ground arith in
        let split : remaining ≡ chunk + (remaining - chunk) = omega arith in
        verify_loop-round (suc fuel) f crc remaining offset more k
        ∙ verify_loop_lem fuel f (Crc32.update crc (bytes_at byte f offset chunk))
            (remaining - chunk) (offset + chunk) fuel_left (omega arith)
        ∙ ap some (
            sym (
              ap (Crc32.update crc) (
                ap (bytes_at byte f offset) split
                ∙ bytes_at-add byte f offset chunk (remaining - chunk))
              ∙ update-append crc (bytes_at byte f offset chunk)
                  (bytes_at byte f (offset + chunk) (remaining - chunk))))
  ]

  pub get_header_lem :
      (c : FirmwareCache) (f : F) (slot : ℕ)
      → slot < 2
      → slot_offset c slot + header_size ≤ b.total_size
      → get_header m c f slot
        ≡ ((stored_header byte c f slot).magic == firmware_magic, stored_header byte c f slot)
  unfolding get_header
  get_header_lem c f slot h k =
      let low : ltb 1 slot ≡ false = ground arith in
      rw (low, read_in f (slot_offset c slot) header_size k) refl

  pub verify_lem :
      (c : FirmwareCache) (f : F) (slot : ℕ)
      → slot < 2
      → slot_offset c slot + header_reserved + (stored_header byte c f slot).size ≤ b.total_size
      → verify m c f slot ≡ is_valid byte c f slot (stored_header byte c f slot)
  unfolding verify Crc32.compute
  verify_lem c f slot h k =
      let hdr = stored_header byte c f slot in
      let low : ltb 1 slot ≡ false = ground arith in
      let body : add_u32 (slot_offset c slot) header_reserved
          ≡ slot_offset c slot + header_reserved =
        omega arith in
      let sum =
        verify_loop_lem (hdr.size / verify_chunk + 1) f Crc32.initial hdr.size
          (slot_offset c slot + header_reserved) (omega arith) k in
      let fuel : hdr.size / verify_chunk + 2 ≡ suc (hdr.size / verify_chunk + 1) = omega arith in
      rw (get_header_lem c f slot h (omega arith), low, body, fuel, sum) (ground arith)
