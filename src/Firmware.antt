-- ===== src/Firmware.antt =====
-- kernel/include/takt/firmware_cache.hpp and kernel/src/firmware_cache.cpp: two firmware slots in
-- flash, written through the storage manager and checked by a CRC-32. The build is that of the host:
-- without the ESP-IDF calls, which the code uses only with TAKT_ESP32.
-- A function takes the cache and the flash, and returns those that it changes behind its result.
pub mod Header
pub mod Verify
pub mod Update
pub mod Finalize
pub mod Activate
pub mod Session
pub mod Hazards
pub mod Refused
mod Tests
use takt_os.Base.{
  ℕ, zero, suc, ◌+◌, ◌-◌, ◌*◌, ◌/◌, ◌%◌, ◌^◌, min, bit_and, bit_or, List, [], ◌∷◌, ◌++◌, Option,
  none, some, Bool, true, false, not, ◌&&◌, ◌||◌, ltb, leb, ◌==◌, if◌then◌else◌, length, get_or,
}
use takt_os.Base.Int.{ℤ, pos, minus_one, as_int, is_negative, eq_ℤ}
use takt_os.Crc32
use takt_os.Storage
use takt_os.Storage.{StorageManager}

abbrev pub firmware_magic : ℕ
firmware_magic = 0x54414B54

abbrev pub verify_chunk : ℕ
verify_chunk = 4096

-- One flash sector for the header.
abbrev pub header_reserved : ℕ
header_reserved = 4096

pub record FirmwareHeader : Type 0 where
  pub magic : ℕ
  pub version : ℕ
  pub size : ℕ
  pub crc32 : ℕ
  pub timestamp : ℕ
  pub slot : ℕ
  pub flags : ℕ
  pub reserved0 : ℕ
  pub reserved1 : ℕ

abbrev pub empty_header : FirmwareHeader
empty_header = record {
  magic = 0;
  version = 0;
  size = 0;
  crc32 = 0;
  timestamp = 0;
  slot = 0;
  flags = 0;
  reserved0 = 0;
  reserved1 = 0;
}

abbrev pub header_size : ℕ
header_size = 24

-- A uint32_t in memory, lowest byte first.
unfoldable pub le32 : ℕ → List ℕ
le32 w = w % 256 ∷ (w / 256 % 256) ∷ (w / 2 ^ 16 % 256) ∷ (w / 2 ^ 24 % 256) ∷ []

-- The object representation of a FirmwareHeader.
pub header_bytes : FirmwareHeader → List ℕ
unfolding le32
header_bytes h =
    le32 h.magic
    ++ (le32 h.version
        ++ (le32 h.size
            ++ (le32 h.crc32
                ++ (le32 h.timestamp ++ (h.slot ∷ h.flags ∷ h.reserved0 ∷ h.reserved1 ∷ [])))))

-- The uint32_t at place `i` of a buffer.
abbrev pub word_at : List ℕ → ℕ → ℕ
word_at bytes i =
    get_or bytes i 0
    + get_or bytes (i + 1) 0 * 256
    + get_or bytes (i + 2) 0 * 2 ^ 16
    + get_or bytes (i + 3) 0 * 2 ^ 24

pub parse_header : List ℕ → FirmwareHeader
parse_header bytes = record {
  magic = word_at bytes 0;
  version = word_at bytes 4;
  size = word_at bytes 8;
  crc32 = word_at bytes 12;
  timestamp = word_at bytes 16;
  slot = get_or bytes 20 0;
  flags = get_or bytes 21 0;
  reserved0 = get_or bytes 22 0;
  reserved1 = get_or bytes 23 0;
}

pub record FirmwareCache : Type 0 where
  pub slot_a_offset : ℕ
  pub slot_b_offset : ℕ
  pub slot_size : ℕ
  pub active_slot : ℕ
  pub write_offset : ℕ
  pub write_crc : ℕ
  pub write_image_size : ℕ
  pub write_version : ℕ
  pub writing : Bool

-- slotOffset_[slot], for a slot of 0 or 1.
abbrev pub slot_offset : FirmwareCache → ℕ → ℕ
slot_offset c slot = if slot == 0 then c.slot_a_offset else c.slot_b_offset

abbrev pub inactive_slot : FirmwareCache → ℕ
inactive_slot c = if c.active_slot == 0 then 1 else 0

-- Addition of uint32_t.
abbrev pub add_u32 : ℕ → ℕ → ℕ
add_u32 a b = (a + b) % 2 ^ 32

-- The end of `verify`: the loop did not fail, and its checksum is the expected one.
abbrev pub sum_is : Option ℕ → ℕ → Bool
sum_is none expected = false
sum_is (some crc) expected = Crc32.finalize crc == expected

-- `slotSize_ - kHeaderReserved` is a uint32_t.
pub begin_write : FirmwareCache → ℕ → ℕ → Bool × FirmwareCache
begin_write c image_size version =
    if ltb ((c.slot_size + 2 ^ 32 - header_reserved) % 2 ^ 32) image_size then (false, c) else (
      true,
      record c {
        write_offset = header_reserved;
        write_crc = Crc32.initial;
        write_image_size = image_size;
        write_version = version;
        writing = true;
      },
    )

-- The header that `finalizeWrite` stores.
abbrev pub final_header : FirmwareCache → FirmwareHeader
final_header c = record empty_header {
  magic = firmware_magic;
  version = c.write_version;
  size = c.write_image_size;
  slot = inactive_slot c;
  crc32 = Crc32.finalize c.write_crc;
  flags = 1;
}

module _ {F : Type 0} (m : StorageManager F) where
  -- `true` and the header that was read, if its magic is right. The header is the cleared one where
  -- the read fails; callers use it then only to test it.
  pub get_header : FirmwareCache → F → ℕ → Bool × FirmwareHeader
  get_header c f slot =
      let r = Storage.read m f (slot_offset c slot) header_size in
      let h = parse_header r.1 in
      if ltb 1 slot
      then (false, empty_header)
      else if eq_ℤ r.0 (as_int header_size)
      then (h.magic == firmware_magic, h)
      else (false, empty_header)

  -- The loop of `verify`; `none` is a failed read.
  pub verify_loop : ℕ → F → ℕ → ℕ → ℕ → Option ℕ
  verify_loop zero f crc remaining offset = none
  verify_loop (suc fuel) f crc remaining offset =
      let chunk = if ltb verify_chunk remaining then verify_chunk else remaining in
      let r = Storage.read m f offset chunk in
      let rest =
        verify_loop fuel f (Crc32.update crc r.1) (remaining - chunk) (add_u32 offset chunk) in
      let step = if eq_ℤ r.0 (as_int chunk) then rest else none in
      if remaining == 0 then some crc else step

  -- A chunk has 4096 bytes but for the last, so the loop has at most `size / 4096 + 1` rounds and
  -- the test that ends it.
  pub verify : FirmwareCache → F → ℕ → Bool
  verify c f slot =
      let (ok, h) = get_header c f slot in
      let body = add_u32 (slot_offset c slot) header_reserved in
      let sum = verify_loop (h.size / verify_chunk + 2) f Crc32.initial h.size body in
      if ltb 1 slot
      then false
      else if not ok
      then false
      else if not (h.magic == firmware_magic) || (bit_and h.flags 1 == 0)
      then false
      else sum_is sum h.crc32

  pub init : FirmwareCache → F → ℕ → ℕ → ℕ → Bool × FirmwareCache
  init c f slot_a slot_b size =
      let c' = record c { slot_a_offset = slot_a; slot_b_offset = slot_b; slot_size = size } in
      let (found_a, hdr_a) = get_header c' f 0 in
      let (found_b, hdr_b) = get_header c' f 1 in
      let valid_a = found_a && not (bit_and hdr_a.flags 1 == 0) in
      let valid_b = found_b && not (bit_and hdr_b.flags 1 == 0) in
      (true, record c' { active_slot = if valid_a then 0 else if valid_b then 1 else 0 })

  pub write_chunk : FirmwareCache → F → List ℕ → ℤ × FirmwareCache × F
  write_chunk c f chunk =
      let offset = add_u32 (slot_offset c (inactive_slot c)) c.write_offset in
      let r = Storage.write m f offset chunk in
      if not c.writing
      then (minus_one, c, f)
      else if is_negative r.0
      then (minus_one, c, r.1)
      else (
        as_int (length chunk),
        record c {
          write_crc = Crc32.update c.write_crc chunk;
          write_offset = (c.write_offset + length chunk) % 2 ^ 32;
        },
        r.1,
      )

  pub finalize_write : FirmwareCache → F → Bool × FirmwareCache × F
  finalize_write c f =
      let slot = inactive_slot c in
      let r = Storage.write m f (slot_offset c slot) (header_bytes (final_header c)) in
      let c' = record c { writing = false } in
      if not c.writing then (false, c, f) else (verify c' r.1 slot, c', r.1)

  pub activate_slot : FirmwareCache → F → ℕ → Bool × FirmwareCache × F
  activate_slot c f slot =
      let h = (get_header c f slot).1 in
      let hdr = record h { flags = bit_or h.flags 2 } in
      let r = Storage.write m f (slot_offset c slot) (header_bytes hdr) in
      if ltb 1 slot || not (verify c f slot)
      then (false, c, f)
      else (true, record c { active_slot = slot }, r.1)

  pub rollback : FirmwareCache → F → Bool × FirmwareCache × F
  rollback c f =
      let prev = inactive_slot c in
      if not (verify c f prev) then (false, c, f) else activate_slot c f prev
