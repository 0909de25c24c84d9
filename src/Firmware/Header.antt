-- ===== src/Firmware/Header.antt =====
-- The header in memory: what is stored is what is read back.
use takt_os.Base.{ℕ, ◌+◌, ◌*◌, ◌/◌, ◌%◌, ◌^◌, ◌<◌, ◌≡◌, refl, length, arith}
use takt_os.Firmware.{FirmwareHeader, header_bytes, parse_header, header_size}

-- The fields fit their types.
pub record InRange (h : FirmwareHeader) : Type 0 where
  pub magic_in : h.magic < 2 ^ 32
  pub version_in : h.version < 2 ^ 32
  pub size_in : h.size < 2 ^ 32
  pub crc32_in : h.crc32 < 2 ^ 32
  pub timestamp_in : h.timestamp < 2 ^ 32

pub length-header_bytes : (h : FirmwareHeader) → length (header_bytes h) ≡ header_size
unfolding header_bytes
length-header_bytes h = refl

word_le32 :
    (w : ℕ)
    → w < 2 ^ 32
    → w % 256 + w / 256 % 256 * 256 + w / 2 ^ 16 % 256 * 2 ^ 16 + w / 2 ^ 24 % 256 * 2 ^ 24 ≡ w
word_le32 w h = omega arith

-- Reading a stored header, with fields that fit their C types, gives back every field.
pub parse_header-header_bytes : (h : FirmwareHeader) → InRange h → parse_header (header_bytes h) ≡ h
unfolding parse_header header_bytes
parse_header-header_bytes h v = λ i. record {
  magic = word_le32 h.magic v.magic_in i;
  version = word_le32 h.version v.version_in i;
  size = word_le32 h.size v.size_in i;
  crc32 = word_le32 h.crc32 v.crc32_in i;
  timestamp = word_le32 h.timestamp v.timestamp_in i;
  slot = h.slot;
  flags = h.flags;
  reserved0 = h.reserved0;
  reserved1 = h.reserved1;
}
