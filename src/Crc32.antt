-- ===== src/Crc32.antt =====
-- kernel/src/crc32.cpp and kernel/include/takt/crc32.hpp: the table-driven CRC-32 that the firmware
-- slots and the stored entries are checked with, and Bootloader::crc32Config of
-- takt_boot/src/bootloader.cpp, which computes the same sum one bit at a time.
-- Bytes and words are native numbers. `initTable` runs on each call and fills the table once, so
-- the table is a constant here.
pub mod Linear
pub mod Detect
mod Tests
use takt_os.Base.{
  ℕ, zero, suc, ◌+◌, ◌/◌, List, [], ◌∷◌, bit_and, bit_xor, get_or, if◌then◌else◌, ◌==◌,
}

abbrev pub polynomial : ℕ
polynomial = 0xEDB88320

-- One round of the inner loop of `initTable`.
unfoldable pub table_step : ℕ → ℕ
table_step crc = if bit_and crc 1 == 1 then bit_xor (crc / 2) polynomial else crc / 2

unfoldable pub repeat : ℕ → (ℕ → ℕ) → ℕ → ℕ
repeat zero f x = x
repeat (suc n) f x = repeat n f (f x)

unfoldable pub table_entry : ℕ → ℕ
table_entry i = repeat 8 table_step i

-- The entries from `i` on, for `n` rounds of the outer loop.
unfoldable pub entries_from : ℕ → ℕ → List ℕ
entries_from zero i = []
entries_from (suc n) i = table_entry i ∷ entries_from n (i + 1)

unfoldable pub table : List ℕ
table = entries_from 256 0

unfoldable pub initial : ℕ
initial = 0xFFFFFFFF

unfoldable pub finalize : ℕ → ℕ
finalize crc = bit_xor crc 0xFFFFFFFF

-- The body of the loop of `update`.
unfoldable pub update_byte : ℕ → ℕ → ℕ
update_byte crc b = bit_xor (get_or table (bit_and (bit_xor crc b) 0xFF) 0) (crc / 256)

unfoldable pub update : ℕ → List ℕ → ℕ
update crc [] = crc
update crc (b ∷ bytes) = update (update_byte crc b) bytes

unfoldable pub compute : List ℕ → ℕ
compute bytes = finalize (update initial bytes)

-- Bootloader::crc32Config.
pub config_step : ℕ → ℕ
config_step crc = bit_xor (crc / 2) (if bit_and crc 1 == 1 then polynomial else 0)

pub config_byte : ℕ → ℕ → ℕ
config_byte crc b = repeat 8 config_step (bit_xor crc b)

pub config_update : ℕ → List ℕ → ℕ
config_update crc [] = crc
config_update crc (b ∷ bytes) = config_update (config_byte crc b) bytes

pub crc32_config : List ℕ → ℕ
crc32_config bytes = bit_xor (config_update 0xFFFFFFFF bytes) 0xFFFFFFFF
