-- ===== src/Bootloader.antt =====
-- takt_boot/include/takt/bootloader.hpp and takt_boot/src/bootloader.cpp: the boot configuration in
-- memory that survives a reset, and the choice of what to boot. The build is that of the host, so
-- the firmware is validated by the firmware cache.
-- `rtc` is the stored configuration. An entry ends in an `Outcome` in place of the jump.
pub mod Config
pub mod Boot
mod Tests
use takt_os.Base.{
  ℕ, ◌+◌, ◌%◌, ◌^◌, List, [], ◌∷◌, ◌++◌, Bool, true, false, not, ◌&&◌, ltb, ◌==◌, if◌then◌else◌,
}
use takt_os.Crc32.{crc32_config}
use takt_os.Storage.{StorageManager}
use takt_os.Firmware.{FirmwareCache, le32, verify}

pub data BootMode : Type 0 where
  normal recovery ota_pending factory_reset emergency : BootMode

-- The value of a BootMode.
abbrev pub mode_byte : BootMode → ℕ
mode_byte normal = 0
mode_byte recovery = 1
mode_byte ota_pending = 2
mode_byte factory_reset = 3
mode_byte emergency = 4

-- `mode` is the byte that is stored, which after a cold start need not be that of a mode; `padding` is
-- the byte that aligns `crc32`, which a copy takes along.
pub record BootConfig : Type 0 where
  pub magic : ℕ
  pub mode : ℕ
  pub boot_count : ℕ
  pub ota_slot : ℕ
  pub padding : ℕ
  pub crc32 : ℕ

abbrev pub boot_config_magic : ℕ
boot_config_magic = 0xB007C0DE

-- `config = {}` with the magic and the mode that `loadBootConfig` sets.
abbrev pub default_config : BootConfig
default_config = record {
  magic = boot_config_magic;
  mode = 0;
  boot_count = 0;
  ota_slot = 0;
  padding = 0;
  crc32 = 0;
}

-- The object representation of a BootConfig.
pub config_bytes : BootConfig → List ℕ
config_bytes c = le32 c.magic ++ (c.mode ∷ c.boot_count ∷ c.ota_slot ∷ c.padding ∷ le32 c.crc32)

-- The result, and the configuration that the caller gets.
pub load_boot_config : BootConfig → Bool × BootConfig
load_boot_config rtc =
    let config = record rtc { crc32 = 0 } in
    if not (rtc.magic == boot_config_magic)
    then (false, default_config)
    else (crc32_config (config_bytes config) == rtc.crc32, config)

pub save_boot_config : BootConfig → BootConfig
save_boot_config config =
    let cfg = record config { crc32 = 0 } in record cfg { crc32 = crc32_config (config_bytes cfg) }

pub mark_boot_successful : BootConfig → BootConfig
mark_boot_successful rtc =
    let config = (load_boot_config rtc).1 in
    save_boot_config (record config { boot_count = 0; mode = mode_byte normal })

pub request_ota_boot : BootConfig → ℕ → BootConfig
request_ota_boot rtc slot =
    let config = (load_boot_config rtc).1 in
    save_boot_config (record config { mode = mode_byte ota_pending; ota_slot = slot })

-- What an entry ends in. The factory reset erases the settings before it enters recovery.
pub data Outcome : Type 0 where
  jump_to_firmware : ℕ → Outcome
  enter_recovery erase_all_then_recovery enter_emergency : Outcome

-- The switch of `entry`.
abbrev pub outcome : BootMode → BootConfig → Outcome
outcome normal config = jump_to_firmware 0
outcome recovery config = enter_recovery
outcome factory_reset config = erase_all_then_recovery
outcome ota_pending config = jump_to_firmware (if config.ota_slot == 0 then 0 else 0)
outcome emergency config = enter_emergency

module _ {F : Type 0} (m : StorageManager F) (c : FirmwareCache) (f : F) where
  abbrev pub validate_firmware : ℕ → Bool
  validate_firmware slot = verify m c f slot

  pub determine_boot_mode : BootConfig → BootMode
  determine_boot_mode rtc =
      let config = (load_boot_config rtc).1 in
      if ltb 3 config.boot_count
      then recovery
      else if config.mode == mode_byte factory_reset
      then factory_reset
      else if config.mode == mode_byte ota_pending
      then ota_pending
      else if not (validate_firmware 0) && not (validate_firmware 1)
      then emergency
      else normal

  -- `bootCount` is a uint8_t.
  pub entry : BootConfig → Outcome × BootConfig
  entry rtc =
      let loaded = (load_boot_config rtc).1 in
      let config = record loaded { boot_count = (loaded.boot_count + 1) % 2 ^ 8 } in
      let rtc' = save_boot_config config in (outcome (determine_boot_mode rtc') config, rtc')
