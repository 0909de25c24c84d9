-- ===== src/Bootloader/Tests.antt =====
-- Runs of the boot loader on concrete inputs.
use takt_os.Base.{ℕ, ◌≡◌, refl, true, false, arith, none, []}
use takt_os.Storage.{StorageManager}
use takt_os.Firmware.{FirmwareCache}
use takt_os.Bootloader.{
  BootConfig, Outcome, default_config, load_boot_config, save_boot_config, mark_boot_successful,
  request_ota_boot, entry,
}
use takt_os.Bootloader.Config.{load_boot_config-save_boot_config}
use takt_os.Bootloader.Boot.{boots, entry-boots, entry-request_ota_boot}

-- A storage manager without a backend: no image verifies.
abbrev no_storage : StorageManager ℕ
no_storage = record { backend = none; regions = [] }

abbrev no_firmware : FirmwareCache
no_firmware = record {
  slot_a_offset = 0;
  slot_b_offset = 65536;
  slot_size = 65536;
  active_slot = 0;
  write_offset = 0;
  write_crc = 0xFFFFFFFF;
  write_image_size = 0;
  write_version = 0;
  writing = false;
}

abbrev used_config : BootConfig
used_config = record default_config { boot_count = 2; ota_slot = 1 }

load_boot_config-save_boot_config_example :
    load_boot_config (save_boot_config used_config) ≡ (true, used_config)
load_boot_config-save_boot_config_example = load_boot_config-save_boot_config used_config refl

entry-boots_example :
    (entry no_storage no_firmware 0
      (boots no_storage no_firmware 0 3 (mark_boot_successful used_config))).0
    ≡ Outcome.enter_recovery
entry-boots_example = entry-boots no_storage no_firmware 0 3 used_config

entry-request_ota_boot_example :
    (entry no_storage no_firmware 0 (request_ota_boot used_config 1)).0 ≡ Outcome.jump_to_firmware 0
unfolding load_boot_config
entry-request_ota_boot_example =
    entry-request_ota_boot no_storage no_firmware 0 used_config 1 (omega arith)
