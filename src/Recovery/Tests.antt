-- ===== src/Recovery/Tests.antt =====
-- Runs of the recovery manager over the memory backend, and its theorems at such runs.
use takt_os.Base.{◌≡◌, refl, [], ◌∷◌, none, true, not, ◌&&◌, if◌then◌else◌, ◌==◌}
use takt_os.Crc32
use takt_os.Storage.Memory.{Memory, mem_manager}
use takt_os.Firmware.{inactive_slot}
use takt_os.Bootloader.{request_ota_boot, default_config}
use takt_os.Recovery.{DfuState, Device, Outside, new_recovery, finalize_dfu, run}
use takt_os.Recovery.Machine.{
  IsQuiet, with_state, finalized, is_finalized, activated, is_activated, finalize_dfu_lem,
  run_hangs,
}

-- Nobody listens.
abbrev silent : Outside Memory Unit
silent = record { publish = λ e p q s. s; progress = λ cb rx total state s. s }

silent-IsQuiet : IsQuiet silent
silent-IsQuiet = record {
  publish_lem = λ e p q s. refl;
  progress_lem = λ cb rx total state s. refl;
}

-- Two bytes of an update to slot 1 are stored.
abbrev midway : Device Memory
midway = record {
  recovery = record new_recovery { state = DfuState.receiving };
  cache = record {
    slot_a_offset = 0;
    slot_b_offset = 32768;
    slot_size = 32768;
    active_slot = 0;
    write_offset = 4098;
    write_crc = Crc32.update Crc32.initial (5 ∷ 6 ∷ []);
    write_image_size = 2;
    write_version = 1;
    writing = true;
  };
  flash = λ a. if a == 36864 then 5 else if a == 36865 then 6 else 0;
  rtc = default_config;
}

finalize_dfu_lem_example :
    let d = finalized mem_manager midway in
    ((finalize_dfu mem_manager silent (midway, tt)).0
      ≡ (is_finalized mem_manager midway && is_activated mem_manager d))
    × ((finalize_dfu mem_manager silent (midway, tt)).1 ≡ (
        if not (is_finalized mem_manager midway)
        then with_state d DfuState.failed
        else if not (is_activated mem_manager d)
        then with_state (activated mem_manager d) DfuState.failed
        else record (with_state (activated mem_manager d) DfuState.complete) {
          rtc = request_ota_boot midway.rtc (inactive_slot d.cache);
        }))
finalize_dfu_lem_example = finalize_dfu_lem mem_manager silent silent-IsQuiet (midway, tt)

run_hangs_example : run mem_manager silent 1000 (midway, tt) ≡ none
run_hangs_example = run_hangs mem_manager silent silent-IsQuiet 1000 (midway, tt)
