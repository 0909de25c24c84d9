-- ===== src/Ota/Tests.antt =====
-- Runs of the update service over the memory backend, and its theorems at such runs.
use takt_os.Base.{ℕ, ◌<◌, ◌≡◌, refl, [], ◌∷◌, some, true, false, arith}
use takt_os.Base.Int.{pos}
use takt_os.Storage.Backend.{bytes_at}
use takt_os.Storage.Memory.{Memory, cell, mem_backend, mem_laws, mem-Reliable, mem_manager}
use takt_os.Firmware.{FirmwareCache, verify, write_chunk}
use takt_os.Crc32
use takt_os.Firmware.Update.{IsWriting, write_chunk-IsWriting}
use takt_os.Bootloader.{request_ota_boot, default_config}
use takt_os.Recovery.{DfuState, Device, Outside, new_recovery}
use takt_os.Ota.{OtaTransport, Services, ota_callback}
use takt_os.Ota.Progress.{IsApart}
use takt_os.Ota.Client.{update}
use takt_os.Ota.Update.{update_lem}

-- Nobody listens.
abbrev silent : Outside Memory (Services Unit)
silent = record { publish = λ e p q s. s; progress = λ cb rx total state s. s }

abbrev no_user : ℕ → ℕ → ℕ → Device Memory × Services Unit → Device Memory × Services Unit
no_user cb rx total s = s

silent-IsApart : IsApart mem_manager silent no_user
silent-IsApart = record {
  publish_lem = λ e p q s. refl;
  publish_ota = λ e p q s. refl;
  progress_lem = λ cb rx total state s. refl;
  progress_ota = λ cb rx total state s. refl;
  user_lem = λ cb rx total s. refl;
  user_ota = λ cb rx total s. refl;
}

-- Slots of 32 KiB at the start and in the middle; slot 0 is active.
abbrev idle_cache : FirmwareCache
idle_cache = record {
  slot_a_offset = 0;
  slot_b_offset = 32768;
  slot_size = 32768;
  active_slot = 0;
  write_offset = 0;
  write_crc = 0;
  write_image_size = 0;
  write_version = 0;
  writing = false;
}

abbrev idle : Device Memory × Services Unit
idle = (
  record { recovery = new_recovery; cache = idle_cache; flash = λ _. 0; rtc = default_config },
  record {
    ota = record {
      active = false;
      transport = OtaTransport.wifi;
      progress_cb = some 7;
      received = 0;
      total_size = 0;
    };
    rest = tt;
  },
)

update_lem_example :
    let (ok, d, w) =
      update mem_manager silent no_user OtaTransport.ble 1 ((5 ∷ 6 ∷ 7 ∷ []) ∷ []) idle in
    (ok ≡ true)
    × (d.recovery.state ≡ DfuState.complete)
    × (d.cache.active_slot ≡ 1)
    × (verify mem_manager d.cache d.flash 1 ≡ true)
    × (bytes_at cell d.flash 36864 3 ≡ 5 ∷ 6 ∷ 7 ∷ [])
    × (d.rtc ≡ request_ota_boot default_config 1)
    × (w.ota.active ≡ false)
    × ((a : ℕ) → a < 32768 → d.flash a ≡ 0)
update_lem_example =
    update_lem mem_manager mem_backend cell mem_laws mem-Reliable refl (omega arith) refl refl
      silent no_user silent-IsApart OtaTransport.ble 1 ((5 ∷ 6 ∷ 7 ∷ []) ∷ []) idle refl
      (omega arith) (omega arith) (omega arith) (omega arith) (omega arith) (omega arith)

-- An update to slot 1 waits for its chunk.
abbrev waiting : Device Memory × Services Unit
waiting = (
  record (idle.0) {
    recovery = record new_recovery {
      state = DfuState.awaiting_image;
      progress_cb = some ota_callback;
    };
    cache = record idle_cache {
      writing = true;
      write_offset = 4096;
      write_crc = Crc32.initial;
      write_image_size = 3;
    };
  },
  record (idle.1) { ota = record (idle.1.ota) { active = true; total_size = 3 } },
)

-- The flash and the cache behind the chunk.
abbrev written : FirmwareCache × Memory
written =
    let r = write_chunk mem_manager waiting.0.cache waiting.0.flash (5 ∷ 6 ∷ 7 ∷ []) in (r.1, r.2)

written_code :
    write_chunk mem_manager waiting.0.cache waiting.0.flash (5 ∷ 6 ∷ 7 ∷ [])
    ≡ (pos 3, written.0, written.1)
unfolding Crc32.update
written_code =
    let fresh : IsWriting cell waiting.0.cache waiting.0.flash [] = record {
      writes = refl;
      offset_at = refl;
      crc_of = refl;
      stored = refl;
    } in
    let (n, _, _, _, _) =
      write_chunk-IsWriting mem_manager mem_backend cell mem_laws mem-Reliable refl (omega arith)
        refl refl waiting.0.cache waiting.0.flash [] (5 ∷ 6 ∷ 7 ∷ []) fresh refl refl (omega arith)
        (omega arith) in
    λ i. (n i, written.0, written.1)
