-- ===== src/Firmware/Tests.antt =====
-- Runs of the firmware cache over the memory backend, and its theorems at such runs.
use takt_os.Base.{ℕ, ◌≤◌, ◌<◌, ◌≡◌, refl, [], ◌∷◌, true, false, get_or, if◌then◌else◌, ◌==◌, arith}
use takt_os.Base.Int.{pos}
use takt_os.Crc32
use takt_os.Storage.Backend.{bytes_at}
use takt_os.Storage.Memory.{Memory, cell, mem_backend, mem_laws, mem-Reliable, mem_manager}
use takt_os.Firmware.{FirmwareCache, final_header, write_chunk, finalize_write}
use takt_os.Firmware.Verify.{stored_header}
use takt_os.Firmware.Update.{IsWriting, chunk_written, write_chunk-IsWriting}
use takt_os.Firmware.Finalize.{finalize_write_lem, closed}
use takt_os.Firmware.Hazards.{write_chunk_overruns}

-- Slots of 32 KiB at the start and in the middle; slot 0 is active.
abbrev idle : FirmwareCache
idle = record {
  slot_a_offset = 0;
  slot_b_offset = 32768;
  slot_size = 32768;
  active_slot = 0;
  write_offset = 0;
  write_crc = 0;
  write_image_size = 0;
  write_version = 0;
  writing = false;
}

abbrev zeros : Memory
zeros = λ _. 0

-- A flash whose first slot holds the header of an empty image.
abbrev holding : Memory
holding a =
    get_or
      (84 ∷ 75 ∷ 65 ∷ 84 ∷ 0 ∷ 0 ∷ 0 ∷ 0 ∷ 0 ∷ 0 ∷ 0 ∷ 0 ∷ 0 ∷ 0 ∷ 0 ∷ 0 ∷ 0 ∷ 0 ∷ 0 ∷ 0 ∷ 0 ∷ 1
        ∷ [])
      a 0

-- Two bytes of an update to slot 1 are stored.
abbrev midway : FirmwareCache
midway = record idle {
  writing = true;
  write_offset = 4098;
  write_crc = Crc32.update Crc32.initial (5 ∷ 6 ∷ []);
  write_image_size = 2;
  write_version = 1;
}

abbrev two_bytes : Memory
two_bytes a = if a == 36864 then 5 else if a == 36865 then 6 else 0

midway-IsWriting : IsWriting cell midway two_bytes (5 ∷ 6 ∷ [])
midway-IsWriting = record { writes = refl; offset_at = refl; crc_of = refl; stored = refl }

abbrev started : FirmwareCache
started = record midway { write_offset = 4096; write_crc = Crc32.initial }

started-IsWriting : IsWriting cell started zeros []
unfolding Crc32.update
started-IsWriting = record { writes = refl; offset_at = refl; crc_of = refl; stored = refl }

write_chunk-IsWriting_example :
    let (n, c', f') = write_chunk mem_manager started zeros (5 ∷ 6 ∷ []) in
    (n ≡ pos 2)
    × (c' ≡ chunk_written started (5 ∷ 6 ∷ []))
    × IsWriting cell c' f' (5 ∷ 6 ∷ [])
    × ((a : ℕ) → a < 36864 → f' a ≡ 0)
    × ((a : ℕ) → 40960 ≤ a → f' a ≡ 0)
write_chunk-IsWriting_example =
    write_chunk-IsWriting mem_manager mem_backend cell mem_laws mem-Reliable refl (omega arith) refl
      refl started zeros [] (5 ∷ 6 ∷ []) started-IsWriting refl refl (omega arith) (omega arith)

finalize_write_lem_example :
    let (ok, c', f') = finalize_write mem_manager midway two_bytes in
    (ok ≡ true)
    × (c' ≡ closed midway)
    × (stored_header cell c' f' 1 ≡ final_header midway)
    × (bytes_at cell f' 36864 2 ≡ 5 ∷ 6 ∷ [])
    × ((a : ℕ) → a < 32768 → f' a ≡ two_bytes a)
    × ((a : ℕ) → 36864 ≤ a → f' a ≡ two_bytes a)
finalize_write_lem_example =
    finalize_write_lem mem_manager mem_backend cell mem_laws mem-Reliable refl (omega arith) refl
      refl midway two_bytes (5 ∷ 6 ∷ []) midway-IsWriting refl refl (omega arith) (omega arith)
      (omega arith)

-- A slot that is full.
abbrev full_slot : FirmwareCache
full_slot = record midway { slot_size = 4098 }

full_slot-IsWriting : IsWriting cell full_slot two_bytes (5 ∷ 6 ∷ [])
full_slot-IsWriting = record { writes = refl; offset_at = refl; crc_of = refl; stored = refl }

write_chunk_overruns_example :
    let (n, c', f') = write_chunk mem_manager full_slot two_bytes (7 ∷ []) in
    (n ≡ pos 1) × (f' 36866 ≡ 7)
write_chunk_overruns_example =
    write_chunk_overruns mem_manager mem_backend cell mem_laws mem-Reliable refl (omega arith) refl
      refl full_slot two_bytes (5 ∷ 6 ∷ []) (7 ∷ []) 36866 full_slot-IsWriting (omega arith)
      (omega arith) (omega arith) (omega arith) (omega arith)
