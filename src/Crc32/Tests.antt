-- ===== src/Crc32/Tests.antt =====
-- The checksum at known values, and the theorems at concrete messages.
use takt_os.Base.{◌≡◌, refl, [], ◌∷◌, ◌≢◌, arith}
use takt_os.Crc32.{
  compute, crc32_config, update, update_byte, table, entries_from, table_entry, repeat, table_step,
  initial, finalize,
}
use takt_os.Crc32.Linear.{compute-eq-crc32_config}
use takt_os.Crc32.Detect.{compute_detects}

-- The test KnownValue of tests/test_firmware_cache.cpp.
known_value : compute (49 ∷ 50 ∷ 51 ∷ 52 ∷ 53 ∷ 54 ∷ 55 ∷ 56 ∷ 57 ∷ []) ≡ 0xCBF43926
unfolding compute update update_byte table entries_from table_entry repeat table_step initial
    finalize
known_value = refl

compute-eq-crc32_config_example : compute (7 ∷ 255 ∷ []) ≡ crc32_config (7 ∷ 255 ∷ [])
compute-eq-crc32_config_example = compute-eq-crc32_config (7 ∷ 255 ∷ []) (omega arith)

compute_detects_example : compute (1 ∷ 2 ∷ 3 ∷ 4 ∷ []) ≢ compute (1 ∷ 2 ∷ 7 ∷ 4 ∷ [])
compute_detects_example =
    compute_detects (1 ∷ 2 ∷ []) 3 7 (4 ∷ []) (omega arith) (omega arith) (omega arith)
      (omega arith) (omega arith)
