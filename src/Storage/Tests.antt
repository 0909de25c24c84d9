-- ===== src/Storage/Tests.antt =====
-- Runs of the storage manager over the memory backend, and its theorems at such runs.
use takt_os.Base.{ℕ, ◌≤◌, ◌≡◌, refl, List, [], ◌∷◌, arith}
use takt_os.Base.Int.{ℤ, as_int}
use takt_os.Storage
use takt_os.Storage.{Region, StorageManager, erase_sectors, start_sector, end_sector, max_regions}
use takt_os.Storage.Memory.{
  Memory, cell, mem_backend, mem_laws, mem-Reliable, mem_manager, mem_size,
}
use takt_os.Storage.Write.{Written, write_lem, write_succeeds}

-- A memory of zeros.
abbrev zeros : Memory
zeros = λ _. 0

-- A write of two bytes, across the end of a sector.
abbrev after_write : ℤ × Memory
after_write = Storage.write mem_manager zeros 4095 (7 ∷ 8 ∷ [])

write_lem_example :
    (4097 ≤ mem_size)
    × (after_write.0 ≡ as_int 2)
    × Written cell 4096 zeros 4095 (7 ∷ 8 ∷ []) after_write.1
write_lem_example =
    write_lem mem_manager mem_backend cell mem_laws refl (omega arith) (omega arith) zeros 4095
      (7 ∷ 8 ∷ []) (omega arith) (omega arith)
      (write_succeeds mem_backend mem-Reliable (omega arith) mem_manager zeros 4095 16 (7 ∷ 8 ∷ [])
        refl (omega arith) (omega arith) (omega arith) (omega arith))

abbrev log_name : List ℕ
log_name = 108 ∷ 111 ∷ 103 ∷ []
