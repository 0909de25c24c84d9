-- ===== src/Cache/Tests.antt =====
-- Runs of the cache over the memory backend, and its theorems at such runs.
use takt_os.Base.{◌≡◌, refl, [], ◌∷◌, true, false, arith}
use takt_os.Base.Int.{pos, minus_one}
use takt_os.Storage.Memory.{Memory, cell, mem_backend, mem_laws, mem_manager}
use takt_os.Cache.{CacheManager, new_cache, lru_from, lru_index, read, write, flush}
use takt_os.Cache.Access.{read-write}
use takt_os.Cache.Flush.{flush_fails}

-- Lines of 16 bytes, none of them in use.
abbrev fresh_cache : CacheManager
fresh_cache = new_cache (λ _. 0) 1024 16

abbrev sevens : Memory
sevens = λ _. 7

-- Of three bytes at the end of a line, two fit.
read-write_example :
    let (n, c1, f1) = write mem_manager fresh_cache sevens 30 (1 ∷ 2 ∷ 3 ∷ []) in
    let (k, bytes, _, f2) = read mem_manager c1 f1 30 3 in
    (n ≡ pos 2) × (k ≡ pos 2) × (bytes ≡ 1 ∷ 2 ∷ []) × (f2 ≡ f1)
read-write_example =
    read-write mem_manager fresh_cache sevens 30 (1 ∷ 2 ∷ 3 ∷ []) (omega arith) (omega arith)

-- The second of two lines is dirty.
abbrev dirty_cache : CacheManager
dirty_cache = record fresh_cache {
  entries =
      (record { key = 0; size = 16; last_access = 2; dirty = false; valid = true })
      ∷ (record { key = 5; size = 16; last_access = 1; dirty = true; valid = true })
      ∷ [];
}

flush_fails_example :
    let (code, c1, _) = flush mem_manager dirty_cache sevens in
    (code ≡ minus_one) × (c1 ≡ dirty_cache)
flush_fails_example =
    flush_fails mem_manager mem_backend cell mem_laws refl dirty_cache sevens 1 (omega arith)
      (omega arith) (omega arith) refl refl

-- The line with the least time is the one to go.
lru_index_run : lru_index dirty_cache.entries ≡ 1
unfolding lru_index lru_from
lru_index_run = refl
