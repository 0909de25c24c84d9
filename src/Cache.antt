-- ===== src/Cache.antt =====
-- kernel/include/takt/cache_manager.hpp and kernel/src/cache_manager.cpp: the write-back cache over
-- the storage manager.
-- The memory behind `pool_` is a function from addresses, of which the code checks none: `poolSize_`
-- is stored and not read. A division by a line size of 0, which C++ leaves undefined, yields 0 here.
pub mod Lines
pub mod Allocate
pub mod Access
pub mod Flush
mod Tests
use takt_os.Base.{
  ℕ, zero, suc, ◌+◌, ◌-◌, ◌*◌, ◌/◌, ◌%◌, ◌^◌, min, List, [], ◌∷◌, ◌++◌, Option, none, some, Bool,
  true, false, not, ◌&&◌, ltb, ◌==◌, length, get_or, set, take, if◌then◌else◌,
}
use takt_os.Base.Int.{ℤ, pos, minus_one, as_int, is_zero}
use takt_os.Storage
use takt_os.Storage.{StorageManager}
use takt_os.Storage.Backend.{bytes_at, within}

-- CacheEntry.
pub record CacheEntry : Type 0 where
  pub key : ℕ
  pub size : ℕ
  pub last_access : ℕ
  pub dirty : Bool
  pub valid : Bool

-- `entries` are those below entryCount_.
pub record CacheManager : Type 0 where
  pub pool : ℕ → ℕ
  pub pool_size : ℕ
  pub line_size : ℕ
  pub hits : ℕ
  pub misses : ℕ
  pub entries : List CacheEntry

-- The constructor.
abbrev pub new_cache : (ℕ → ℕ) → ℕ → ℕ → CacheManager
new_cache pool pool_size line_size = record {
  pool = pool;
  pool_size = pool_size;
  line_size = line_size;
  hits = 0;
  misses = 0;
  entries = [];
}

abbrev pub max_lines : ℕ
max_lines = 64

-- CacheEntry's default values.
abbrev pub empty_entry : CacheEntry
empty_entry = record { key = 0; size = 0; last_access = 0; dirty = false; valid = false }

abbrev pub pool_byte : (ℕ → ℕ) → ℕ → ℕ
pool_byte pool a = pool a

-- memcpy of a buffer into the pool.
abbrev pub put : (ℕ → ℕ) → ℕ → List ℕ → ℕ → ℕ
put pool at buf a = if within at (length buf) a then get_or buf (a - at) 0 else pool a

-- `flashOffset / static_cast<uint32_t>(lineSize_)`.
abbrev pub line_key : CacheManager → ℕ → ℕ
line_key c offset = offset / (c.line_size % 2 ^ 32)

abbrev pub next : Option ℕ → Option ℕ
next none = none
next (some i) = some (suc i)

-- The first valid entry with a key.
unfoldable pub find_index : ℕ → List CacheEntry → Option ℕ
find_index key [] = none
find_index key (e ∷ es) =
    let rest = next (find_index key es) in if e.valid && (e.key == key) then some 0 else rest

abbrev pub set_entry : CacheManager → ℕ → CacheEntry → CacheManager
set_entry c i e = record c { entries = set c.entries i e }

abbrev pub entry_at : CacheManager → ℕ → CacheEntry
entry_at c i = get_or c.entries i empty_entry

-- A hit on line `i`: `++hits_`, and the entry's time.
abbrev pub touched : CacheManager → ℕ → CacheManager
touched c i =
    let hits = (c.hits + 1) % 2 ^ 32 in
    record c {
      hits = hits;
      entries =
          set c.entries i (record (entry_at c i) { last_access = (hits + c.misses) % 2 ^ 32 });
    }

-- The line's index, if it is found.
unfoldable pub find_line : CacheManager → ℕ → Option ℕ × CacheManager
find_line c offset = elim (find_index (line_key c offset) c.entries) [
  | none ↦ (none, record c { misses = (c.misses + 1) % 2 ^ 32 })
  | some i ↦ (some i, touched c i)
]

-- `{lineKey, static_cast<uint32_t>(lineSize_), 0, false, true}`.
abbrev pub fresh_entry : CacheManager → ℕ → CacheEntry
fresh_entry c offset = record {
  key = line_key c offset;
  size = c.line_size % 2 ^ 32;
  last_access = 0;
  dirty = false;
  valid = true;
}

-- The loop over the entries from index `i` on, for the least time; `best` has the time `access`.
unfoldable pub lru_from : ℕ → ℕ → ℕ → List CacheEntry → ℕ
lru_from best access i [] = best
lru_from best access i (e ∷ es) =
    let found = ltb e.last_access access in
    lru_from (if found then i else best) (if found then e.last_access else access) (i + 1) es

unfoldable pub lru_index : List CacheEntry → ℕ
lru_index [] = 0
lru_index (e ∷ es) = lru_from 0 e.last_access 1 es

-- `std::min(len, lineSize_ - offsetInLine)`.
abbrev pub copy_len : CacheManager → ℕ → ℕ → ℕ
copy_len c offset len = min len (c.line_size - offset % c.line_size)

module _ {F : Type 0} (m : StorageManager F) where
  -- The write of line `i` to its place in the flash.
  abbrev pub write_line : CacheManager → ℕ → F → ℤ × F
  write_line c i f =
      let line_start = (entry_at c i).key * (c.line_size % 2 ^ 32) % 2 ^ 32 in
      Storage.write m f line_start (bytes_at pool_byte c.pool (i * c.line_size) c.line_size)

  -- The body of the loop of `flush` for line `i`; false where the function returns -1.
  unfoldable pub flush_line : CacheManager → ℕ → F → Bool × CacheManager × F
  flush_line c i f =
      let e = entry_at c i in
      let r = write_line c i f in
      if e.valid && e.dirty
      then if is_zero r.0
        then (true, set_entry c i (record e { dirty = false }), r.1)
        else (false, c, r.1)
      else (true, c, f)

  -- The loop from line `i` on, for `n` lines.
  unfoldable pub flush_lines : ℕ → ℕ → CacheManager → F → ℤ × CacheManager × F
  flush_lines zero i c f = (pos 0, c, f)
  flush_lines (suc n) i c f =
      let (ok, c1, f1) = flush_line c i f in
      let rest = flush_lines n (i + 1) c1 f1 in if ok then rest else (minus_one, c1, f1)

  unfoldable pub flush : CacheManager → F → ℤ × CacheManager × F
  flush c f = flush_lines (length c.entries) 0 c f

  -- The new line's index. What `flush` returns is dropped.
  unfoldable pub allocate_line : CacheManager → F → ℕ → ℕ × CacheManager × F
  allocate_line c f offset =
      let i = lru_index c.entries in
      let (_, c1, f1) = flush c f in
      if ltb (length c.entries) max_lines
      then (length c.entries, record c { entries = c.entries ++ (fresh_entry c offset ∷ []) }, f)
      else if (entry_at c i).dirty
      then (i, set_entry c1 i (fresh_entry c1 offset), f1)
      else (i, set_entry c i (fresh_entry c offset), f)

  -- The branch of `read` without a line; false where the function returns -1.
  unfoldable pub load_line : CacheManager → F → ℕ → Bool × ℕ × CacheManager × F
  load_line c f offset =
      let (i, c1, f1) = allocate_line c f offset in
      let line_start = (entry_at c1 i).key * (c1.line_size % 2 ^ 32) % 2 ^ 32 in
      let r = Storage.read m f1 line_start c1.line_size in
      (is_zero r.0, i, record c1 { pool = put c1.pool (i * c1.line_size) r.1 }, f1)

  -- The line that `read` uses; false where the function returns -1.
  unfoldable pub line_to_read : CacheManager → F → ℕ → Bool × ℕ × CacheManager × F
  line_to_read c f offset =
      let (found, c1) = find_line c offset in
      elim found [ none ↦ load_line c1 f offset | some i ↦ (true, i, c1, f) ]

  -- The return value, the bytes copied to `buf`, the cache and the flash.
  unfoldable pub read : CacheManager → F → ℕ → ℕ → ℤ × List ℕ × CacheManager × F
  read c f offset len =
      let (ok, i, c1, f1) = line_to_read c f offset in
      let n = copy_len c1 offset len in
      if not ok then (minus_one, [], c1, f1) else (
        as_int n,
        bytes_at pool_byte c1.pool (i * c1.line_size + offset % c1.line_size) n,
        c1,
        f1,
      )

  -- The line that `write` uses.
  unfoldable pub line_for : CacheManager → F → ℕ → ℕ × CacheManager × F
  line_for c f offset =
      let (found, c1) = find_line c offset in
      elim found [ none ↦ allocate_line c1 f offset | some i ↦ (i, c1, f) ]

  unfoldable pub write : CacheManager → F → ℕ → List ℕ → ℤ × CacheManager × F
  write c f offset buf =
      let (i, c1, f1) = line_for c f offset in
      let n = copy_len c1 offset (length buf) in
      let pool = put c1.pool (i * c1.line_size + offset % c1.line_size) (take n buf) in
      (
        as_int n,
        record (set_entry c1 i (record (entry_at c1 i) { dirty = true })) { pool = pool },
        f1,
      )

pub invalidate : CacheManager → CacheManager
invalidate c = record c { entries = []; hits = 0; misses = 0 }
