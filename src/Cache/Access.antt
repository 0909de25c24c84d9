-- ===== src/Cache/Access.antt =====
-- What a read of the cache yields: behind a write, and behind a miss.
use takt_os.Base.{
  ℕ, zero, suc, ◌+◌, ◌-◌, ◌*◌, ◌/◌, ◌%◌, ◌^◌, ◌<◌, ◌≤◌, ◌≡◌, min, refl, ap, sym, ◌∙◌, List, [], ◌∷◌,
  ◌++◌, Option, none, some, true, false, length, length-take, get_or, take, arith, ltb, leb, ◌==◌,
}
use takt_os.Base.Int.{pos, minus_one, as_int, as_int_small}
use native.Mathlib.Nat.{div-add-mod', mod-lt}
use takt_os.Storage.{FlashBackend, StorageManager}
use takt_os.Storage.Backend.{FlashLaws, Reliable, bytes_at}
use takt_os.Storage.Read.{bytes_at-eq, length-bytes_at, read_lem}
use takt_os.Cache.{
  CacheEntry, CacheManager, max_lines, empty_entry, put, pool_byte, line_key, find_index, touched,
  fresh_entry, set_entry, entry_at, allocate_line, load_line, line_to_read, line_for, copy_len,
  read, write,
}
use takt_os.Cache.Allocate.{line_for-found}
use takt_os.Cache.Lines.{find_index-set, find_index-push, find_line_hit, find_line_miss}

-- What was put into the pool is read back.
put_lem :
    (pool : ℕ → ℕ) (at : ℕ) (buf : List ℕ) (i : ℕ)
    → i < length buf
    → put pool at buf (at + i) ≡ get_or buf i 0
put_lem pool at buf i h =
    let e : at + i - at ≡ i = omega arith in
    let low : leb at (at + i) ≡ true = ground arith in
    let high : ltb (at + i) (at + length buf) ≡ true = ground arith in rw (low, high, e) refl

bytes_at-put :
    (pool : ℕ → ℕ) (at : ℕ) (buf : List ℕ)
    → bytes_at pool_byte (put pool at buf) at (length buf) ≡ buf
bytes_at-put pool at buf =
    bytes_at-eq pool_byte (put pool at buf) at buf (λ i h. put_lem pool at buf i h)

module _ {F : Type 0} (m : StorageManager F) where
  line_to_read_hit :
      (c : CacheManager) (f : F) (offset i : ℕ)
      → find_index (line_key c offset) c.entries ≡ some i
      → line_to_read m c f offset ≡ (true, i, touched c i, f)
  unfolding line_to_read
  line_to_read_hit c f offset i hit =
      let e = find_line_hit c offset i hit in
      rw (line_to_read, e) (ap (λ (r : Option ℕ × CacheManager). (true, i, r.1, f)) e)

  line_to_read_miss :
      (c : CacheManager) (f : F) (offset : ℕ)
      → find_index (line_key c offset) c.entries ≡ none
      → line_to_read m c f offset
        ≡ load_line m (record c { misses = (c.misses + 1) % 2 ^ 32 }) f offset
  unfolding line_to_read
  line_to_read_miss c f offset miss =
      let e = find_line_miss c offset miss in
      rw (line_to_read, e) (ap (λ (r : Option ℕ × CacheManager). load_line m r.1 f offset) e)

  -- A read of a line that is in the cache.
  read_hit :
      (c : CacheManager) (f : F) (offset len i : ℕ)
      → find_index (line_key c offset) c.entries ≡ some i
      → read m c f offset len ≡ (
        as_int (copy_len c offset len),
        bytes_at pool_byte c.pool (i * c.line_size + offset % c.line_size) (copy_len c offset len),
        touched c i,
        f,
      )
  unfolding read
  read_hit c f offset len i hit = rw (line_to_read_hit c f offset i hit)

  -- What is written is read, whatever happens to the flash between the write and the read.
  pub read-write_later :
      (c : CacheManager) (f : F) (offset : ℕ) (buf : List ℕ) (later : F)
      → 0 < c.line_size
      → c.line_size < 2 ^ 31
      → let (n, c1, _) = write m c f offset buf in
        let (k, bytes, _, f2) = read m c1 later offset (length buf) in
        let len = copy_len c offset (length buf) in
        (n ≡ pos len) × (k ≡ pos len) × (bytes ≡ take len buf) × (f2 ≡ later)
  unfolding write
  read-write_later c f offset buf later some_bytes small =
      let (i, c1, f1) = line_for m c f offset in
      let (same, lt, found) = line_for-found m c f offset in
      let e : CacheEntry = record (entry_at c1 i) { dirty = true } in
      let size = length buf in
      let at = i * c1.line_size + offset % c1.line_size in
      let taken = take (copy_len c1 offset size) buf in
      let c2 : CacheManager = record (set_entry c1 i e) { pool = put c1.pool at taken } in
      let held : find_index (line_key c2 offset) c2.entries ≡ some i =
        find_index-set (line_key c1 offset) c1.entries i e refl refl ∙ found in
      let below : offset % c1.line_size < c1.line_size = mod-lt offset (omega (arith, same)) in
      let n : length taken ≡ copy_len c1 offset size =
        omega (arith, length-take (copy_len c1 offset size) buf) in
      let lens : copy_len c1 offset size ≡ copy_len c offset size =
        ap (λ k. min size (k - offset % k)) same in
      let code = as_int_small (copy_len c1 offset size) (omega (arith, same)) in
      let hit = read_hit c2 later offset size i held in
      rw hit (
        code ∙ ap pos lens,
        code ∙ ap pos lens,
        ap (bytes_at pool_byte c2.pool at) (sym n)
            ∙ bytes_at-put c1.pool at taken
            ∙ ap (λ k. take k buf) lens,
        refl,
      )

  -- A write to the cache returns the number of bytes that fit the line, and a read of as many bytes
  -- at the same offset yields them and leaves the flash alone, for lines of 1 to 2 ^ 31 - 1 bytes.
  pub read-write :
      (c : CacheManager) (f : F) (offset : ℕ) (buf : List ℕ)
      → 0 < c.line_size
      → c.line_size < 2 ^ 31
      → let (n, c1, f1) = write m c f offset buf in
        let (k, bytes, _, f2) = read m c1 f1 offset (length buf) in
        let len = copy_len c offset (length buf) in
        (n ≡ pos len) × (k ≡ pos len) × (bytes ≡ take len buf) × (f2 ≡ f1)
  read-write c f offset buf some_bytes small =
      read-write_later c f offset buf (write m c f offset buf).2 some_bytes small

-- A byte of a list of bytes of the flash.
get_or-bytes_at :
    {F : Type 0} (byte : F → ℕ → ℕ) (f : F) (offset n i : ℕ)
    → i < n
    → get_or (bytes_at byte f offset n) i 0 ≡ byte f (offset + i)
get_or-bytes_at byte f offset zero i h = elim h [ ]
get_or-bytes_at byte f offset (suc n) zero h = ap (byte f) (omega arith)
get_or-bytes_at byte f offset (suc n) (suc i) h =
    get_or-bytes_at byte f (offset + 1) n i (omega arith) ∙ ap (byte f) (omega arith)

get_or-push : (es : List CacheEntry) (e d : CacheEntry) → get_or (es ++ (e ∷ [])) (length es) d ≡ e
get_or-push [] e d = refl
get_or-push (x ∷ es) e d = get_or-push es e d

-- The start of a line that lies in the flash.
line_start_lem :
    (key size total : ℕ)
    → (key + 1) * size ≤ total
    → total < 2 ^ 31
    → (key * (size % 2 ^ 32) % 2 ^ 32 ≡ key * size) × (key * size + size ≤ total)
line_start_lem key size total fits small =
    let sum : (key + 1) * size ≡ key * size + size = omega arith in
    let whole : size % 2 ^ 32 ≡ size = omega (arith, sum) in
    (ap (λ n. key * n % 2 ^ 32) whole ∙ omega (arith, sum), omega (arith, sum))

-- The bytes of a line that was loaded.
loaded_bytes :
    {F : Type 0} (byte : F → ℕ → ℕ) (pool : ℕ → ℕ) (f : F) (start key size offset n : ℕ)
    → key * size + offset % size ≡ offset
    → offset % size + n ≤ size
    → bytes_at pool_byte
        (put pool start (bytes_at byte f (key * size) size))
        (start + offset % size)
        n
      ≡ bytes_at byte f offset n
loaded_bytes byte pool f start key size offset n e h =
    let line = bytes_at byte f (key * size) size in
    let long = length-bytes_at byte f (key * size) size in
    let data_long = length-bytes_at byte f offset n in
    ap (bytes_at pool_byte (put pool start line) (start + offset % size)) (sym data_long)
    ∙ bytes_at-eq pool_byte (put pool start line) (start + offset % size) (bytes_at byte f offset n)
        (λ i hi.
          ap (put pool start line) (omega arith)
          ∙ put_lem pool start line (offset % size + i) (omega (arith, long, data_long))
          ∙ get_or-bytes_at byte f (key * size) size (offset % size + i) (omega (arith, data_long))
          ∙ ap (byte f) (omega (arith, e))
          ∙ sym (get_or-bytes_at byte f offset n i (omega (arith, data_long))))

module _ {F : Type 0} (m : StorageManager F) (b : FlashBackend F) (byte : F → ℕ → ℕ)
    (laws : FlashLaws b byte) (reliable : Reliable b) (installed : m.backend ≡ some b)
    (small : b.total_size < 2 ^ 31) where
  load_line_lem :
      (c : CacheManager) (f : F) (offset : ℕ)
      → 0 < c.line_size
      → length c.entries < max_lines
      → (line_key c offset + 1) * c.line_size ≤ b.total_size
      → let key = line_key c offset in
        let i = length c.entries in
        load_line m c f offset ≡ (
          false,
          i,
          record c {
            entries = c.entries ++ (fresh_entry c offset ∷ []);
            pool = put c.pool (i * c.line_size) (bytes_at byte f (key * c.line_size) c.line_size);
          },
          f,
        )
  unfolding load_line allocate_line
  load_line_lem c f offset some_bytes room fits =
      let key = line_key c offset in
      let i = length c.entries in
      let (start, size) = line_start_lem key c.line_size b.total_size fits small in
      let t : ltb i max_lines ≡ true = ground arith in
      let found = get_or-push c.entries (fresh_entry c offset) empty_entry in
      let run =
        read_lem m b byte laws reliable installed (omega arith) f (key * c.line_size) c.line_size
          (omega (arith, size)) in
      let code = as_int_small c.line_size (omega (arith, size)) in
      let positive : (c.line_size == 0) ≡ false = ground arith in
      rw (t, found, start, run, code, positive) refl

  -- On a flash of less than 2 GB whose backend meets the flash laws and does not fail: a read at an
  -- offset of which the cache, of fewer than 64 lines, has no line, fails with -1 although the line
  -- is loaded, and leaves the flash alone; the same read again yields the bytes of the flash. The
  -- line is to have some bytes, and to lie in the flash.
  pub read_miss_lem :
      (c : CacheManager) (f : F) (offset len : ℕ)
      → 0 < c.line_size
      → find_index (line_key c offset) c.entries ≡ none
      → length c.entries < max_lines
      → (line_key c offset + 1) * c.line_size ≤ b.total_size
      → let (n, _, c1, f1) = read m c f offset len in
        let (k, bytes, _, f2) = read m c1 f1 offset len in
        let size = copy_len c offset len in
        (n ≡ minus_one)
        × (f1 ≡ f)
        × (k ≡ pos size)
        × (bytes ≡ bytes_at byte f offset size)
        × (f2 ≡ f)
  unfolding read
  read_miss_lem c f offset len some_bytes miss room fits =
      let key = line_key c offset in
      let i = length c.entries in
      let c0 : CacheManager = record c { misses = (c.misses + 1) % 2 ^ 32 } in
      let c1 : CacheManager = record c0 {
        entries = c.entries ++ (fresh_entry c offset ∷ []);
        pool = put c.pool (i * c.line_size) (bytes_at byte f (key * c.line_size) c.line_size);
      } in
      let missed : load_line m c0 f offset ≡ (false, i, c1, f) =
        load_line_lem c0 f offset some_bytes room fits in
      let first : read m c f offset len ≡ (minus_one, [], c1, f) =
        rw (line_to_read_miss m c f offset miss, missed) refl in
      let held : find_index key c1.entries ≡ some i =
        find_index-push key c.entries (fresh_entry c offset) miss refl refl in
      let below : offset % c.line_size < c.line_size = mod-lt offset some_bytes in
      let (_, inside) = line_start_lem key c.line_size b.total_size fits small in
      let narrow : c.line_size % 2 ^ 32 ≡ c.line_size = omega (arith, inside) in
      let whole : key * c.line_size + offset % c.line_size ≡ offset =
        ap (λ n. offset / n * c.line_size + offset % c.line_size) narrow
        ∙ div-add-mod' offset c.line_size in
      rw (first, read_hit m c1 f offset len i held)
        (
          refl,
          refl,
          as_int_small (copy_len c offset len) (omega (arith, inside)),
          loaded_bytes byte c.pool f (i * c.line_size) key c.line_size offset
              (copy_len c offset len) whole (omega arith),
          refl,
        )
