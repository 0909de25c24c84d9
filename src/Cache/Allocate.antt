-- ===== src/Cache/Allocate.antt =====
-- What `flush` and `allocateLine` keep of the lines, and the line that they find.
use takt_os.Base.{
  ℕ, zero, suc, ◌+◌, ◌%◌, ◌^◌, ◌<◌, ◌≡◌, ◌/◌, length-append, refl, ap, ◌∙◌, [], ◌∷◌, Option, none,
  some, false, ◌&&◌, ltb, length, set, arith, Bool-cases, Option-cases, inl, inr, length-set,
}
use takt_os.Storage.{StorageManager}
use takt_os.Base.Int.{is_zero}
use takt_os.Cache.{
  CacheManager, find_index, line_key, fresh_entry, lru_index, entry_at, write_line, flush_line,
  flush_lines, flush, allocate_line, line_for, max_lines, touched,
}
use takt_os.Cache.Lines.{
  find_index-set, find_index-put, find_index-push, lru_index-lt, touched-found, find_line_hit,
  find_line_miss,
}

-- Two caches with the same pool and sizes, whose keys find the same lines.
pub record Similar (c d : CacheManager) : Type 0 where
  pub same_size : d.line_size ≡ c.line_size
  pub same_length : length d.entries ≡ length c.entries
  pub same_index : (key : ℕ) → find_index key d.entries ≡ find_index key c.entries

module _ {F : Type 0} (m : StorageManager F) where
  flush_line-Similar : (c : CacheManager) (i : ℕ) (f : F) → Similar c (flush_line m c i f).1
  unfolding flush_line
  flush_line-Similar c i f =
      let e = entry_at c i in
      let kept : Similar c c = record {
        same_size = refl;
        same_length = refl;
        same_index = λ key. refl;
      } in
      let cleaned : Similar c
          (record c { entries = set c.entries i (record e { dirty = false }) }) =
        record {
          same_size = refl;
          same_length = length-set c.entries i (record e { dirty = false });
          same_index = λ key. find_index-set key c.entries i (record e { dirty = false }) refl refl;
        } in
      elim (Bool-cases (e.valid && e.dirty)) [
        | inr t ↦ rw t kept
        | inl t ↦ elim (Bool-cases (is_zero (write_line m c i f).0)) [
          | inl ok ↦ rw (t, ok) cleaned
          | inr bad ↦ rw (t, bad) kept
        ]
      ]

  flush_lines-Similar : (n i : ℕ) (c : CacheManager) (f : F) → Similar c (flush_lines m n i c f).1
  unfolding flush_lines
  flush_lines-Similar zero i c f = record {
    same_size = refl;
    same_length = refl;
    same_index = λ key. refl;
  }
  flush_lines-Similar (suc n) i c f =
      let (ok, c1, f1) = flush_line m c i f in
      let first = flush_line-Similar c i f in
      let rest = flush_lines-Similar n (i + 1) c1 f1 in
      elim (Bool-cases ok) [
        | inr bad ↦ rw bad first
        | inl good ↦ rw good (record {
          same_size = rest.same_size ∙ first.same_size;
          same_length = rest.same_length ∙ first.same_length;
          same_index = λ key. rest.same_index key ∙ first.same_index key;
        })
      ]

  pub flush-Similar : (c : CacheManager) (f : F) → Similar c (flush m c f).1
  unfolding flush
  flush-Similar c f = flush_lines-Similar (length c.entries) 0 c f

  -- The new line is the one that its key finds.
  pub allocate_line-found :
      (c : CacheManager) (f : F) (offset : ℕ)
      → find_index (line_key c offset) c.entries ≡ none
      → let (i, c1, _) = allocate_line m c f offset in
        (c1.line_size ≡ c.line_size)
        × (i < length c1.entries)
        × (find_index (line_key c1 offset) c1.entries ≡ some i)
  unfolding allocate_line
  allocate_line-found c f offset miss =
      let i = lru_index c.entries in
      let c1 = (flush m c f).1 in
      let same = flush-Similar c f in
      let key : line_key c1 offset ≡ line_key c offset =
        ap (λ n. offset / (n % 2 ^ 32)) same.same_size in
      elim (Bool-cases (ltb (length c.entries) max_lines)) [
        | inl t ↦ rw t (
          refl,
          omega (arith, length-append c.entries (fresh_entry c offset ∷ [])),
          find_index-push (line_key c offset) c.entries (fresh_entry c offset) miss refl refl,
        )
        | inr t ↦
            let lt : i < length c.entries = lru_index-lt c.entries (ground arith) in
            elim (Bool-cases (entry_at c i).dirty) [
              | inl d ↦
                  rw (t, d)
                    (
                      same.same_size,
                      omega (
                        arith,
                        lt,
                        length-set c1.entries i (fresh_entry c1 offset),
                        same.same_length,
                      ),
                      find_index-put (line_key c1 offset) c1.entries i (fresh_entry c1 offset)
                          (ap (λ k. find_index k c1.entries) key
                            ∙ same.same_index (line_key c offset)
                            ∙ miss)
                          (omega (arith, lt, same.same_length)) refl refl,
                    )
              | inr d ↦
                  rw (t, d)
                    (
                      refl,
                      omega (arith, lt, length-set c.entries i (fresh_entry c offset)),
                      find_index-put (line_key c offset) c.entries i (fresh_entry c offset) miss lt
                          refl refl,
                    )
            ]
      ]

  line_for_hit :
      (c : CacheManager) (f : F) (offset i : ℕ)
      → find_index (line_key c offset) c.entries ≡ some i
      → line_for m c f offset ≡ (i, touched c i, f)
  unfolding line_for
  line_for_hit c f offset i hit =
      let e = find_line_hit c offset i hit in
      rw (line_for, e) (ap (λ (r : Option ℕ × CacheManager). (i, r.1, f)) e)

  line_for_miss :
      (c : CacheManager) (f : F) (offset : ℕ)
      → find_index (line_key c offset) c.entries ≡ none
      → line_for m c f offset
        ≡ allocate_line m (record c { misses = (c.misses + 1) % 2 ^ 32 }) f offset
  unfolding line_for
  line_for_miss c f offset miss =
      let e = find_line_miss c offset miss in
      rw (line_for, e) (ap (λ (r : Option ℕ × CacheManager). allocate_line m r.1 f offset) e)

  pub line_for-found :
      (c : CacheManager) (f : F) (offset : ℕ)
      → let (i, c1, _) = line_for m c f offset in
        (c1.line_size ≡ c.line_size)
        × (i < length c1.entries)
        × (find_index (line_key c1 offset) c1.entries ≡ some i)
  line_for-found c f offset = elim (Option-cases (find_index (line_key c offset) c.entries)) [
    | inl miss ↦
        rw (line_for_miss c f offset miss)
          (allocate_line-found (record c { misses = (c.misses + 1) % 2 ^ 32 }) f offset miss)
    | inr (i, hit) ↦
        let (_, lt, again) = touched-found c offset i hit in
        rw (line_for_hit c f offset i hit) (refl, lt, again)
  ]
