-- ===== src/Nvs/Esp/Entries.antt =====
-- Entries with short keys on the ESP32.
use takt_os.Base.{
  ℕ, zero, suc, ◌+◌, ◌-◌, ◌^◌, ◌<◌, ◌≤◌, ◌≡◌, ◌≢◌, refl, ap, ap₂, sym, ◌∙◌, List, [], ◌∷◌, ◌++◌,
  Option, some, Bool, true, false, length, length-append, length-take, length-replicate, take, drop,
  replicate, arith, All, ==_refl,
}
use mathlib.Core.List.{append-nil}
use takt_os.Base.Bits.{xor-lt}
use takt_os.Crc32
use takt_os.Crc32.Detect.{update-lt}
use takt_os.Base.Int.{pos, is_zero}
use takt_os.Nvs.{NvsManager, le_bytes, le_value, overwrite, compute_crc}
use takt_os.Nvs.Esp.{
  NvsApi, NvsEntry, entry_size, meta_suffix, meta_key, meta_of, entry_bytes, parse_entry,
  write_entry, read_entry,
}
use takt_os.Nvs.Esp.Keys.{longest_key}

-- What is relied on of the NVS: `value n name key` is the blob in a namespace, and `space n h` the
-- namespace of a handle.
pub record NvsLaws {N : Type 0} (api : NvsApi N) (value : N → List ℕ → List ℕ → Option (List ℕ))
    (space : N → ℕ → List ℕ) : Type 0 where
  pub open_space :
      (name : List ℕ) (writes : Bool) (n : N)
      → is_zero (api.nvs_open name writes n).0 ≡ true
      → let (_, h, n1) = api.nvs_open name writes n in space n1 h ≡ name
  pub open_value :
      (name : List ℕ) (writes : Bool) (n : N) → value (api.nvs_open name writes n).2 ≡ value n
  pub close_value : (h : ℕ) (n : N) → value (api.nvs_close h n) ≡ value n
  pub commit_value : (h : ℕ) (n : N) → value (api.commit h n).1 ≡ value n
  pub set_space :
      (h : ℕ) (key bytes : List ℕ) (n : N) → space (api.set_blob h key bytes n).1 h ≡ space n h
  pub set_value :
      (h : ℕ) (key bytes : List ℕ) (n : N)
      → is_zero (api.set_blob h key bytes n).0 ≡ true
      → value (api.set_blob h key bytes n).1 (space n h) key ≡ some bytes
  pub set_other :
      (h : ℕ) (key other bytes name : List ℕ) (n : N)
      → key ≢ other
      → value (api.set_blob h key bytes n).1 name other ≡ value n name other
  pub get_value :
      (h : ℕ) (key bytes : List ℕ) (len : ℕ) (n : N)
      → value n (space n h) key ≡ some bytes
      → length bytes ≤ len
      → api.get_blob h key len n ≡ (pos 0, bytes)

drop_past : (xs ys : List ℕ) (n k : ℕ) → n ≡ length xs + k → drop n (xs ++ ys) ≡ drop k ys
drop_past [] ys n k e = let e' : n ≡ k = omega (arith, e) in ap (λ t. drop t ys) e'
drop_past (x ∷ xs) ys zero k e = absurd (omega (arith, e))
drop_past (x ∷ xs) ys (suc n) k e = drop_past xs ys n k (omega (arith, e))

length-entry_bytes : (e : NvsEntry) → length e.key ≡ 32 → length (entry_bytes e) ≡ entry_size
unfolding entry_bytes
length-entry_bytes e long =
    let fields = le_bytes 2 e.version ++ (le_bytes 2 e.data_size ++ le_bytes 4 e.crc32) in
    omega (arith, length-append e.key fields, long)

-- The version and the checksum that are stored are read back.
parse_entry-entry_bytes :
    (e : NvsEntry)
    → length e.key ≡ 32
    → e.version < 2 ^ 16
    → e.crc32 < 2 ^ 32
    → let e' = parse_entry (overwrite (entry_bytes e) (replicate entry_size 0)) in
      (e'.version ≡ e.version) × (e'.crc32 ≡ e.crc32)
unfolding parse_entry entry_bytes
parse_entry-entry_bytes e long v c =
    let fields = le_bytes 2 e.version ++ (le_bytes 2 e.data_size ++ le_bytes 4 e.crc32) in
    let size = length-entry_bytes e long in
    let whole : overwrite (entry_bytes e) (replicate entry_size 0) ≡ e.key ++ fields =
      ap (λ n. entry_bytes e ++ drop n (replicate entry_size 0)) size
      ∙ append-nil (e.key ++ fields) in
    let version : le_value (take 2 fields) ≡ e.version = omega arith in
    let crc : le_value (take 4 (drop 4 fields)) ≡ e.crc32 = omega arith in
    (
      ap (λ t. le_value (take 2 (drop 32 t))) whole
          ∙ ap (λ t. le_value (take 2 t)) (drop_past e.key fields 32 0 (omega (arith, long)))
          ∙ version,
      ap (λ t. le_value (take 4 (drop 36 t))) whole
          ∙ ap (λ t. le_value (take 4 t)) (drop_past e.key fields 36 4 (omega (arith, long)))
          ∙ crc,
    )

compute_crc-lt : (bytes : List ℕ) → All (λ b. b < 256) bytes → compute_crc bytes < 2 ^ 32
unfolding compute_crc Crc32.compute Crc32.finalize Crc32.initial
compute_crc-lt bytes small =
    xor-lt 32 (Crc32.update 0xFFFFFFFF bytes) 0xFFFFFFFF
      (update-lt 0xFFFFFFFF bytes (omega arith) small) (omega arith)

-- The array of the key has 32 characters.
length-meta_key_array :
    (key bytes : List ℕ) (version : ℕ) → length (meta_of key bytes version).key ≡ 32
length-meta_key_array key bytes version =
    let text = take 31 key in
    let pad : ℕ = 0 in
    omega (
      arith,
      length-append text (replicate (32 - length text) pad),
      length-take 31 key,
      length-replicate (32 - length text) pad,
    )

-- A short key differs from the key of its metadata, which NVS takes.
meta_key_lem :
    (key : List ℕ) → length key ≤ 10 → (meta_key key ≢ key) × (length (meta_key key) ≤ longest_key)
meta_key_lem key short =
    let joined = length-append key meta_suffix in
    let cut = length-take 39 (key ++ meta_suffix) in
    (
      λ e. let same = ap (λ (t : List ℕ). length t) e in omega (arith, joined, cut, same),
      omega (arith, joined, cut),
    )

module _ {N : Type 0} (api : NvsApi N) (value : N → List ℕ → List ℕ → Option (List ℕ))
    (space : N → ℕ → List ℕ) (laws : NvsLaws api value space)
    (opens : (name : List ℕ) (writes : Bool) (n : N)
      → is_zero (api.nvs_open name writes n).0 ≡ true)
    (sets : (h : ℕ) (key bytes : List ℕ) (n : N)
      → length key ≤ longest_key
      → is_zero (api.set_blob h key bytes n).0 ≡ true)
    (commits : (h : ℕ) (n : N) → is_zero (api.commit h n).0 ≡ true) where
  -- Both blobs of an entry are stored.
  entry_stored :
      (m : NvsManager) (key bytes : List ℕ) (version : ℕ) (n : N)
      → length key ≤ 10
      → let (ok, n1) = write_entry api m key bytes version n in
        (ok ≡ true)
        × (value n1 m.name (meta_key key) ≡ some (entry_bytes (meta_of key bytes version)))
        × (value n1 m.name key ≡ some bytes)
  unfolding write_entry
  entry_stored m key bytes version n short =
      let (_, h, n1) = api.nvs_open m.name true n in
      let (ne, fits) = meta_key_lem key short in
      let meta = entry_bytes (meta_of key bytes version) in
      let n2 = (api.set_blob h (meta_key key) meta n1).1 in
      let n3 = (api.set_blob h key bytes n2).1 in
      let n4 = (api.commit h n3).1 in
      let opened = opens m.name true n in
      let here : space n1 h ≡ m.name = laws.open_space m.name true n opened in
      let here2 : space n2 h ≡ m.name = laws.set_space h (meta_key key) meta n1 ∙ here in
      let kept : value (api.nvs_close h n4) ≡ value n3 =
        laws.close_value h n4 ∙ laws.commit_value h n3 in
      let meta_set : value n2 m.name (meta_key key) ≡ some meta =
        ap (λ t. value n2 t (meta_key key)) (sym here)
        ∙ laws.set_value h (meta_key key) meta n1 (sets h (meta_key key) meta n1 fits) in
      rw opened (
        commits h n3,
        ap (λ f. f m.name (meta_key key)) kept
            ∙ laws.set_other h key (meta_key key) bytes m.name n2 (λ e. ne (sym e))
            ∙ meta_set,
        ap (λ f. f m.name key) kept
            ∙ ap (λ t. value n3 t key) (sym here2)
            ∙ laws.set_value h key bytes n2 (sets h key bytes n2 (omega (arith, short))),
      )

  -- An entry of which both blobs are stored is read.
  entry_read :
      (m : NvsManager) (key bytes : List ℕ) (version max_len : ℕ) (n : N)
      → value n m.name (meta_key key) ≡ some (entry_bytes (meta_of key bytes version))
      → value n m.name key ≡ some bytes
      → All (λ b. b < 256) bytes
      → version < 2 ^ 16
      → length bytes ≤ max_len
      → let (ok, found, version', _) = read_entry api m key max_len n in
        (ok ≡ true) × (found ≡ bytes) × (version' ≡ some version)
  unfolding read_entry
  entry_read m key bytes version max_len n has_meta has_bytes small v16 room =
      let (_, h, n1) = api.nvs_open m.name false n in
      let opened = opens m.name false n in
      let meta = meta_of key bytes version in
      let here : space n1 h ≡ m.name = laws.open_space m.name false n opened in
      let seen : (k : List ℕ) → value n1 (space n1 h) k ≡ value n m.name k =
        λ k. ap₂ (λ f t. f t k) (laws.open_value m.name false n) here in
      let size : length (entry_bytes meta) ≤ entry_size =
        omega (arith, length-entry_bytes meta (length-meta_key_array key bytes version)) in
      let got_meta =
        laws.get_value h (meta_key key) (entry_bytes meta) entry_size n1
          (seen (meta_key key) ∙ has_meta) size in
      let got = laws.get_value h key bytes max_len n1 (seen key ∙ has_bytes) room in
      let (version_back, crc_back) =
        parse_entry-entry_bytes meta (length-meta_key_array key bytes version) v16
          (compute_crc-lt bytes small) in
      rw (opened, got_meta, got, crc_back, ==_refl (compute_crc bytes))
        (refl, refl, ap some version_back)

  -- On the ESP32, over an NVS that meets these laws, whose namespaces can be opened and committed, and
  -- that takes keys of at most 15 characters: `writeEntry` of a key of at most 10 characters succeeds,
  -- and `readEntry` of the key then yields the bytes and the version, if the buffer has room for them.
  pub write_entry_lem :
      (m : NvsManager) (key bytes : List ℕ) (version max_len : ℕ) (n : N)
      → length key ≤ 10
      → All (λ b. b < 256) bytes
      → version < 2 ^ 16
      → length bytes ≤ max_len
      → let (ok, n1) = write_entry api m key bytes version n in
        let (read, found, version', _) = read_entry api m key max_len n1 in
        (ok ≡ true) × (read ≡ true) × (found ≡ bytes) × (version' ≡ some version)
  write_entry_lem m key bytes version max_len n short small v16 room =
      let (ok, has_meta, has_bytes) = entry_stored m key bytes version n short in
      let n1 = (write_entry api m key bytes version n).1 in
      let (read, found, version_back) =
        entry_read m key bytes version max_len n1 has_meta has_bytes small v16 room in
      (ok, read, found, version_back)
