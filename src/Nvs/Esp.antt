-- ===== src/Nvs/Esp.antt =====
-- kernel/src/nvs_manager.cpp in the ESP32 build, over the NVS functions of ESP-IDF.
-- `N` is the state of the NVS. An error code is the `int` of the esp_err_t, 0 being ESP_OK; a function
-- that yields something returns it behind the code. An iteration over the entries of a namespace is
-- the list of their keys; the loops here change another namespace than the one they run through.
pub mod Keys
pub mod Entries
use takt_os.Base.{
  ℕ, ◌+◌, ◌-◌, ◌*◌, ◌/◌, ◌%◌, ◌^◌, List, [], ◌∷◌, ◌++◌, Option, none, some, Bool, true, false, not,
  ◌&&◌, ◌||◌, length, ltb, take, drop, replicate, if◌then◌else◌, ◌==◌,
}
use takt_os.Base.Int.{ℤ, pos, minus_one, as_int, is_zero, eq_ℤ}
use takt_os.Storage.Regions.{same_text, copied_text}
use takt_os.Nvs.{NvsManager, named, le_bytes, le_value, overwrite, compute_crc}

pub record NvsApi (N : Type 0) : Type 0 where
  pub flash_init : N → ℤ × N
  pub flash_erase : N → ℤ × N
  pub no_free_pages : ℤ
  pub new_version_found : ℤ
  -- The namespace, and whether it is opened for writing; the handle.
  pub nvs_open : List ℕ → Bool → N → ℤ × ℕ × N
  pub nvs_close : ℕ → N → N
  -- The size of a blob, and its bytes for a buffer of the given length.
  pub blob_size : ℕ → List ℕ → N → ℤ × ℕ
  pub get_blob : ℕ → List ℕ → ℕ → N → ℤ × List ℕ
  pub set_blob : ℕ → List ℕ → List ℕ → N → ℤ × N
  pub get_u32 : ℕ → List ℕ → N → ℤ × ℕ
  pub set_u32 : ℕ → List ℕ → ℕ → N → ℤ × N
  pub erase_key : ℕ → List ℕ → N → ℤ × N
  pub commit : ℕ → N → ℤ × N
  pub entry_find : List ℕ → N → ℤ × List (List ℕ)

-- NvsEntry; `key` is the array of 32 characters.
pub record NvsEntry : Type 0 where
  pub key : List ℕ
  pub version : ℕ
  pub data_size : ℕ
  pub crc32 : ℕ

abbrev pub entry_size : ℕ
entry_size = 40

-- An NvsEntry in memory.
pub entry_bytes : NvsEntry → List ℕ
entry_bytes e = e.key ++ (le_bytes 2 e.version ++ (le_bytes 2 e.data_size ++ le_bytes 4 e.crc32))

pub parse_entry : List ℕ → NvsEntry
parse_entry bytes = record {
  key = take 32 bytes;
  version = le_value (take 2 (drop 32 bytes));
  data_size = le_value (take 2 (drop 34 bytes));
  crc32 = le_value (take 4 (drop 36 bytes));
}

-- "_meta".
abbrev pub meta_suffix : List ℕ
meta_suffix = 95 ∷ 109 ∷ 101 ∷ 116 ∷ 97 ∷ []

-- `snprintf(metaKey, sizeof(metaKey), "%s_meta", key)`.
abbrev pub meta_key : List ℕ → List ℕ
meta_key key = copied_text 40 (key ++ meta_suffix)

-- "takt_bak" and "_bak_magic".
abbrev pub backup_name : List ℕ
backup_name = 116 ∷ 97 ∷ 107 ∷ 116 ∷ 95 ∷ 98 ∷ 97 ∷ 107 ∷ []

abbrev pub backup_magic_key : List ℕ
backup_magic_key = 95 ∷ 98 ∷ 97 ∷ 107 ∷ 95 ∷ 109 ∷ 97 ∷ 103 ∷ 105 ∷ 99 ∷ []

abbrev pub backup_magic : ℕ
backup_magic = 0xBAAC0DE1

pub is_prefix : List ℕ → List ℕ → Bool
is_prefix [] ys = true
is_prefix (x ∷ xs) [] = false
is_prefix (x ∷ xs) (y ∷ ys) = (x == y) && is_prefix xs ys

-- `std::strstr(text, part) != nullptr`.
pub contains : List ℕ → List ℕ → Bool
contains part [] = is_prefix part []
contains part (x ∷ text) = is_prefix part (x ∷ text) || contains part text

-- The metadata that `writeEntry` stores.
abbrev pub meta_of : List ℕ → List ℕ → ℕ → NvsEntry
meta_of key bytes version =
    let text = copied_text 32 key in
    record {
      key = text ++ replicate (32 - length text) 0;
      version = version;
      data_size = length bytes % 2 ^ 16;
      crc32 = compute_crc bytes;
    }

module _ {N : Type 0} (api : NvsApi N) where
  -- `nvs_get_blob` into a cleared NvsEntry.
  abbrev pub get_meta : ℕ → List ℕ → N → Bool × NvsEntry
  get_meta h key n =
      let (code, bytes) = api.get_blob h (meta_key key) entry_size n in
      (is_zero code, parse_entry (overwrite bytes (replicate entry_size 0)))

  unfoldable pub write_entry : NvsManager → List ℕ → List ℕ → ℕ → N → Bool × N
  write_entry m key bytes version n =
      let (opened, h, n1) = api.nvs_open m.name true n in
      let (_, n2) = api.set_blob h (meta_key key) (entry_bytes (meta_of key bytes version)) n1 in
      let (_, n3) = api.set_blob h key bytes n2 in
      let (code, n4) = api.commit h n3 in
      if not (is_zero opened) then (false, n1) else (is_zero code, api.nvs_close h n4)

  -- The return value, the bytes in `data`, the value for `*version`, and the state.
  unfoldable pub read_entry : NvsManager → List ℕ → ℕ → N → Bool × List ℕ × Option ℕ × N
  read_entry m key max_len n =
      let (opened, h, n1) = api.nvs_open m.name false n in
      let (has_meta, meta) = get_meta h key n1 in
      let (code, bytes) = api.get_blob h key max_len n1 in
      let n2 = api.nvs_close h n1 in
      if not (is_zero opened)
      then (false, [], none, n1)
      else if not has_meta
      then (false, [], none, n2)
      else if not (is_zero code)
      then (false, [], none, n2)
      else if compute_crc bytes == meta.crc32
      then (true, bytes, some meta.version, n2)
      else (false, bytes, none, n2)

  pub get_blob : NvsManager → List ℕ → ℕ → N → ℤ × List ℕ × Option ℕ × N
  get_blob m key max_len n =
      let (opened, h, n1) = api.nvs_open m.name false n in
      let (code, len) = api.blob_size h key n1 in
      let n2 = api.nvs_close h n1 in
      let (ok, bytes, version, n3) = read_entry m key max_len n2 in
      if not (is_zero opened)
      then (minus_one, [], none, n1)
      else if not (is_zero code)
      then (minus_one, [], none, n2)
      else if ltb max_len len
      then (minus_one, [], none, n2)
      else if not ok
      then (minus_one, bytes, none, n3)
      else (as_int len, bytes, version, n3)

  pub remove : NvsManager → List ℕ → N → Bool × N
  remove m key n =
      let (opened, h, n1) = api.nvs_open m.name true n in
      let (_, n2) = api.erase_key h key n1 in
      let (_, n3) = api.erase_key h (meta_key key) n2 in
      let (_, n4) = api.commit h n3 in
      if not (is_zero opened) then (false, n1) else (true, api.nvs_close h n4)

  pub erase_all : N → Bool × N
  erase_all n = let (code, n1) = api.flash_erase n in (is_zero code, n1)

  -- A blob is copied, unless it is empty or cannot be read; the boolean says whether it was.
  abbrev pub copy_blob : ℕ → ℕ → List ℕ → N → Bool × N
  copy_blob src dst key n =
      let (size_code, len) = api.blob_size src key n in
      let (code, bytes) = api.get_blob src key len n in
      let (_, n1) = api.set_blob dst key bytes n in
      if not (is_zero size_code) || (len == 0)
      then (false, n)
      else if not (is_zero code)
      then (false, n)
      else (true, n1)

  -- The body of the loop of `backup`.
  pub backup_entry : ℕ → ℕ → List ℕ → N → N
  backup_entry src dst key n =
      let (copied, n1) = copy_blob src dst key n in
      let (has_meta, meta) = get_meta src key n1 in
      let (_, n2) = api.set_blob dst (meta_key key) (entry_bytes meta) n1 in
      if contains meta_suffix key then n else if not copied then n1 else if has_meta then n2 else n1

  pub backup_entries : ℕ → ℕ → List (List ℕ) → N → N
  backup_entries src dst [] n = n
  backup_entries src dst (key ∷ keys) n = backup_entries src dst keys (backup_entry src dst key n)

  pub backup : NvsManager → N → Bool × N
  backup m n =
      let (opened, src, n1) = api.nvs_open m.name false n in
      let (opened_backup, dst, n2) = api.nvs_open backup_name true n1 in
      let (found, keys) = api.entry_find m.name n2 in
      let n3 = backup_entries src dst keys n2 in
      let (_, n4) = api.set_u32 dst backup_magic_key backup_magic n3 in
      let (_, n5) = api.commit dst n4 in
      if not (is_zero opened)
      then (false, n1)
      else if not (is_zero opened_backup)
      then (false, api.nvs_close src n2)
      else if not (is_zero found)
      then (false, api.nvs_close dst (api.nvs_close src n2))
      else (true, api.nvs_close dst (api.nvs_close src n5))

  -- The loop of `restoreFromBackup`.
  pub restore_entries : ℕ → ℕ → List (List ℕ) → N → N
  restore_entries src dst [] n = n
  restore_entries src dst (key ∷ keys) n =
      let (_, n1) = copy_blob src dst key n in
      restore_entries src dst keys (if same_text key backup_magic_key then n else n1)

  pub restore_from_backup : NvsManager → N → Bool × N
  restore_from_backup m n =
      let (opened, src, n1) = api.nvs_open backup_name false n in
      let (code, magic) = api.get_u32 src backup_magic_key n1 in
      let (opened_main, dst, n2) = api.nvs_open m.name true n1 in
      let (found, keys) = api.entry_find backup_name n2 in
      let (_, n3) = api.commit dst (restore_entries src dst keys n2) in
      if not (is_zero opened)
      then (false, n1)
      else if not (is_zero code) || not (magic == backup_magic)
      then (false, api.nvs_close src n1)
      else if not (is_zero opened_main)
      then (false, api.nvs_close src n2)
      else if not (is_zero found)
      then (false, api.nvs_close dst (api.nvs_close src n2))
      else (true, api.nvs_close dst (api.nvs_close src n3))

  -- The body of the loop of `verifyIntegrity`, and the loop.
  pub is_intact : ℕ → List ℕ → N → Bool
  is_intact h key n =
      let (has_meta, meta) = get_meta h key n in
      let (code, bytes) = api.get_blob h key meta.data_size n in
      if contains meta_suffix key
      then true
      else has_meta && is_zero code && (compute_crc bytes == meta.crc32)

  pub all_intact : ℕ → List (List ℕ) → N → Bool
  all_intact h [] n = true
  all_intact h (key ∷ keys) n = is_intact h key n && all_intact h keys n

  pub verify_integrity : NvsManager → N → Bool × N
  verify_integrity m n =
      let (opened, h, n1) = api.nvs_open m.name false n in
      let (found, keys) = api.entry_find m.name n1 in
      if not (is_zero opened)
      then (false, n1)
      else if not (is_zero found)
      then (true, api.nvs_close h n1)
      else (all_intact h keys n1, api.nvs_close h n1)

  -- `nvs_flash_init`, with one more try behind an erase.
  pub flash_ready : N → ℤ × N
  flash_ready n =
      let (code, n1) = api.flash_init n in
      let again = eq_ℤ code api.no_free_pages || eq_ℤ code api.new_version_found in
      let second = api.flash_init (api.flash_erase n1).1 in if again then second else (code, n1)

  pub init : NvsManager → List ℕ → N → Bool × NvsManager × N
  init m name n =
      let m1 = named m name in
      let (code, n1) = flash_ready n in
      let (intact, n2) = verify_integrity m1 n1 in
      let (_, n3) = restore_from_backup m1 n2 in
      let m2 : NvsManager = record m1 { initialized = true } in
      if not (is_zero code) then (false, m1, n1) else (true, m2, if not intact then n3 else n2)
