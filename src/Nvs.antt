-- ===== src/Nvs.antt =====
-- kernel/include/takt/nvs_manager.hpp and kernel/src/nvs_manager.cpp: the store of settings. This file
-- is the host build; Esp is the ESP32 build, over the NVS functions of ESP-IDF.
-- The map of the host build is a list of keys and entries; a key is to be found once.
pub mod Values
pub mod Host
pub mod Esp
mod Tests
use takt_os.Base.{
  ℕ, ◌+◌, ◌-◌, ◌*◌, ◌/◌, ◌%◌, ◌^◌, zero, suc, List, [], ◌∷◌, ◌++◌, Option, none, some, Bool, true,
  false, ltb, length, drop, take, if◌then◌else◌, ◌==◌,
}
use takt_os.Base.Int.{ℤ, minus_one}
use takt_os.Crc32
use takt_os.Storage.Regions.{same_text, copied_text}

-- NvsManager: the text of namespace_, and initialized_.
pub record NvsManager : Type 0 where
  pub name : List ℕ
  pub initialized : Bool

abbrev pub new_nvs : NvsManager
new_nvs = record { name = []; initialized = false }

pub record HostNvsEntry : Type 0 where
  pub bytes : List ℕ
  pub version : ℕ
  pub crc32 : ℕ

-- gHostNvs.
abbrev pub Store : Type 0
Store = List (List ℕ × HostNvsEntry)

pub record HostNvs : Type 0 where
  pub manager : NvsManager
  pub store : Store

-- `std::string(namespace_) + ":" + key`.
abbrev pub full_key : NvsManager → List ℕ → List ℕ
full_key m key = m.name ++ (58 ∷ key)

-- `gHostNvs.find(key)`.
unfoldable pub find : List ℕ → Store → Option HostNvsEntry
find key [] = none
find key ((k, e) ∷ rest) = if same_text k key then some e else find key rest

-- `gHostNvs[key] = entry`.
unfoldable pub assign : List ℕ → HostNvsEntry → Store → Store
assign key entry [] = (key, entry) ∷ []
assign key entry ((k, e) ∷ rest) =
    if same_text k key then (k, entry) ∷ rest else (k, e) ∷ assign key entry rest

-- The bytes of an unsigned number of `width` bytes, in the order of the memory, and its value.
abbrev pub le_bytes : ℕ → ℕ → List ℕ
le_bytes zero value = []
le_bytes (suc width) value = value % 256 ∷ le_bytes width (value / 256)

abbrev pub le_value : List ℕ → ℕ
le_value [] = 0
le_value (x ∷ rest) = x + le_value rest * 256

-- memcpy to the beginning of a variable.
abbrev pub overwrite : List ℕ → List ℕ → List ℕ
overwrite bytes old = bytes ++ drop (length bytes) old

unfoldable pub compute_crc : List ℕ → ℕ
compute_crc bytes = Crc32.compute bytes

-- The namespace's text: `strncpy(namespace_, namespaceName, sizeof(namespace_) - 1)`.
abbrev pub named : NvsManager → List ℕ → NvsManager
named m name = record m { name = copied_text 16 name }

pub init : HostNvs → List ℕ → Bool × HostNvs
init n name = (true, record n { manager = record (named n.manager name) { initialized = true } })

unfoldable pub write_entry : HostNvs → List ℕ → List ℕ → ℕ → Bool × HostNvs
write_entry n key bytes version =
    let entry : HostNvsEntry = record {
      bytes = bytes;
      version = version;
      crc32 = compute_crc bytes;
    } in
    (true, record n { store = assign (full_key n.manager key) entry n.store })

-- `readEntry` behind the search.
abbrev pub check_entry : ℕ → Option HostNvsEntry → Bool × List ℕ × Option ℕ
check_entry max_len none = (false, [], none)
check_entry max_len (some e) =
    if ltb max_len (length e.bytes)
    then (false, [], none)
    else if compute_crc e.bytes == e.crc32
    then (true, e.bytes, some e.version)
    else (false, e.bytes, none)

-- The return value, the bytes copied to `data`, and the value for `*version`.
unfoldable pub read_entry : HostNvs → List ℕ → ℕ → Bool × List ℕ × Option ℕ
read_entry n key max_len = check_entry max_len (find (full_key n.manager key) n.store)

pub set_blob : HostNvs → List ℕ → List ℕ → ℕ → Bool × HostNvs
set_blob n key bytes version = write_entry n key bytes version

-- The host build has no `getBlob`.
pub get_blob : HostNvs → List ℕ → ℕ → ℤ × List ℕ × Option ℕ
get_blob n key max_len = (minus_one, [], none)

unfoldable pub set_u8 : HostNvs → List ℕ → ℕ → ℕ → Bool × HostNvs
set_u8 n key value version = write_entry n key (le_bytes 1 value) version

unfoldable pub set_u16 : HostNvs → List ℕ → ℕ → ℕ → Bool × HostNvs
set_u16 n key value version = write_entry n key (le_bytes 2 value) version

unfoldable pub set_u32 : HostNvs → List ℕ → ℕ → ℕ → Bool × HostNvs
set_u32 n key value version = write_entry n key (le_bytes 4 value) version

-- A variable of `width` bytes with the value `value`, behind a read of an entry into it.
unfoldable pub get_value : HostNvs → ℕ → List ℕ → ℕ → Bool × ℕ
get_value n width key value =
    let (ok, bytes, _) = read_entry n key width in
    (ok, le_value (overwrite bytes (le_bytes width value)))

unfoldable pub get_u8 : HostNvs → List ℕ → ℕ → Bool × ℕ
get_u8 n key value = get_value n 1 key value

unfoldable pub get_u16 : HostNvs → List ℕ → ℕ → Bool × ℕ
get_u16 n key value = get_value n 2 key value

unfoldable pub get_u32 : HostNvs → List ℕ → ℕ → Bool × ℕ
get_u32 n key value = get_value n 4 key value

-- A text is its characters; the zero byte behind them is stored too.
unfoldable pub set_string : HostNvs → List ℕ → List ℕ → ℕ → Bool × HostNvs
set_string n key text version = write_entry n key (text ++ (0 ∷ [])) version

unfoldable pub get_string : HostNvs → List ℕ → ℕ → Bool × List ℕ
get_string n key max_len = let (ok, bytes, _) = read_entry n key max_len in (ok, bytes)

-- What the host build does not do.
pub remove : HostNvs → List ℕ → Bool × HostNvs
remove n key = (true, n)

pub erase_all : HostNvs → Bool × HostNvs
erase_all n = (true, n)

pub backup : HostNvs → Bool × HostNvs
backup n = (true, n)

pub restore_from_backup : HostNvs → Bool × HostNvs
restore_from_backup n = (true, n)

pub verify_integrity : HostNvs → Bool
verify_integrity n = true
