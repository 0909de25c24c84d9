-- ===== src/Nvs/Tests.antt =====
-- Runs of the store of settings, and its theorems at such runs.
use takt_os.Base.{
  ◌≢◌, ◌≤◌, ◌&&◌, Option, some, sym, Bool-cases, inl, inr, false≢true, ℕ, ◌<◌, ◌≡◌, refl, List, [],
  ◌∷◌, none, true, false, ltb, length, arith, if◌then◌else◌,
}
use takt_os.Base.Int.{ℤ, pos, is_zero}
use takt_os.Storage.Regions.{same_text, same_text_refl}
use takt_os.Nvs.{HostNvs, new_nvs, write_entry, read_entry}
use takt_os.Nvs.Host.{read_entry-write_entry, same_text-eq}
use takt_os.Nvs.Esp
use takt_os.Nvs.Esp.{NvsApi}
use takt_os.Nvs.Esp.Entries.{NvsLaws, write_entry_lem}
use takt_os.Nvs.Esp.Keys.{longest_key}

abbrev empty_nvs : HostNvs
empty_nvs = record { manager = record new_nvs { name = 116 ∷ [] }; store = [] }

-- A text of four characters, read into a buffer of two.
read_entry-write_entry_example :
    let (ok, n1) = write_entry empty_nvs (97 ∷ []) (1 ∷ 2 ∷ 3 ∷ 4 ∷ []) 1 in
    (ok ≡ true) × (read_entry n1 (97 ∷ []) 2 ≡ (false, [], none))
unfolding same_text
read_entry-write_entry_example =
    read_entry-write_entry empty_nvs (97 ∷ []) (97 ∷ []) (1 ∷ 2 ∷ 3 ∷ 4 ∷ []) 1 2

-- An NVS of a single namespace that takes keys of at most 15 characters.
abbrev Blobs : Type 0
Blobs = List (List ℕ × List ℕ)

abbrev not_found : ℤ
not_found = pos 0x1102

abbrev key_too_long : ℤ
key_too_long = pos 0x1109

look_up : List ℕ → Blobs → ℤ × List ℕ
look_up key [] = (not_found, [])
look_up key ((k, bytes) ∷ rest) = if same_text k key then (pos 0, bytes) else look_up key rest

limited_get : ℕ → List ℕ → ℕ → Blobs → ℤ × List ℕ
limited_get h key len n = if ltb longest_key (length key) then (key_too_long, []) else look_up key n

limited_set : ℕ → List ℕ → List ℕ → Blobs → ℤ × Blobs
limited_set h key bytes n =
    if ltb longest_key (length key) then (key_too_long, n) else (pos 0, (key, bytes) ∷ n)

abbrev one_namespace : NvsApi Blobs
one_namespace = record {
  flash_init = λ n. (pos 0, n);
  flash_erase = λ n. (pos 0, []);
  no_free_pages = pos 0x110d;
  new_version_found = pos 0x1110;
  nvs_open = λ name writes n. (pos 0, 1, n);
  nvs_close = λ h n. n;
  blob_size = λ h key n. let (code, bytes) = limited_get h key 0 n in (code, length bytes);
  get_blob = limited_get;
  set_blob = limited_set;
  get_u32 = λ h key n. (not_found, 0);
  set_u32 = λ h key value n. (pos 0, n);
  erase_key = λ h key n. (pos 0, n);
  commit = λ h n. (pos 0, n);
  entry_find = λ name n. (not_found, []);
}

limited_get_fails :
    (h : ℕ) (key : List ℕ) (len : ℕ) (n : Blobs)
    → longest_key < length key
    → is_zero (limited_get h key len n).0 ≡ false
unfolding limited_get
limited_get_fails h key len n long =
    let over : ltb longest_key (length key) ≡ true = ground arith in rw over refl

-- "temperature".
abbrev long_key : List ℕ
long_key = 116 ∷ 101 ∷ 109 ∷ 112 ∷ 101 ∷ 114 ∷ 97 ∷ 116 ∷ 117 ∷ 114 ∷ 101 ∷ []

-- An NVS of any namespaces, of which one is open.
record OpenNvs : Type 0 where
  opened : List ℕ
  blobs : List ℕ → List ℕ → Option (List ℕ)

abbrev opening : List ℕ → OpenNvs → OpenNvs
opening name n = record n { opened = name }

open_get : List ℕ → ℕ → OpenNvs → ℤ × List ℕ
open_get key len n = elim (n.blobs n.opened key) [
  | none ↦ (not_found, [])
  | some bytes ↦ if ltb len (length bytes) then (pos 0x110c, []) else (pos 0, bytes)
]

abbrev stored : List ℕ → List ℕ → OpenNvs → OpenNvs
stored key bytes n = record n {
  blobs =
      λ name k. if same_text name n.opened && same_text k key then some bytes else n.blobs name k;
}

open_set : List ℕ → List ℕ → OpenNvs → ℤ × OpenNvs
open_set key bytes n =
    if ltb longest_key (length key) then (key_too_long, n) else (pos 0, stored key bytes n)

abbrev open_nvs : NvsApi OpenNvs
open_nvs = record {
  flash_init = λ n. (pos 0, n);
  flash_erase = λ n. (pos 0, n);
  no_free_pages = pos 0x110d;
  new_version_found = pos 0x1110;
  nvs_open = λ name writes n. (pos 0, 1, opening name n);
  nvs_close = λ h n. n;
  blob_size = λ h key n. let (code, bytes) = open_get key 0 n in (code, length bytes);
  get_blob = λ h key len n. open_get key len n;
  set_blob = λ h key bytes n. open_set key bytes n;
  get_u32 = λ h key n. (not_found, 0);
  set_u32 = λ h key value n. (pos 0, n);
  erase_key = λ h key n. (pos 0, n);
  commit = λ h n. (pos 0, n);
  entry_find = λ name n. (not_found, []);
}

open_set_keeps : (key bytes : List ℕ) (n : OpenNvs) → (open_set key bytes n).1.opened ≡ n.opened
unfolding open_set
open_set_keeps key bytes n = elim (Bool-cases (ltb longest_key (length key))) [
  | inl long ↦ rw long refl
  | inr short ↦ rw short refl
]

open_set_value :
    (key bytes : List ℕ) (n : OpenNvs)
    → is_zero (open_set key bytes n).0 ≡ true
    → (open_set key bytes n).1.blobs n.opened key ≡ some bytes
unfolding open_set
open_set_value key bytes n ok = elim (Bool-cases (ltb longest_key (length key))) [
  | inl long ↦ absurd (false≢true (rw long at ok))
  | inr short ↦ rw (short, same_text_refl n.opened, same_text_refl key) refl
]

open_set_other :
    (key other bytes name : List ℕ) (n : OpenNvs)
    → key ≢ other
    → (open_set key bytes n).1.blobs name other ≡ n.blobs name other
unfolding open_set
open_set_other key other bytes name n ne =
    let differ : same_text other key ≡ false = elim (Bool-cases (same_text other key)) [
      | inl same ↦ absurd (ne (sym (same_text-eq other key same)))
      | inr differ ↦ differ
    ] in
    elim (Bool-cases (ltb longest_key (length key))) [
      | inl long ↦ rw long refl
      | inr short ↦ elim (Bool-cases (same_text name n.opened)) [
        | inl here ↦ rw (short, here, differ) refl
        | inr there ↦ rw (short, there) refl
      ]
    ]

open_get_value :
    (key bytes : List ℕ) (len : ℕ) (n : OpenNvs)
    → n.blobs n.opened key ≡ some bytes
    → length bytes ≤ len
    → open_get key len n ≡ (pos 0, bytes)
unfolding open_get
open_get_value key bytes len n e room =
    let fits : ltb len (length bytes) ≡ false = ground arith in rw (open_get, e, fits) refl

open_nvs-NvsLaws : NvsLaws open_nvs (λ n. n.blobs) (λ n h. n.opened)
open_nvs-NvsLaws = record {
  open_space = λ name writes n ok. refl;
  open_value = λ name writes n. refl;
  close_value = λ h n. refl;
  commit_value = λ h n. refl;
  set_space = λ h key bytes n. open_set_keeps key bytes n;
  set_value = λ h key bytes n ok. open_set_value key bytes n ok;
  set_other = λ h key other bytes name n ne. open_set_other key other bytes name n ne;
  get_value = λ h key bytes len n e room. open_get_value key bytes len n e room;
}

open_set_works :
    (key bytes : List ℕ) (n : OpenNvs)
    → length key ≤ longest_key
    → is_zero (open_set key bytes n).0 ≡ true
unfolding open_set
open_set_works key bytes n short =
    let taken : ltb longest_key (length key) ≡ false = ground arith in rw taken refl

abbrev empty_open : OpenNvs
empty_open = record { opened = []; blobs = λ name key. none }

write_entry_lem_example :
    let (ok, n1) = Esp.write_entry open_nvs new_nvs (97 ∷ 98 ∷ []) (21 ∷ 22 ∷ []) 3 empty_open in
    let (read, found, version, _) = Esp.read_entry open_nvs new_nvs (97 ∷ 98 ∷ []) 4 n1 in
    (ok ≡ true) × (read ≡ true) × (found ≡ 21 ∷ 22 ∷ []) × (version ≡ some 3)
write_entry_lem_example =
    write_entry_lem open_nvs (λ n. n.blobs) (λ n h. n.opened) open_nvs-NvsLaws
      (λ name writes n. refl) (λ h key bytes n short. open_set_works key bytes n short)
      (λ h n. refl) new_nvs (97 ∷ 98 ∷ []) (21 ∷ 22 ∷ []) 3 4 empty_open (omega arith) (omega arith)
      (omega arith) (omega arith)
