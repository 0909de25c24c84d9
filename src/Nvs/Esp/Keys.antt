-- ===== src/Nvs/Esp/Keys.antt =====
-- Keys whose metadata has a name that NVS does not take.
use takt_os.Base.{
  ℕ, ◌<◌, ◌≡◌, refl, List, ◌++◌, Bool-cases, inl, inr, true, false, length, length-append,
  length-take, arith,
}
use takt_os.Base.Int.{is_zero}
use takt_os.Nvs.{NvsManager}
use takt_os.Nvs.Esp.{NvsApi, meta_suffix, meta_key, entry_size, write_entry, read_entry}

-- NVS_KEY_NAME_MAX_SIZE is 16, the zero byte included.
abbrev pub longest_key : ℕ
longest_key = 15

length-meta_key : (key : List ℕ) → 10 < length key → longest_key < length (meta_key key)
length-meta_key key h =
    let joined = length-append key meta_suffix in
    omega (arith, joined, length-take 39 (key ++ meta_suffix))

module _ {N : Type 0} (api : NvsApi N)
    (limit : (h : ℕ) (key : List ℕ) (len : ℕ) (n : N)
      → longest_key < length key
      → is_zero (api.get_blob h key len n).0 ≡ false) where
  read_fails :
      (m : NvsManager) (key : List ℕ) (max_len : ℕ) (n : N)
      → 10 < length key
      → (read_entry api m key max_len n).0 ≡ false
  unfolding read_entry
  read_fails m key max_len n long =
      let (opened, h, n1) = api.nvs_open m.name false n in
      let miss = limit h (meta_key key) entry_size n1 (length-meta_key key long) in
      elim (Bool-cases (is_zero opened)) [
        | inl opens ↦ rw (opens, miss) refl
        | inr fails ↦ rw fails refl
      ]

  -- On the ESP32, whose NVS finds no key of more than 15 characters: a key of more than 10 cannot be
  -- read, whatever the NVS holds, since the key of its metadata has more than 15. `readEntry` of it
  -- fails even behind a `writeEntry` of it, which succeeds where the namespace can be opened and the
  -- commit succeeds.
  pub read_entry_long_key :
      (m : NvsManager) (key bytes : List ℕ) (version max_len : ℕ) (n : N)
      → 10 < length key
      → is_zero (api.nvs_open m.name true n).0 ≡ true
      → ((h : ℕ) (n' : N) → is_zero (api.commit h n').0 ≡ true)
      → let (ok, n1) = write_entry api m key bytes version n in
        (ok ≡ true) × ((read_entry api m key max_len n1).0 ≡ false)
  unfolding write_entry
  read_entry_long_key m key bytes version max_len n long opens commits =
      rw opens (commits _ _, read_fails m key max_len _ long)
