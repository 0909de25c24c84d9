-- ===== src/Nvs/Values.antt =====
-- The typed values of the host build.
use takt_os.Base.{
  ℕ, ◌+◌, ◌*◌, ◌/◌, ◌^◌, ◌<◌, ◌≤◌, ◌≡◌, refl, ap, ◌∙◌, List, [], ◌∷◌, ◌++◌, Option, some, Bool,
  true, false, ltb, length, length-append, arith,
}
use takt_os.Storage.Regions.{same_text_refl}
use takt_os.Nvs.{
  HostNvs, le_bytes, le_value, overwrite, write_entry, read_entry, get_value, set_u8, set_u16,
  set_u32, get_u8, get_u16, get_u32, set_string, get_string,
}
use takt_os.Nvs.Host.{read_entry-write_entry}

-- An entry is read behind its own write, where the buffer has room.
read_written :
    (n : HostNvs) (key bytes : List ℕ) (version max_len : ℕ)
    → length bytes ≤ max_len
    → read_entry (write_entry n key bytes version).1 key max_len ≡ (true, bytes, some version)
read_written n key bytes version max_len room =
    let (_, read) = read_entry-write_entry n key key bytes version max_len in
    let fits : ltb max_len (length bytes) ≡ false = ground arith in
    read ∙ rw (same_text_refl key, fits) refl

-- A variable of `width` bytes behind the read of an entry of at most as many bytes.
get_written :
    (n : HostNvs) (width : ℕ) (key bytes : List ℕ) (version old : ℕ)
    → length bytes ≤ width
    → get_value (write_entry n key bytes version).1 width key old
      ≡ (true, le_value (overwrite bytes (le_bytes width old)))
unfolding get_value
get_written n width key bytes version old room =
    let read = read_written n key bytes version width room in
    ap (λ (r : Bool × List ℕ × Option ℕ). (r.0, le_value (overwrite r.1 (le_bytes width old)))) read

-- On the host a value is read as it was stored, into a variable of its own width: numbers of 8, 16
-- and 32 bits, and texts, with the zero byte behind them, into a buffer that has room for them.
pub get-set :
    (n : HostNvs) (key text : List ℕ) (a b c old version max_len : ℕ)
    → a < 2 ^ 8
    → b < 2 ^ 16
    → c < 2 ^ 32
    → length text < max_len
    → (get_u8 (set_u8 n key a version).1 key old ≡ (true, a))
      × (get_u16 (set_u16 n key b version).1 key old ≡ (true, b))
      × (get_u32 (set_u32 n key c version).1 key old ≡ (true, c))
      × (get_string (set_string n key text version).1 key max_len ≡ (true, text ++ (0 ∷ [])))
unfolding get_u8 get_u16 get_u32 get_string set_u8 set_u16 set_u32 set_string
get-set n key text a b c old version max_len ha hb hc room =
    let value8 : le_value (le_bytes 1 a) ≡ a = omega arith in
    let value16 : le_value (le_bytes 2 b) ≡ b = omega arith in
    let value32 : le_value (le_bytes 4 c) ≡ c = omega arith in
    let stored = text ++ (0 ∷ []) in
    let long = length-append text (0 ∷ []) in
    (
      get_written n 1 key (le_bytes 1 a) version old (omega arith) ∙ ap (λ v. (true, v)) value8,
      get_written n 2 key (le_bytes 2 b) version old (omega arith) ∙ ap (λ v. (true, v)) value16,
      get_written n 4 key (le_bytes 4 c) version old (omega arith) ∙ ap (λ v. (true, v)) value32,
      ap (λ (r : Bool × List ℕ × Option ℕ). (r.0, r.1))
          (read_written n key stored version max_len (omega (arith, long))),
    )

-- `getU32` of an entry that `setU8` stored succeeds, and changes only the lowest byte of the
-- variable: the width of an entry is not checked.
pub get_u32-set_u8 :
    (n : HostNvs) (key : List ℕ) (value old version : ℕ)
    → value < 2 ^ 8
    → old < 2 ^ 32
    → get_u32 (set_u8 n key value version).1 key old ≡ (true, old / 256 * 256 + value)
unfolding get_u32 set_u8
get_u32-set_u8 n key value old version hv ho =
    let mixed : le_value (overwrite (le_bytes 1 value) (le_bytes 4 old)) ≡ old / 256 * 256 + value =
      omega arith in
    get_written n 4 key (le_bytes 1 value) version old (omega arith) ∙ ap (λ v. (true, v)) mixed
