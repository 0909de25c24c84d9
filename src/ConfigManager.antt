-- ===== src/ConfigManager.antt =====
-- services/include/takt/services/config_manager.hpp and services/src/config_manager.cpp: the settings
-- that come from outside, over the host build of the store of settings.
-- `changed` is what a change callback does, by its number and the key, to the store and to `W`, which
-- is whatever else it changes; it does not use the configuration manager. `publish` is the event bus.
-- `pending_json` is the text in the buffer. What strtok_r leaves in the buffer is not modelled, as the
-- next configuration overwrites all of it before it is read.
pub mod Parse
pub mod Apply
mod Tests
use takt_os.Base.{ℕ, ◌+◌, List, [], ◌∷◌, Option, none, some, Bool, true, false, if◌then◌else◌, ◌==◌}
use takt_os.Storage.Regions.{copied_text}
use takt_os.Kernel.{system_ready_event}
use takt_os.Nvs
use takt_os.Nvs.{HostNvs}

pub record ConfigManager : Type 0 where
  pub apply_pending : Bool
  pub change_cb : Option ℕ
  pub pending_json : List ℕ

abbrev pub new_config : ConfigManager
new_config = record { apply_pending = false; change_cb = none; pending_json = [] }

pub init : ConfigManager → Bool × ConfigManager
init c = (true, c)

pub has_work : ConfigManager → Bool
has_work c = c.apply_pending

pub on_change : ConfigManager → Option ℕ → ConfigManager
on_change c cb = record c { change_cb = cb }

-- `strncpy(pendingJson_, json, 511)`: the last character of the buffer stays 0.
unfoldable pub apply_remote_config : ConfigManager → List ℕ → ConfigManager
apply_remote_config c json = record c { pending_json = copied_text 512 json; apply_pending = true }

unfoldable pub get_string : HostNvs → List ℕ → ℕ → Bool × List ℕ
get_string n key max_len = Nvs.get_string n key max_len

abbrev semicolon : ℕ
semicolon = 59

abbrev equals : ℕ
equals = 61

abbrev add_first : ℕ → List (List ℕ) → List (List ℕ)
add_first c [] = (c ∷ []) ∷ []
add_first c (piece ∷ rest) = (c ∷ piece) ∷ rest

-- The text between the semicolons.
unfoldable pub pieces : List ℕ → List (List ℕ)
pieces [] = [] ∷ []
pieces (c ∷ rest) =
    let others = pieces rest in if c == semicolon then [] ∷ others else add_first c others

abbrev skip_empty : List ℕ → List (List ℕ) → List (List ℕ)
skip_empty [] rest = rest
skip_empty (c ∷ cs) rest = (c ∷ cs) ∷ rest

abbrev pub nonempty : List (List ℕ) → List (List ℕ)
nonempty [] = []
nonempty (piece ∷ rest) = skip_empty piece (nonempty rest)

-- What strtok_r yields, call by call: the pieces that are not empty.
unfoldable pub tokens : List ℕ → List (List ℕ)
tokens text = nonempty (pieces text)

abbrev before : ℕ → Option (List ℕ × List ℕ) → Option (List ℕ × List ℕ)
before c none = none
before c (some (key, value)) = some (c ∷ key, value)

-- The token at its first `=`, if it has one.
unfoldable pub split_token : List ℕ → Option (List ℕ × List ℕ)
split_token [] = none
split_token (c ∷ rest) =
    let later = before c (split_token rest) in if c == equals then some ([], rest) else later

module _ {W : Type 0} (changed : ℕ → List ℕ → HostNvs × W → HostNvs × W)
    (publish : ℕ → HostNvs × W → HostNvs × W) where
  abbrev pub notify : Option ℕ → List ℕ → HostNvs × W → HostNvs × W
  notify none key s = s
  notify (some cb) key s = changed cb key s

  unfoldable pub set_string : ConfigManager → List ℕ → List ℕ → HostNvs × W → Bool × HostNvs × W
  set_string c key value s =
      let (ok, n) = Nvs.set_string s.0 key value 1 in
      let s1 = notify c.change_cb key (n, s.1) in if ok then (true, s1.0, s1.1) else (false, n, s.1)

  -- The body of the loop of `applyPending`; the result of `setString` is dropped.
  unfoldable pub apply_token : ConfigManager → List ℕ → HostNvs × W → HostNvs × W
  apply_token c token s = elim (split_token token) [
    | none ↦ s
    | some (key, value) ↦ let (_, n, w) = set_string c key value s in (n, w)
  ]

  unfoldable pub apply_tokens : ConfigManager → List (List ℕ) → HostNvs × W → HostNvs × W
  apply_tokens c [] s = s
  apply_tokens c (token ∷ rest) s = apply_tokens c rest (apply_token c token s)

  unfoldable pub apply_pending_config : ConfigManager → HostNvs × W → ConfigManager × HostNvs × W
  apply_pending_config c s =
      let (n, w) = publish system_ready_event (apply_tokens c (tokens c.pending_json) s) in
      (record c { apply_pending = false }, n, w)

  unfoldable pub tick : ConfigManager → HostNvs × W → ConfigManager × HostNvs × W
  tick c s = if c.apply_pending then apply_pending_config c s else (c, s.0, s.1)

  pub shutdown : ConfigManager → HostNvs × W → ConfigManager × HostNvs × W
  shutdown c s = (c, (Nvs.backup s.0).1, s.1)
