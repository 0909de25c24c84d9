-- ===== src/ConfigManager/Apply.antt =====
-- What `tick` makes of a configuration that came from outside.
use takt_os.Base.{
  ℕ, ◌≤◌, ◌≡◌, refl, ap, ◌∙◌, List, [], ◌∷◌, ◌++◌, Option, none, some, Bool, true, false, ltb,
  length, take-all, if◌then◌else◌, All, Bool-cases, inl, inr,
}
use takt_os.Storage.Regions.{same_text}
use takt_os.Nvs
use takt_os.Nvs.{HostNvs, write_entry, read_entry}
use takt_os.Nvs.Host.{read_entry-write_entry}
use takt_os.Kernel.{system_ready_event}
use takt_os.ConfigManager.{
  ConfigManager, apply_remote_config, get_string, tokens, notify, set_string, apply_token,
  apply_tokens, apply_pending_config, tick,
}
use takt_os.ConfigManager.Parse.{
  IsSetting, setting, settings, print, split_token-setting, tokens-print,
}

-- The last value that a list of settings gives a key.
abbrev pub last_value : List ℕ → List (List ℕ × List ℕ) → Option (List ℕ)
last_value key [] = none
last_value key ((k, v) ∷ ps) = elim (last_value key ps) [
  | none ↦ if same_text k key then some v else none
  | some w ↦ some w
]

-- What `getString` yields of a value, for a buffer of a length; `old` is what it yields with none.
abbrev pub text_of : ℕ → Bool × List ℕ → Option (List ℕ) → Bool × List ℕ
text_of max_len old none = old
text_of max_len old (some v) =
    if ltb max_len (length (v ++ (0 ∷ []))) then (false, []) else (true, v ++ (0 ∷ []))

-- A text that is stored is read back, and the other keys are as they were.
get_string-set_string :
    (n : HostNvs) (key other text : List ℕ) (max_len : ℕ)
    → let (ok, n1) = Nvs.set_string n key text 1 in
      (ok ≡ true)
      × (get_string n1 other max_len
          ≡ text_of max_len
              (get_string n other max_len)
              (if same_text key other then some text else none))
unfolding get_string Nvs.get_string Nvs.set_string
get_string-set_string n key other text max_len =
    let (ok, e) = read_entry-write_entry n key other (text ++ (0 ∷ [])) 1 max_len in
    elim (Bool-cases (same_text key other)) [
      | inr differ ↦ (ok, rw (e, differ) refl)
      | inl same ↦ elim (Bool-cases (ltb max_len (length (text ++ (0 ∷ []))))) [
        | inl long ↦ (ok, rw (e, same, long) refl)
        | inr fits ↦ (ok, rw (e, same, fits) refl)
      ]
    ]

later_value :
    (max_len : ℕ) (old : Bool × List ℕ) (later here : Option (List ℕ))
    → text_of max_len (text_of max_len old here) later
      ≡ text_of max_len old (elim later [ none ↦ here | some w ↦ some w ])
later_value max_len old none here = refl
later_value max_len old (some w) here = refl

module _ {W : Type 0} (changed : ℕ → List ℕ → HostNvs × W → HostNvs × W)
    (publish : ℕ → HostNvs × W → HostNvs × W)
    (changed-quiet : (cb : ℕ) (key : List ℕ) (s : HostNvs × W) → (changed cb key s).0 ≡ s.0)
    (publish-quiet : (event : ℕ) (s : HostNvs × W) → (publish event s).0 ≡ s.0) where
  notify-quiet :
      (cb : Option ℕ) (key : List ℕ) (s : HostNvs × W) → (notify changed publish cb key s).0 ≡ s.0
  notify-quiet none key s = refl
  notify-quiet (some cb) key s = changed-quiet cb key s

  apply_token-setting :
      (c : ConfigManager) (p : List ℕ × List ℕ) (s : HostNvs × W)
      → IsSetting p
      → (apply_token changed publish c (setting p) s).0 ≡ (Nvs.set_string s.0 p.0 p.1 1).1
  unfolding apply_token set_string Nvs.set_string write_entry
  apply_token-setting c (k, v) s h =
      rw (apply_token, split_token-setting k v h.0)
        (notify-quiet c.change_cb k ((Nvs.set_string s.0 k v 1).1, s.1))

  apply_tokens-settings :
      (c : ConfigManager) (ps : List (List ℕ × List ℕ)) (s : HostNvs × W) (key : List ℕ)
      (max_len : ℕ)
      → All IsSetting ps
      → get_string (apply_tokens changed publish c (settings ps) s).0 key max_len
        ≡ text_of max_len (get_string s.0 key max_len) (last_value key ps)
  unfolding apply_tokens
  apply_tokens-settings c [] s key max_len h = refl
  apply_tokens-settings c ((k, v) ∷ ps) s key max_len h =
      let s1 = apply_token changed publish c (setting (k, v)) s in
      apply_tokens-settings c ps s1 key max_len h.1
      ∙ ap (λ old. text_of max_len old (last_value key ps))
          (ap (λ n. get_string n key max_len) (apply_token-setting c (k, v) s h.0)
            ∙ (get_string-set_string s.0 k key v max_len).1)
      ∙ later_value max_len (get_string s.0 key max_len) (last_value key ps)
          (if same_text k key then some v else none)

  -- A configuration of at most 511 characters, of settings `key=value` joined by semicolons, whose
  -- keys have neither `=` nor `;` and whose values have no `;`: behind the next tick nothing is
  -- pending, a key of the configuration has the last value that it gives that key (which a buffer
  -- without room for it and its zero byte does not get), and every other key reads as before. The
  -- callbacks and subscribers are to leave the store alone.
  pub tick-apply_remote_config :
      (c : ConfigManager) (ps : List (List ℕ × List ℕ)) (s : HostNvs × W)
      → All IsSetting ps
      → length (print ps) ≤ 511
      → let (c1, n1, _) = tick changed publish (apply_remote_config c (print ps)) s in
        (c1.apply_pending ≡ false)
        × ((key : List ℕ) (max_len : ℕ)
            → get_string n1 key max_len
              ≡ text_of max_len (get_string s.0 key max_len) (last_value key ps))
  unfolding tick apply_remote_config apply_pending_config
  tick-apply_remote_config c ps s h short =
      let c1 = apply_remote_config c (print ps) in
      let read = take-all 511 (print ps) short in
      let reached = ap tokens read ∙ tokens-print ps h in
      (
        refl,
        λ key max_len.
            ap (λ n. get_string n key max_len)
              (publish-quiet system_ready_event
                (apply_tokens changed publish c1 (tokens c1.pending_json) s))
            ∙ ap (λ ts. get_string (apply_tokens changed publish c1 ts s).0 key max_len) reached
            ∙ apply_tokens-settings c1 ps s key max_len h,
      )
