-- ===== src/ConfigManager/Tests.antt =====
-- Runs of the configuration manager, and its theorems at such runs.
use takt_os.Base.{ℕ, ◌≡◌, refl, List, [], ◌∷◌, false, arith}
use takt_os.Nvs.{HostNvs, new_nvs}
use takt_os.ConfigManager.{new_config, apply_remote_config, get_string, pieces, tokens, tick}
use takt_os.ConfigManager.Parse.{print}
use takt_os.ConfigManager.Apply.{last_value, text_of, tick-apply_remote_config}

abbrev empty_store : HostNvs × ℕ
empty_store = (record { manager = new_nvs; store = [] }, 0)

-- `a=1;b=2;a=3`.
abbrev three_settings : List (List ℕ × List ℕ)
three_settings = (b'a' ∷ [], b'1' ∷ []) ∷ (b'b' ∷ [], b'2' ∷ []) ∷ (b'a' ∷ [], b'3' ∷ []) ∷ []

tick-apply_remote_config_example :
    let (c1, n1, _) =
      tick
        (λ _ _ s. s)
        (λ event s. (s.0, event))
        (apply_remote_config new_config (print three_settings))
        empty_store in
    (c1.apply_pending ≡ false)
    × ((key : List ℕ) (max_len : ℕ)
        → get_string n1 key max_len
          ≡ text_of max_len (get_string empty_store.0 key max_len) (last_value key three_settings))
tick-apply_remote_config_example =
    tick-apply_remote_config (λ _ _ s. s) (λ event s. (s.0, event)) (λ _ _ _. refl) (λ _ _. refl)
      new_config three_settings empty_store
      (
        ((refl, tt), (refl, tt), (refl, tt)),
        (((refl, tt), (refl, tt), (refl, tt)), (((refl, tt), (refl, tt), (refl, tt)), tt)),
      )
      (omega arith)

-- strtok_r skips empty tokens.
tokens_run : tokens (59 ∷ 1 ∷ 59 ∷ 59 ∷ 2 ∷ []) ≡ (1 ∷ []) ∷ (2 ∷ []) ∷ []
unfolding tokens pieces
tokens_run = refl
