-- ===== src/ConfigManager/Parse.antt =====
-- The texts that `applyPending` reads: the tokens of a printed list of settings.
use takt_os.Base.{ℕ, ◌≡◌, refl, ap, ◌∙◌, List, [], ◌∷◌, ◌++◌, some, false, ◌==◌, All}
use takt_os.ConfigManager.{pieces, nonempty, tokens, split_token}

-- A setting, as `key=value`.
abbrev pub setting : List ℕ × List ℕ → List ℕ
setting (key, value) = key ++ (61 ∷ value)

-- The settings, with semicolons between them.
abbrev pub print : List (List ℕ × List ℕ) → List ℕ
print [] = []
print (p ∷ []) = setting p
print (p ∷ q ∷ ps) = setting p ++ (59 ∷ print (q ∷ ps))

-- The text has no character `c`.
abbrev pub Lacks : ℕ → List ℕ → Type 0
Lacks c = All (λ x. (x == c) ≡ false)

-- A key has neither `=` nor `;`, a value no `;`.
abbrev pub IsSetting : List ℕ × List ℕ → Type 0
IsSetting (key, value) = Lacks 61 key × Lacks 59 key × Lacks 59 value

pieces_alone : (xs : List ℕ) → Lacks 59 xs → pieces xs ≡ xs ∷ []
unfolding pieces
pieces_alone [] h = refl
pieces_alone (x ∷ xs) h = rw (h.0, pieces_alone xs h.1) refl

pieces-append : (xs ys : List ℕ) → Lacks 59 xs → pieces (xs ++ (59 ∷ ys)) ≡ xs ∷ pieces ys
unfolding pieces
pieces-append [] ys h = refl
pieces-append (x ∷ xs) ys h = rw (h.0, pieces-append xs ys h.1) refl

nonempty-setting :
    (p : List ℕ × List ℕ) (rest : List (List ℕ))
    → nonempty (setting p ∷ rest) ≡ setting p ∷ nonempty rest
nonempty-setting ([], value) rest = refl
nonempty-setting (c ∷ key, value) rest = refl

setting-Lacks :
    (key value : List ℕ) → Lacks 59 key → Lacks 59 value → Lacks 59 (setting (key, value))
setting-Lacks [] value h k = (refl, k)
setting-Lacks (c ∷ key) value h k = (h.0, setting-Lacks key value h.1 k)

pub split_token-setting :
    (key value : List ℕ) → Lacks 61 key → split_token (setting (key, value)) ≡ some (key, value)
unfolding split_token
split_token-setting [] value h = refl
split_token-setting (c ∷ key) value h = rw (h.0, split_token-setting key value h.1) refl

abbrev pub settings : List (List ℕ × List ℕ) → List (List ℕ)
settings [] = []
settings (p ∷ ps) = setting p ∷ settings ps

pub tokens-print :
    (ps : List (List ℕ × List ℕ)) → All IsSetting ps → tokens (print ps) ≡ settings ps
unfolding tokens pieces
tokens-print [] h = refl
tokens-print ((k, v) ∷ []) h =
    ap nonempty (pieces_alone (setting (k, v)) (setting-Lacks k v h.0.1 h.0.2))
    ∙ nonempty-setting (k, v) []
tokens-print ((k, v) ∷ q ∷ ps) h =
    ap nonempty (pieces-append (setting (k, v)) (print (q ∷ ps)) (setting-Lacks k v h.0.1 h.0.2))
    ∙ nonempty-setting (k, v) (pieces (print (q ∷ ps)))
    ∙ ap (◌∷◌ (setting (k, v))) (tokens-print (q ∷ ps) h.1)
