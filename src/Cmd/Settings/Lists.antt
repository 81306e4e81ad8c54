-- ===== src/Cmd/Settings/Lists.antt =====
-- The lists of createOptions.
use caddy_docker_proxy.Caddyfile.Lexer.{is_empty}
use caddy_docker_proxy.Cmd.Settings.{on_first, split_commas, text_setting, list_setting}
use caddy_docker_proxy.Prelude.{
  ℕ, ◌≡◌, refl, sym, ap, ap₂, ◌∙◌, ◌≢◌, inl, inr, false, List, [], ◌∷◌, any, All, join, ◌==◌,
  ==_iff, Bool-cases, Text, codes,
}

join-on_first :
    (c : ℕ) (parts : List Text)
    → parts ≢ []
    → join (codes ",") (on_first c parts) ≡ c ∷ join (codes ",") parts
unfolding join
join-on_first c [] h = absurd (h refl)
join-on_first c (p ∷ []) h = refl
join-on_first c (p ∷ q ∷ parts) h = refl

join-empty_first :
    (parts : List Text) → parts ≢ [] → join (codes ",") ([] ∷ parts) ≡ b',' ∷ join (codes ",") parts
unfolding join
join-empty_first [] h = absurd (h refl)
join-empty_first (p ∷ parts) h = refl

cons_not_nil : {p : Text} {ps : List Text} → ◌≡◌ {A = List Text} (p ∷ ps) [] → ⊥
cons_not_nil q = cc

split_commas-nonempty : (t : Text) → split_commas t ≢ []
unfolding split_commas
split_commas-nonempty [] e = cc
split_commas-nonempty (c ∷ cs) e = elim (Bool-cases (c == b',')) [
  | inl t ↦ cons_not_nil (rw t at e)
  | inr t ↦ by_parts (split_commas cs) (split_commas-nonempty cs) (rw t at e)
]
  where
    by_parts : (parts : List Text) → parts ≢ [] → on_first c parts ≡ [] → ⊥
    by_parts [] h q = h refl
    by_parts (p ∷ ps) h q = cons_not_nil q

join-split_commas : (t : Text) → join (codes ",") (split_commas t) ≡ t
unfolding split_commas join
join-split_commas [] = refl
join-split_commas (c ∷ cs) = elim (Bool-cases (c == b',')) [
  | inl t ↦ rw t (
      join-empty_first (split_commas cs) (split_commas-nonempty cs)
      ∙ ap₂ (λ x xs. x ∷ xs) (sym ((==_iff c b',').0 t)) (join-split_commas cs))
  | inr t ↦ rw t (
      join-on_first c (split_commas cs) (split_commas-nonempty cs)
      ∙ ap (λ xs. c ∷ xs) (join-split_commas cs))
]

-- A text without a comma.
abbrev pub HasNoComma : Text → Type 0
HasNoComma t = any (λ c. c == b',') t ≡ false

split_commas-HasNoComma : (t : Text) → All HasNoComma (split_commas t)
unfolding split_commas
split_commas-HasNoComma [] = (refl, tt)
split_commas-HasNoComma (c ∷ cs) = elim (Bool-cases (c == b',')) [
  | inl t ↦ rw t (refl, split_commas-HasNoComma cs)
  | inr t ↦ rw t (on_first-HasNoComma (split_commas cs) t (split_commas-HasNoComma cs))
]
  where
    on_first-HasNoComma :
        (parts : List Text)
        → (c == b',') ≡ false
        → All HasNoComma parts
        → All HasNoComma (on_first c parts)
    on_first-HasNoComma [] t h = tt
    on_first-HasNoComma (p ∷ ps) t h = (rw t h.0, h.1)

-- The list that an option gets from a variable or flag that is not empty has the parts of the text
-- between its commas: none of them holds a comma, and joined with commas they are the text again.
pub list_setting-IsSplit :
    (value flag : Text)
    → is_empty (text_setting value flag) ≡ false
    → (join (codes ",") (list_setting value flag) ≡ text_setting value flag)
      × All HasNoComma (list_setting value flag)
unfolding list_setting
list_setting-IsSplit value flag h =
    rw h (
      join-split_commas (text_setting value flag),
      split_commas-HasNoComma (text_setting value flag),
    )
