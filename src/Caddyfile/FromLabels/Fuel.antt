-- ===== src/Caddyfile/FromLabels/Fuel.antt =====
-- getOrCreateBlock ends: a parent path is shorter than the path.
use caddy_docker_proxy.Caddyfile.FromLabels.{
  LabelsError, out_of_fuel, Labels, lookup_path, LabelsResult, get_or_create_block, parse_args,
  add_label, add_labels, from_labels,
}
use caddy_docker_proxy.Caddyfile.LabelPath.{
  split_here, split_last_dot, with_parent, find_submatch, parse_path,
}
use caddy_docker_proxy.Caddyfile.Lexer.{load, is_empty, all_tokens}
use caddy_docker_proxy.Caddyfile.Tree.{Pointer}
use caddy_docker_proxy.Prelude.{
  ℕ, zero, suc, ◌<◌, ◌≡◌, refl, ◌≢◌, inl, inr, ◌||◌, Option, none, some, List, [], ◌∷◌, arith,
  length, ok, err, ◌>>=◌, ◌==◌, Bool-cases, Text, contains_any,
}

-- What stands before the last dot.
abbrev Shorter : Text → Option (Text × Text) → Type 0
Shorter s none = Unit {0}
Shorter s (some (before, after)) = length before < length s

split_here-Shorter :
    (c : ℕ) (cs : Text) (r : Option (Text × Text))
    → Shorter cs r
    → Shorter (c ∷ cs) (split_here c cs r)
split_here-Shorter c cs (some (before, after)) h = omega arith
split_here-Shorter c cs none h = elim (Bool-cases (c == b'.')) [
  | inl e ↦ rw e (omega arith)
  | inr e ↦ rw e tt
]

split_last_dot-Shorter : (s : Text) → Shorter s (split_last_dot s)
unfolding split_last_dot
split_last_dot-Shorter [] = tt
split_last_dot-Shorter (c ∷ cs) =
    split_here-Shorter c cs (split_last_dot cs) (split_last_dot-Shorter cs)

abbrev ParentShorter : {A B : Type 0} → Text → Option (Text × A × B) → Type 0
ParentShorter path none = Unit {0}
ParentShorter path (some ([], m, n)) = Unit {0}
ParentShorter path (some (c ∷ cs, m, n)) = length (c ∷ cs) < length path

with_parent-ParentShorter :
    (path parent last : Text)
    → length parent < length path
    → ParentShorter path (with_parent parent last)
with_parent-ParentShorter path [] [] h = tt
with_parent-ParentShorter path (p ∷ ps) [] h = tt
with_parent-ParentShorter path [] (c ∷ cs) h = tt
with_parent-ParentShorter path (p ∷ ps) (c ∷ cs) h = h

with_parent-top : (path : Text) → ParentShorter path (with_parent [] path)
with_parent-top [] = tt
with_parent-top (c ∷ cs) = tt

find_submatch-ParentShorter : (path : Text) → ParentShorter path (find_submatch path)
unfolding find_submatch
find_submatch-ParentShorter path = with_split (split_last_dot path) refl
  where
    with_split :
        (r : Option (Text × Text))
        → split_last_dot path ≡ r
        → ParentShorter path (find_submatch path)
    with_split none e = rw (find_submatch, e) (with_parent-top path)
    with_split (some (before, after)) e =
        elim (Bool-cases (is_empty before || contains_any (λ c. c == b'\n') before)) [
          | inl t ↦ rw (find_submatch, e, t) tt
          | inr t ↦
              rw (find_submatch, e, t)
                (with_parent-ParentShorter path before after
                  (rw e at (split_last_dot-Shorter path)))
        ]

parse_path-ParentShorter : (path : Text) → ParentShorter path (parse_path path)
unfolding parse_path
parse_path-ParentShorter path =
    with_match (find_submatch path) refl (find_submatch-ParentShorter path)
  where
    with_match :
        (r : Option (Text × Text × Text))
        → find_submatch path ≡ r
        → ParentShorter path r
        → ParentShorter path (parse_path path)
    with_match none e h = rw (parse_path, e) tt
    with_match (some ([], digits, name)) e h = rw (parse_path, e) tt
    with_match (some (c ∷ cs, digits, name)) e h = rw (parse_path, e) h

abbrev IsEnough : {A : Type 0} → LabelsResult A → Type 0
IsEnough r = r ≢ err out_of_fuel

bind-IsEnough :
    {A B : Type 0} (m : LabelsResult A) (f : A → LabelsResult B)
    → IsEnough m
    → ((a : A) → IsEnough (f a))
    → IsEnough (m >>= f)
bind-IsEnough (ok a) f h k e = k a e
bind-IsEnough (err x) f h k e = h (ap_err x e)
  where
    ap_err :
        {A B : Type 0} (x : LabelsError)
        → ◌≡◌ {A = LabelsResult B} (err x) (err out_of_fuel)
        → ◌≡◌ {A = LabelsResult A} (err x) (err out_of_fuel)
    ap_err x e = cc

get_or_create_block-IsEnough :
    (fuel : ℕ) (path : Text) (s : Labels)
    → length path < fuel
    → IsEnough (get_or_create_block fuel path s)
unfolding get_or_create_block
get_or_create_block-IsEnough zero path s h = absurd (omega arith)
get_or_create_block-IsEnough (suc fuel) path s h =
    found (lookup_path path s.blocks_by_path) refl
      (λ c cs k. get_or_create_block-IsEnough fuel (c ∷ cs) s k)
  where
    parsed :
        (r : Option (Text × ℕ × Text))
        → parse_path path ≡ r
        → ParentShorter path r
        → lookup_path path s.blocks_by_path ≡ none
        → ((c : ℕ) (cs : Text)
            → length (c ∷ cs) < fuel
            → IsEnough (get_or_create_block fuel (c ∷ cs) s))
        → IsEnough (get_or_create_block (suc fuel) path s)
    parsed none q k e rec = rw (get_or_create_block, e, q) (λ x. cc)
    parsed (some ([], n, name)) q k e rec = rw (get_or_create_block, e, q) (λ x. cc)
    parsed (some (c ∷ cs, n, name)) q k e rec =
        rw (get_or_create_block, e, q)
          (bind-IsEnough (get_or_create_block fuel (c ∷ cs) s) _ (rec c cs (omega arith))
            (λ a x. cc))

    found :
        (r : Option Pointer)
        → lookup_path path s.blocks_by_path ≡ r
        → ((c : ℕ) (cs : Text)
            → length (c ∷ cs) < fuel
            → IsEnough (get_or_create_block fuel (c ∷ cs) s))
        → IsEnough (get_or_create_block (suc fuel) path s)
    found (some p) e rec = rw (get_or_create_block, e) (λ x. cc)
    found none e rec = parsed (parse_path path) refl (parse_path-ParentShorter path) e rec

parse_args-IsEnough : (text : Text) → IsEnough (parse_args text)
unfolding parse_args all_tokens load
parse_args-IsEnough [] = λ e. cc
parse_args-IsEnough (c ∷ cs) = λ e. cc

module _ (process_variables : Text → LabelsResult Text) where
  add_label-IsEnough :
      ((value : Text) → IsEnough (process_variables value))
      → (label value : Text) (s : Labels) → IsEnough (add_label process_variables label value s)
  unfolding add_label
  add_label-IsEnough h label value s =
      bind-IsEnough (get_or_create_block (suc (length label)) label s) _
        (get_or_create_block-IsEnough (suc (length label)) label s (omega arith))
        (λ a.
          bind-IsEnough (process_variables value) _ (h value)
            (λ text. bind-IsEnough (parse_args text) _ (parse_args-IsEnough text) (λ args e. cc)))

  add_labels-IsEnough :
      ((value : Text) → IsEnough (process_variables value))
      → (labels : List (Text × Text)) (s : Labels)
      → IsEnough (add_labels process_variables labels s)
  unfolding add_labels
  add_labels-IsEnough h [] s = λ e. cc
  add_labels-IsEnough h ((label, value) ∷ rest) s =
      bind-IsEnough (add_label process_variables label value s) _
        (add_label-IsEnough h label value s) (add_labels-IsEnough h rest)

  -- FromLabels ends: if the template engine does not report the end of the fuel, FromLabels does not,
  -- so it returns a container, an error of a template or of an argument, or panics on a label.
  pub from_labels-IsEnough :
      ((value : Text) → process_variables value ≢ err out_of_fuel)
      → (labels : List (Text × Text)) → from_labels process_variables labels ≢ err out_of_fuel
  unfolding from_labels
  from_labels-IsEnough h labels =
      bind-IsEnough (add_labels process_variables labels _) _ (add_labels-IsEnough h labels _)
        (λ s e. cc)
