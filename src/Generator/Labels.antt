-- ===== src/Generator/Labels.antt =====
-- generator/labels.go, and filterLabels of generator/generator.go.
pub mod Imports
pub mod Targets
use caddy_docker_proxy.Caddyfile.Block.{
  Block, block, Container, nil, cons, children, create_block, add_keys, add_block, get_first_key,
  to_list, is_global_block, is_snippet, is_matcher,
}
use caddy_docker_proxy.Caddyfile.FromLabels.{LabelsResult, from_labels}
use caddy_docker_proxy.Caddyfile.Lexer.{is_empty}
use caddy_docker_proxy.Prelude.{
  ℕ, zero, suc, ◌+◌, ◌/◌, ◌%◌, Bool, true, not, ◌&&◌, ◌||◌, List, [], ◌∷◌, ◌++◌, map, ℤ, pos,
  negsuc, length, drop, any, sort_strings, join, Result, ok, ◌>>=◌, ltb, ◌==◌, if◌then◌else◌, Text,
  codes, text_eq, has_prefix, is_digit, span, trim_space,
}

-- An argument of the template function `upstreams`: a string, an int, or anything else.
pub data Param : Type 0 where
  protocol : Text → Param
  port : ℤ → Param
  other_value : Param

-- strconv.Itoa: the digits of a number in front of a text, on fuel that bounds their number.
unfoldable pub digits_of : ℕ → ℕ → Text → Text
digits_of zero n rest = rest
digits_of (suc fuel) n rest =
    let more = digits_of fuel (n / 10) ((b'0' + n % 10) ∷ rest) in
    if ltb n 10 then (b'0' + n) ∷ rest else more

unfoldable pub itoa : ℤ → Text
unfolding digits_of
itoa (pos n) = digits_of (suc n) n []
itoa (negsuc n) = b'-' ∷ digits_of (suc (suc n)) (suc n) []

unfoldable pub apply_params : List Param → Text → Text
unfolding itoa
apply_params [] target = target
apply_params (protocol p ∷ ps) target = apply_params ps (p ++ (codes "://" ++ target))
apply_params (port n ∷ ps) target = apply_params ps (target ++ (codes ":" ++ itoa n))
apply_params (other_value ∷ ps) target = apply_params ps target

-- The template function: what it returns for the targets, if they could be determined.
unfoldable pub upstreams : Result Text (List Text) → List Param → Result Text Text
unfolding apply_params sort_strings join
upstreams targets params = do
  ts ← targets
  ok (join (codes " ") (sort_strings (map (apply_params params) (sort_strings ts))))

unfoldable pub has_directive : Block → Text → Bool
unfolding get_first_key text_eq
has_directive b name = any (λ c. text_eq (get_first_key c) name) (to_list (children b))

-- `importBlock`
unfoldable pub import_block : Text → Block
unfolding add_keys create_block
import_block name = add_keys (codes "import" ∷ name ∷ []) create_block

unfoldable pub import_into : Text → Block → Block
unfolding has_directive import_block add_block is_global_block is_snippet is_matcher
import_into name (block cs o ks) =
    let b = block cs o ks in
    if is_global_block b || is_snippet b || is_matcher b
    then b
    else if has_directive b (codes "import") || has_directive b (codes "tls")
    then b
    else block (add_block (import_block name) cs) o ks

unfoldable pub apply_default_import : Text → Container → Container
unfolding import_into
apply_default_import name nil = nil
apply_default_import name (cons b cs) = cons (import_into name b) (apply_default_import name cs)

-- `if strings.TrimSpace(defaultImport) != "" { … }`
abbrev pub with_default_import : Text → Container → Container
with_default_import [] container = container
with_default_import (c ∷ cs) container = apply_default_import (c ∷ cs) container

-- The template engine is a parameter: it takes the function `upstreams` and a value.
module _ (template : (List Param → Result Text Text) → Text → LabelsResult Text) where
  unfoldable pub labels_to_caddyfile :
      List (Text × Text) → Text → Result Text (List Text) → LabelsResult Container
  unfolding from_labels upstreams apply_default_import trim_space
  labels_to_caddyfile labels default_import targets = do
    container ← from_labels (template (upstreams targets)) labels
    ok (with_default_import (trim_space default_import) container)

-- `(\.|$)`
abbrev pub ends_or_dot : Text → Bool
ends_or_dot [] = true
ends_or_dot (c ∷ cs) = c == b'.'

-- Digits, and then the end or a dot.
abbrev pub number_ends : Text × Text → Bool
number_ends (digits, rest) = not (is_empty digits) && ends_or_dot rest

-- `(_\d+)?(\.|$)`
abbrev pub matches_suffix : Text → Bool
matches_suffix [] = true
matches_suffix (u ∷ cs) = if u == b'_' then number_ends (span is_digit cs) else ends_or_dot (u ∷ cs)

-- labelRegex, `^prefix(_\d+)?(\.|$)`, in CreateGenerator.
unfoldable pub label_matches : Text → Text → Bool
unfolding has_prefix span is_digit
label_matches prefix label = has_prefix prefix label && matches_suffix (drop (length prefix) label)

-- `strings.Replace(label, prefix, "caddy", 1)` where the label begins with the prefix.
abbrev pub canonical : Text → Text → Text
canonical prefix label = codes "caddy" ++ drop (length prefix) label

-- filterLabels. The resulting map keeps one value for each label; the labels of the argument differ.
unfoldable pub filter_labels : Text → List (Text × Text) → List (Text × Text)
unfolding label_matches
filter_labels prefix [] = []
filter_labels prefix ((label, value) ∷ rest) =
    let others = filter_labels prefix rest in
    if label_matches prefix label then (canonical prefix label, value) ∷ others else others
