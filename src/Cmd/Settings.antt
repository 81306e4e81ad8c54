-- ===== src/Cmd/Settings.antt =====
-- cmd.go: how createOptions reads a setting of each type.
pub mod Lists
use caddy_docker_proxy.Caddyfile.LabelPath.{is_number, to_number}
use caddy_docker_proxy.Caddyfile.Lexer.{is_empty}
use caddy_docker_proxy.Config.{Mode, controller, server, standalone}
use caddy_docker_proxy.Prelude.{
  ℕ, zero, suc, ◌+◌, ◌-◌, ◌^◌, Bool, true, false, not, ◌&&◌, ◌||◌, Option, none, some, List, [],
  ◌∷◌, ℤ, pos, negsuc, leb, ◌==◌, if◌then◌else◌, Text, codes, text_eq,
}

-- A letter without regard to case, as a regular expression with `(?i)` has it; only s has a third form.
abbrev pub is_letter : ℕ → ℕ → Bool
is_letter lower c = c == lower || c + 32 == lower || lower == b's' && c == 383

abbrev pub is_word : Text → Text → Bool
is_word [] [] = true
is_word (l ∷ ls) (c ∷ cs) = is_letter l c && is_word ls cs
is_word _ _ = false

-- `isTrue.MatchString`
unfoldable pub is_true : Text → Bool
is_true t = is_word (codes "true") t || is_word (codes "yes") t || text_eq t (codes "1")

-- `strings.Split(…, ",")`
abbrev pub on_first : ℕ → List Text → List Text
on_first c [] = []
on_first c (part ∷ parts) = (c ∷ part) ∷ parts

unfoldable pub split_commas : Text → List Text
split_commas [] = [] ∷ []
split_commas (c ∷ cs) =
    let rest = split_commas cs in if c == b',' then [] ∷ rest else on_first c rest

-- strconv.Atoi, for an int of 64 bits
abbrev pub negate : ℕ → ℤ
negate zero = pos 0
negate (suc n) = negsuc n

unfoldable pub signed_int : Bool → Text → Option ℤ
unfolding is_number to_number
signed_int negative digits =
    let n = to_number 0 digits in
    if not (is_number digits)
    then none
    else if negative
    then (if leb n (2 ^ 63) then some (negate n) else none)
    else if leb n (2 ^ 63 - 1)
    then some (pos n)
    else none

unfoldable pub parse_int : Text → Option ℤ
unfolding signed_int
parse_int [] = none
parse_int (c ∷ cs) =
    if c == b'-'
    then signed_int true cs
    else if c == b'+'
    then signed_int false cs
    else signed_int false (c ∷ cs)

-- A setting of each type: of the environment, where the variable is not empty, or else of the flag.
abbrev pub text_setting : Text → Text → Text
text_setting [] flag = flag
text_setting (c ∷ cs) flag = c ∷ cs

unfoldable pub bool_setting : Text → Bool → Bool
unfolding is_true
bool_setting value flag = if is_empty value then flag else is_true value

-- A value that cannot be parsed is logged, and the flag is taken.
abbrev pub or_flag {ℓ} : {A : Type ℓ} → Option A → A → A
or_flag none flag = flag
or_flag (some a) flag = a

abbrev pub parsed_setting {ℓ} : {A : Type ℓ} → (Text → Option A) → Text → A → A
parsed_setting parse value flag = if is_empty value then flag else or_flag (parse value) flag

-- A list that is missing without a value, and one that is split also then.
unfoldable pub list_setting : Text → Text → List Text
unfolding split_commas
list_setting value flag =
    let t = text_setting value flag in if is_empty t then [] else split_commas t

unfoldable pub split_setting : Text → Text → List Text
unfolding split_commas
split_setting value flag = split_commas (text_setting value flag)

unfoldable pub mode_of : Text → Mode
unfolding text_eq
mode_of mode =
    if text_eq mode (codes "controller")
    then controller
    else if text_eq mode (codes "server")
    then server
    else standalone
