-- ===== src/Caddyfile/LabelPath.antt =====
-- caddyfile/fromlabels.go: parsePath. labelParserRegex, `^(?:(.+)\.)?(?:(\d+)_)?([^.]+?)(?:_(\d+))?$`,
-- as a function: the last dot ends the parent path, since no dot may stand behind it.
use caddy_docker_proxy.Caddyfile.Block.{max_int32}
use caddy_docker_proxy.Caddyfile.Lexer.{is_empty}
use caddy_docker_proxy.Prelude.{
  ℕ, ◌+◌, ◌-◌, ◌*◌, ◌^◌, Bool, true, false, ◌&&◌, ◌||◌, Option, none, some, [], ◌∷◌, ltb, ◌==◌,
  if◌then◌else◌, Text, contains_any, is_digit, span,
}

abbrev pub split_here : ℕ → Text → Option (Text × Text) → Option (Text × Text)
split_here c cs (some (before, after)) = some (c ∷ before, after)
split_here c cs none = if c == b'.' then some ([], cs) else none

-- The text before the last dot and the one behind it.
unfoldable pub split_last_dot : Text → Option (Text × Text)
split_last_dot [] = none
split_last_dot (c ∷ cs) = split_here c cs (split_last_dot cs)

-- `\d+`
unfoldable pub all_digits : Text → Bool
unfolding is_digit
all_digits [] = true
all_digits (c ∷ cs) = is_digit c && all_digits cs

unfoldable pub is_number : Text → Bool
unfolding all_digits
is_number [] = false
is_number (c ∷ cs) = all_digits (c ∷ cs)

-- `(?:_(\d+))?$` is taken off as early as it fits, behind the first character of the name.
unfoldable pub drop_suffix : Text → Text
unfolding is_number
drop_suffix [] = []
drop_suffix (c ∷ cs) = if c == b'_' && is_number cs then [] else c ∷ drop_suffix cs

unfoldable pub name_of : Text → Text
unfolding drop_suffix
name_of [] = []
name_of (c ∷ cs) = c ∷ drop_suffix cs

-- The digits in front count if "_" and a name follow.
abbrev pub with_prefix : Text → Text × Text → Text × Text
with_prefix last (d ∷ ds, u ∷ c ∷ cs) =
    if u == b'_' then (d ∷ ds, name_of (c ∷ cs)) else ([], name_of last)
with_prefix last _ = ([], name_of last)

-- `(?:(\d+)_)?([^.]+?)(?:_(\d+))?$`: the digits of the order, and the name.
unfoldable pub match_name : Text → Text × Text
unfolding span is_digit name_of
match_name last = with_prefix last (span is_digit last)

abbrev pub with_parent : Text → Text → Option (Text × Text × Text)
with_parent parent [] = none
with_parent parent (c ∷ cs) =
    let (digits, name) = match_name (c ∷ cs) in some (parent, digits, name)

-- FindStringSubmatch: the groups 1 to 3, or `none` for a nil slice. `.` is no line break.
unfoldable pub find_submatch : Text → Option (Text × Text × Text)
unfolding split_last_dot match_name contains_any
find_submatch path = elim (split_last_dot path) [
  | none ↦ with_parent [] path
  | some (before, after) ↦
      if is_empty before || contains_any (λ c. c == b'\n') before
      then none
      else with_parent before after
]

abbrev pub max_int64 : ℕ
max_int64 = 2 ^ 63 - 1

-- The number that digits stand for.
unfoldable pub to_number : ℕ → Text → ℕ
to_number n [] = n
to_number n (c ∷ cs) = to_number (n * 10 + (c - b'0')) cs

-- strconv.Atoi of digits; out of range it returns the largest int (and an error, which is dropped).
unfoldable pub atoi : Text → ℕ
unfolding to_number
atoi digits = let n = to_number 0 digits in if ltb max_int64 n then max_int64 else n

-- `none` is the panic on `match[1]` where the path does not match.
unfoldable pub parse_path : Text → Option (Text × ℕ × Text)
unfolding find_submatch atoi
parse_path path = elim (find_submatch path) [
  | none ↦ none
  | some (parent, digits, name) ↦
      some (parent, if is_empty digits then max_int32 else atoi digits, name)
]
