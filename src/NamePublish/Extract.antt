-- ===== src/NamePublish/Extract.antt =====
-- namepublish/extract.go. `url.Parse` and `net.SplitHostPort` are parameters: the host that they find,
-- or `none` for an error. The map `seen` has the keys that `names` has.
pub mod Sound
use caddy_docker_proxy.Caddyfile.Block.{
  Block, Container, nil, cons, keys, is_global_block, is_snippet, is_matcher,
}
use caddy_docker_proxy.Caddyfile.Lexer.{is_empty}
use caddy_docker_proxy.Caddyfile.Parser.{ParseError, unmarshal}
use caddy_docker_proxy.Prelude.{
  ℕ, Bool, true, false, not, ◌&&◌, ◌||◌, Option, none, some, List, [], ◌∷◌, ◌++◌, map, drop, keep,
  flat_map, has_member, Result, ok, ◌>>=◌, ◌==◌, if◌then◌else◌, Text, codes, has_prefix, has_suffix,
  span, trim_space, after_first,
}
use mathlib.Core.List.{foldl, reverse}

abbrev pub split_part : Bool → ℕ → List Text → List Text
split_part true x parts = [] ∷ parts
split_part false x [] = []
split_part false x (part ∷ parts) = (x ∷ part) ∷ parts

-- strings.Split by one character.
unfoldable pub split_on : ℕ → Text → List Text
split_on c [] = [] ∷ []
split_on c (x ∷ s) = split_part (x == c) x (split_on c s)

-- splitNameToken
unfoldable pub split_name_token : Text → List Text
unfolding split_on trim_space
split_name_token token = keep (λ part. not (is_empty part)) (map trim_space (split_on b',' token))

abbrev pub or_value : Text → Option Text → Text
or_value name none = name
or_value name (some host) = host

abbrev pub some_nonempty : Text → Option Text
some_nonempty [] = none
some_nonempty (c ∷ cs) = some (c ∷ cs)

-- `strings.SplitN(name, "/", 2)[0]`; a name without a slash stays.
unfoldable pub before_slash : Text → Text
unfolding span
before_slash name = (span (λ c. not (c == b'/')) name).0

-- The brackets around an address are taken off.
unfoldable pub strip_brackets : Text → Text
unfolding has_prefix has_suffix
strip_brackets name =
    if has_prefix (codes "[") name && has_suffix (codes "]") name
    then drop 1 (reverse (drop 1 (reverse name)))
    else name

-- Global blocks, snippets and matchers are passed over.
unfoldable pub is_skipped : Block → Bool
unfolding is_global_block is_snippet is_matcher
is_skipped b = is_global_block b || is_snippet b || is_matcher b

-- The parts of all keys of the other blocks, in order.
unfoldable pub site_parts : Container → List Text
unfolding is_skipped split_name_token
site_parts nil = []
site_parts (cons b bs) =
    (if is_skipped b then [] else flat_map split_name_token (keys b)) ++ site_parts bs

module _ (url_host split_host_port : Text → Option Text) where
  -- `if strings.Contains(name, "://") { … }`
  unfoldable pub without_scheme : Text → Text
  unfolding after_first
  without_scheme name = elim (after_first (codes "://") name) [
    | none ↦ name
    | some _ ↦ or_value name (url_host name)
  ]

  unfoldable pub without_port : Text → Text
  without_port name = or_value name (split_host_port name)

  -- normalizeName of a name that is not empty, from the scheme on.
  unfoldable pub host_of : Text → Option Text
  unfolding without_scheme before_slash has_prefix strip_brackets without_port trim_space
  host_of name =
      let host = before_slash (without_scheme name) in
      if has_prefix (codes ":") host
      then none
      else some_nonempty (trim_space (without_port (strip_brackets host)))

  -- normalizeName
  unfoldable pub normalize_name : Text → Option Text
  unfolding host_of trim_space
  normalize_name raw = let name = trim_space raw in if is_empty name then none else host_of name

  -- One part: it is appended to the names unless it was seen.
  unfoldable pub add_part : List Text → Text → List Text
  unfolding normalize_name has_member
  add_part names part = elim (normalize_name part) [
    | none ↦ names
    | some name ↦ if has_member name names then names else names ++ name ∷ []
  ]

  -- ExtractDesiredNames
  unfoldable pub extract_desired_names : Text → Result ParseError (List Text)
  unfolding unmarshal site_parts add_part
  extract_desired_names caddyfile = do
    container ← unmarshal caddyfile
    ok (foldl add_part [] (site_parts container))
