-- ===== src/DockerUtils.antt =====
-- docker/utils.go: the id of the container that the program runs in. The files, the host's name and
-- the operating system are parameters.
pub mod Found
mod Tests
use caddy_docker_proxy.Generator.Docker.{Answer}
use caddy_docker_proxy.Prelude.{
  ℕ, zero, suc, Bool, true, false, not, ◌&&◌, ◌||◌, Option, none, some, List, [], ◌∷◌, length, drop,
  ok, err, ◌>>=◌, leb, ◌==◌, if◌then◌else◌, Text, codes, has_prefix, is_digit, after_first,
}

-- runtime.GOOS, os.ReadFile and os.Hostname
pub record Host : Type 0 where
  pub is_linux : Bool
  pub read_proc : Text → Answer Text
  pub hostname : Answer Text

unfoldable pub take : {A : Type 0} → ℕ → List A → List A
take zero xs = []
take (suc n) [] = []
take (suc n) (x ∷ xs) = x ∷ take n xs

abbrev pub all_of : (ℕ → Bool) → Text → Bool
all_of f [] = true
all_of f (c ∷ cs) = f c && all_of f cs

-- `[[:alnum:]]`, and with `(?i)`, where s and k have a further form each.
unfoldable pub is_alnum : ℕ → Bool
unfolding is_digit
is_alnum c = is_digit c || (leb 65 c && leb c 90) || (leb 97 c && leb c 122)

unfoldable pub is_alnum_fold : ℕ → Bool
unfolding is_alnum
is_alnum_fold c = is_alnum c || c == 383 || c == 8490

-- The match of `containers/([[:alnum:]]{64})/` at the start of a text.
unfoldable pub mount_id_at : Text → Option Text
unfolding has_prefix take is_alnum
mount_id_at t =
    let rest = drop 11 t in
    let id = take 64 rest in
    if has_prefix (codes "containers/") t
      && (length id == 64 && (all_of is_alnum id && has_prefix (codes "/") (drop 64 rest)))
    then some id
    else none

-- extractContainerIDFromMountInfo: the first match; `none` is the empty string.
unfoldable pub extract_container_id_from_mount_info : Text → Option Text
unfolding mount_id_at
extract_container_id_from_mount_info [] = none
extract_container_id_from_mount_info (c ∷ cs) =
    let later = extract_container_id_from_mount_info cs in
    elim (mount_id_at (c ∷ cs)) [ some id ↦ some id | none ↦ later ]

-- `\b` between two code points, and at the end of a text.
abbrev pub is_word_char : ℕ → Bool
is_word_char c = is_alnum c || c == b'_'

abbrev pub starts_word : Text → Bool
starts_word [] = false
starts_word (c ∷ cs) = is_word_char c

abbrev pub last_char : ℕ → Text → ℕ
last_char c [] = c
last_char c (d ∷ ds) = last_char d ds

abbrev pub is_boundary : Bool → Bool → Bool
is_boundary true b = not b
is_boundary false b = b

-- `\b([[:alnum:]]{64})\b` behind a code point.
unfoldable pub word_id_at : ℕ → Text → Option Text
unfolding take is_alnum_fold is_alnum
word_id_at before t =
    let id = take 64 t in
    if length id == 64
      && (all_of is_alnum_fold id
          && (is_boundary (is_word_char before) (starts_word id)
              && is_boundary (is_word_char (last_char before id)) (starts_word (drop 64 t))))
    then some id
    else none

-- `.*` takes as much of the line as it can: the last match.
unfoldable pub last_word_id : ℕ → Text → Option Text
unfolding word_id_at
last_word_id before [] = none
last_word_id before (c ∷ cs) =
    let later = last_word_id c cs in
    let this = word_id_at before (c ∷ cs) in
    if c == 10 then this else elim later [ some id ↦ some id | none ↦ this ]

-- The match at the start of a line; `[^:]*` may go past its end.
unfoldable pub line_id : Text → Option Text
unfolding after_first last_word_id
line_id t = elim (after_first (codes ":") t) [
  | none ↦ none
  | some second ↦ elim (after_first (codes ":") second) [
    | none ↦ none
    | some third ↦ last_word_id b':' third
  ]
]

unfoldable pub id_from : Bool → Text → Option Text
unfolding line_id
id_from line_start [] = none
id_from line_start (c ∷ cs) =
    let later = id_from (c == 10) cs in
    elim (if line_start then line_id (c ∷ cs) else none) [ some id ↦ some id | none ↦ later ]

-- extractContainerIDFromCGroups
unfoldable pub extract_container_id_from_c_groups : Text → Option Text
unfolding id_from
extract_container_id_from_c_groups t = id_from true t

abbrev pub or_empty : Option Text → Text
or_empty none = []
or_empty (some t) = t

module _ (h : Host) where
  unfoldable pub get_current_container_id_from_mount_info : Answer Text
  unfolding extract_container_id_from_mount_info
  get_current_container_id_from_mount_info = do
    bytes ← h.read_proc (codes "/proc/self/mountinfo")
    ok (or_empty (extract_container_id_from_mount_info bytes))

  unfoldable pub get_current_container_id_from_c_group : Answer Text
  unfolding extract_container_id_from_c_groups
  get_current_container_id_from_c_group = do
    bytes ← h.read_proc (codes "/proc/self/cgroup")
    ok (or_empty (extract_container_id_from_c_groups bytes))

  -- `if containerID == "" && err == nil`
  abbrev pub if_missing : Answer Text → Answer Text → Answer Text
  if_missing (ok []) next_id = next_id
  if_missing (ok (c ∷ cs)) next_id = ok (c ∷ cs)
  if_missing (err e) next_id = err e

  -- GetCurrentContainerID
  unfoldable pub get_current_container_id : Answer Text
  unfolding get_current_container_id_from_mount_info get_current_container_id_from_c_group
  get_current_container_id =
      if_missing
        (if h.is_linux
          then if_missing get_current_container_id_from_c_group
              get_current_container_id_from_mount_info
          else ok [])
        h.hostname
