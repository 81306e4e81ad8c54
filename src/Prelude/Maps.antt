-- ===== src/Prelude/Maps.antt =====
-- Go's maps from strings as association lists in the order in which `range` visits them, sets of
-- strings as lists, and package sort on strings.
use mathlib.Core.Bool.{Bool, true, false, ◌||◌}
use mathlib.Core.List.{List, [], ◌∷◌, ◌++◌}
use mathlib.Core.Option.{Option, none, some}
use mathlib.Core.Path.{◌≡◌}
use mathlib.Core.Logic.{inl, inr}
use native.Mathlib.Omega.{arith}
use caddy_docker_proxy.Prelude.Tests.{if◌then◌else◌}
use caddy_docker_proxy.Prelude.Lists.{In}
use caddy_docker_proxy.Prelude.Texts.{Text, text_eq, text_lt, text_eq_iff}

abbrev pub Entries : Type 0 → Type 0
Entries V = List (Text × V)

-- `value, ok := m[key]`
unfoldable pub find_key : {V : Type 0} → Text → Entries V → Option V
unfolding text_eq
find_key key [] = none
find_key key ((k, v) ∷ m) = if text_eq k key then some v else find_key key m

-- `_, ok := set[key]`
unfoldable pub has_member : Text → List Text → Bool
unfolding text_eq
has_member key [] = false
has_member key (k ∷ ks) = text_eq k key || has_member key ks

-- A string is found exactly where it stands in the list.
pub has_member→In : (key : Text) (ks : List Text) → has_member key ks ≡ true → In key ks
unfolding has_member
has_member→In key [] h = cc
has_member→In key (k ∷ ks) h = ground (arith, text_eq_iff k key, has_member→In key ks)

pub In→has_member : (key : Text) (ks : List Text) → In key ks → has_member key ks ≡ true
unfolding has_member
In→has_member key [] h = absurd h
In→has_member key (k ∷ ks) (inl e) = rw ((text_eq_iff k key).1 e)
In→has_member key (k ∷ ks) (inr h) = ground (arith, In→has_member key ks h)

unfoldable pub insert_text : Text → List Text → List Text
unfolding text_lt
insert_text x [] = x ∷ []
insert_text x (y ∷ ys) = if text_lt y x then y ∷ insert_text x ys else x ∷ y ∷ ys

-- sort.Strings
unfoldable pub sort_strings : List Text → List Text
unfolding insert_text
sort_strings [] = []
sort_strings (x ∷ xs) = insert_text x (sort_strings xs)

-- strings.Join
unfoldable pub join : Text → List Text → Text
join sep [] = []
join sep (x ∷ []) = x
join sep (x ∷ y ∷ xs) = x ++ (sep ++ join sep (y ∷ xs))
