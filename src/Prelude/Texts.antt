-- ===== src/Prelude/Texts.antt =====
-- Go's strings as lists of code points, with `==`, `<` and the functions of package strings that
-- the program uses. On valid UTF-8 the order of bytes is the order of code points.
use Prim.Native.Nat.{ℕ, ◌+◌}
use Prim.Native.Char.{code}
use Prim.Native.String.{String}
use mathlib.Core.Path.{◌≡◌, refl}
use mathlib.Core.Logic.{◌↔◌}
use mathlib.Core.Bool.{Bool, true, false, not, ◌&&◌, ◌||◌}
use mathlib.Core.List.{List, [], ◌∷◌, reverse}
use native.Mathlib.Omega.{arith}
use mathlib.Core.Option.{Option, none, some}
use caddy_docker_proxy.Prelude.Tests.{◌==◌, ltb, if◌then◌else◌}
use caddy_docker_proxy.Prelude.Lists.{length, drop}

abbrev pub Text : Type 0
Text = List ℕ

-- The code points of a literal.
abbrev pub codes : String → Text
codes String.[] = []
codes (String.◌∷◌ c s) = code c ∷ codes s

-- `a == b` on strings.
unfoldable pub text_eq : Text → Text → Bool
text_eq [] [] = true
text_eq (x ∷ xs) (y ∷ ys) = x == y && text_eq xs ys
text_eq _ _ = false

pub text_eq_iff : (a b : Text) → (text_eq a b ≡ true) ↔ (a ≡ b)
unfolding text_eq
text_eq_iff [] [] = ground arith
text_eq_iff (x ∷ a) (y ∷ b) = ground (arith, text_eq_iff a b)
text_eq_iff _ _ = ground arith

pub text_eq_refl : (a : Text) → text_eq a a ≡ true
text_eq_refl a = (text_eq_iff a a).1 refl

-- `a < b` on strings.
unfoldable pub text_lt : Text → Text → Bool
text_lt [] [] = false
text_lt [] (y ∷ ys) = true
text_lt (x ∷ xs) [] = false
text_lt (x ∷ xs) (y ∷ ys) = ltb x y || (x == y && text_lt xs ys)

-- strings.HasPrefix(s, p), with the prefix first.
unfoldable pub has_prefix : Text → Text → Bool
has_prefix [] s = true
has_prefix (x ∷ p) [] = false
has_prefix (x ∷ p) (y ∷ s) = x == y && has_prefix p s

-- strings.HasSuffix(s, p), with the suffix first.
unfoldable pub has_suffix : Text → Text → Bool
unfolding has_prefix
has_suffix p s = has_prefix (reverse p) (reverse s)

-- Some code point of the text passes the test (strings.ContainsAny).
unfoldable pub contains_any : (ℕ → Bool) → Text → Bool
contains_any p [] = false
contains_any p (x ∷ s) = p x || contains_any p s

-- The number of occurrences of one code point (strings.Count of a single character).
unfoldable pub count : ℕ → Text → ℕ
count c [] = 0
count c (x ∷ s) = elim (x == c) [ true ↦ 1 | false ↦ 0 ] + count c s

-- unicode.IsSpace: the code points of the property White_Space.
unfoldable pub is_space : ℕ → Bool
is_space c =
    (ltb 8 c && ltb c 14)
    || c == 0x20
    || c == 0x85
    || c == 0xa0
    || c == 0x1680
    || (ltb 0x1fff c && ltb c 0x200b)
    || c == 0x2028
    || c == 0x2029
    || c == 0x202f
    || c == 0x205f
    || c == 0x3000

unfoldable pub is_digit : ℕ → Bool
is_digit c = ltb 0x2f c && ltb c 0x3a

-- The longest prefix that passes the test, and what follows it.
unfoldable pub span : (ℕ → Bool) → Text → Text × Text
span p [] = ([], [])
span p (x ∷ s) = let (run, rest) = span p s in if p x then (x ∷ run, rest) else ([], x ∷ s)

unfoldable pub drop_spaces : Text → Text
unfolding is_space
drop_spaces [] = []
drop_spaces (x ∷ s) = if is_space x then drop_spaces s else x ∷ s

-- strings.TrimSpace
unfoldable pub trim_space : Text → Text
unfolding drop_spaces
trim_space s = reverse (drop_spaces (reverse (drop_spaces s)))

-- The text after the first occurrence of a text.
unfoldable pub after_first : Text → Text → Option Text
unfolding has_prefix
after_first sub [] = if has_prefix sub [] then some [] else none
after_first sub (x ∷ s) =
    if has_prefix sub (x ∷ s) then some (drop (length sub) (x ∷ s)) else after_first sub s

-- strings.Contains(s, part), with the part first.
unfoldable pub contains : Text → Text → Bool
unfolding after_first
contains part s = elim (after_first part s) [ none ↦ false | some _ ↦ true ]

-- strings.Fields(s)[0] where there is one, and "" otherwise.
unfoldable pub first_field : Text → Text
unfolding drop_spaces span
first_field s = (span (λ c. not (is_space c)) (drop_spaces s)).0
