-- ===== src/Prelude/Sorting.antt =====
-- sort.Strings does not depend on the order of its argument.
use mathlib.Core.Path.{◌≡◌, refl, ap, ap₂, ◌∙◌}
use mathlib.Core.Bool.{true, false}
use mathlib.Core.List.{List, [], ◌∷◌, Permᴰ, Perm}
use mathlib.Core.Logic.{∥∥₁_elim}
use native.Mathlib.Omega.{arith}
use caddy_docker_proxy.Prelude.Texts.{Text, text_lt}
use caddy_docker_proxy.Prelude.Maps.{insert_text, sort_strings}

text_lt-asym : (a b : Text) → text_lt a b ≡ true → text_lt b a ≡ false
unfolding text_lt
text_lt-asym (x ∷ a) (y ∷ b) h = ground (arith, text_lt-asym a b)
text_lt-asym [] [] h = cc
text_lt-asym [] (y ∷ b) h = refl
text_lt-asym (x ∷ a) [] h = cc

text_lt_trans : (a b c : Text) → text_lt a b ≡ true → text_lt b c ≡ true → text_lt a c ≡ true
unfolding text_lt
text_lt_trans (x ∷ a) (y ∷ b) (z ∷ c) h k = ground (arith, text_lt_trans a b c)
text_lt_trans [] (y ∷ b) (z ∷ c) h k = refl
text_lt_trans [] [] c h k = cc
text_lt_trans (x ∷ a) [] c h k = cc
text_lt_trans a (y ∷ b) [] h k = cc

text_lt-eq : (a b : Text) → text_lt a b ≡ false → text_lt b a ≡ false → a ≡ b
unfolding text_lt
text_lt-eq (x ∷ a) (y ∷ b) h k = ground (arith, text_lt-eq a b)
text_lt-eq [] [] h k = refl
text_lt-eq [] (y ∷ b) h k = cc
text_lt-eq (x ∷ a) [] h k = cc

-- Two texts go in in either order.
insert_text_comm :
    (x y : Text) (zs : List Text)
    → insert_text x (insert_text y zs) ≡ insert_text y (insert_text x zs)
unfolding insert_text
insert_text_comm x y [] = ground (arith, text_lt-asym x y, text_lt-eq x y)
insert_text_comm x y (z ∷ zs) = ground (
  arith,
  insert_text_comm x y zs,
  text_lt-asym x y,
  text_lt-asym y x,
  text_lt-eq x y,
  text_lt_trans z x y,
  text_lt_trans z y x,
)

sort_strings-Permᴰ : {xs ys : List Text} → Permᴰ xs ys → sort_strings xs ≡ sort_strings ys
unfolding sort_strings
sort_strings-Permᴰ Permᴰ.nil = refl
sort_strings-Permᴰ (Permᴰ.cons {a = a} {b = b} e p) = ap₂ insert_text e (sort_strings-Permᴰ p)
sort_strings-Permᴰ (Permᴰ.swap {a = a} {b = b} {l = l} e f) =
    insert_text_comm a b (sort_strings l)
    ∙ ap₂ insert_text f (ap (λ z. insert_text z (sort_strings l)) e)
sort_strings-Permᴰ (Permᴰ.trans p q) = sort_strings-Permᴰ p ∙ sort_strings-Permᴰ q

texts-IsSet : IsSet (List Text)
texts-IsSet = hlevel

-- A list of strings sorts the same in every order.
pub sort_strings-Perm : {xs ys : List Text} → Perm xs ys → sort_strings xs ≡ sort_strings ys
sort_strings-Perm p = ∥∥₁_elim p (texts-IsSet _ _) sort_strings-Permᴰ
