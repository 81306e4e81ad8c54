-- ===== src/Prelude/Lists.antt =====
-- Lists measured by native numbers, membership and order by recursion.
use Prim.Native.Nat.{ℕ, zero, suc, ◌+◌}
use mathlib.Core.Path.{◌≡◌, refl, sym, ap, subst, ◌∙◌}
use mathlib.Core.Logic.{◌⊎◌, inl, inr}
use mathlib.Core.Bool.{Bool, true, false, ◌||◌}
use mathlib.Core.List.{List, [], ◌∷◌, ◌++◌}
use native.Mathlib.Omega.{arith}
use caddy_docker_proxy.Prelude.Tests.{if◌then◌else◌}

module _ {ℓ} {A : Type ℓ} where
  abbrev pub length : List A → ℕ
  length [] = 0
  length (x ∷ xs) = suc (length xs)

  pub length-append : (xs ys : List A) → length (xs ++ ys) ≡ length xs + length ys
  length-append [] ys = omega arith
  length-append (x ∷ xs) ys = omega (arith, length-append xs ys)

  abbrev pub drop : ℕ → List A → List A
  drop zero xs = xs
  drop (suc n) [] = []
  drop (suc n) (x ∷ xs) = drop n xs

  -- Some element passes the test.
  abbrev pub any : (A → Bool) → List A → Bool
  any p [] = false
  any p (x ∷ xs) = p x || any p xs

  -- The elements that pass the test, in their order.
  abbrev pub keep : (A → Bool) → List A → List A
  keep p [] = []
  keep p (x ∷ xs) = let rest = keep p xs in if p x then x ∷ rest else rest

  abbrev pub flat_map {κ} : {B : Type κ} → (A → List B) → List A → List B
  flat_map f [] = []
  flat_map f (x ∷ xs) = f x ++ flat_map f xs

  -- Every element satisfies the predicate.
  abbrev pub All {κ} : (A → Type κ) → List A → Type κ
  All P [] = Unit
  All P (x ∷ xs) = P x × All P xs

-- The element stands in the list; the position is kept.
abbrev pub In : {A : Type 0} → A → List A → Type 0
In a [] = ⊥
In a (x ∷ xs) = (x ≡ a) ⊎ In a xs

-- What holds of all elements, element by element.
pub All-lookup : {A : Type 0} (P : A → Type 0) (xs : List A) (a : A) → All P xs → In a xs → P a
All-lookup P [] a h i = absurd i
All-lookup P (x ∷ xs) a h (inl e) = subst P e h.0
All-lookup P (x ∷ xs) a h (inr i) = All-lookup P xs a h.1 i

pub All-tabulate :
    {A : Type 0} (P : A → Type 0) (xs : List A) → ((a : A) → In a xs → P a) → All P xs
All-tabulate P [] f = tt
All-tabulate P (x ∷ xs) f = (f x (inl refl), All-tabulate P xs (λ a i. f a (inr i)))

pub All-append :
    {A : Type 0} (P : A → Type 0) (xs ys : List A) → All P xs → All P ys → All P (xs ++ ys)
All-append P [] ys h k = k
All-append P (x ∷ xs) ys h k = (h.0, All-append P xs ys h.1 k)

-- What passes a test is an element that passes it, and the other way round.
pub In-keep :
    {A : Type 0} (p : A → Bool) (xs : List A) (a : A) → In a (keep p xs) → In a xs × (p a ≡ true)
In-keep p [] a i = absurd i
In-keep {A} p (x ∷ xs) a i = go (p x) refl i (In-keep p xs a)
  where
    go :
        (t : Bool)
        → p x ≡ t
        → In a (if t then x ∷ keep p xs else keep p xs)
        → (In a (keep p xs) → In a xs × (p a ≡ true))
        → In a (x ∷ xs) × (p a ≡ true)
    go true e (inl f) rest = (inl f, subst (λ y. p y ≡ true) f e)
    go true e (inr j) rest = let (k, q) = rest j in (inr k, q)
    go false e j rest = let (k, q) = rest j in (inr k, q)

pub keep-In :
    {A : Type 0} (p : A → Bool) (xs : List A) (a : A) → In a xs → p a ≡ true → In a (keep p xs)
keep-In p [] a i h = absurd i
keep-In {A} p (x ∷ xs) a i h = go (p x) refl i (λ j. keep-In p xs a j h)
  where
    go :
        (t : Bool)
        → p x ≡ t
        → In a (x ∷ xs)
        → (In a xs → In a (keep p xs))
        → In a (if t then x ∷ keep p xs else keep p xs)
    go true e (inl f) rest = inl f
    go true e (inr j) rest = inr (rest j)
    go false e (inl f) rest = absurd (clash (sym e ∙ ap p f ∙ h))
      where
        clash : false ≡ true → ⊥
        clash c = cc
    go false e (inr j) rest = rest j
