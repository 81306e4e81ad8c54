-- ===== src/NamePublish/Extract/Sound.antt =====
-- Which names ExtractDesiredNames returns.
use caddy_docker_proxy.Caddyfile.Block.{Block, Container, nil, cons, keys, to_list}
use caddy_docker_proxy.Caddyfile.Parser.{unmarshal}
use caddy_docker_proxy.NamePublish.Extract.{
  split_name_token, is_skipped, site_parts, normalize_name, add_part, extract_desired_names,
}
use caddy_docker_proxy.Prelude.{
  ◌≡◌, refl, sym, ap, subst, ◌↔◌, ◌⊎◌, inl, inr, Bool, true, false, Option, none, some, List, [],
  ◌∷◌, ◌++◌, flat_map, In, has_member, has_member→In, In→has_member, ok, Bool-cases, Text,
}
use mathlib.Core.List.{foldl}

-- No name occurs twice.
abbrev pub IsDistinct : List Text → Type 0
IsDistinct [] = Unit
IsDistinct (x ∷ xs) = (In x xs → ⊥) × IsDistinct xs

In-append : {A : Type 0} (a : A) (xs ys : List A) → In a (xs ++ ys) ↔ (In a xs ⊎ In a ys)
In-append a [] ys = (inr, λ i. elim i [ inl e ↦ absurd e | inr j ↦ j ])
In-append a (x ∷ xs) ys = (forth (In-append a xs ys).0, back (In-append a xs ys).1)
  where
    forth : (In a (xs ++ ys) → In a xs ⊎ In a ys) → In a (x ∷ xs ++ ys) → In a (x ∷ xs) ⊎ In a ys
    forth f (inl e) = inl (inl e)
    forth f (inr i) = elim (f i) [ inl j ↦ inl (inr j) | inr j ↦ inr j ]

    back : (In a xs ⊎ In a ys → In a (xs ++ ys)) → In a (x ∷ xs) ⊎ In a ys → In a (x ∷ xs ++ ys)
    back f (inl (inl e)) = inl e
    back f (inl (inr i)) = inr (f (inl i))
    back f (inr j) = inr (f (inr j))

append-IsDistinct :
    (names : List Text) (name : Text)
    → IsDistinct names
    → (In name names → ⊥)
    → IsDistinct (names ++ name ∷ [])
append-IsDistinct [] name d n = (λ i. i, tt)
append-IsDistinct (x ∷ xs) name d n = (
  λ i. elim ((In-append x xs (name ∷ [])).0 i) [
    | inl j ↦ d.0 j
    | inr j ↦ elim j [ inl e ↦ n (inl (sym e)) | inr k ↦ k ]
  ],
  append-IsDistinct xs name d.1 (λ i. n (inr i)),
)

In-flat_map :
    {A B : Type 0} (f : A → List B) (b : B) (xs : List A)
    → In b (flat_map f xs) ↔ ((a : A) × In a xs × In b (f a))
In-flat_map f b [] = (λ i. absurd i, λ i. absurd i.1)
In-flat_map {A} {B} f b (x ∷ xs) = (forth (In-flat_map f b xs).0, back (In-flat_map f b xs).1)
  where
    forth :
        (In b (flat_map f xs) → (a : A) × In a xs × In b (f a))
        → In b (flat_map f (x ∷ xs))
        → (a : A) × In a (x ∷ xs) × In b (f a)
    forth g i = elim ((In-append b (f x) (flat_map f xs)).0 i) [
      | inl j ↦ (x, inl refl, j)
      | inr j ↦ let (a, k, l) = g j in (a, inr k, l)
    ]

    back :
        ((a : A) × In a xs × In b (f a) → In b (flat_map f xs))
        → (a : A) × In a (x ∷ xs) × In b (f a)
        → In b (flat_map f (x ∷ xs))
    back g (a, inl e, l) =
        (In-append b (f x) (flat_map f xs)).1 (inl (subst (λ z. In b (f z)) (sym e) l))
    back g (a, inr k, l) = (In-append b (f x) (flat_map f xs)).1 (inr (g (a, k, l)))

-- A part of a key of a site block.
abbrev pub IsSitePart : Container → Text → Type 0
IsSitePart c part =
    (b : Block) × In b (to_list c)
    × (is_skipped b ≡ false)
    × ((key : Text) × In key (keys b) × In part (split_name_token key))

In-first_site :
    (part : Text) (b : Block) (bs : Container)
    → is_skipped b ≡ false
    → In part (flat_map split_name_token (keys b))
    → In part (site_parts (cons b bs))
unfolding site_parts
In-first_site part b bs t i = rw t ((In-append part _ (site_parts bs)).1 (inl i))

In-later_site :
    (part : Text) (b : Block) (bs : Container)
    → In part (site_parts bs)
    → In part (site_parts (cons b bs))
unfolding site_parts
In-later_site part b bs i = elim (Bool-cases (is_skipped b)) [
  | inl t ↦ rw t i
  | inr t ↦ rw t ((In-append part (flat_map split_name_token (keys b)) (site_parts bs)).1 (inr i))
]

site_parts-IsSitePart : (part : Text) (c : Container) → In part (site_parts c) → IsSitePart c part
unfolding site_parts
site_parts-IsSitePart part nil i = absurd i
site_parts-IsSitePart part (cons b bs) i =
    split (Bool-cases (is_skipped b)) i (site_parts-IsSitePart part bs)
  where
    later : IsSitePart bs part → IsSitePart (cons b bs) part
    later (d, j, t, k) = (d, inr j, t, k)

    split :
        (is_skipped b ≡ true) ⊎ (is_skipped b ≡ false)
        → In part (site_parts (cons b bs))
        → (In part (site_parts bs) → IsSitePart bs part)
        → IsSitePart (cons b bs) part
    split (inl t) j h = later (h (rw (site_parts, t) at j))
    split (inr t) j h =
        elim ((In-append part (flat_map split_name_token (keys b)) (site_parts bs)).0
          (rw (site_parts, t) at j)) [
            | inl k ↦ (b, inl refl, t, (In-flat_map split_name_token part (keys b)).0 k)
            | inr k ↦ later (h k)
          ]

IsSitePart-site_parts : (part : Text) (c : Container) → IsSitePart c part → In part (site_parts c)
IsSitePart-site_parts part nil (d, i, t, k) = absurd i
IsSitePart-site_parts part (cons b bs) (d, inl e, t, k) =
    subst (λ z. In part (site_parts (cons z bs))) (sym e)
      (In-first_site part d bs t ((In-flat_map split_name_token part (keys d)).1 k))
IsSitePart-site_parts part (cons b bs) (d, inr j, t, k) =
    In-later_site part b bs (IsSitePart-site_parts part bs (d, j, t, k))

some_eq : {a b : Text} → ◌≡◌ {A = Option Text} (some a) (some b) → a ≡ b
some_eq e = cc

none-some : {b : Text} → ◌≡◌ {A = Option Text} none (some b) → ⊥
none-some e = cc

not_both : {t : Bool} → t ≡ false → t ≡ true → ⊥
not_both {t} e f = cc

module _ (url_host split_host_port : Text → Option Text) where
  abbrev normal : Text → Option Text
  normal = normalize_name url_host split_host_port

  abbrev add : List Text → Text → List Text
  add = add_part url_host split_host_port

  -- The name of one of the parts.
  abbrev IsNameOf : List Text → Text → Type 0
  IsNameOf parts name = (part : Text) × In part parts × (normal part ≡ some name)

  add_part-IsDistinct :
      (seen : List Text) (part : Text) → IsDistinct seen → IsDistinct (add seen part)
  unfolding add_part
  add_part-IsDistinct seen part d = normalized (normal part) refl
    where
      normalized : (r : Option Text) → normal part ≡ r → IsDistinct (add seen part)
      normalized none e = rw (add_part, e) d
      normalized (some name) e = elim (Bool-cases (has_member name seen)) [
        | inl t ↦ rw (add_part, e, t) d
        | inr t ↦
            rw (add_part, e, t)
              (append-IsDistinct seen name d (λ i. not_both t (In→has_member name seen i)))
      ]

  In-add_part :
      (seen : List Text) (part name : Text)
      → In name (add seen part) ↔ (In name seen ⊎ (normal part ≡ some name))
  unfolding add_part
  In-add_part seen part name = normalized (normal part) refl
    where
      normalized :
          (r : Option Text)
          → normal part ≡ r
          → In name (add seen part) ↔ (In name seen ⊎ (normal part ≡ some name))
      normalized none e =
          rw (add_part, e) (inl, λ i. elim i [ inl j ↦ j | inr q ↦ absurd (none-some q) ])
      normalized (some n) e = elim (Bool-cases (has_member n seen)) [
        | inl t ↦
            rw (add_part, e, t)
              (
                inl,
                λ i. elim i [
                  | inl j ↦ j
                  | inr q ↦ subst (λ z. In z seen) (some_eq q) (has_member→In n seen t)
                ],
              )
        | inr t ↦
            rw (add_part, e, t)
              (
                λ i. elim ((In-append name seen (n ∷ [])).0 i) [
                  | inl j ↦ inl j
                  | inr j ↦ elim j [ inl q ↦ inr (ap some q) | inr k ↦ absurd k ]
                ],
                λ i.
                    (In-append name seen (n ∷ [])).1
                      (elim i [ inl j ↦ inl j | inr q ↦ inr (inl (some_eq q)) ]),
              )
      ]

  foldl-IsDistinct : (parts seen : List Text) → IsDistinct seen → IsDistinct (foldl add seen parts)
  foldl-IsDistinct [] seen d = d
  foldl-IsDistinct (p ∷ ps) seen d = foldl-IsDistinct ps (add seen p) (add_part-IsDistinct seen p d)

  In-foldl :
      (name : Text) (parts seen : List Text)
      → In name (foldl add seen parts) ↔ (In name seen ⊎ IsNameOf parts name)
  In-foldl name [] seen = (inl, λ i. elim i [ inl j ↦ j | inr j ↦ absurd j.1 ])
  In-foldl name (p ∷ ps) seen = (
    forth (In-add_part seen p name).0 (In-foldl name ps (add seen p)).0,
    back (In-add_part seen p name).1 (In-foldl name ps (add seen p)).1,
  )
    where
      forth :
          (In name (add seen p) → In name seen ⊎ (normal p ≡ some name))
          → (In name (foldl add (add seen p) ps) → In name (add seen p) ⊎ IsNameOf ps name)
          → In name (foldl add seen (p ∷ ps))
          → In name seen ⊎ IsNameOf (p ∷ ps) name
      forth f g i = elim (g i) [
        | inl j ↦ elim (f j) [ inl k ↦ inl k | inr q ↦ inr (p, inl refl, q) ]
        | inr (part, k, q) ↦ inr (part, inr k, q)
      ]

      back :
          (In name seen ⊎ (normal p ≡ some name) → In name (add seen p))
          → (In name (add seen p) ⊎ IsNameOf ps name → In name (foldl add (add seen p) ps))
          → In name seen ⊎ IsNameOf (p ∷ ps) name
          → In name (foldl add seen (p ∷ ps))
      back f g (inl i) = g (inl (f (inl i)))
      back f g (inr (part, inl e, q)) =
          g (inl (f (inr (subst (λ z. normal z ≡ some name) (sym e) q))))
      back f g (inr (part, inr k, q)) = g (inr (part, k, q))

  -- A name that a site of the container asks for.
  abbrev pub IsDesired : Container → Text → Type 0
  IsDesired c name =
      (part : Text) × IsSitePart c part × (normalize_name url_host split_host_port part ≡ some name)

  -- ExtractDesiredNames of a text that Unmarshal reads returns names: each only once, and exactly
  -- those that normalizeName makes of the parts of the keys of blocks that are no global block, no
  -- snippet and no matcher.
  pub extract_desired_names-IsDesired :
      (caddyfile : Text) (c : Container)
      → unmarshal caddyfile ≡ ok c
      → (names : List Text) × (extract_desired_names url_host split_host_port caddyfile ≡ ok names)
        × IsDistinct names
        × ((name : Text) → In name names ↔ IsDesired c name)
  unfolding extract_desired_names
  extract_desired_names-IsDesired caddyfile c e = (
    foldl add [] (site_parts c),
    rw (extract_desired_names, e) refl,
    foldl-IsDistinct (site_parts c) [] tt,
    λ name. (
      λ i. elim ((In-foldl name (site_parts c) []).0 i) [
        | inl j ↦ absurd j
        | inr (part, k, q) ↦ (part, site_parts-IsSitePart part c k, q)
      ],
      λ d. (In-foldl name (site_parts c) []).1 (inr (d.0, IsSitePart-site_parts d.0 c d.1, d.2)),
    ),
  )
