-- ===== src/Caddyfile/Sort/Stable.antt =====
-- Laws of the stable sort by the blocks' order.
use caddy_docker_proxy.Caddyfile.Block.{Block}
use caddy_docker_proxy.Caddyfile.Compare.{compare_blocks}
use caddy_docker_proxy.Caddyfile.Compare.Order.{flip, compare_blocks-flip, compare_blocks_trans}
use caddy_docker_proxy.Caddyfile.Sort.{is_less, insert_by, slice_stable, same}
use caddy_docker_proxy.Prelude.{
  Ordering, ◌≡◌, refl, sym, ◌∙◌, ◌≢◌, inl, inr, Bool, true, false, List, [], ◌∷◌, map, arith, keep,
  All, Bool-cases,
}

module _ {A : Type 0} (key : A → Block) where
  -- No element is less than one in front of it.
  abbrev pub IsSorted : List A → Type 0
  IsSorted [] = Unit
  IsSorted (x ∷ xs) = All (λ y. compare_blocks (key x) (key y) ≢ Ordering.gt) xs × IsSorted xs

  abbrev NotAfter : A → List A → Type 0
  NotAfter x xs = All (λ y. compare_blocks (key x) (key y) ≢ Ordering.gt) xs

  NotAfter-trans :
      (x y : A) (zs : List A)
      → compare_blocks (key x) (key y) ≢ Ordering.gt
      → NotAfter y zs
      → NotAfter x zs
  NotAfter-trans x y [] h k = tt
  NotAfter-trans x y (z ∷ zs) h k =
      (compare_blocks_trans (key x) (key y) (key z) h k.0, NotAfter-trans x y zs h k.1)

  not_less→not_gt :
      (x y : A)
      → is_less (compare_blocks (key y) (key x)) ≡ false
      → compare_blocks (key x) (key y) ≢ Ordering.gt
  not_less→not_gt x y h =
      rw (compare_blocks-flip (key y) (key x)) (go (compare_blocks (key y) (key x)) h)
    where
      go : (o : Ordering) → is_less o ≡ false → flip o ≢ Ordering.gt
      go o e = ground arith

  less→not_gt :
      (x y : A)
      → is_less (compare_blocks (key y) (key x)) ≡ true
      → compare_blocks (key y) (key x) ≢ Ordering.gt
  less→not_gt x y h = go (compare_blocks (key y) (key x)) h
    where
      go : (o : Ordering) → is_less o ≡ true → o ≢ Ordering.gt
      go o e = ground arith

  NotAfter-insert_by :
      (x y : A) (ys : List A)
      → compare_blocks (key y) (key x) ≢ Ordering.gt
      → NotAfter y ys
      → NotAfter y (insert_by key x ys)
  unfolding insert_by
  NotAfter-insert_by x y [] h k = (h, tt)
  NotAfter-insert_by x y (z ∷ zs) h k =
      elim (Bool-cases (is_less (compare_blocks (key z) (key x)))) [
        | inl e ↦ rw e (k.0, NotAfter-insert_by x y zs h k.1)
        | inr e ↦ rw e (h, k)
      ]

  insert_by-IsSorted : (x : A) (ys : List A) → IsSorted ys → IsSorted (insert_by key x ys)
  unfolding insert_by
  insert_by-IsSorted x [] s = (tt, tt)
  insert_by-IsSorted x (y ∷ ys) s = elim (Bool-cases (is_less (compare_blocks (key y) (key x)))) [
    | inl e ↦ rw e (NotAfter-insert_by x y ys (less→not_gt x y e) s.0, insert_by-IsSorted x ys s.1)
    | inr e ↦ rw e ((not_less→not_gt x y e, NotAfter-trans x y ys (not_less→not_gt x y e) s.0), s)
  ]

  pub slice_stable-IsSorted : (xs : List A) → IsSorted (slice_stable key xs)
  unfolding slice_stable
  slice_stable-IsSorted [] = tt
  slice_stable-IsSorted (x ∷ xs) =
      insert_by-IsSorted x (slice_stable key xs) (slice_stable-IsSorted xs)

  -- In front of a sorted list a least element is inserted first.
  insert_by-first : (x : A) (ys : List A) → NotAfter x ys → insert_by key x ys ≡ x ∷ ys
  unfolding insert_by
  insert_by-first x [] h = refl
  insert_by-first x (y ∷ ys) h = rw (go _ h.0 (compare_blocks-flip (key x) (key y)))
    where
      go :
          (o : Ordering)
          → o ≢ Ordering.gt
          → compare_blocks (key y) (key x) ≡ flip o
          → is_less (compare_blocks (key y) (key x)) ≡ false
      go o h e = ground arith

  pub slice_stable_self : (xs : List A) → IsSorted xs → slice_stable key xs ≡ xs
  unfolding slice_stable
  slice_stable_self [] s = refl
  slice_stable_self (x ∷ xs) s = rw (slice_stable_self xs s.1) (insert_by-first x xs s.0)

  NotAfter-keep : (p : A → Bool) (x : A) (ys : List A) → NotAfter x ys → NotAfter x (keep p ys)
  NotAfter-keep p x [] h = tt
  NotAfter-keep p x (y ∷ ys) h = elim (Bool-cases (p y)) [
    | inl e ↦ rw e (h.0, NotAfter-keep p x ys h.1)
    | inr e ↦ rw e (NotAfter-keep p x ys h.1)
  ]

  keep-insert_by_kept :
      (p : A → Bool) (x : A) (ys : List A)
      → p x ≡ true
      → IsSorted ys
      → keep p (insert_by key x ys) ≡ insert_by key x (keep p ys)
  unfolding insert_by
  keep-insert_by_kept p x [] h s = rw h
  keep-insert_by_kept p x (y ∷ ys) h s =
      elim (Bool-cases (is_less (compare_blocks (key y) (key x)))) [
        | inl e ↦ elim (Bool-cases (p y)) [
          | inl f ↦ rw (e, f, e, keep-insert_by_kept p x ys h s.1)
          | inr f ↦ rw (e, f, keep-insert_by_kept p x ys h s.1)
        ]
        | inr e ↦ elim (Bool-cases (p y)) [
          | inl f ↦ rw (e, h, f, e)
          | inr f ↦
              rw (e, h, f)
                (sym (
                  insert_by-first x (keep p ys)
                    (NotAfter-keep p x ys (NotAfter-trans x y ys (not_less→not_gt x y e) s.0))))
        ]
      ]

  keep-insert_by_dropped :
      (p : A → Bool) (x : A) (ys : List A) → p x ≡ false → keep p (insert_by key x ys) ≡ keep p ys
  unfolding insert_by
  keep-insert_by_dropped p x [] h = rw h
  keep-insert_by_dropped p x (y ∷ ys) h =
      elim (Bool-cases (is_less (compare_blocks (key y) (key x)))) [
        | inl e ↦ rw (e, keep-insert_by_dropped p x ys h)
        | inr e ↦ rw (e, h)
      ]

  -- Sorting and leaving elements out commute: the sort is stable.
  pub keep-slice_stable :
      (p : A → Bool) (xs : List A) → keep p (slice_stable key xs) ≡ slice_stable key (keep p xs)
  unfolding slice_stable
  keep-slice_stable p [] = refl
  keep-slice_stable p (x ∷ xs) = elim (Bool-cases (p x)) [
    | inl e ↦
        keep-insert_by_kept p x (slice_stable key xs) e (slice_stable-IsSorted xs)
        ∙ rw (e, keep-slice_stable p xs)
    | inr e ↦ keep-insert_by_dropped p x (slice_stable key xs) e ∙ rw (e, keep-slice_stable p xs)
  ]

-- Sorting by a block that is read from each element sorts those blocks.
pub map-slice_stable :
    {A : Type 0} (key : A → Block) (xs : List A)
    → map key (slice_stable key xs) ≡ slice_stable same (map key xs)
unfolding slice_stable
map-slice_stable key [] = refl
map-slice_stable key (x ∷ xs) = map-insert_by x (slice_stable key xs) ∙ rw (map-slice_stable key xs)
  where
    map-insert_by :
        (x : _) (ys : List _) → map key (insert_by key x ys) ≡ insert_by same (key x) (map key ys)
    map-insert_by x [] = refl
    map-insert_by x (y ∷ ys) = elim (Bool-cases (is_less (compare_blocks (key y) (key x)))) [
      | inl e ↦ rw (e, map-insert_by x ys)
      | inr e ↦ rw e
    ]
