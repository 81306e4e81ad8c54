-- ===== src/Generator/Sites/Disjoint.antt =====
-- Site addresses stay unique under mergeCaddyfile with MergeSites.
use caddy_docker_proxy.Caddyfile.Block.{
  Block, block, Container, nil, cons, keys, to_list, to_list-of_list,
}
use caddy_docker_proxy.Caddyfile.Marshal.{is_nil}
use caddy_docker_proxy.Generator.Sites.{
  is_site_block, shared_keys, overlaps, new_keys, merge_site_blocks, replace_matches,
}
use caddy_docker_proxy.Prelude.{
  ◌≡◌, refl, ap, subst, ◌∙◌, inl, inr, Bool, true, false, not, List, [], ◌∷◌, arith, keep, All, In,
  All-lookup, All-tabulate, All-append, In-keep, keep-In, has_member, In→has_member, Bool-cases,
  Text,
}
use mathlib.Core.List.{foldl}

-- Two site blocks have no address in common.
abbrev pub Free : Block → Block → Type 0
Free a b =
    is_site_block a ≡ true → is_site_block b ≡ true → (k : Text) → In k (keys a) → In k (keys b) → ⊥

abbrev pub IsUnique : List Block → Type 0
IsUnique [] = Unit
IsUnique (b ∷ bs) = All (Free b) bs × IsUnique bs

-- No address stands in two site blocks of the container.
abbrev pub HasUniqueSites : Container → Type 0
HasUniqueSites c = IsUnique (to_list c)

pub Free-sym : (a b : Block) → Free a b → Free b a
Free-sym a b f s t k i j = f t s k j i

All-keep : (P : Block → Type 0) (p : Block → Bool) (bs : List Block) → All P bs → All P (keep p bs)
All-keep P p bs h = All-tabulate P (keep p bs) (λ b i. All-lookup P bs b h (In-keep p bs b i).0)

IsUnique-keep : (p : Block → Bool) (bs : List Block) → IsUnique bs → IsUnique (keep p bs)
IsUnique-keep p [] u = tt
IsUnique-keep p (b ∷ bs) u = elim (Bool-cases (p b)) [
  | inl e ↦ rw e (All-keep (Free b) p bs u.0, IsUnique-keep p bs u.1)
  | inr e ↦ rw e (IsUnique-keep p bs u.1)
]

-- A block that does not overlap the incoming one is free of it, and of all blocks that do.
pub Free-of_incoming :
    (incoming b : Block)
    → overlaps incoming b ≡ false
    → is_site_block b ≡ true
    → (k : Text) → In k (keys b)
    → In k (keys incoming)
    → ⊥
unfolding shared_keys
Free-of_incoming incoming b e s k i j =
    nothing_kept (keep (λ k. has_member k (keys b)) (keys incoming)) (rw s at e)
      (keep-In (λ k. has_member k (keys b)) (keys incoming) k j (In→has_member k (keys b) i))
  where
    nothing_kept : (ks : List Text) → not (is_nil ks) ≡ false → In k ks → ⊥
    nothing_kept [] e i = i
    nothing_kept (x ∷ ks) e i = absurd (clash e)
      where
        clash : true ≡ false → ⊥
        clash c = cc

pub Free-of_matches :
    (p : Block → Bool) (bs : List Block) (b : Block)
    → IsUnique bs
    → In b bs
    → p b ≡ false
    → All (Free b) (keep p bs)
Free-of_matches p [] b u i e = tt
Free-of_matches p (x ∷ bs) b u (inl f) e =
    rw (ap p f ∙ e) (All-keep (Free b) p bs (subst (λ y. All (Free y) bs) f u.0))
Free-of_matches p (x ∷ bs) b u (inr i) e = elim (Bool-cases (p x)) [
  | inl t ↦ rw t (Free-sym x b (All-lookup (Free x) bs b u.0 i), Free-of_matches p bs b u.1 i e)
  | inr t ↦ rw t (Free-of_matches p bs b u.1 i e)
]

-- Keys of a merged site come from the sites that are merged.
All-new_keys :
    (P : Text → Type 0) (existing ks : List Text) → All P ks → All P (new_keys existing ks)
unfolding new_keys
All-new_keys P existing [] h = tt
All-new_keys P existing (k ∷ ks) h = elim (Bool-cases (has_member k existing)) [
  | inl e ↦ rw e (All-new_keys P existing ks h.1)
  | inr e ↦ rw e (h.0, All-new_keys P (k ∷ existing) ks h.1)
]

pub All-merge_site_blocks :
    (P : Text → Type 0) (a b : Block)
    → All P (keys a)
    → All P (keys b)
    → All P (keys (merge_site_blocks a b))
unfolding merge_site_blocks
All-merge_site_blocks P (block cs o ks) (block ds p js) h k =
    All-append P ks (new_keys ks js) h (All-new_keys P ks js k)

pub All-merged :
    (P : Text → Type 0) (a : Block) (bs : List Block)
    → All P (keys a)
    → All (λ b. All P (keys b)) bs
    → All P (keys (foldl merge_site_blocks a bs))
All-merged P a [] h k = h
All-merged P a (b ∷ bs) h k =
    All-merged P (merge_site_blocks a b) bs (All-merge_site_blocks P a b h k.0) k.1

-- The matches are changed into one block that is free of all others.
pub replace_matches-IsUnique :
    (incoming target : Block) (c : Container)
    → HasUniqueSites c
    → ((b : Block) → In b (to_list c) → overlaps incoming b ≡ false → Free target b)
    → HasUniqueSites (replace_matches incoming target c)
unfolding replace_matches
replace_matches-IsUnique incoming target nil u f = tt
replace_matches-IsUnique incoming target (cons b cs) u f = elim (Bool-cases (overlaps incoming b)) [
  | inl e ↦
      rw (e, to_list-of_list (keep is_apart (to_list cs)))
        (
          All-tabulate (Free target) (keep is_apart (to_list cs))
              (λ x i. let (j, q) = In-keep is_apart (to_list cs) x i in f x (inr j) (not_true q)),
          IsUnique-keep is_apart (to_list cs) u.1,
        )
  | inr e ↦ rw e (
    All-replace b cs u.0 (Free-sym target b (f b (inl refl) e)),
    replace_matches-IsUnique incoming target cs u.1 (λ x i. f x (inr i)),
  )
]
  where
    is_apart : Block → Bool
    is_apart c = not (overlaps incoming c)

    not_true : {t : Bool} → not t ≡ true → t ≡ false
    not_true {t} q = ground arith

    All-replace :
        (a : Block) (ds : Container)
        → All (Free a) (to_list ds)
        → Free a target
        → All (Free a) (to_list (replace_matches incoming target ds))
    All-replace a nil h g = tt
    All-replace a (cons d ds) h g = elim (Bool-cases (overlaps incoming d)) [
      | inl q ↦
          rw (q, to_list-of_list (keep is_apart (to_list ds)))
            (g, All-keep (Free a) is_apart (to_list ds) h.1)
      | inr q ↦ rw q (h.0, All-replace a ds h.1 g)
    ]
