-- ===== src/Caddyfile/Merge/Keeps.antt =====
-- What a merge keeps of the first container.
use caddy_docker_proxy.Caddyfile.Block.{
  Block, block, Container, nil, cons, children, order, keys, get_first_key,
}
use caddy_docker_proxy.Caddyfile.Merge.{
  keys_are_equal, is_reverse_proxy_like, joins_proxy, absorbs, proxy_keys, change_first, merge_into,
  merge_children,
}
use caddy_docker_proxy.Prelude.{
  ◌≡◌, refl, sym, ap, ap₂, subst, ◌∙◌, ◌⊎◌, inl, inr, true, List, [], ◌∷◌, ◌++◌, append_assoc,
  append-nil, if◌then◌else◌, Bool-cases, &&-true, Text, text_eq, text_eq_iff,
}

pub keys_are_equal→eq : (js ks : List Text) → keys_are_equal js ks ≡ true → js ≡ ks
unfolding keys_are_equal
keys_are_equal→eq (j ∷ js) (k ∷ ks) h =
    ap₂ ◌∷◌ ((text_eq_iff j k).0 (&&-true h).0) (keys_are_equal→eq js ks (&&-true h).1)
keys_are_equal→eq [] [] h = refl
keys_are_equal→eq _ _ h = cc

-- `ds` begins with the blocks of `cs`, each at its place with its order, with its keys in front of those
-- that it took over, which only blocks like reverse_proxy do, and with children that begin so with its
-- own.
pub data Grows : Container → Container → Type 0 where
  grown : {ds : Container} → Grows nil ds
  both_grow :
      {cs ds : Container} {a : Block} (x : Block) (added : List Text)
      → order x ≡ order a
      → keys x ≡ keys a ++ added
      → (added ≡ []) ⊎ (is_reverse_proxy_like (get_first_key a) ≡ true)
      → Grows (children a) (children x)
      → Grows cs ds
      → Grows (cons a cs) (cons x ds)

-- The first key depends on the keys only, and remains the first.
first_key_of : (x a : Block) → keys x ≡ keys a → get_first_key x ≡ get_first_key a
unfolding get_first_key
first_key_of (block cs o js) (block ds p ks) e = ap first e
  where
    first : List Text → Text
    first ks = get_first_key (block nil 0 ks)

pub first_key-added :
    (x a : Block) (added : List Text)
    → keys x ≡ keys a ++ added
    → (added ≡ []) ⊎ (is_reverse_proxy_like (get_first_key a) ≡ true)
    → get_first_key x ≡ get_first_key a
unfolding get_first_key is_reverse_proxy_like text_eq
first_key-added x a added e (inl q) =
    first_key_of x a (e ∙ (ap (λ zs. keys a ++ zs) q ∙ append-nil (keys a)))
first_key-added (block cs o js) (block ds p []) added e (inr t) = cc
first_key-added (block cs o js) (block ds p (k ∷ ks)) added e (inr t) =
    ap (λ zs. get_first_key (block nil 0 zs)) e

pub Grows-refl : (cs : Container) → Grows cs cs
Grows-refl nil = grown
Grows-refl (cons (block bs o ks) cs) =
    both_grow (block bs o ks) [] refl (sym (append-nil ks)) (inl refl) (Grows-refl bs)
      (Grows-refl cs)

Grows-trans : {cs ds es : Container} → Grows cs ds → Grows ds es → Grows cs es
Grows-trans grown h = grown
Grows-trans (both_grow {a = a} x added o k u c g) (both_grow y more p j v d h) =
    both_grow y (added ++ more) (p ∙ o) (j ∙ rw k (append_assoc _ added more)) (only u v)
      (Grows-trans c d) (Grows-trans g h)
  where
    only :
        (added ≡ []) ⊎ (is_reverse_proxy_like (get_first_key a) ≡ true)
        → (more ≡ []) ⊎ (is_reverse_proxy_like (get_first_key x) ≡ true)
        → (added ++ more ≡ []) ⊎ (is_reverse_proxy_like (get_first_key a) ≡ true)
    only (inr t) w = inr t
    only (inl e) (inl f) = inl (rw (e, f) refl)
    only (inl e) (inr t) =
        inr (subst (λ z. is_reverse_proxy_like z ≡ true) (first_key-added x a added k (inl e)) t)

-- The keys that a block gains by a merge.
abbrev pub gained : Block → Block → List Text
gained b a = if joins_proxy b a then proxy_keys (keys b) else []

pub keys-merge_into : (b a : Block) → keys (merge_into b a) ≡ keys a ++ gained b a
unfolding merge_into
keys-merge_into (block ds p js) a = elim (Bool-cases (joins_proxy (block ds p js) a)) [
  | inl e ↦ rw e
  | inr e ↦ rw e (sym (append-nil (keys a)))
]

pub order-merge_into : (b a : Block) → order (merge_into b a) ≡ order a
unfolding merge_into
order-merge_into (block ds p js) a = refl

-- Only a block like reverse_proxy gains keys.
pub gained-only :
    (b a : Block)
    → absorbs b a ≡ true
    → (gained b a ≡ []) ⊎ (is_reverse_proxy_like (get_first_key a) ≡ true)
unfolding absorbs joins_proxy
gained-only b a h = elim (Bool-cases (joins_proxy b a)) [
  | inr e ↦ inl (rw e refl)
  | inl e ↦ inr (
      subst (λ z. is_reverse_proxy_like z ≡ true)
        (sym ((text_eq_iff (get_first_key a) (get_first_key b)).0 (&&-true h).0)) (&&-true e).0)
]

pub first_key-absorbs : (b a : Block) → absorbs b a ≡ true → get_first_key a ≡ get_first_key b
unfolding absorbs
first_key-absorbs b a h = (text_eq_iff (get_first_key a) (get_first_key b)).0 (&&-true h).0

pub children-merge_into :
    (b a : Block) → children (merge_into b a) ≡ merge_children (children b) (children a)
unfolding merge_into
children-merge_into (block ds p js) a = refl

Grows-change_first :
    (b : Block) (cs : Container)
    → ((zs : Container) → Grows zs (merge_children (children b) zs))
    → Grows cs (change_first (absorbs b) (merge_into b) b cs)
unfolding change_first
Grows-change_first b nil h = grown
Grows-change_first b (cons a cs) h = elim (Bool-cases (absorbs b a)) [
  | inl e ↦ rw e (
      both_grow (merge_into b a) (gained b a) (order-merge_into b a) (keys-merge_into b a)
        (gained-only b a e)
        (subst (Grows (children a)) (sym (children-merge_into b a)) (h (children a)))
        (Grows-refl cs))
  | inr e ↦ rw e (
      both_grow a [] refl (sym (append-nil (keys a))) (inl refl) (Grows-refl (children a))
        (Grows-change_first b cs h))
]

pub Grows-merge_children : (bs cs : Container) → Grows cs (merge_children bs cs)
unfolding merge_children
Grows-merge_children nil cs = Grows-refl cs
Grows-merge_children (cons (block ds p js) bs) cs =
    Grows-trans (Grows-change_first (block ds p js) cs (Grows-merge_children ds)) (
      Grows-merge_children bs
        (change_first (absorbs (block ds p js)) (merge_into (block ds p js)) (block ds p js) cs))
