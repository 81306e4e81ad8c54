-- ===== src/DockerUtils/Found.antt =====
-- What is found in the list of mounts.
use caddy_docker_proxy.DockerUtils.{
  take, all_of, is_alnum, mount_id_at, extract_container_id_from_mount_info,
}
use caddy_docker_proxy.Prelude.{
  ℕ, zero, suc, ◌≡◌, refl, sym, ap, ap₂, subst, ◌∙◌, Bool, true, false, ◌&&◌, Option, none, some,
  [], ◌∷◌, ◌++◌, length, drop, ◌==◌, if◌then◌else◌, ==_iff, &&-true, Text, codes, has_prefix,
}

has_prefix-append : (p t : Text) → has_prefix p t ≡ true → t ≡ p ++ drop (length p) t
unfolding has_prefix
has_prefix-append [] t h = refl
has_prefix-append (x ∷ p) [] h = cc
has_prefix-append (x ∷ p) (y ∷ t) h =
    let (a, b) = &&-true h in
    ap₂ (λ z zs. z ∷ zs) (sym ((==_iff x y).0 a)) (has_prefix-append p t b)

take-drop : (n : ℕ) (t : Text) → t ≡ take n t ++ drop n t
unfolding take
take-drop zero t = refl
take-drop (suc n) [] = refl
take-drop (suc n) (x ∷ t) = ap (λ zs. x ∷ zs) (take-drop n t)

-- A container's id: 64 letters and digits.
abbrev pub IsContainerId : Text → Type 0
IsContainerId id = (length id ≡ 64) × (all_of is_alnum id ≡ true)

abbrev pub mount_of : Text → Text → Text
mount_of id after = codes "containers/" ++ (id ++ (codes "/" ++ after))

mount_id_at-IsContainerId :
    (t id : Text)
    → mount_id_at t ≡ some id
    → IsContainerId id × ((after : Text) × (t ≡ mount_of id after))
unfolding mount_id_at
mount_id_at-IsContainerId t id h = by_matches matches refl h
  where
    found : Text
    found = take 64 (drop 11 t)

    matches : Bool
    matches =
        has_prefix (codes "containers/") t
        && (length found == 64
            && (all_of is_alnum found && has_prefix (codes "/") (drop 64 (drop 11 t))))

    some_inj : {x y : Text} → ◌≡◌ {A = Option Text} (some x) (some y) → x ≡ y
    some_inj e = cc

    none_not_some : {x : Text} → ◌≡◌ {A = Option Text} none (some x) → ⊥
    none_not_some e = cc

    by_matches :
        (b : Bool)
        → matches ≡ b
        → (if b then some found else none) ≡ some id
        → IsContainerId id × ((after : Text) × (t ≡ mount_of id after))
    by_matches false m e = absurd (none_not_some e)
    by_matches true m e =
        let (a, m') = &&-true m in
        let (b, m'') = &&-true m' in
        let (c, d) = &&-true m'' in
        subst (λ z. IsContainerId z × ((after : Text) × (t ≡ mount_of z after))) (some_inj e)
          (((==_iff (length found) 64).0 b, c), (drop 1 (drop 64 (drop 11 t)), pieces a d))
      where
        pieces :
            has_prefix (codes "containers/") t ≡ true
            → has_prefix (codes "/") (drop 64 (drop 11 t)) ≡ true
            → t ≡ mount_of found (drop 1 (drop 64 (drop 11 t)))
        pieces a d =
            has_prefix-append (codes "containers/") t a
            ∙ ap (λ z. codes "containers/" ++ z)
                (take-drop 64 (drop 11 t)
                  ∙ ap (λ z. found ++ z) (has_prefix-append (codes "/") (drop 64 (drop 11 t)) d))

-- The id that is found in the list of mounts has 64 letters and digits, and stands there between
-- "containers/" and a slash.
pub extract_container_id_from_mount_info-IsContainerId :
    (t id : Text)
    → extract_container_id_from_mount_info t ≡ some id
    → IsContainerId id × ((before : Text) × (after : Text) × (t ≡ before ++ mount_of id after))
unfolding extract_container_id_from_mount_info
extract_container_id_from_mount_info-IsContainerId [] id h = cc
extract_container_id_from_mount_info-IsContainerId (c ∷ cs) id h =
    by_start (mount_id_at (c ∷ cs)) (mount_id_at-IsContainerId (c ∷ cs)) h
      (extract_container_id_from_mount_info-IsContainerId cs id)
  where
    by_start :
        (o : Option Text)
        → ((z : Text)
            → o ≡ some z
            → IsContainerId z × ((after : Text) × (c ∷ cs ≡ mount_of z after)))
        → (elim o [ some z ↦ some z | none ↦ extract_container_id_from_mount_info cs ]) ≡ some id
        → (extract_container_id_from_mount_info cs ≡ some id
            → IsContainerId id
              × ((before : Text) × (after : Text) × (cs ≡ before ++ mount_of id after)))
        → IsContainerId id
          × ((before : Text) × (after : Text) × (c ∷ cs ≡ before ++ mount_of id after))
    by_start (some z) f e g = let (v, (after, q)) = f id e in (v, ([], after, q))
    by_start none f e g =
        let (v, (before, after, q)) = g e in (v, (c ∷ before, after, ap (λ zs. c ∷ zs) q))
