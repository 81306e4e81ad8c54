-- ===== src/NamePublish/Avahi/Records.antt =====
-- The answers to questions.
use caddy_docker_proxy.NamePublish.Avahi.{
  AvahiPublisher, AvahiWorld, QuestionType, type_a, type_aaaa, other_type, Question, ResourceRecord,
  if_address_type, name_has_local_suffix, contains_name, answer_of, record_of, asked_name,
  given_records, mdns_records,
}
use caddy_docker_proxy.NamePublish.Avahi.Count.{answered_ips, length-mdns_records}
use caddy_docker_proxy.Prelude.{
  ◌≡◌, refl, sym, ap, subst, ◌↔◌, ◌⊎◌, inl, inr, Bool, true, false, some, List, [], ◌∷◌, ◌++◌,
  length, flat_map, In, if◌then◌else◌, Bool-cases, Option-cases, Text,
}

module _ {B : Type 0} where
  In-append : (xs ys : List B) (b : B) → In b (xs ++ ys) → In b xs ⊎ In b ys
  In-append [] ys b i = inr i
  In-append (x ∷ xs) ys b (inl e) = inl (inl e)
  In-append (x ∷ xs) ys b (inr i) = elim (In-append xs ys b i) [
    | inl j ↦ inl (inr j)
    | inr j ↦ inr j
  ]

  In-left : (xs ys : List B) (b : B) → In b xs → In b (xs ++ ys)
  In-left [] ys b i = absurd i
  In-left (x ∷ xs) ys b (inl e) = inl e
  In-left (x ∷ xs) ys b (inr i) = inr (In-left xs ys b i)

  In-right : (xs ys : List B) (b : B) → In b ys → In b (xs ++ ys)
  In-right [] ys b i = i
  In-right (x ∷ xs) ys b i = inr (In-right xs ys b i)

  In-flat_map :
      {A : Type 0} (f : A → List B) (xs : List A) (b : B)
      → In b (flat_map f xs)
      → (a : A) × In a xs × In b (f a)
  In-flat_map f [] b i = absurd i
  In-flat_map f (x ∷ xs) b i = elim (In-append (f x) (flat_map f xs) b i) [
    | inl j ↦ (x, inl refl, j)
    | inr j ↦ let (a, k, l) = In-flat_map f xs b j in (a, inr k, l)
  ]

  flat_map-In :
      {A : Type 0} (f : A → List B) (xs : List A) (a : A) (b : B)
      → In a xs
      → In b (f a)
      → In b (flat_map f xs)
  flat_map-In f [] a b i j = absurd i
  flat_map-In f (x ∷ xs) a b (inl e) j =
      In-left (f x) (flat_map f xs) b (subst (λ y. In b (f y)) (sym e) j)
  flat_map-In f (x ∷ xs) a b (inr i) j = In-right (f x) (flat_map f xs) b (flat_map-In f xs a b i j)

module _ (w : AvahiWorld) where
  -- An address of the family that the question asks for.
  abbrev pub IsOfType : QuestionType → Text → Text → Type 0
  IsOfType type_a ip_str ip = w.parse_ip ip_str ≡ some (true, ip)
  IsOfType type_aaaa ip_str ip = w.parse_ip ip_str ≡ some (false, ip)
  IsOfType other_type ip_str ip = ⊥

  -- What a question is to be answered with.
  abbrev pub IsAnswer : Question → AvahiPublisher → ResourceRecord → Type 0
  IsAnswer q p rr =
      (name_has_local_suffix w (asked_name w q) ≡ true)
      × (contains_name w p.desired_names (asked_name w q) ≡ true)
      × ((ip_str : Text) × (ip : Text) × In ip_str p.last_ips
          × IsOfType q.qtype ip_str ip
          × (answer_of w q.qtype (asked_name w q) ip ≡ rr))

  In-record_of :
      (t : QuestionType) (name ip_str : Text) (rr : ResourceRecord)
      → In rr (record_of w t name ip_str)
      → (ip : Text) × IsOfType t ip_str ip × (answer_of w t name ip ≡ rr)
  unfolding record_of
  In-record_of t name ip_str rr i = elim (Option-cases (w.parse_ip ip_str)) [
    | inl e ↦ absurd (rw (record_of, e) at i)
    | inr found ↦ by_type t found.0.0 found.0.1 found.1 (rw (record_of, found.1) at i)
  ]
    where
      given : QuestionType → Bool → Text → List ResourceRecord
      given t is_v4 ip = elim t [
        | type_a ↦ if is_v4 then answer_of w type_a name ip ∷ [] else []
        | type_aaaa ↦ if is_v4 then [] else answer_of w type_aaaa name ip ∷ []
        | other_type ↦ []
      ]

      by_type :
          (t : QuestionType) (is_v4 : Bool) (ip : Text)
          → w.parse_ip ip_str ≡ some (is_v4, ip)
          → In rr (given t is_v4 ip)
          → (ip' : Text) × IsOfType t ip_str ip' × (answer_of w t name ip' ≡ rr)
      by_type type_a true ip e (inl q) = (ip, e, q)
      by_type type_aaaa false ip e (inl q) = (ip, e, q)
      by_type type_a true ip e (inr j) = absurd j
      by_type type_aaaa false ip e (inr j) = absurd j
      by_type type_a false ip e j = absurd j
      by_type type_aaaa true ip e j = absurd j
      by_type other_type is_v4 ip e j = absurd j

  record_of-In :
      (t : QuestionType) (name ip_str ip : Text) (rr : ResourceRecord)
      → IsOfType t ip_str ip
      → answer_of w t name ip ≡ rr
      → In rr (record_of w t name ip_str)
  unfolding record_of
  record_of-In type_a name ip_str ip rr h e = rw (record_of, h) (inl e)
  record_of-In type_aaaa name ip_str ip rr h e = rw (record_of, h) (inl e)
  record_of-In other_type name ip_str ip rr h e = absurd h

  given_records-IsAnswer :
      (q : Question) (p : AvahiPublisher) (rr : ResourceRecord)
      → In rr (given_records w q p) ↔ IsAnswer q p rr
  unfolding given_records
  given_records-IsAnswer q p rr = (to, from)
    where
      to : In rr (given_records w q p) → IsAnswer q p rr
      to i = elim (Bool-cases (name_has_local_suffix w (asked_name w q))) [
        | inr f ↦ absurd (rw f at i)
        | inl t ↦ elim (Bool-cases (contains_name w p.desired_names (asked_name w q))) [
          | inr f ↦ absurd (rw (t, f) at i)
          | inl u ↦
              let (ip_str, j, k) =
                In-flat_map (record_of w q.qtype (asked_name w q)) p.last_ips rr (rw (t, u) at i) in
              let (ip, l, e) = In-record_of q.qtype (asked_name w q) ip_str rr k in
              (t, u, (ip_str, ip, j, l, e))
        ]
      ]

      from : IsAnswer q p rr → In rr (given_records w q p)
      from (t, u, (ip_str, ip, j, l, e)) =
          rw (given_records, t, u)
            (flat_map-In (record_of w q.qtype (asked_name w q)) p.last_ips ip_str rr j
              (record_of-In q.qtype (asked_name w q) ip_str ip rr l e))

  In-mdns_records :
      (q : Question) (p : AvahiPublisher) (rr : ResourceRecord)
      → In rr (mdns_records w q p) ↔ IsAnswer q p rr
  unfolding mdns_records
  In-mdns_records q p rr = by_type q.qtype refl
    where
      of_given :
          mdns_records w q p ≡ given_records w q p → In rr (mdns_records w q p) ↔ IsAnswer q p rr
      of_given e = subst (λ rs. In rr rs ↔ IsAnswer q p rr) (sym e) (given_records-IsAnswer q p rr)

      by_type : (t : QuestionType) → q.qtype ≡ t → In rr (mdns_records w q p) ↔ IsAnswer q p rr
      by_type type_a e = of_given (ap (λ t. if_address_type t (given_records w q p)) e)
      by_type type_aaaa e = of_given (ap (λ t. if_address_type t (given_records w q p)) e)
      by_type other_type e =
          (λ i. absurd (subst (In rr) nothing i), λ answer. absurd (no_type answer))
        where
          nothing : mdns_records w q p ≡ []
          nothing = ap (λ t. if_address_type t (given_records w q p)) e

          no_type : IsAnswer q p rr → ⊥
          no_type (t, u, (ip_str, ip, j, l, k)) = subst (λ z. IsOfType z ip_str ip) e l

  -- A question is answered with exactly the right records: those of its name, if this ends in ".local"
  -- and is one of the desired names, with the stored addresses that are of the family of the question's
  -- type; and there are as many answers as there are such addresses. A question of another type gets
  -- none.
  pub mdns_records-IsAnswer :
      (q : Question) (p : AvahiPublisher)
      → ((rr : ResourceRecord) → In rr (mdns_records w q p) ↔ IsAnswer q p rr)
        × (length (mdns_records w q p) ≡ length (answered_ips w q p))
  mdns_records-IsAnswer q p = (In-mdns_records q p, length-mdns_records w q p)
