-- ===== src/NamePublish/Avahi/Count.antt =====
-- How many answers a question gets.
use caddy_docker_proxy.NamePublish.Avahi.{
  AvahiPublisher, AvahiWorld, QuestionType, type_a, type_aaaa, other_type, Question, ResourceRecord,
  if_address_type, name_has_local_suffix, contains_name, answer_of, record_of, asked_name,
  given_records, mdns_records,
}
use caddy_docker_proxy.Prelude.{
  ◌+◌, ◌≡◌, refl, sym, ap, ap₂, ◌∙◌, inl, inr, Bool, true, false, not, ◌&&◌, Option, none, some,
  List, [], ◌∷◌, arith, length, length-append, keep, flat_map, if◌then◌else◌, Bool-cases, Text,
}

module _ (w : AvahiWorld) where
  -- The address is of the family that the question asks for.
  abbrev pub is_of_family : QuestionType → Option (Bool × Text) → Bool
  is_of_family type_a (some (is_v4, ip)) = is_v4
  is_of_family type_aaaa (some (is_v4, ip)) = not is_v4
  is_of_family _ _ = false

  -- The stored addresses of that family.
  abbrev pub family_of : QuestionType → List Text → List Text
  family_of t ips = keep (λ ip_str. is_of_family t (w.parse_ip ip_str)) ips

  length-record_of :
      (t : QuestionType) (name ip_str : Text)
      → length (record_of w t name ip_str) ≡ (if is_of_family t (w.parse_ip ip_str) then 1 else 0)
  unfolding record_of
  length-record_of t name ip_str = by_parse t (w.parse_ip ip_str)
    where
      given : QuestionType → Option (Bool × Text) → List ResourceRecord
      given t o = elim o [
        | none ↦ []
        | some (is_v4, ip) ↦ elim t [
          | type_a ↦ if is_v4 then answer_of w type_a name ip ∷ [] else []
          | type_aaaa ↦ if is_v4 then [] else answer_of w type_aaaa name ip ∷ []
          | other_type ↦ []
        ]
      ]

      by_parse :
          (t : QuestionType) (o : Option (Bool × Text))
          → length (given t o) ≡ (if is_of_family t o then 1 else 0)
      by_parse type_a none = refl
      by_parse type_aaaa none = refl
      by_parse other_type none = refl
      by_parse type_a (some (true, ip)) = refl
      by_parse type_a (some (false, ip)) = refl
      by_parse type_aaaa (some (true, ip)) = refl
      by_parse type_aaaa (some (false, ip)) = refl
      by_parse other_type (some (is_v4, ip)) = refl

  pub length-flat_map-record_of :
      (t : QuestionType) (name : Text) (ips : List Text)
      → length (flat_map (record_of w t name) ips) ≡ length (family_of t ips)
  length-flat_map-record_of t name [] = refl
  length-flat_map-record_of t name (ip_str ∷ ips) =
      length-append (record_of w t name ip_str) (flat_map (record_of w t name) ips)
      ∙ (ap₂ (λ m n. m + n) (length-record_of t name ip_str) (length-flat_map-record_of t name ips)
          ∙ counted)
    where
      counted :
          (if is_of_family t (w.parse_ip ip_str) then 1 else 0) + length (family_of t ips)
          ≡ length (family_of t (ip_str ∷ ips))
      counted = elim (Bool-cases (is_of_family t (w.parse_ip ip_str))) [
        | inl e ↦ rw e (omega arith)
        | inr e ↦ rw e (omega arith)
      ]

  no_family : (ips : List Text) → family_of other_type ips ≡ []
  no_family [] = refl
  no_family (ip_str ∷ ips) = no_family ips

  -- The addresses that are answered with.
  abbrev pub answered_ips : Question → AvahiPublisher → List Text
  answered_ips q p =
      if name_has_local_suffix w (asked_name w q)
        && contains_name w p.desired_names (asked_name w q)
      then family_of q.qtype p.last_ips
      else []

  length-given_records :
      (q : Question) (p : AvahiPublisher) → length (given_records w q p) ≡ length (answered_ips q p)
  unfolding given_records
  length-given_records q p = elim (Bool-cases (name_has_local_suffix w (asked_name w q))) [
    | inr f ↦ rw (given_records, f) refl
    | inl t ↦ elim (Bool-cases (contains_name w p.desired_names (asked_name w q))) [
      | inr f ↦ rw (given_records, t, f) refl
      | inl u ↦
          rw (given_records, t, u) (length-flat_map-record_of q.qtype (asked_name w q) p.last_ips)
    ]
  ]

  pub length-mdns_records :
      (q : Question) (p : AvahiPublisher) → length (mdns_records w q p) ≡ length (answered_ips q p)
  unfolding mdns_records
  length-mdns_records q p = by_type q.qtype refl
    where
      by_type :
          (t : QuestionType) → q.qtype ≡ t → length (mdns_records w q p) ≡ length (answered_ips q p)
      by_type type_a e =
          ap (λ t. length (if_address_type t (given_records w q p))) e ∙ length-given_records q p
      by_type type_aaaa e =
          ap (λ t. length (if_address_type t (given_records w q p))) e ∙ length-given_records q p
      by_type other_type e =
          ap (λ t. length (if_address_type t (given_records w q p))) e ∙ sym nothing
        where
          nothing : length (answered_ips q p) ≡ 0
          nothing =
              elim (Bool-cases (
                name_has_local_suffix w (asked_name w q)
                && contains_name w p.desired_names (asked_name w q))) [
                  | inl t ↦ rw (t, e, no_family p.last_ips) refl
                  | inr f ↦ rw f refl
                ]
