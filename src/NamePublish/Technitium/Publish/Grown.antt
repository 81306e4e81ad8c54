-- ===== src/NamePublish/Technitium/Publish/Grown.antt =====
-- The loops and steps of publishOnce only add requests; what a loop without an error has done.
use caddy_docker_proxy.Caddyfile.Lexer.{is_empty}
use caddy_docker_proxy.NamePublish.Technitium.{
  DnsRecord, TechnitiumPublisher, Call, delete_call, TechnitiumWorld, RecordParams, has_unmanaged,
  name_and_type, value_of,
}
use caddy_docker_proxy.NamePublish.Technitium.Publish.{
  Run, and_then, visit_each, delete_record, add_record, existing_by_name_type, has_type, is_right,
  replace_same_type, replace_records, publish_name,
}
use caddy_docker_proxy.Prelude.{
  ◌≡◌, refl, sym, subst, inl, inr, not, Option, none, some, List, [], ◌∷◌, ◌++◌, keep, In,
  Bool-cases, Text, trim_space,
}

-- A step with nothing to follow it up but success.
pub and_then-none :
    (r : Run) (f : List Call → Run)
    → (and_then r f).1 ≡ none
    → (r.1 ≡ none) × ((f r.0).1 ≡ none) × ((and_then r f).0 ≡ (f r.0).0)
and_then-none (calls, none) f h = (refl, h, refl)
and_then-none (calls, some e) f h = absurd (not_none h)
  where
    not_none : {e : Text} → ◌≡◌ {A = Option Text} (some e) none → ⊥
    not_none q = cc

-- Requests are only added.
abbrev pub Grown : List Call → Run → Type 0
Grown calls r = (c : Call) → In c calls → In c r.0

pub Grown-and_then :
    (calls : List Call) (r : Run) (f : List Call → Run)
    → Grown calls r
    → ((calls' : List Call) → Grown calls' (f calls'))
    → Grown calls (and_then r f)
Grown-and_then calls (calls', none) f g h c i = h calls' c (g c i)
Grown-and_then calls (calls', some e) f g h c i = g c i

pub Grown-visit_each :
    {A : Type 0} (f : A → List Call → Run) (xs : List A)
    → ((x : A) (calls : List Call) → Grown calls (f x calls))
    → (calls : List Call) → Grown calls (visit_each f xs calls)
Grown-visit_each f [] g calls = λ c i. i
Grown-visit_each f (x ∷ xs) g calls =
    Grown-and_then calls (f x calls) (visit_each f xs) (g x calls) (Grown-visit_each f xs g)

In-before : (c : Call) (calls more : List Call) → In c calls → In c (calls ++ more)
In-before c [] more i = absurd i
In-before c (x ∷ calls) more (inl e) = inl e
In-before c (x ∷ calls) more (inr i) = inr (In-before c calls more i)

pub In-last : (c : Call) (calls : List Call) → In c (calls ++ c ∷ [])
In-last c [] = inl refl
In-last c (x ∷ calls) = inr (In-last c calls)

-- What holds of each element's requests holds after the whole loop.
pub visit_each-All :
    {A : Type 0} (f : A → List Call → Run) (P : A → List Call → Type 0)
    → ((x : A) (calls : List Call) → Grown calls (f x calls))
    → ((x : A) (cs ds : List Call) → ((c : Call) → In c cs → In c ds) → P x cs → P x ds)
    → ((x : A) (calls : List Call) → (f x calls).1 ≡ none → P x (f x calls).0)
    → (xs : List A) (calls : List Call) → (visit_each f xs calls).1 ≡ none
    → (x : A) → In x xs
    → P x (visit_each f xs calls).0
visit_each-All f P grows mono each [] calls h x i = absurd i
visit_each-All {A} f P grows mono each (y ∷ ys) calls h x i =
    by_place (and_then-none (f y calls) (visit_each f ys) h) i
      (λ g j. visit_each-All f P grows mono each ys (f y calls).0 g x j)
  where
    by_place :
        ((f y calls).1 ≡ none)
          × ((visit_each f ys (f y calls).0).1 ≡ none)
          × ((and_then (f y calls) (visit_each f ys)).0 ≡ (visit_each f ys (f y calls).0).0)
        → In x (y ∷ ys)
        → ((visit_each f ys (f y calls).0).1 ≡ none
            → In x ys
            → P x (visit_each f ys (f y calls).0).0)
        → P x (and_then (f y calls) (visit_each f ys)).0
    by_place (a, b, e) (inl q) g = subst (P x) (sym e) (
        subst (λ z. P z (visit_each f ys (f y calls).0).0) q
          (mono y (f y calls).0 _ (Grown-visit_each f ys grows (f y calls).0) (each y calls a)))
    by_place (a, b, e) (inr j) g = subst (P x) (sym e) (g b j)

module _ (w : TechnitiumWorld) (p : TechnitiumPublisher) where
  pub delete_record-Grown :
      (r : DnsRecord) (calls : List Call) → Grown calls (delete_record w p r calls)
  unfolding delete_record
  delete_record-Grown r calls c i = elim (Bool-cases (is_empty (value_of w r))) [
    | inl t ↦ rw t i
    | inr t ↦ rw t (In-before c calls (delete_call r (value_of w r) ∷ []) i)
  ]

  add_record-Grown :
      (name : Text) (params : RecordParams) (calls : List Call)
      → Grown calls (add_record w p name params calls)
  unfolding add_record
  add_record-Grown name params calls c i = elim (Bool-cases (is_empty (trim_space name))) [
    | inl t ↦ rw t i
    | inr t ↦ rw t (In-before c calls _ i)
  ]

  replace_same_type-Grown :
      (name : Text) (params : RecordParams) (rs : List DnsRecord) (calls : List Call)
      → Grown calls (replace_same_type w p name params rs calls)
  unfolding replace_same_type
  replace_same_type-Grown name params rs calls c i =
      elim (Bool-cases (is_right w p params.rdata_value rs)) [
        | inl t ↦ rw t i
        | inr t ↦ rw t (
            Grown-and_then calls (visit_each (delete_record w p) rs calls)
              (add_record w p name params)
              (Grown-visit_each (delete_record w p) rs delete_record-Grown calls)
              (add_record-Grown name params) c i)
      ]

  replace_records-Grown :
      (name : Text) (params : RecordParams) (rs : List DnsRecord) (calls : List Call)
      → Grown calls (replace_records w p name params rs calls)
  unfolding replace_records
  replace_records-Grown name params rs calls =
      Grown-and_then calls
        (visit_each (delete_record w p) (keep (λ r. not (has_type w p params.record_type r)) rs)
          calls)
        (replace_same_type w p name params (keep (has_type w p params.record_type) rs))
        (Grown-visit_each (delete_record w p) _ delete_record-Grown calls)
        (replace_same_type-Grown name params _)

  module _ (records : List DnsRecord) (params : RecordParams) where
    pub publish_name-Grown :
        (name : Text) (calls : List Call) → Grown calls (publish_name w p records params name calls)
    unfolding publish_name
    publish_name-Grown name calls c i = elim (Bool-cases (is_empty (trim_space name))) [
      | inl t ↦ rw t i
      | inr t ↦
          rw t
            (elim (Bool-cases (
              has_unmanaged
                (existing_by_name_type w p records (name_and_type name params.record_type)))) [
                  | inl u ↦ rw u i
                  | inr u ↦ rw u (replace_records-Grown name params _ calls c i)
                ])
    ]
