-- ===== src/NamePublish/Technitium/Publish/Managed.antt =====
-- What publishOnce asks the server to change.
use caddy_docker_proxy.Caddyfile.Lexer.{is_empty}
use caddy_docker_proxy.NamePublish.Technitium.{
  technitium_managed_comment, DnsRecord, TechnitiumPublisher, Call, get_zone_call, delete_call,
  add_call, TechnitiumWorld, RecordParams, has_unmanaged, to_name_set, name_and_type, value_of,
  is_supported_type,
}
use caddy_docker_proxy.NamePublish.Technitium.Publish.{
  visit_each, delete_record, add_record, managed_by_name, existing_by_name_type, has_type, is_right,
  replace_same_type, replace_records, publish_name, remove_name, sync_records,
}
use caddy_docker_proxy.NamePublish.Technitium.Publish.Adds.{
  Adds, Adds-none, Adds-one, Adds-and_then, Adds-visit_each,
}
use caddy_docker_proxy.Prelude.{
  ◌≡◌, refl, sym, ap, ◌∙◌, inl, inr, true, false, not, none, List, [], ◌∷◌, arith, keep, In,
  In-keep, keep-In, has_member, Bool-cases, Text, text_eq, text_eq_iff, text_eq_refl, trim_space,
}

module _ (w : TechnitiumWorld) (p : TechnitiumPublisher) where
  -- A record that the publisher has made: of a type that it handles, with its comment.
  abbrev pub IsManaged : List DnsRecord → DnsRecord → Type 0
  IsManaged records r =
      In r records
      × (is_supported_type w r.record_type ≡ true)
      × (r.comments ≡ technitium_managed_comment)

  -- No record of this name and type was made by another.
  abbrev pub IsFree : List DnsRecord → Text → Text → Type 0
  IsFree records name record_type =
      (r : DnsRecord)
      → In r records
      → is_supported_type w r.record_type ≡ true
      → r.name ≡ name
      → r.record_type ≡ record_type
      → r.comments ≡ technitium_managed_comment

  -- A request that may be made, given the records of the zone.
  abbrev pub IsAllowed : List DnsRecord → RecordParams → List Text → Call → Type 0
  IsAllowed records params names get_zone_call = ⊥
  IsAllowed records params names (delete_call r value) =
      IsManaged records r × (value ≡ value_of w r)
  IsAllowed records params names (add_call domain record_type key value) =
      In domain names
      × IsFree records domain record_type
      × (record_type ≡ params.record_type)
      × (value ≡ params.rdata_value)

  managed_by_name-IsManaged :
      (records : List DnsRecord) (name : Text) (r : DnsRecord)
      → In r (managed_by_name w p records name)
      → IsManaged records r
  unfolding managed_by_name
  managed_by_name-IsManaged records name r i =
      let (j, t) = In-keep _ records r i in
      (
        j,
        ground (arith, text_eq_iff r.comments technitium_managed_comment),
        ground (arith, text_eq_iff r.comments technitium_managed_comment),
      )

  has_unmanaged-IsFree :
      (records : List DnsRecord) (name record_type : Text)
      → has_unmanaged (existing_by_name_type w p records (name_and_type name record_type)) ≡ false
      → IsFree records name record_type
  unfolding has_unmanaged existing_by_name_type
  has_unmanaged-IsFree records name record_type h r i s e f =
      none_other (existing_by_name_type w p records (name_and_type name record_type)) h r (
        unfold existing_by_name_type in
        keep-In _ records r i (rw (s, e, f) (text_eq_refl (name_and_type name record_type))))
    where
      none_other :
          (rs : List DnsRecord)
          → has_unmanaged rs ≡ false
          → (r : DnsRecord) → In r rs
          → r.comments ≡ technitium_managed_comment
      none_other [] h r i = absurd i
      none_other (x ∷ rs) h r i =
          elim (Bool-cases (text_eq x.comments technitium_managed_comment)) [
            | inl t ↦ elim i [
              | inl q ↦ ap (λ (z : DnsRecord). z.comments) (sym q) ∙ (text_eq_iff _ _).0 t
              | inr j ↦ none_other rs (rw t at h) r j
            ]
            | inr t ↦ absurd (not_false (rw t at h))
          ]
        where
          not_false : true ≡ false → ⊥
          not_false q = cc

  module _ (records : List DnsRecord) (params : RecordParams) (names : List Text) where
    abbrev Allowed : Call → Type 0
    Allowed = IsAllowed records params names

    delete_record-Adds :
        (r : DnsRecord) (calls : List Call)
        → IsManaged records r
        → Adds Allowed calls (delete_record w p r calls)
    unfolding delete_record
    delete_record-Adds r calls m = elim (Bool-cases (is_empty (value_of w r))) [
      | inl t ↦ rw t (Adds-none Allowed calls none)
      | inr t ↦ rw t (Adds-one Allowed calls (delete_call r (value_of w r)) none (m, refl))
    ]

    add_record-Adds :
        (name : Text) (calls : List Call)
        → In name names
        → IsFree records name params.record_type
        → Adds Allowed calls (add_record w p name params calls)
    unfolding add_record
    add_record-Adds name calls i f = elim (Bool-cases (is_empty (trim_space name))) [
      | inl t ↦ rw t (Adds-none Allowed calls none)
      | inr t ↦ rw t (
          Adds-one Allowed calls
            (add_call name params.record_type params.rdata_key params.rdata_value) none
            (i, f, refl, refl))
    ]

    -- All records of a list that are managed.
    pub delete_all-Adds :
        (rs : List DnsRecord)
        → ((r : DnsRecord) → In r rs → IsManaged records r)
        → (calls : List Call) → Adds Allowed calls (visit_each (delete_record w p) rs calls)
    delete_all-Adds rs m =
        Adds-visit_each Allowed (delete_record w p) rs
          (λ r i calls. delete_record-Adds r calls (m r i))

    pub replace_same_type-Adds :
        (name : Text) (rs : List DnsRecord)
        → In name names
        → IsFree records name params.record_type
        → ((r : DnsRecord) → In r rs → IsManaged records r)
        → (calls : List Call) → Adds Allowed calls (replace_same_type w p name params rs calls)
    unfolding replace_same_type
    replace_same_type-Adds name rs i f m calls =
        elim (Bool-cases (is_right w p params.rdata_value rs)) [
          | inl t ↦ rw t (Adds-none Allowed calls none)
          | inr t ↦ rw t (
              Adds-and_then Allowed calls (visit_each (delete_record w p) rs calls)
                (add_record w p name params) (delete_all-Adds rs m calls)
                (λ calls'. add_record-Adds name calls' i f))
        ]

    replace_records-Adds :
        (name : Text) (managed_records : List DnsRecord)
        → In name names
        → IsFree records name params.record_type
        → ((r : DnsRecord) → In r managed_records → IsManaged records r)
        → (calls : List Call)
        → Adds Allowed calls (replace_records w p name params managed_records calls)
    unfolding replace_records
    replace_records-Adds name managed_records i f m calls =
        Adds-and_then Allowed calls
          (visit_each (delete_record w p)
            (keep (λ r. not (has_type w p params.record_type r)) managed_records) calls)
          (replace_same_type w p name params
            (keep (has_type w p params.record_type) managed_records))
          (delete_all-Adds _ (λ r j. m r (In-keep _ managed_records r j).0) calls)
          (replace_same_type-Adds name _ i f (λ r j. m r (In-keep _ managed_records r j).0))

    pub publish_name-Adds :
        (name : Text)
        → In name names
        → (calls : List Call) → Adds Allowed calls (publish_name w p records params name calls)
    unfolding publish_name
    publish_name-Adds name i calls = elim (Bool-cases (is_empty (trim_space name))) [
      | inl t ↦ rw t (Adds-none Allowed calls none)
      | inr t ↦
          rw t
            (elim (Bool-cases (
              has_unmanaged
                (existing_by_name_type w p records (name_and_type name params.record_type)))) [
                  | inl u ↦ rw u (Adds-none Allowed calls none)
                  | inr u ↦ rw u (
                      replace_records-Adds name (managed_by_name w p records name) i
                        (has_unmanaged-IsFree records name params.record_type u)
                        (managed_by_name-IsManaged records name) calls)
                ])
    ]

    remove_name-Adds :
        (desired : List Text) (name : Text) (calls : List Call)
        → Adds Allowed calls (remove_name w p records desired name calls)
    unfolding remove_name
    remove_name-Adds desired name calls = elim (Bool-cases (has_member name desired)) [
      | inl t ↦ rw t (Adds-none Allowed calls none)
      | inr t ↦ rw t (delete_all-Adds _ (managed_by_name-IsManaged records name) calls)
    ]

    pub sync_records-Adds :
        (visits : List DnsRecord → List Text) (calls : List Call)
        → Adds Allowed calls (sync_records w p visits records params names calls)
    unfolding sync_records
    sync_records-Adds visits calls =
        Adds-and_then Allowed calls _ _
          (Adds-visit_each Allowed _ (visits records)
            (λ name i. remove_name-Adds (to_name_set names) name) calls)
          (Adds-visit_each Allowed _ names (λ name i. publish_name-Adds name i))
