-- ===== src/NamePublish/Technitium/Publish/Published.antt =====
-- The records that a run of publishOnce without an error has published.
use caddy_docker_proxy.Caddyfile.Lexer.{is_empty}
use caddy_docker_proxy.NamePublish.Technitium.{
  DnsRecord, TechnitiumPublisher, Call, add_call, TechnitiumWorld, RecordParams, has_unmanaged,
  name_and_type,
}
use caddy_docker_proxy.NamePublish.Technitium.Publish.{
  Run, and_then, visit_each, delete_record, add_record, managed_by_name, existing_by_name_type,
  has_type, is_right, replace_same_type, replace_records, publish_name,
}
use caddy_docker_proxy.NamePublish.Technitium.Publish.Grown.{
  and_then-none, In-last, visit_each-All, publish_name-Grown,
}
use caddy_docker_proxy.Prelude.{
  ◌≡◌, sym, subst, ◌⊎◌, inl, inr, true, false, not, none, List, keep, In, Bool-cases, Text,
  trim_space,
}

module _ (w : TechnitiumWorld) (p : TechnitiumPublisher) where
  module _ (records : List DnsRecord) (params : RecordParams) where
    -- The request for the record of a name.
    abbrev pub wanted_call : Text → Call
    wanted_call name = add_call name params.record_type params.rdata_key params.rdata_value

    -- The record of a name is there already, or it is among the requests.
    abbrev pub IsPublished : Text → List Call → Type 0
    IsPublished name calls =
        (is_right w p params.rdata_value
            (keep (has_type w p params.record_type) (managed_by_name w p records name))
          ≡ true)
        ⊎ In (wanted_call name) calls

    -- A name that publishOnce has to publish.
    abbrev pub IsWanted : Text → Type 0
    IsWanted name =
        (is_empty (trim_space name) ≡ false)
        × (has_unmanaged (existing_by_name_type w p records (name_and_type name params.record_type))
            ≡ false)

    add_record-In :
        (name : Text) (calls : List Call)
        → is_empty (trim_space name) ≡ false
        → In (wanted_call name) (add_record w p name params calls).0
    unfolding add_record
    add_record-In name calls t = rw t (In-last (wanted_call name) calls)

    replace_same_type-In :
        (name : Text) (rs : List DnsRecord) (calls : List Call)
        → is_empty (trim_space name) ≡ false
        → (replace_same_type w p name params rs calls).1 ≡ none
        → (is_right w p params.rdata_value rs ≡ true)
          ⊎ In (wanted_call name) (replace_same_type w p name params rs calls).0
    unfolding replace_same_type
    replace_same_type-In name rs calls t h =
        elim (Bool-cases (is_right w p params.rdata_value rs)) [
          | inl u ↦ inl u
          | inr u ↦ inr (after_removal u (rw u at h))
        ]
      where
        removal : Run
        removal = visit_each (delete_record w p) rs calls

        after_removal :
            is_right w p params.rdata_value rs ≡ false
            → (and_then removal (add_record w p name params)).1 ≡ none
            → In (wanted_call name) (replace_same_type w p name params rs calls).0
        after_removal u g = rw u (
            subst (In (wanted_call name))
              (sym (and_then-none removal (add_record w p name params) g).2)
              (add_record-In name removal.0 t))

    replace_records-IsPublished :
        (name : Text) (calls : List Call)
        → is_empty (trim_space name) ≡ false
        → (replace_records w p name params (managed_by_name w p records name) calls).1 ≡ none
        → IsPublished name
            (replace_records w p name params (managed_by_name w p records name) calls).0
    unfolding replace_records
    replace_records-IsPublished name calls t h =
        let (a, b, e) = and_then-none removal following h in
        subst (IsPublished name) (sym e) (replace_same_type-In name of_type removal.0 t b)
      where
        of_type : List DnsRecord
        of_type = keep (has_type w p params.record_type) (managed_by_name w p records name)

        removal : Run
        removal =
            visit_each (delete_record w p)
              (keep (λ r. not (has_type w p params.record_type r))
                (managed_by_name w p records name))
              calls

        following : List Call → Run
        following = replace_same_type w p name params of_type

    publish_name-IsPublished :
        (name : Text) (calls : List Call)
        → (publish_name w p records params name calls).1 ≡ none
        → IsWanted name
        → IsPublished name (publish_name w p records params name calls).0
    unfolding publish_name
    publish_name-IsPublished name calls h (t, u) =
        rw (t, u) (replace_records-IsPublished name calls t (rw (t, u) at h))

    -- Publishing every name of a list.
    pub publish_all-IsPublished :
        (names : List Text) (calls : List Call)
        → (visit_each (publish_name w p records params) names calls).1 ≡ none
        → (name : Text) → In name names
        → IsWanted name
        → IsPublished name (visit_each (publish_name w p records params) names calls).0
    publish_all-IsPublished names calls h name i =
        visit_each-All (publish_name w p records params)
          (λ name calls. IsWanted name → IsPublished name calls)
          (publish_name-Grown w p records params) (λ x cs ds g k m. keeps x cs ds g (k m))
          (λ x cs e m. publish_name-IsPublished x cs e m) names calls h name i
      where
        keeps :
            (name : Text) (cs ds : List Call)
            → ((c : Call) → In c cs → In c ds)
            → IsPublished name cs
            → IsPublished name ds
        keeps name cs ds g (inl e) = inl e
        keeps name cs ds g (inr j) = inr (g _ j)
