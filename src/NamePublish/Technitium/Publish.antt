-- ===== src/NamePublish/Technitium/Publish.antt =====
-- namepublish/technitium.go: the requests, and publishOnce. The state is the list of the requests so
-- far; the result has the error, if there is one.
pub mod Adds
pub mod Managed
pub mod Grown
pub mod Guarded
pub mod Published
pub mod Success
use caddy_docker_proxy.Caddyfile.Lexer.{is_empty}
use caddy_docker_proxy.Generator.Docker.{Answer}
use caddy_docker_proxy.Generator.Labels.{itoa}
use caddy_docker_proxy.NamePublish.Technitium.{
  technitium_managed_comment, DnsRecord, TechnitiumPublisher, Call, get_zone_call, delete_call,
  add_call, TechnitiumStatus, TechnitiumWorld, error_message_of, trim_slashes, RecordParams,
  has_unmanaged, to_name_set, name_and_type, value_of, is_supported_type, record_params,
  filter_names_for_zone,
}
use caddy_docker_proxy.Prelude.{
  suc, Bool, false, not, ◌&&◌, Option, none, some, List, [], ◌∷◌, ◌++◌, ℤ, pos, keep, Entries,
  has_member, ok, err, if◌then◌else◌, Text, codes, text_eq, trim_space,
}

abbrev pub Run : Type 0
Run = List Call × Option Text

-- `if err := …; err != nil { return err }`, and what follows.
abbrev pub and_then : Run → (List Call → Run) → Run
and_then (calls, none) following = following calls
and_then (calls, some e) following = (calls, some e)

abbrev pub visit_each : {A : Type 0} → (A → List Call → Run) → List A → List Call → Run
visit_each f [] calls = (calls, none)
visit_each f (x ∷ xs) calls = and_then (f x calls) (visit_each f xs)

-- The error of a request whose status is not "ok".
abbrev pub status_error : Text → Answer TechnitiumStatus → Option Text
status_error prefix (err e) = some e
status_error prefix (ok s) =
    if text_eq s.status (codes "ok")
    then none
    else some (prefix ++ error_message_of s.error_message)

module _ (w : TechnitiumWorld) (p : TechnitiumPublisher) where
  abbrev pub endpoint : Text → Text
  endpoint action = trim_slashes p.base_url ++ (codes "/api/zones/records/" ++ action)

  -- `if p.ttl > 0 { form.Set("ttl", …) }`
  abbrev pub ttl_field : ℤ → Entries Text
  ttl_field (pos (suc n)) = (codes "ttl", itoa (pos (suc n))) ∷ []
  ttl_field _ = []

  -- deleteRecord. A record without a value is left alone.
  unfoldable pub delete_record : DnsRecord → List Call → Run
  unfolding value_of text_eq
  delete_record r calls =
      let value = value_of w r in
      let form : Entries Text =
        (codes "token", p.token)
        ∷ (codes "domain", r.name)
        ∷ (codes "zone", p.zone)
        ∷ (codes "type", r.record_type)
        ∷ (codes "value", value)
        ∷ [] in
      if is_empty value then (calls, none) else (
        calls ++ delete_call r value ∷ [],
        status_error (codes "technitium delete record failed: ")
            (w.do_json calls (endpoint (codes "delete")) form),
      )

  -- addRecord
  unfoldable pub add_record : Text → RecordParams → List Call → Run
  unfolding trim_space text_eq
  add_record domain params calls =
      let form : Entries Text =
        (codes "token", p.token)
        ∷ (codes "domain", domain)
        ∷ (codes "zone", p.zone)
        ∷ (codes "type", params.record_type)
        ∷ (codes "overwrite", codes "true")
        ∷ (params.rdata_key, params.rdata_value)
        ∷ (codes "comments", technitium_managed_comment)
        ∷ ttl_field p.ttl in
      if is_empty (trim_space domain) then (calls, none) else (
        calls ++ add_call domain params.record_type params.rdata_key params.rdata_value ∷ [],
        status_error (codes "technitium add record failed: ")
            (w.do_json calls (endpoint (codes "add")) form),
      )

  -- getZoneRecords
  unfoldable pub get_zone_records : List Call → Answer (List DnsRecord)
  unfolding text_eq
  get_zone_records calls =
      let form : Entries Text =
        (codes "token", p.token)
        ∷ (codes "domain", p.zone)
        ∷ (codes "zone", p.zone)
        ∷ (codes "listZone", codes "true")
        ∷ [] in
      elim (w.get_records calls (endpoint (codes "get")) form) [
        | err e ↦ err e
        | ok (s, records) ↦
            if text_eq s.status (codes "ok")
            then ok records
            else err (codes "technitium get records failed: " ++ error_message_of s.error_message)
      ]

  -- `managedByName[name]`
  unfoldable pub managed_by_name : List DnsRecord → Text → List DnsRecord
  unfolding is_supported_type text_eq
  managed_by_name records name =
      keep
        (λ (r : DnsRecord).
          is_supported_type w r.record_type
          && text_eq r.comments technitium_managed_comment
          && text_eq r.name name)
        records

  -- `existingByNameType[key]`
  unfoldable pub existing_by_name_type : List DnsRecord → Text → List DnsRecord
  unfolding is_supported_type text_eq
  existing_by_name_type records key =
      keep
        (λ (r : DnsRecord).
          is_supported_type w r.record_type && text_eq (name_and_type r.name r.record_type) key)
        records

  abbrev pub has_type : Text → DnsRecord → Bool
  has_type t r = text_eq r.record_type t

  -- The first managed record of the type has the value.
  abbrev pub is_right : Text → List DnsRecord → Bool
  is_right value [] = false
  is_right value (r ∷ rs) = text_eq (value_of w r) value

  -- The end of the loop over the names: the managed records of the type, unless they are right.
  unfoldable pub replace_same_type : Text → RecordParams → List DnsRecord → List Call → Run
  unfolding delete_record add_record value_of text_eq
  replace_same_type name params managed_same_type calls =
      if is_right params.rdata_value managed_same_type
      then (calls, none)
      else and_then (visit_each delete_record managed_same_type calls) (add_record name params)

  -- The part of the loop over the names behind the test for unmanaged records.
  unfoldable pub replace_records : Text → RecordParams → List DnsRecord → List Call → Run
  unfolding replace_same_type text_eq
  replace_records name params managed_records calls =
      and_then
        (visit_each delete_record (keep (λ r. not (has_type params.record_type r)) managed_records)
          calls)
        (replace_same_type name params (keep (has_type params.record_type) managed_records))

  unfoldable pub publish_name : List DnsRecord → RecordParams → Text → List Call → Run
  unfolding trim_space has_unmanaged existing_by_name_type managed_by_name replace_records
  publish_name records params name calls =
      if is_empty (trim_space name)
      then (calls, none)
      else if has_unmanaged (existing_by_name_type records (name_and_type name params.record_type))
      then (calls, none)
      else replace_records name params (managed_by_name records name) calls

  -- The managed records of a name that is not desired.
  unfoldable pub remove_name : List DnsRecord → List Text → Text → List Call → Run
  unfolding has_member managed_by_name delete_record
  remove_name records desired name calls =
      if has_member name desired
      then (calls, none)
      else visit_each delete_record (managed_by_name records name) calls

  -- publishOnce from the records on. `visits` is the order in which `range managedByName` goes through
  -- the names of the records.
  unfoldable pub sync_records :
      (List DnsRecord → List Text) → List DnsRecord → RecordParams → List Text → List Call → Run
  unfolding remove_name publish_name to_name_set
  sync_records visits records params filtered_names calls =
      and_then
        (visit_each (remove_name records (to_name_set filtered_names)) (visits records) calls)
        (visit_each (publish_name records params) filtered_names)

  abbrev pub with_records :
      (List DnsRecord → List Text)
      → RecordParams
      → List Text
      → List Call
      → Answer (List DnsRecord)
      → Run
  with_records visits params filtered_names calls (err e) = (calls, some e)
  with_records visits params filtered_names calls (ok records) =
      sync_records visits records params filtered_names calls

  abbrev pub with_names : (List DnsRecord → List Text) → RecordParams → List Text → List Call → Run
  with_names visits params [] calls = (calls, none)
  with_names visits params (name ∷ names) calls =
      with_records visits params (name ∷ names) (calls ++ get_zone_call ∷ [])
        (get_zone_records calls)

  -- publishOnce
  unfoldable pub publish_once : (List DnsRecord → List Text) → List Text → Text → List Call → Run
  unfolding record_params filter_names_for_zone get_zone_records sync_records
  publish_once visits names caddy_host calls = elim (record_params w caddy_host) [
    | err e ↦ (calls, some e)
    | ok params ↦ with_names visits params (filter_names_for_zone w names p.zone) calls
  ]
