-- ===== src/NamePublish/Technitium/Tests.antt =====
-- Runs of the Technitium publisher, and the theorems at concrete inputs.
use caddy_docker_proxy.NamePublish.Technitium.{
  technitium_managed_comment, DnsRecord, TechnitiumPublisher, Call, get_zone_call, delete_call,
  add_call, TechnitiumStatus, TechnitiumWorld, RecordParams, has_unmanaged, record_params,
  filter_names_for_zone,
}
use caddy_docker_proxy.NamePublish.Technitium.Publish.{
  get_zone_records, existing_by_name_type, publish_once,
}
use caddy_docker_proxy.NamePublish.Technitium.Publish.Adds.{Adds}
use caddy_docker_proxy.NamePublish.Technitium.Publish.Published.{IsPublished, IsWanted}
use caddy_docker_proxy.NamePublish.Technitium.Publish.Success.{publish_once-IsPublished}
use caddy_docker_proxy.NamePublish.Technitium.Retry.{
  retry_delays, Publication, attempt_from, technitium_publish,
}
use caddy_docker_proxy.NamePublish.Technitium.Retry.Attempts.{
  total, IsRetried, technitium_publish-bounds, technitium_publish-IsRetried,
}
use caddy_docker_proxy.NamePublish.Technitium.Retry.Requests.{
  IsAllowedSometime, technitium_publish-Adds,
}
use caddy_docker_proxy.Prelude.{
  ◌≤◌, ◌≡◌, refl, inl, true, none, List, [], ◌∷◌, map, pos, length, In, ok, err, Text, codes,
  trim_space,
}

abbrev managed_record : Text → Text → DnsRecord
managed_record name value = record {
  name = name;
  record_type = codes "CNAME";
  comments = technitium_managed_comment;
  cname = value;
  ip_address = [];
}

abbrev foreign_record : DnsRecord
foreign_record = record (managed_record (codes "b.lan") (codes "other")) { comments = [] }

-- An old record, a record with an old value, and a record of another's making.
abbrev zone_records : List DnsRecord
zone_records =
    managed_record (codes "old.lan") (codes "caddy")
    ∷ managed_record (codes "a.lan") (codes "before")
    ∷ foreign_record
    ∷ []

abbrev status_ok : TechnitiumStatus
status_ok = record { status = codes "ok"; error_message = [] }

abbrev world : TechnitiumWorld
world = record {
  do_json = λ calls action form. ok status_ok;
  get_records = λ calls action form. ok (status_ok, zone_records);
  parse_ip = λ host. none;
  to_lower = λ t. t;
  to_upper = λ t. t;
}

abbrev publisher : TechnitiumPublisher
publisher = record { base_url = codes "http://dns/"; token = []; zone = codes "lan"; ttl = pos 60 }

abbrev in_order : List DnsRecord → List Text
in_order records = map (λ (r : DnsRecord). r.name) records

abbrev asked : List Text
asked = codes "a.lan" ∷ codes "b.lan" ∷ codes "c.org" ∷ []

-- The old record and the old value go, and one record is added.
abbrev requests_made : List Call
requests_made =
    get_zone_call
    ∷ delete_call (managed_record (codes "old.lan") (codes "caddy")) (codes "caddy")
    ∷ delete_call (managed_record (codes "a.lan") (codes "before")) (codes "before")
    ∷ add_call (codes "a.lan") (codes "CNAME") (codes "cname") (codes "caddy")
    ∷ []

publishes_once :
    publish_once world publisher in_order asked (codes "caddy") [] ≡ (requests_made, none)
unfolding publish_once
publishes_once = refl

abbrev params : RecordParams
params = record {
  record_type = codes "CNAME";
  rdata_key = codes "cname";
  rdata_value = codes "caddy";
}

host_params : record_params world (codes "caddy") ≡ ok params
unfolding record_params
host_params = refl

records_read : get_zone_records world publisher [] ≡ ok zone_records
unfolding get_zone_records
records_read = refl

no_error : (publish_once world publisher in_order asked (codes "caddy") []).1 ≡ none
unfolding publish_once
no_error = refl

a-In : In (codes "a.lan") (filter_names_for_zone world asked (codes "lan"))
unfolding filter_names_for_zone
a-In = inl refl

a-IsWanted : IsWanted world publisher zone_records params (codes "a.lan")
unfolding trim_space has_unmanaged existing_by_name_type
a-IsWanted = (refl, refl)

publish_once-IsPublished_example :
    IsPublished world publisher zone_records params
      (codes "a.lan")
      (publish_once world publisher in_order asked (codes "caddy") []).0
publish_once-IsPublished_example =
    publish_once-IsPublished world publisher in_order asked (codes "caddy") [] params zone_records
      host_params records_read no_error (codes "a.lan") a-In a-IsWanted

-- A server that refuses the connection.
abbrev down : TechnitiumWorld
down = record world { get_records = λ calls action form. err (codes "connection refused") }

abbrev publication : Publication
publication =
    technitium_publish down publisher (λ attempt. in_order) (λ attempt. true) asked (codes "caddy")
      []

tries_five_times : publication.waits ≡ 12 ∷ 24 ∷ 48 ∷ 96 ∷ []
unfolding attempt_from
tries_five_times = refl

technitium_publish-bounds_example :
    (1 ≤ length publication.results)
    × (length publication.results ≤ 5)
    × (total publication.waits ≤ 180)
technitium_publish-bounds_example =
    technitium_publish-bounds down publisher (λ attempt. in_order) (λ attempt. true) asked
      (codes "caddy") []

technitium_publish-IsRetried_example :
    IsRetried down publisher
      (λ attempt. in_order)
      (λ attempt. true)
      asked
      (codes "caddy")
      0
      retry_delays
      []
      publication
technitium_publish-IsRetried_example =
    technitium_publish-IsRetried down publisher (λ attempt. in_order) (λ attempt. true) asked
      (codes "caddy") []

technitium_publish-Adds_example :
    Adds
      (IsAllowedSometime down publisher
        (λ attempt. in_order)
        (λ attempt. true)
        asked
        (codes "caddy"))
      []
      (publication.calls, publication.error)
technitium_publish-Adds_example =
    technitium_publish-Adds down publisher (λ attempt. in_order) (λ attempt. true) asked
      (codes "caddy") []
