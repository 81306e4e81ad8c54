-- ===== src/NamePublish/Avahi/Tests.antt =====
-- Runs of the mDNS publisher, and the theorems at concrete inputs.
use caddy_docker_proxy.NamePublish.Avahi.{
  AvahiPublisher, AvahiWorld, type_a, Question, ResourceRecord, new_avahi_publisher,
  name_has_local_suffix, filter_local_names, contains_name, resolve_ips, avahi_publish, answer_of,
  mdns_records,
}
use caddy_docker_proxy.NamePublish.Avahi.Count.{answered_ips}
use caddy_docker_proxy.NamePublish.Avahi.Published.{avahi_publish-mdns_records}
use caddy_docker_proxy.NamePublish.Avahi.Records.{IsAnswer, mdns_records-IsAnswer}
use caddy_docker_proxy.NamePublish.Technitium.{trim_suffix}
use caddy_docker_proxy.Prelude.{
  ◌≡◌, refl, ap, ◌≢◌, ◌↔◌, true, none, some, List, [], ◌∷◌, ◌++◌, pos, length, In, sort_strings, ok,
  Text, codes, text_eq, text_eq_iff,
}

-- One host with two addresses, and no upper case.
abbrev world : AvahiWorld
world = record {
  parse_ip = λ t. some (true, t);
  lookup = λ host. ok [];
  new_server = none;
  to_lower = λ t. t;
  equal_fold = text_eq;
  fqdn = λ t. t ++ codes ".";
}

abbrev publisher : AvahiPublisher
publisher = new_avahi_publisher (record { enabled = true; refresh_interval = pos 0 })

abbrev asked : List Text
asked = codes "b.local" ∷ codes "a.com" ∷ codes "a.local" ∷ []

abbrev question : Question
question = record { qname = codes "a.local."; qtype = type_a }

abbrev after_publish : AvahiPublisher
after_publish = (avahi_publish world asked (codes "10.0.0.1") publisher).0

abbrev expected : ResourceRecord
expected = answer_of world type_a (codes "a.local") (codes "10.0.0.1")

answers : mdns_records world question after_publish ≡ expected ∷ []
unfolding mdns_records avahi_publish
answers = refl

forgets_others : after_publish.desired_names ≡ codes "a.local" ∷ codes "b.local" ∷ []
unfolding avahi_publish
forgets_others = refl

mdns_records-IsAnswer_example :
    ((rr : ResourceRecord)
      → In rr (mdns_records world question after_publish)
        ↔ IsAnswer world question after_publish rr)
    × (length (mdns_records world question after_publish)
        ≡ length (answered_ips world question after_publish))
mdns_records-IsAnswer_example = mdns_records-IsAnswer world question after_publish

one_address : answered_ips world question after_publish ≡ codes "10.0.0.1" ∷ []
unfolding avahi_publish name_has_local_suffix contains_name trim_suffix
one_address = refl

no_error : (avahi_publish world asked (codes "10.0.0.1") publisher).1 ≡ none
unfolding avahi_publish
no_error = refl

host_ips : resolve_ips world (codes "10.0.0.1") ≡ ok (codes "10.0.0.1" ∷ [])
unfolding resolve_ips
host_ips = refl

some_local : filter_local_names world asked ≢ []
unfolding filter_local_names
some_local e = cc

folds :
    (a b : Text)
    → text_eq a b ≡ true
    → name_has_local_suffix world a ≡ name_has_local_suffix world b
folds a b h = ap (name_has_local_suffix world) ((text_eq_iff a b).0 h)

avahi_publish-mdns_records_example :
    mdns_records world question (avahi_publish world asked (codes "10.0.0.1") publisher).0
    ≡ mdns_records world question (record publisher {
      desired_names = asked;
      last_ips = sort_strings (codes "10.0.0.1" ∷ []);
    })
avahi_publish-mdns_records_example =
    avahi_publish-mdns_records world folds asked (codes "10.0.0.1") (codes "10.0.0.1") [] publisher
      question no_error host_ips some_local
