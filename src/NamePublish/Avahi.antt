-- ===== src/NamePublish/Avahi.antt =====
-- namepublish/avahi.go. The mDNS server, the resolver, net.ParseIP, dns.Fqdn and the case tables of
-- package unicode are parameters; a call of Publish or of reconcile runs without another one between.
pub mod Published
pub mod Count
pub mod Records
mod Tests
use caddy_docker_proxy.Caddyfile.Lexer.{is_empty}
use caddy_docker_proxy.Config.{AvahiOptions}
use caddy_docker_proxy.Generator.Docker.{Answer}
use caddy_docker_proxy.Loader.Synced.Served.{taken}
use caddy_docker_proxy.NamePublish.Technitium.{trim_suffix}
use caddy_docker_proxy.Prelude.{
  ℕ, Bool, true, false, not, ◌&&◌, ◌||◌, Option, none, some, List, [], ◌∷◌, ◌++◌, ℤ, pos, int_leb,
  any, keep, flat_map, has_member, sort_strings, join, ok, err, if◌then◌else◌, Text, codes, text_eq,
  has_suffix, trim_space,
}

-- The fields of AvahiPublisher that matter here; the server and the ticker are there or not.
pub record AvahiPublisher : Type 0 where
  pub refresh_interval : ℤ
  pub desired_names : List Text
  pub desired_host : Text
  pub last_hash : Text
  pub last_ips : List Text
  pub has_server : Bool
  pub has_ticker : Bool

-- `parse_ip` gives whether the address is one of IPv4, and its text; `lookup` the texts of the
-- addresses of a host, `none` for one without an IP; `new_server` the error of mdns.NewServer.
pub record AvahiWorld : Type 0 where
  pub parse_ip : Text → Option (Bool × Text)
  pub lookup : Text → Answer (List (Option Text))
  pub new_server : Option Text
  pub to_lower : Text → Text
  pub equal_fold : Text → Text → Bool
  pub fqdn : Text → Text

-- The type of a question.
pub data QuestionType : Type 0 where
  type_a : QuestionType
  type_aaaa : QuestionType
  other_type : QuestionType

pub record Question : Type 0 where
  pub qname : Text
  pub qtype : QuestionType

-- dns.A and dns.AAAA
pub record ResourceRecord : Type 0 where
  pub header_name : Text
  pub rr_type : QuestionType
  pub ttl_seconds : ℕ
  pub address : Text

-- NewAvahiPublisher
abbrev pub new_avahi_publisher : AvahiOptions → AvahiPublisher
new_avahi_publisher opts = record {
  refresh_interval = opts.refresh_interval;
  desired_names = [];
  desired_host = [];
  last_hash = [];
  last_ips = [];
  has_server = false;
  has_ticker = false;
}

-- updateState
abbrev pub update_state : List Text → List Text → AvahiPublisher → AvahiPublisher
update_state names ips p = record p { desired_names = names; last_ips = ips }

-- hashAvahiState of names and addresses that it has sorted in place
unfoldable pub hash_avahi_state : List Text → List Text → Text
unfolding join
hash_avahi_state names ips = join (codes ",") names ++ (codes "|" ++ join (codes ",") ips)

-- sameStringSlice
unfoldable pub same_string_slice : List Text → List Text → Bool
unfolding text_eq
same_string_slice [] [] = true
same_string_slice (a ∷ as') (b ∷ bs) = text_eq a b && same_string_slice as' bs
same_string_slice _ _ = false

-- `p.ticker != nil` after startTickerLocked
abbrev pub start_ticker_locked : AvahiPublisher → AvahiPublisher
start_ticker_locked p = record p {
  has_ticker = p.has_ticker || not (int_leb p.refresh_interval (pos 0));
}

-- Each text once, in the order in which it comes first; what has no IP is left out.
unfoldable pub distinct_ips : List Text → List (Option Text) → List Text
unfolding has_member
distinct_ips seen [] = []
distinct_ips seen (none ∷ addrs) = distinct_ips seen addrs
distinct_ips seen (some ip ∷ addrs) =
    let skipped = distinct_ips seen addrs in
    let taken = distinct_ips (ip ∷ seen) addrs in if has_member ip seen then skipped else ip ∷ taken

-- The guard of Records: there are answers to the two types only.
abbrev pub if_address_type : QuestionType → List ResourceRecord → List ResourceRecord
if_address_type other_type rs = []
if_address_type type_a rs = rs
if_address_type type_aaaa rs = rs

module _ (w : AvahiWorld) where
  -- nameHasLocalSuffix
  unfoldable pub name_has_local_suffix : Text → Bool
  unfolding has_suffix
  name_has_local_suffix name = has_suffix (codes ".local") (w.to_lower name)

  -- filterLocalNames
  unfoldable pub filter_local_names : List Text → List Text
  unfolding name_has_local_suffix
  filter_local_names names = keep name_has_local_suffix names

  -- containsName
  unfoldable pub contains_name : List Text → Text → Bool
  contains_name names candidate = any (λ name. w.equal_fold name candidate) names

  -- resolveIPs
  unfoldable pub resolve_ips : Text → Answer (List Text)
  unfolding trim_space distinct_ips sort_strings
  resolve_ips host =
      if is_empty (trim_space host) then ok [] else elim (w.parse_ip (trim_space host)) [
        | some (is_v4, ip) ↦ ok (ip ∷ [])
        | none ↦ elim (w.lookup (trim_space host)) [
          | err e ↦ err e
          | ok addrs ↦ ok (sort_strings (distinct_ips [] addrs))
        ]
      ]

  -- The end of reconcile, for sorted names and addresses.
  unfoldable pub refresh_state : List Text → List Text → AvahiPublisher → AvahiPublisher
  unfolding hash_avahi_state same_string_slice text_eq
  refresh_state names ips p =
      let hash = hash_avahi_state names ips in
      if text_eq hash p.last_hash && same_string_slice ips p.last_ips
      then p
      else update_state names ips (record p { last_hash = hash; last_ips = ips })

  -- reconcile, for the addresses that resolveIPs returns.
  abbrev pub with_ips :
      List Text → Answer (List Text) → AvahiPublisher → AvahiPublisher × Option Text
  with_ips local_names (err e) p = (p, some e)
  with_ips local_names (ok []) p = (p, none)
  with_ips local_names (ok (ip ∷ ips)) p =
      (refresh_state (sort_strings local_names) (sort_strings (ip ∷ ips)) p, none)

  abbrev pub with_local_names : List Text → AvahiPublisher → AvahiPublisher × Option Text
  with_local_names [] p = (update_state [] [] p, none)
  with_local_names (name ∷ names) p = with_ips (name ∷ names) (resolve_ips p.desired_host) p

  -- reconcile
  unfoldable pub reconcile : AvahiPublisher → AvahiPublisher × Option Text
  unfolding filter_local_names resolve_ips refresh_state sort_strings
  reconcile p = with_local_names (filter_local_names p.desired_names) p

  -- ensureServer
  abbrev pub ensure_server : AvahiPublisher → AvahiPublisher × Option Text
  ensure_server p = if p.has_server then (p, none) else elim w.new_server [
    | none ↦ (record p { has_server = true }, none)
    | some e ↦ (p, some (codes "failed to start mdns server: " ++ e))
  ]

  abbrev pub reconcile_after : AvahiPublisher × Option Text → AvahiPublisher × Option Text
  reconcile_after (p, none) = reconcile p
  reconcile_after (p, some e) = (p, some e)

  -- Publish
  unfoldable pub avahi_publish : List Text → Text → AvahiPublisher → AvahiPublisher × Option Text
  unfolding reconcile
  avahi_publish names caddy_host p = reconcile_after (
      ensure_server
        (start_ticker_locked (record p { desired_names = names; desired_host = caddy_host })))

  abbrev pub answer_of : QuestionType → Text → Text → ResourceRecord
  answer_of t name ip = record {
    header_name = w.fqdn name;
    rr_type = t;
    ttl_seconds = 120;
    address = ip;
  }

  -- The answer with an address, if it is of the family that is asked for.
  unfoldable pub record_of : QuestionType → Text → Text → List ResourceRecord
  record_of qtype name ip_str = elim (w.parse_ip ip_str) [
    | none ↦ []
    | some (is_v4, ip) ↦ elim qtype [
      | type_a ↦ if is_v4 then answer_of type_a name ip ∷ [] else []
      | type_aaaa ↦ if is_v4 then [] else answer_of type_aaaa name ip ∷ []
      | other_type ↦ []
    ]
  ]

  -- `strings.TrimSuffix(strings.ToLower(q.Name), ".")`
  abbrev pub asked_name : Question → Text
  asked_name q = trim_suffix (codes ".") (w.to_lower q.qname)

  -- Records for a question of the two types.
  unfoldable pub given_records : Question → AvahiPublisher → List ResourceRecord
  unfolding trim_suffix name_has_local_suffix contains_name record_of
  given_records q p =
      if not (name_has_local_suffix (asked_name q))
      then []
      else if not (contains_name p.desired_names (asked_name q))
      then []
      else flat_map (record_of q.qtype (asked_name q)) p.last_ips

  -- Records
  unfoldable pub mdns_records : Question → AvahiPublisher → List ResourceRecord
  unfolding given_records
  mdns_records q p = if_address_type q.qtype (given_records q p)
