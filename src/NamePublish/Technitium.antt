-- ===== src/NamePublish/Technitium.antt =====
-- namepublish/technitium.go. The Technitium server, package net/http, net.ParseIP and the case tables
-- of package unicode are parameters; the server's answers may depend on the requests so far, which are
-- the state. Log messages are not modelled.
pub mod Publish
pub mod Retry
mod Tests
use caddy_docker_proxy.Caddyfile.Lexer.{is_empty}
use caddy_docker_proxy.Config.{TechnitiumOptions}
use caddy_docker_proxy.Generator.Docker.{Answer}
use caddy_docker_proxy.Prelude.{
  Bool, not, ◌&&◌, ◌||◌, Option, none, some, List, [], ◌∷◌, ◌++◌, map, ℤ, length, drop, any, keep,
  Entries, ok, err, ◌==◌, if◌then◌else◌, Text, codes, text_eq, has_suffix, span, trim_space,
  contains,
}
use mathlib.Core.List.{reverse}

-- technitiumManagedComment
abbrev pub technitium_managed_comment : Text
technitium_managed_comment = codes "managed-by:caddy-docker-proxy"

-- technitiumRecord
pub record DnsRecord : Type 0 where
  pub name : Text
  pub record_type : Text
  pub comments : Text
  pub cname : Text
  pub ip_address : Text

-- TechnitiumPublisher, less the client and the logger.
pub record TechnitiumPublisher : Type 0 where
  pub base_url : Text
  pub token : Text
  pub zone : Text
  pub ttl : ℤ

-- The requests to the server: the records of the zone, the removal of a record with its value, and a
-- new record of a domain with its type, the key and the value of its data.
pub data Call : Type 0 where
  get_zone_call : Call
  delete_call : DnsRecord → Text → Call
  add_call : Text → Text → Text → Text → Call

-- technitiumStatus
pub record TechnitiumStatus : Type 0 where
  pub status : Text
  pub error_message : Text

-- The answers of the server to an endpoint and a form, after the requests so far; an error is one of
-- the connection or of the JSON. `parse_ip` gives whether the address is one of IPv4, and its text.
pub record TechnitiumWorld : Type 0 where
  pub do_json : List Call → Text → Entries Text → Answer TechnitiumStatus
  pub get_records : List Call → Text → Entries Text → Answer (TechnitiumStatus × List DnsRecord)
  pub parse_ip : Text → Option (Bool × Text)
  pub to_lower : Text → Text
  pub to_upper : Text → Text

-- NewTechnitiumPublisher
unfoldable pub new_technitium_publisher : TechnitiumOptions → Answer TechnitiumPublisher
unfolding trim_space
new_technitium_publisher opts =
    if is_empty (trim_space opts.base_url)
    then err (codes "technitium base URL is required")
    else if is_empty (trim_space opts.token)
    then err (codes "technitium token is required")
    else if is_empty (trim_space opts.zone)
    then err (codes "technitium zone is required")
    else ok
        (record { base_url = opts.base_url; token = opts.token; zone = opts.zone; ttl = opts.ttl })

-- errorMessage
abbrev pub error_message_of : Text → Text
error_message_of [] = codes "unknown error"
error_message_of (c ∷ cs) = c ∷ cs

-- strings.TrimSuffix
unfoldable pub trim_suffix : Text → Text → Text
unfolding has_suffix
trim_suffix suffix s = if has_suffix suffix s then reverse (drop (length suffix) (reverse s)) else s

-- `strings.TrimRight(s, "/")`
unfoldable pub trim_slashes : Text → Text
unfolding span
trim_slashes s = reverse (span (λ c. c == b'/') (reverse s)).1

-- The types of records with the key of their data.
pub record RecordParams : Type 0 where
  pub record_type : Text
  pub rdata_key : Text
  pub rdata_value : Text

-- hasUnmanaged
unfoldable pub has_unmanaged : List DnsRecord → Bool
unfolding text_eq
has_unmanaged records =
    any (λ (r : DnsRecord). not (text_eq r.comments technitium_managed_comment)) records

-- toNameSet
unfoldable pub to_name_set : List Text → List Text
unfolding trim_space
to_name_set names = keep (λ name. not (is_empty name)) (map trim_space names)

-- `key` in publishOnce
abbrev pub name_and_type : Text → Text → Text
name_and_type name record_type = name ++ (codes "|" ++ record_type)

module _ (w : TechnitiumWorld) where
  -- technitiumRecord.value
  unfoldable pub value_of : DnsRecord → Text
  unfolding text_eq
  value_of r =
      let t = w.to_upper r.record_type in
      if text_eq t (codes "CNAME")
      then r.cname
      else if text_eq t (codes "A") || text_eq t (codes "AAAA")
      then r.ip_address
      else []

  -- isSupportedType
  unfoldable pub is_supported_type : Text → Bool
  unfolding text_eq
  is_supported_type record_type =
      let t = w.to_upper record_type in
      text_eq t (codes "A") || text_eq t (codes "AAAA") || text_eq t (codes "CNAME")

  -- recordParams
  unfoldable pub record_params : Text → Answer RecordParams
  unfolding trim_space
  record_params caddy_host = elim (w.parse_ip caddy_host) [
    | some (is_v4, ip) ↦ ok (record {
      record_type = if is_v4 then codes "A" else codes "AAAA";
      rdata_key = codes "ipAddress";
      rdata_value = ip;
    })
    | none ↦
        if is_empty (trim_space caddy_host)
        then err (codes "technitium caddy host is empty")
        else ok (record {
          record_type = codes "CNAME";
          rdata_key = codes "cname";
          rdata_value = trim_space caddy_host;
        })
  ]

  -- The candidate of filterNamesForZone, and the zone that it is compared with.
  abbrev pub canonical_name : Text → Text
  canonical_name name = trim_space (trim_suffix (codes ".") (w.to_lower name))

  abbrev pub is_in_zone : Text → Text → Bool
  is_in_zone zone candidate =
      not (is_empty candidate)
      && (text_eq candidate zone || has_suffix (codes "." ++ zone) candidate)

  -- filterNamesForZone
  unfoldable pub filter_names_for_zone : List Text → Text → List Text
  unfolding trim_space trim_suffix text_eq has_suffix
  filter_names_for_zone names zone =
      if is_empty (canonical_name zone)
      then []
      else keep (λ name. is_in_zone (canonical_name zone) (canonical_name name)) names

  -- isRetryableError; the further tests there lead to the same result.
  unfoldable pub is_retryable_error : Text → Bool
  unfolding contains
  is_retryable_error message =
      not (contains (codes "does not belong to the zone") (w.to_lower message))
      && not (contains (codes "unmanaged record exists") (w.to_lower message))
