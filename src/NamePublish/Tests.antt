-- ===== src/NamePublish/Tests.antt =====
-- Runs of package namepublish, and the theorems at concrete inputs.
use caddy_docker_proxy.Caddyfile.Block.{block, Container, nil, cons}
use caddy_docker_proxy.Caddyfile.Parser.{unmarshal}
use caddy_docker_proxy.NamePublish.Extract.{extract_desired_names}
use caddy_docker_proxy.NamePublish.Extract.Sound.{
  IsDistinct, IsDesired, extract_desired_names-IsDesired,
}
use caddy_docker_proxy.NamePublish.Manager.{Manager, maybe_publish}
use caddy_docker_proxy.NamePublish.Manager.Once.{maybe_publish-again}
use caddy_docker_proxy.Prelude.{
  ◌≡◌, refl, ◌↔◌, true, Option, none, some, List, Perm, [], ◌∷◌, pos, In, ok, if◌then◌else◌, Text,
  codes, text_eq,
}
use mathlib.Core.List.Perm

-- A URL parser that knows no URL, and a port that is cut off behind the last colon of "b.com:80".
no_host : Text → Option Text
no_host t = none

cut_port : Text → Option Text
unfolding text_eq
cut_port t = if text_eq t (codes "b.com:80") then some (codes "b.com") else none

abbrev sites : Text
sites = codes "{\n\temail a@b\n}\na.com, b.com:80/x {\n}\n(s) {\n}\nb.com {\n}\n"

abbrev sites_swapped : Text
sites_swapped = codes "b.com {\n}\na.com {\n}\n"

abbrev two_names : List Text
two_names = codes "a.com" ∷ codes "b.com" ∷ []

extracts : extract_desired_names no_host cut_port sites ≡ ok two_names
unfolding extract_desired_names no_host cut_port
extracts = refl

extracts_swapped :
    extract_desired_names no_host cut_port sites_swapped ≡ ok (codes "b.com" ∷ codes "a.com" ∷ [])
unfolding extract_desired_names no_host cut_port
extracts_swapped = refl

abbrev site_a : Container
site_a = cons (block nil 0 (codes "a.com" ∷ [])) nil

reads_site : unmarshal (codes "a.com\n") ≡ ok site_a
unfolding unmarshal
reads_site = refl

extract_desired_names-IsDesired_example :
    (names : List Text) × (extract_desired_names no_host cut_port (codes "a.com\n") ≡ ok names)
    × IsDistinct names
    × ((name : Text) → In name names ↔ IsDesired no_host cut_port site_a name)
extract_desired_names-IsDesired_example =
    extract_desired_names-IsDesired no_host cut_port (codes "a.com\n") site_a reads_site

-- The hash is the text itself.
abbrev same_text : Text → Text
same_text t = t

abbrev manager : Manager
manager = record {
  caddy_host = codes "caddy";
  publishers = record { name = codes "avahi"; has_publisher = true } ∷ [];
  last_version = pos 0;
  last_hash = [];
}

swapped_names : Perm two_names (codes "b.com" ∷ codes "a.com" ∷ [])
swapped_names = Perm.swap (codes "b.com") (codes "a.com") []

maybe_publish-again_example :
    maybe_publish same_text no_host cut_port
      (maybe_publish same_text no_host cut_port manager (pos 3) sites).0
      (pos 3)
      sites_swapped
    ≡ ((maybe_publish same_text no_host cut_port manager (pos 3) sites).0, none)
maybe_publish-again_example =
    maybe_publish-again same_text no_host cut_port manager (pos 3) sites sites_swapped two_names
      (codes "b.com" ∷ codes "a.com" ∷ []) extracts extracts_swapped swapped_names

publishes : (maybe_publish same_text no_host cut_port manager (pos 3) sites).1 ≡ some two_names
unfolding maybe_publish no_host cut_port
publishes = refl
