-- ===== src/NamePublish/Build.antt =====
-- namepublish/build.go. The publishers themselves are left out of the entries, as in Manager.
pub mod Errors
mod Tests
use caddy_docker_proxy.Caddyfile.Lexer.{is_empty}
use caddy_docker_proxy.Config.{TechnitiumOptions, AvahiOptions, NamePublishOptions}
use caddy_docker_proxy.Generator.Docker.{Answer}
use caddy_docker_proxy.NamePublish.Manager.{PublisherEntry}
use caddy_docker_proxy.NamePublish.Technitium.{new_technitium_publisher}
use caddy_docker_proxy.Prelude.{
  true, not, List, [], ◌∷◌, ◌++◌, ok, err, ◌>>=◌, if◌then◌else◌, codes, trim_space,
}

-- The entry of the Technitium publisher, if it is enabled.
unfoldable pub technitium_entries : TechnitiumOptions → Answer (List PublisherEntry)
unfolding new_technitium_publisher
technitium_entries opts = if not opts.enabled then ok [] else elim (new_technitium_publisher opts) [
  | err e ↦ err e
  | ok publisher ↦ ok (record { name = codes "technitium"; has_publisher = true } ∷ [])
]

abbrev pub avahi_entries : AvahiOptions → List PublisherEntry
avahi_entries opts =
    if opts.enabled then record { name = codes "avahi"; has_publisher = true } ∷ [] else []

-- BuildPublishers
unfoldable pub build_publishers : NamePublishOptions → Answer (List PublisherEntry)
unfolding trim_space technitium_entries
build_publishers opts =
    if not opts.enabled
    then ok []
    else if is_empty (trim_space opts.caddy_host)
    then err (codes "name publish enabled but caddy host is empty")
    else do entries ← technitium_entries opts.technitium; ok (entries ++ avahi_entries opts.avahi)
