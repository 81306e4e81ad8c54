-- ===== src/NamePublish/Build/Tests.antt =====
-- Runs of BuildPublishers.
use caddy_docker_proxy.Config.{TechnitiumOptions, NamePublishOptions}
use caddy_docker_proxy.NamePublish.Build.{build_publishers}
use caddy_docker_proxy.NamePublish.Build.Errors.{
  is_err, is_missing, lacks_technitium, build_publishers-is_err,
}
use caddy_docker_proxy.Prelude.{◌≡◌, refl, true, ◌&&◌, ◌||◌, [], ◌∷◌, pos, ok, codes}

abbrev technitium_opts : TechnitiumOptions
technitium_opts = record {
  enabled = true;
  base_url = codes "http://dns";
  token = codes "t";
  zone = codes "lan";
  ttl = pos 0;
}

abbrev opts : NamePublishOptions
opts = record {
  enabled = true;
  caddy_host = codes "caddy";
  technitium = technitium_opts;
  avahi = record { enabled = true; refresh_interval = pos 0 };
}

builds_both :
    build_publishers opts
    ≡ ok (
        record { name = codes "technitium"; has_publisher = true }
        ∷ record { name = codes "avahi"; has_publisher = true }
        ∷ [])
unfolding build_publishers
builds_both = refl

build_publishers-is_err_example : is_err (build_publishers opts) ≡ (
    opts.enabled
    && (is_missing opts.caddy_host
        || (opts.technitium.enabled && lacks_technitium opts.technitium)))
build_publishers-is_err_example = build_publishers-is_err opts
