-- ===== src/NamePublish/Build/Errors.antt =====
-- When BuildPublishers fails.
use caddy_docker_proxy.Caddyfile.Lexer.{is_empty}
use caddy_docker_proxy.Config.{TechnitiumOptions, NamePublishOptions}
use caddy_docker_proxy.Generator.Docker.{Answer}
use caddy_docker_proxy.NamePublish.Build.{technitium_entries, avahi_entries, build_publishers}
use caddy_docker_proxy.NamePublish.Manager.{PublisherEntry}
use caddy_docker_proxy.NamePublish.Technitium.{new_technitium_publisher}
use caddy_docker_proxy.Prelude.{
  ◌≡◌, refl, ◌∙◌, inl, inr, Bool, true, false, ◌&&◌, ◌||◌, List, ◌++◌, arith, ok, err, ◌>>=◌,
  Bool-cases, Text, trim_space,
}

abbrev pub is_err : {A : Type 0} → Answer A → Bool
is_err (ok a) = false
is_err (err e) = true

abbrev pub is_missing : Text → Bool
is_missing t = is_empty (trim_space t)

-- Options of the Technitium publisher without one of what it needs.
abbrev pub lacks_technitium : TechnitiumOptions → Bool
lacks_technitium opts = is_missing opts.base_url || is_missing opts.token || is_missing opts.zone

technitium_entries-err :
    (opts : TechnitiumOptions)
    → is_err (technitium_entries opts) ≡ (opts.enabled && lacks_technitium opts)
unfolding technitium_entries new_technitium_publisher
technitium_entries-err opts = ground arith

is_err-then :
    (a : Answer (List PublisherEntry)) (more : List PublisherEntry)
    → is_err (a >>= (λ entries. ok (entries ++ more))) ≡ is_err a
is_err-then (ok entries) more = refl
is_err-then (err e) more = refl

-- BuildPublishers fails exactly if names are to be published and the host of Caddy is blank, or the
-- Technitium publisher is enabled and its URL, its token or its zone is blank.
pub build_publishers-is_err :
    (opts : NamePublishOptions)
    → is_err (build_publishers opts) ≡ (
        opts.enabled
        && (is_missing opts.caddy_host
            || (opts.technitium.enabled && lacks_technitium opts.technitium)))
unfolding build_publishers
build_publishers-is_err opts = elim (Bool-cases opts.enabled) [
  | inr f ↦ rw f refl
  | inl t ↦ elim (Bool-cases (is_empty (trim_space opts.caddy_host))) [
    | inl u ↦ rw (t, u) refl
    | inr g ↦
        rw (t, g)
          (is_err-then (technitium_entries opts.technitium) (avahi_entries opts.avahi)
            ∙ technitium_entries-err opts.technitium)
  ]
]
