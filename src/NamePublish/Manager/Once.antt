-- ===== src/NamePublish/Manager/Once.antt =====
-- MaybePublish publishes once for a version and a set of names.
use caddy_docker_proxy.NamePublish.Extract.{extract_desired_names}
use caddy_docker_proxy.NamePublish.Manager.{
  Manager, int_eq, is_last, hash_names, publish_names, maybe_publish,
}
use caddy_docker_proxy.Prelude.{
  ◌≡◌, refl, ap, subst, inl, inr, true, Option, none, List, Perm, [], ◌∷◌, ◌++◌, ℤ, pos, negsuc,
  join, ok, sort_strings-Perm, ==_refl, Bool-cases, Text, codes, text_eq_refl,
}
use mathlib.Core.List.Perm

int_eq_refl : (i : ℤ) → int_eq i i ≡ true
int_eq_refl (pos n) = ==_refl n
int_eq_refl (negsuc n) = ==_refl n

module _ (sha256_hex : Text → Text) where
  hash_names-Perm :
      {names names' : List Text} (caddy_host : Text)
      → Perm names names'
      → hash_names sha256_hex names caddy_host ≡ hash_names sha256_hex names' caddy_host
  unfolding hash_names
  hash_names-Perm caddy_host p =
      ap (λ ns. sha256_hex (join (codes ",") ns ++ (codes "|" ++ caddy_host))) (sort_strings-Perm p)

  -- Where the manager remembers the version and the hash, nothing is published.
  publish_names-is_last :
      (m : Manager) (version : ℤ) (names : List Text)
      → is_last m version (hash_names sha256_hex names m.caddy_host) ≡ true
      → publish_names sha256_hex m version names ≡ (m, none)
  unfolding publish_names
  publish_names-is_last m version [] h = refl
  publish_names-is_last m version (n ∷ ns) h = rw h refl

  publish_names-again :
      (m : Manager) (version : ℤ) (names names' : List Text)
      → Perm names names'
      → publish_names sha256_hex (publish_names sha256_hex m version names).0 version names'
        ≡ ((publish_names sha256_hex m version names).0, none)
  unfolding publish_names
  publish_names-again m version [] names' p =
      subst (λ ns. publish_names sha256_hex m version ns ≡ (m, none)) (Perm.nil-eq p) refl
  publish_names-again m version (n ∷ ns) names' p =
      elim (Bool-cases (is_last m version (hash_names sha256_hex (n ∷ ns) m.caddy_host))) [
        | inl t ↦
            rw t (publish_names-is_last m version names' (rw (hash_names-Perm m.caddy_host p) at t))
        | inr t ↦ rw t (
            publish_names-is_last _ version names' (
              rw (← hash_names-Perm m.caddy_host p, int_eq_refl version)
                (text_eq_refl (hash_names sha256_hex (n ∷ ns) m.caddy_host))))
      ]

  maybe_publish-publish_names :
      (url_host split_host_port : Text → Option Text) (m : Manager) (version : ℤ) (caddyfile : Text)
      (names : List Text)
      → extract_desired_names url_host split_host_port caddyfile ≡ ok names
      → maybe_publish sha256_hex url_host split_host_port m version caddyfile
        ≡ publish_names sha256_hex m version names
  unfolding maybe_publish
  maybe_publish-publish_names url_host split_host_port m version caddyfile names e =
      rw (maybe_publish, e) refl

  -- After a call of MaybePublish, published or not, a call with the same version publishes nothing and
  -- changes nothing, if its Caddyfile has the same names in any order. Unmarshal reads both Caddyfiles.
  pub maybe_publish-again :
      (url_host split_host_port : Text → Option Text) (m : Manager) (version : ℤ)
      (caddyfile caddyfile' : Text) (names names' : List Text)
      → extract_desired_names url_host split_host_port caddyfile ≡ ok names
      → extract_desired_names url_host split_host_port caddyfile' ≡ ok names'
      → Perm names names'
      → maybe_publish sha256_hex url_host split_host_port
          (maybe_publish sha256_hex url_host split_host_port m version caddyfile).0
          version
          caddyfile'
        ≡ ((maybe_publish sha256_hex url_host split_host_port m version caddyfile).0, none)
  maybe_publish-again url_host split_host_port m version caddyfile caddyfile' names names' e e' p =
      rw
        (
          maybe_publish-publish_names url_host split_host_port m version caddyfile names e,
          maybe_publish-publish_names url_host split_host_port
              (publish_names sha256_hex m version names).0 version caddyfile' names' e',
        )
        (publish_names-again m version names names' p)
