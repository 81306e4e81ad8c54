-- ===== src/Loader/Synced/Quiet.antt =====
-- update of servers that have the loader's version.
use caddy_docker_proxy.Loader.{
  Caddy, Http, Naming, Loader, Effect, url_of, post_body, post, rearm, update_server,
  update_servers, load_caddyfile, update_all, update,
}
use caddy_docker_proxy.Loader.Synced.{Deployed, IsIdle}
use caddy_docker_proxy.Loader.Synced.Current.{
  IsSynced, IsCurrent, update_server-IsCurrent, IsUpdated, update_servers-IsUpdated,
}
use caddy_docker_proxy.Loader.Synced.Deploys.{
  max_version, bumped-IsSynced, rearm-IsSynced, load_caddyfile-eq,
}
use caddy_docker_proxy.Loader.Synced.Served.{update_server-eq, update_server-Leaves}
use caddy_docker_proxy.Prelude.{
  ◌≡◌, refl, sym, ap, subst, ◌∙◌, ◌≢◌, inl, inr, Bool, true, false, some, List, [], ◌∷◌, ℤ,
  increment_int64, int_leb_refl, In, ok, Text, text_eq, text_eq_refl,
}

module _ {Config : Type 0} (c : Caddy Config) (h : Http) (n : Naming) where
  -- A server that has the version is sent nothing.
  update_server-silent :
      (server : Text) (s : Loader)
      → IsIdle s
      → IsCurrent c h n s server
      → (update_server c h n server s).1 ≡ []
  update_server-silent server s i q =
      rw (update_server-eq c h n server s (i server), q, int_leb_refl s.last_version) refl

  update_servers-silent :
      (servers : List Text) (s : Loader)
      → IsIdle s
      → ((x : Text) → In x servers → IsCurrent c h n s x)
      → (update_servers c h n servers s).1 ≡ []
  unfolding update_servers
  update_servers-silent [] s i q = refl
  update_servers-silent (server ∷ servers) s i q =
      rw
        (
          update_server-silent server s i (q server (inl refl)),
          update_servers-silent servers (update_server c h n server s).0
              (update_server-Leaves c h n server s i).idle
              (λ x j. update_server-IsCurrent c h n server x s i (q x (inr j))),
        )
        refl

  load_caddyfile-unchanged :
      (s : Loader) (caddyfile : Text)
      → text_eq s.last_caddyfile caddyfile ≡ true
      → load_caddyfile c h n caddyfile s ≡ (true, record s { last_caddyfile = caddyfile })
  unfolding load_caddyfile
  load_caddyfile-unchanged s caddyfile t = rw (load_caddyfile, t) refl

  update-silent :
      (polling_interval : ℤ) (caddyfile : Text) (servers : List Text) (s : Loader)
      → IsIdle s
      → text_eq s.last_caddyfile caddyfile ≡ true
      → ((x : Text) → In x servers → IsCurrent c h n s x)
      → (update c h n polling_interval (caddyfile, servers) s).2 ≡ []
  unfolding update update_all rearm
  update-silent polling_interval caddyfile servers s i t q =
      ap (λ (z : Bool × Loader). (update_all c h n servers z).2)
        (load_caddyfile-unchanged (rearm polling_interval s) caddyfile t)
      ∙ update_servers-silent servers _ i q

  -- A second update with the same Caddyfile and servers sends nothing, if in the first, which brought
  -- a new Caddyfile that the adapter accepts, all controlled servers accept their configurations. The
  -- loader was in step with the servers, and its version counter is not at its greatest value.
  pub update_again :
      (polling_interval : ℤ) (caddyfile config_json : Text) (servers : List Text) (s : Loader)
      (d : Deployed)
      → s.last_version ≢ max_version
      → IsSynced c h n s d
      → text_eq s.last_caddyfile caddyfile ≡ false
      → c.adapt caddyfile ≡ ok config_json
      → ((server : Text)
          → In server servers
          → (body : Text) × (post_body c server config_json ≡ ok body)
            × (post h (url_of server) body ≡ some true))
      → (update c h n polling_interval
          (caddyfile, servers)
          (update c h n polling_interval (caddyfile, servers) s).1).2
        ≡ []
  unfolding update update_all rearm
  update_again polling_interval caddyfile config_json servers s d small v t q accept =
      subst (λ (z : Loader). (update c h n polling_interval (caddyfile, servers) z).2 ≡ [])
        (sym first_update)
        (update-silent polling_interval caddyfile servers r.0 u.synced.idle same_caddyfile
          (λ x i. u.reached x i (accept x i)))
    where
      bumped : Loader
      bumped = record (rearm polling_interval s) {
        last_caddyfile = caddyfile;
        last_json_config = config_json;
        last_version = increment_int64 s.last_version;
      }

      r : Loader × List Effect
      r = update_servers c h n servers bumped

      u : IsUpdated c h n bumped d servers r
      u = update_servers-IsUpdated c h n servers bumped d (
          bumped-IsSynced c h n (rearm polling_interval s) d caddyfile config_json small
            (rearm-IsSynced c h n polling_interval s d v))

      same_caddyfile : text_eq r.0.last_caddyfile caddyfile ≡ true
      same_caddyfile = rw u.caddyfile (text_eq_refl caddyfile)

      first_update : (update c h n polling_interval (caddyfile, servers) s).1 ≡ r.0
      first_update =
          ap (λ (z : Bool × Loader). (update_all c h n servers z).1)
            (load_caddyfile-eq c h n (rearm polling_interval s) caddyfile config_json t q)
