-- ===== src/Loader/Synced/Deploys.antt =====
-- update: what the servers run after it.
use caddy_docker_proxy.Generator.Docker.{Answer}
use caddy_docker_proxy.Loader.{
  Caddy, Http, Naming, Loader, version_of, url_of, post_body, post, rearm, update_servers,
  load_caddyfile, update_all, update,
}
use caddy_docker_proxy.Loader.Synced.{Deployed, deploy}
use caddy_docker_proxy.Loader.Synced.Current.{IsSynced, update_servers-IsUpdated}
use caddy_docker_proxy.Loader.Synced.Served.{ok_inj}
use caddy_docker_proxy.Prelude.{
  ◌-◌, ◌^◌, ◌≡◌, refl, sym, ap, subst, ◌∙◌, ◌≢◌, inl, inr, Bool, true, false, some, List, ℤ, pos,
  int_leb, increment_int64, int_leb_trans, increment_int64-gt, int_leb_total, In, ok, err,
  Bool-cases, Text, text_eq,
}

-- The greatest int64.
abbrev pub max_version : ℤ
max_version = pos (2 ^ 63 - 1)

not_true_and_false : {t : Bool} → t ≡ true → t ≡ false → ⊥
not_true_and_false {t} p q = cc

module _ {Config : Type 0} (c : Caddy Config) (h : Http) (n : Naming) where
  -- A new configuration has a version that no server has.
  pub bumped-IsSynced :
      (s : Loader) (d : Deployed) (caddyfile config_json : Text)
      → s.last_version ≢ max_version
      → IsSynced c h n s d
      → IsSynced c h n
          (record s {
            last_caddyfile = caddyfile;
            last_json_config = config_json;
            last_version = increment_int64 s.last_version;
          })
          d
  bumped-IsSynced s d caddyfile config_json small v =
      let gt = increment_int64-gt s.last_version small in
      let le = int_leb_total (increment_int64 s.last_version) s.last_version gt in
      record {
        started =
            int_leb_trans (pos 0) s.last_version (increment_int64 s.last_version) v.started le;
        behind = λ x.
            int_leb_trans (version_of x s) s.last_version (increment_int64 s.last_version)
              (v.behind x) le;
        current = λ x q z.
            absurd
              (not_true_and_false (subst (λ y. int_leb y s.last_version ≡ true) q (v.behind x)) gt);
        idle = v.idle;
      }

  load_caddyfile-IsSynced :
      (s : Loader) (d : Deployed) (caddyfile : Text)
      → s.last_version ≢ max_version
      → IsSynced c h n s d
      → IsSynced c h n (load_caddyfile c h n caddyfile s).1 d
  unfolding load_caddyfile
  load_caddyfile-IsSynced s d caddyfile small v =
      elim (Bool-cases (text_eq s.last_caddyfile caddyfile)) [
        | inl t ↦ rw (load_caddyfile, t) unchanged
        | inr t ↦ adapted t (c.adapt caddyfile) refl
      ]
    where
      unchanged : IsSynced c h n (record s { last_caddyfile = caddyfile }) d
      unchanged = record {
        started = v.started;
        behind = v.behind;
        current = v.current;
        idle = v.idle;
      }

      adapted :
          text_eq s.last_caddyfile caddyfile ≡ false
          → (r : Answer Text) → c.adapt caddyfile ≡ r
          → IsSynced c h n (load_caddyfile c h n caddyfile s).1 d
      adapted t (err e) q = rw (load_caddyfile, t, q) unchanged
      adapted t (ok config_json) q =
          rw (load_caddyfile, t, q) (bumped-IsSynced s d caddyfile config_json small v)

  pub rearm-IsSynced :
      (polling_interval : ℤ) (s : Loader) (d : Deployed)
      → IsSynced c h n s d
      → IsSynced c h n (rearm polling_interval s) d
  unfolding rearm
  rearm-IsSynced polling_interval s d v = record {
    started = v.started;
    behind = v.behind;
    current = v.current;
    idle = v.idle;
  }

  -- Each update leaves the loader in step with the servers: no recorded version is above the loader's,
  -- a server with the loader's version runs the loader's configuration, once there is one, and no
  -- server is marked as being updated. The version counter is not at its greatest value.
  pub update-IsSynced :
      (polling_interval : ℤ) (caddyfile : Text) (servers : List Text) (s : Loader) (d : Deployed)
      → s.last_version ≢ max_version
      → IsSynced c h n s d
      → IsSynced c h n
          (update c h n polling_interval (caddyfile, servers) s).1
          (deploy (update c h n polling_interval (caddyfile, servers) s).2 d)
  unfolding update rearm
  update-IsSynced polling_interval caddyfile servers s d small v =
      by_result (load_caddyfile c h n caddyfile (rearm polling_interval s)) (
        load_caddyfile-IsSynced (rearm polling_interval s) d caddyfile small
          (rearm-IsSynced polling_interval s d v))
    where
      by_result :
          (r : Bool × Loader)
          → IsSynced c h n r.1 d
          → IsSynced c h n (update_all c h n servers r).1 (deploy (update_all c h n servers r).2 d)
      by_result (true, t) u = (update_servers-IsUpdated c h n servers t d u).synced
      by_result (false, t) u = u

  -- A new Caddyfile that the adapter accepts.
  pub load_caddyfile-eq :
      (s : Loader) (caddyfile config_json : Text)
      → text_eq s.last_caddyfile caddyfile ≡ false
      → c.adapt caddyfile ≡ ok config_json
      → load_caddyfile c h n caddyfile s ≡ (
        true,
        record s {
          last_caddyfile = caddyfile;
          last_json_config = config_json;
          last_version = increment_int64 s.last_version;
        },
      )
  unfolding load_caddyfile
  load_caddyfile-eq s caddyfile config_json t q = rw (load_caddyfile, t, q) refl

  -- A new Caddyfile reaches the servers: if it differs from the last and the adapter turns it into a
  -- configuration, then after update each controlled server that accepts its configuration runs it,
  -- whatever the other servers answer. The loader was in step with the servers, and its version
  -- counter is not at its greatest value.
  pub update-deploys :
      (polling_interval : ℤ) (caddyfile config_json : Text) (servers : List Text) (s : Loader)
      (d : Deployed)
      → s.last_version ≢ max_version
      → IsSynced c h n s d
      → text_eq s.last_caddyfile caddyfile ≡ false
      → c.adapt caddyfile ≡ ok config_json
      → (server body : Text) → In server servers
      → post_body c server config_json ≡ ok body
      → post h (url_of server) body ≡ some true
      → deploy (update c h n polling_interval (caddyfile, servers) s).2 d server ≡ some body
  unfolding update rearm
  update-deploys polling_interval caddyfile config_json servers s d small v t q server body i f p =
      rw (load_caddyfile-eq (rearm polling_interval s) caddyfile config_json t q) (
        let r = update_servers c h n servers bumped in
        let u = update_servers-IsUpdated c h n servers bumped d ready in
        let runs =
          u.synced.current server (u.reached server i (body, f, p))
            (λ z. not_zero (sym u.version ∙ z)) in
        runs.2 ∙ ap some (ok_inj (sym runs.1 ∙ (ap (post_body c server) u.config ∙ f))))
    where
      bumped : Loader
      bumped = record (rearm polling_interval s) {
        last_caddyfile = caddyfile;
        last_json_config = config_json;
        last_version = increment_int64 s.last_version;
      }

      ready : IsSynced c h n bumped d
      ready =
          bumped-IsSynced (rearm polling_interval s) d caddyfile config_json small
            (rearm-IsSynced polling_interval s d v)

      not_zero : increment_int64 s.last_version ≡ pos 0 → ⊥
      not_zero z =
          not_true_and_false (subst (λ y. int_leb y s.last_version ≡ true) (sym z) v.started)
            (increment_int64-gt s.last_version small)
