-- ===== src/Loader/Synced/Served.antt =====
-- One call of updateServer.
use caddy_docker_proxy.Generator.Docker.{Answer}
use caddy_docker_proxy.Loader.{
  Caddy, Http, Naming, Loader, Effect, request, version_of, is_updating, publishes, url_of,
  post_body, post, publish_config, configured, send_config, update_server,
}
use caddy_docker_proxy.Loader.Synced.{Deployed, put_config, deploy, IsIdle, Accepts}
use caddy_docker_proxy.Prelude.{
  ◌≡◌, refl, sym, ap, subst, ◌∙◌, ◌≢◌, ◌⊎◌, inl, inr, Bool, true, false, Option, none, some, List,
  [], ◌∷◌, arith, ℤ, pos, int_leb, Result, ok, err, if◌then◌else◌, Bool-cases, Text, text_eq,
}
use caddy_docker_proxy.Utils.{set_value, delete_value}
use caddy_docker_proxy.Utils.Laws.{get_value-set_value, get_value-delete_value}

-- What updateServer leaves alone.
pub record Frame (s t : Loader) : Type 0 where
  pub version : t.last_version ≡ s.last_version
  pub config : t.last_json_config ≡ s.last_json_config
  pub caddyfile : t.last_caddyfile ≡ s.last_caddyfile
  pub updating : t.servers_updating ≡ s.servers_updating

-- The two outcomes: nothing is deployed, since the server has the version or does not take it; or the
-- server takes the configuration, and its version is recorded.
pub data Outcome (accepts : Type 0) (config : Text → Type 0) (server : Text) (s : Loader)
    (r : Loader × List Effect) : Type 0 where
  kept :
      (int_leb s.last_version (version_of server s) ≡ true) ⊎ (accepts → ⊥)
      → ((x : Text) → version_of x r.0 ≡ version_of x s)
      → ((d : Deployed) → deploy r.1 d ≡ d)
      → Outcome accepts config server s r
  taken :
      (body : Text)
      → config body
      → ((x : Text)
          → version_of x r.0 ≡ (if text_eq server x then s.last_version else version_of x s))
      → ((d : Deployed) → deploy r.1 d ≡ put_config server body d)
      → Outcome accepts config server s r

deploy-publishes : (names : Option (List Text)) (d : Deployed) → deploy (publishes names) d ≡ d
deploy-publishes none d = refl
deploy-publishes (some names) d = refl

err_not_ok : {E A : Type 0} {x : E} {a : A} → ◌≡◌ {A = Result E A} (err x) (ok a) → ⊥
err_not_ok e = cc

pub ok_inj : {E A : Type 0} {a b : A} → ◌≡◌ {A = Result E A} (ok a) (ok b) → a ≡ b
ok_inj e = cc

module _ {Config : Type 0} (c : Caddy Config) (h : Http) (n : Naming) where
  abbrev pub Served : Text → Loader → Loader × List Effect → Type 0
  Served server s =
      Outcome (Accepts c h server s) (λ body. post_body c server s.last_json_config ≡ ok body)
        server s

  configured-version :
      (server x : Text) (version : ℤ) (s : Loader)
      → version_of x (configured c h n server version s).0
        ≡ (if text_eq server x then version else version_of x s)
  unfolding configured publish_config
  configured-version server x version s =
      get_value-set_value (pos 0) x server version s.servers_versions

  configured-deploy :
      (server : Text) (version : ℤ) (s : Loader) (d : Deployed)
      → deploy (configured c h n server version s).1 d ≡ d
  unfolding configured publish_config
  configured-deploy server version s d = deploy-publishes _ d

  -- What follows the test of the version.
  send_config-Served :
      (server : Text) (s : Loader) → Served server s (send_config c h n server s.last_version s)
  unfolding send_config
  send_config-Served server s = with_body (post_body c server s.last_json_config) refl
    where
      result : Loader × List Effect
      result = send_config c h n server s.last_version s

      equals : (r : Loader × List Effect) → result ≡ r → Served server s r → Served server s result
      equals r e o = subst (Served server s) (sym e) o

      not_posted :
          (body : Text) (o : Option Bool)
          → post_body c server s.last_json_config ≡ ok body
          → post h (url_of server) body ≡ o
          → o ≢ some true
          → Accepts c h server s
          → ⊥
      not_posted body o e q refused (b, f, p) =
          refused (sym q ∙ (ap (post h (url_of server)) (ok_inj (sym e ∙ f)) ∙ p))

      with_post :
          (body : Text)
          → post_body c server s.last_json_config ≡ ok body
          → (o : Option Bool) → post h (url_of server) body ≡ o
          → Served server s result
      with_post body e none q =
          equals (s, []) (rw (send_config, e, q) refl)
            (kept (inr (not_posted body none e q (λ z. cc))) (λ x. refl) (λ d. refl))
      with_post body e (some false) q =
          equals (s, request server body false ∷ []) (rw (send_config, e, q) refl)
            (kept (inr (not_posted body (some false) e q (λ z. cc))) (λ x. refl) (λ d. refl))
      with_post body e (some true) q =
          let done = configured c h n server s.last_version s in
          equals (done.0, request server body true ∷ done.1) (rw (send_config, e, q) refl)
            (taken body e (λ x. configured-version server x s.last_version s)
              (λ d. configured-deploy server s.last_version s (put_config server body d)))

      with_body :
          (r : Answer Text) → post_body c server s.last_json_config ≡ r → Served server s result
      with_body (err x) e =
          equals (s, []) (rw (send_config, e) refl)
            (kept (inr (λ a. err_not_ok (sym e ∙ a.1))) (λ x. refl) (λ d. refl))
      with_body (ok body) e = with_post body e (post h (url_of server) body) refl

  configured-Frame :
      (server : Text) (version : ℤ) (s : Loader) → Frame s (configured c h n server version s).0
  unfolding configured publish_config
  configured-Frame server version s = record {
    version = refl;
    config = refl;
    caddyfile = refl;
    updating = refl;
  }

  send_config-Frame :
      (server : Text) (version : ℤ) (s : Loader) → Frame s (send_config c h n server version s).0
  unfolding send_config
  send_config-Frame server version s = with_body (post_body c server s.last_json_config) refl
    where
      result : Loader × List Effect
      result = send_config c h n server version s

      unchanged : Frame s s
      unchanged = record { version = refl; config = refl; caddyfile = refl; updating = refl }

      equals : (r : Loader × List Effect) → result ≡ r → Frame s r.0 → Frame s result.0
      equals r e f = subst (λ (z : Loader × List Effect). Frame s z.0) (sym e) f

      with_post :
          (body : Text)
          → post_body c server s.last_json_config ≡ ok body
          → (o : Option Bool) → post h (url_of server) body ≡ o
          → Frame s result.0
      with_post body e none q = equals (s, []) (rw (send_config, e, q) refl) unchanged
      with_post body e (some false) q =
          equals (s, request server body false ∷ []) (rw (send_config, e, q) refl) unchanged
      with_post body e (some true) q =
          let done = configured c h n server version s in
          equals (done.0, request server body true ∷ done.1) (rw (send_config, e, q) refl)
            (configured-Frame server version s)

      with_body : (r : Answer Text) → post_body c server s.last_json_config ≡ r → Frame s result.0
      with_body (err x) e = equals (s, []) (rw (send_config, e) refl) unchanged
      with_body (ok body) e = with_post body e (post h (url_of server) body) refl

  -- The flag of the server is set and deleted around the rest.
  abbrev pub with_flag : Text → Loader → Loader
  with_flag server s = record s { servers_updating = set_value server true s.servers_updating }

  abbrev pub without_flag : Text → Loader × List Effect → Loader × List Effect
  without_flag server r =
      (record r.0 { servers_updating = delete_value server r.0.servers_updating }, r.1)

  Served-with_flag :
      (server : Text) (s : Loader) (r : Loader × List Effect)
      → Served server (with_flag server s) r
      → Served server s (without_flag server r)
  Served-with_flag server s r (kept why v d) = kept why v d
  Served-with_flag server s r (taken body e v d) = taken body e v d

  -- updateServer between setting and deleting the flag.
  abbrev pub checked : Text → Loader → Loader × List Effect
  checked server s =
      if int_leb s.last_version (version_of server s)
      then (with_flag server s, [])
      else send_config c h n server s.last_version (with_flag server s)

  pub update_server-eq :
      (server : Text) (s : Loader)
      → is_updating server s ≡ false
      → update_server c h n server s ≡ without_flag server (checked server s)
  unfolding update_server
  update_server-eq server s e = rw e refl

  pub update_server-Served :
      (server : Text) (s : Loader)
      → is_updating server s ≡ false
      → Served server s (update_server c h n server s)
  update_server-Served server s i = subst (Served server s) (sym (update_server-eq server s i)) (
      Served-with_flag server s _
        (elim (Bool-cases (int_leb s.last_version (version_of server s))) [
          | inl t ↦ rw t (kept (inl t) (λ x. refl) (λ d. refl))
          | inr t ↦ rw t (send_config-Served server (with_flag server s))
        ]))

  -- What updateServer leaves alone; the flags are as before.
  pub record Leaves (s t : Loader) : Type 0 where
    pub version : t.last_version ≡ s.last_version
    pub config : t.last_json_config ≡ s.last_json_config
    pub caddyfile : t.last_caddyfile ≡ s.last_caddyfile
    pub idle : IsIdle t

  without_flag-Leaves :
      (server : Text) (s : Loader) (r : Loader × List Effect)
      → IsIdle s
      → Frame (with_flag server s) r.0
      → Leaves s (without_flag server r).0
  without_flag-Leaves server s r i f = record {
    version = f.version;
    config = f.config;
    caddyfile = f.caddyfile;
    idle = λ x.
        rw
          (
            f.updating,
            get_value-delete_value false x server,
            get_value-set_value false x server true,
          )
          (ground (arith, i x));
  }

  pub update_server-Leaves :
      (server : Text) (s : Loader) → IsIdle s → Leaves s (update_server c h n server s).0
  update_server-Leaves server s i =
      subst (λ (z : Loader × List Effect). Leaves s z.0)
        (sym (update_server-eq server s (i server)))
        (without_flag-Leaves server s (checked server s) i
          (elim (Bool-cases (int_leb s.last_version (version_of server s))) [
            | inl t ↦
                rw t (record { version = refl; config = refl; caddyfile = refl; updating = refl })
            | inr t ↦ rw t (send_config-Frame server s.last_version (with_flag server s))
          ]))
