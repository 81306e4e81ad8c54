-- ===== src/Loader/Synced/Current.antt =====
-- A server whose version is the loader's runs the loader's configuration.
use caddy_docker_proxy.Loader.{
  Caddy, Http, Naming, Loader, Effect, request, published, version_of, post_body, update_server,
  update_servers,
}
use caddy_docker_proxy.Loader.Synced.{Deployed, put_config, deploy, IsIdle, Accepts}
use caddy_docker_proxy.Loader.Synced.Served.{
  kept, taken, Served, update_server-Served, Leaves, update_server-Leaves,
}
use caddy_docker_proxy.Prelude.{
  ◌≡◌, refl, sym, subst, ◌∙◌, ◌≢◌, inl, inr, true, false, some, List, [], ◌∷◌, ◌++◌, pos, int_leb,
  int_leb_refl, int_leb_antisym, In, ok, Bool-cases, Text, text_eq, text_eq_iff, text_eq_refl,
}

module _ {Config : Type 0} (c : Caddy Config) (h : Http) (n : Naming) where
  -- The server runs the configuration that the loader has for it.
  abbrev pub Runs : Loader → Deployed → Text → Type 0
  Runs s d server =
      (body : Text) × (post_body c server s.last_json_config ≡ ok body) × (d server ≡ some body)

  -- The loader between two updates, against what is deployed.
  pub record IsSynced (s : Loader) (d : Deployed) : Type 0 where
    pub started : int_leb (pos 0) s.last_version ≡ true
    pub behind : (server : Text) → int_leb (version_of server s) s.last_version ≡ true
    pub current :
        (server : Text)
        → version_of server s ≡ s.last_version
        → s.last_version ≢ pos 0
        → Runs s d server
    pub idle : IsIdle s

  update_server-IsSynced :
      (server : Text) (s : Loader) (d : Deployed)
      → IsSynced s d
      → IsSynced (update_server c h n server s).0 (deploy (update_server c h n server s).1 d)
  update_server-IsSynced server s d v =
      of_outcome (update_server c h n server s) (update_server-Leaves c h n server s v.idle)
        (update_server-Served c h n server s (v.idle server))
    where
      of_outcome :
          (r : Loader × List Effect)
          → Leaves c h n s r.0
          → Served c h n server s r
          → IsSynced r.0 (deploy r.1 d)
      of_outcome r l (kept why w e) = record {
        started = rw l.version v.started;
        behind = λ x. rw (w x, l.version) (v.behind x);
        current = λ x q z.
            rw (e d, l.config) (v.current x (sym (w x) ∙ (q ∙ l.version)) (λ y. z (l.version ∙ y)));
        idle = l.idle;
      }
      of_outcome r l (taken body f w e) = record {
        started = rw l.version v.started;
        behind = λ x.
            rw (w x, l.version)
              (elim (Bool-cases (text_eq server x)) [
                | inl t ↦ rw t (int_leb_refl s.last_version)
                | inr t ↦ rw t (v.behind x)
              ]);
        current = λ x q z.
            rw (e d, l.config)
              (elim (Bool-cases (text_eq server x)) [
                | inl t ↦ (
                  body,
                  subst (λ y. post_body c y s.last_json_config ≡ ok body)
                      ((text_eq_iff server x).0 t) f,
                  rw t refl,
                )
                | inr t ↦
                    let (b, p, k) =
                      v.current x (sym (rw t at (w x)) ∙ (q ∙ l.version))
                        (λ y. z (l.version ∙ y)) in
                    (b, p, rw t k)
              ]);
        idle = l.idle;
      }

  -- A server that has the loader's version keeps it.
  abbrev pub IsCurrent : Loader → Text → Type 0
  IsCurrent s server = version_of server s ≡ s.last_version

  pub update_server-IsCurrent :
      (server x : Text) (s : Loader)
      → IsIdle s
      → IsCurrent s x
      → IsCurrent (update_server c h n server s).0 x
  update_server-IsCurrent server x s i q =
      of_outcome (update_server c h n server s) (update_server-Leaves c h n server s i)
        (update_server-Served c h n server s (i server))
    where
      of_outcome :
          (r : Loader × List Effect)
          → Leaves c h n s r.0
          → Served c h n server s r
          → IsCurrent r.0 x
      of_outcome r l (kept why w e) = w x ∙ (q ∙ sym l.version)
      of_outcome r l (taken body f w e) = w x ∙ (elim (Bool-cases (text_eq server x)) [
        | inl t ↦ rw t (sym l.version)
        | inr t ↦ rw t (q ∙ sym l.version)
      ])

  -- A server that accepts has the loader's version afterwards.
  update_server-Accepts :
      (server : Text) (s : Loader) (d : Deployed)
      → IsSynced s d
      → Accepts c h server s
      → IsCurrent (update_server c h n server s).0 server
  update_server-Accepts server s d v a =
      of_outcome (update_server c h n server s) (update_server-Leaves c h n server s v.idle)
        (update_server-Served c h n server s (v.idle server))
    where
      of_outcome :
          (r : Loader × List Effect)
          → Leaves c h n s r.0
          → Served c h n server s r
          → IsCurrent r.0 server
      of_outcome r l (kept (inl t) w e) =
          w server
          ∙ (int_leb_antisym (version_of server s) s.last_version (v.behind server) t
              ∙ sym l.version)
      of_outcome r l (kept (inr never) w e) = absurd (never a)
      of_outcome r l (taken body f w e) = w server ∙ (rw (text_eq_refl server) (sym l.version))

  deploy-append : (a b : List Effect) (d : Deployed) → deploy (a ++ b) d ≡ deploy b (deploy a d)
  deploy-append [] b d = refl
  deploy-append (request server body true ∷ a) b d = deploy-append a b (put_config server body d)
  deploy-append (request server body false ∷ a) b d = deploy-append a b d
  deploy-append (published names ∷ a) b d = deploy-append a b d

  -- All servers of a list, one after another.
  pub record IsUpdated (s : Loader) (d : Deployed) (servers : List Text) (r : Loader × List Effect)
      : Type 0 where
    pub synced : IsSynced r.0 (deploy r.1 d)
    pub version : r.0.last_version ≡ s.last_version
    pub config : r.0.last_json_config ≡ s.last_json_config
    pub caddyfile : r.0.last_caddyfile ≡ s.last_caddyfile
    pub keeps : (x : Text) → IsCurrent s x → IsCurrent r.0 x
    pub reached : (x : Text) → In x servers → Accepts c h x s → IsCurrent r.0 x

  Accepts-config :
      (x : Text) (s t : Loader)
      → t.last_json_config ≡ s.last_json_config
      → Accepts c h x s
      → Accepts c h x t
  Accepts-config x s t e (body, f, p) = (body, rw e f, p)

  pub update_servers-IsUpdated :
      (servers : List Text) (s : Loader) (d : Deployed)
      → IsSynced s d
      → IsUpdated s d servers (update_servers c h n servers s)
  unfolding update_servers
  update_servers-IsUpdated [] s d v = record {
    synced = v;
    version = refl;
    config = refl;
    caddyfile = refl;
    keeps = λ x q. q;
    reached = λ x i a. absurd i;
  }
  update_servers-IsUpdated (server ∷ servers) s d v =
      let r = update_server c h n server s in
      let l = update_server-Leaves c h n server s v.idle in
      let u =
        update_servers-IsUpdated servers r.0 (deploy r.1 d) (update_server-IsSynced server s d v) in
      record {
        synced = rw (deploy-append r.1 (update_servers c h n servers r.0).1 d) u.synced;
        version = u.version ∙ l.version;
        config = u.config ∙ l.config;
        caddyfile = u.caddyfile ∙ l.caddyfile;
        keeps = λ x q. u.keeps x (update_server-IsCurrent server x s v.idle q);
        reached = λ x i a. elim i [
          | inl e ↦ u.keeps x (
              subst (IsCurrent r.0) e
                (update_server-Accepts server s d v (subst (λ y. Accepts c h y s) (sym e) a)))
          | inr j ↦ u.reached x j (Accepts-config x s r.0 l.config a)
        ];
      }
