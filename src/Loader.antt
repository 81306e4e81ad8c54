-- ===== src/Loader.antt =====
-- loader.go: update and updateServer. JSON and the configuration of Caddy, its adapter, and the HTTP
-- client are parameters; a configuration is JSON text. Log messages and the autosaved file, whose
-- errors are only logged, are not modelled. The goroutines of updateServer run here one after another.
pub mod Synced
mod Tests
pub mod Events
use caddy_docker_proxy.Generator.Docker.{Answer}
use caddy_docker_proxy.NamePublish.Manager.{Manager, maybe_publish}
use caddy_docker_proxy.Prelude.{
  ℕ, Bool, true, false, Option, none, some, List, [], ◌∷◌, ◌++◌, map, ℤ, pos, int_leb,
  increment_int64, ok, err, ◌>>=◌, ◌==◌, if◌then◌else◌, Text, codes, text_eq,
}
use caddy_docker_proxy.Utils.{CMap, new_cmap, set_value, get_value, delete_value}

pub record Response : Type 0 where
  pub status_code : ℕ
  pub body : Answer Text

-- The adapter, and what addAdminListen uses: encoding/json and `config.Admin = …`.
pub record Caddy (Config : Type 0) : Type 0 where
  pub adapt : Text → Answer Text
  pub unmarshal_config : Text → Answer Config
  pub set_admin_listen : Text → Config → Config
  pub marshal_config : Config → Answer Text

-- http.NewRequest and `http.DefaultClient.Do`.
pub record Http : Type 0 where
  pub new_request : Text → Answer (Unit {0})
  pub send : Text → Text → Answer Response

-- What the publishing of names takes.
pub record Naming : Type 0 where
  pub sha256_hex : Text → Text
  pub url_host : Text → Option Text
  pub split_host_port : Text → Option Text

-- DockerLoader, less the options, the clients and the generator. `timer` is the duration of the last
-- Reset, in nanoseconds.
pub record Loader : Type 0 where
  pub skip_events : List Bool
  pub timer : ℤ
  pub last_caddyfile : Text
  pub last_json_config : Text
  pub last_version : ℤ
  pub servers_versions : CMap ℤ
  pub servers_updating : CMap Bool
  pub name_publish_mgr : Option Manager

-- What is seen from outside: a request to a server, with whether its answer was read and is 200, and
-- names that go to the publishers.
pub data Effect : Type 0 where
  request : Text → Text → Bool → Effect
  published : List Text → Effect

abbrev pub version_of : Text → Loader → ℤ
version_of server s = get_value (pos 0) server s.servers_versions

abbrev pub is_updating : Text → Loader → Bool
is_updating server s = get_value false server s.servers_updating

abbrev pub publishes : Option (List Text) → List Effect
publishes none = []
publishes (some names) = published names ∷ []

-- CreateDockerLoader, and the fields that Start sets for so many clients.
abbrev pub create_docker_loader : List Bool → Option Manager → Loader
create_docker_loader skip_events manager = record {
  skip_events = skip_events;
  timer = pos 0;
  last_caddyfile = [];
  last_json_config = [];
  last_version = pos 0;
  servers_versions = new_cmap;
  servers_updating = new_cmap;
  name_publish_mgr = manager;
}

abbrev pub url_of : Text → Text
url_of server = codes "http://" ++ (server ++ codes ":2019/load")

module _ {Config : Type 0} (c : Caddy Config) where
  unfoldable pub add_admin_listen : Text → Text → Answer Text
  add_admin_listen config_json listen = do
    config ← c.unmarshal_config config_json
    c.marshal_config (c.set_admin_listen listen config)

  -- The body of the request to a server.
  unfoldable pub post_body : Text → Text → Answer Text
  unfolding add_admin_listen
  post_body server config_json =
      add_admin_listen config_json (codes "tcp/" ++ (server ++ codes ":2019"))

module _ (h : Http) where
  -- `none` where no request can be made; else whether the server accepts.
  unfoldable pub post : Text → Text → Option Bool
  post url body = elim (h.new_request url) [
    | err e ↦ none
    | ok _ ↦ elim (h.send url body) [
      | err e ↦ some false
      | ok resp ↦ elim resp.body [ err e ↦ some false | ok _ ↦ some (resp.status_code == 200) ]
    ]
  ]

-- MaybePublish; on nil it does nothing.
unfoldable pub publish_with :
    Naming → ℤ → Text → Option Manager → Option Manager × Option (List Text)
unfolding maybe_publish
publish_with n version caddyfile none = (none, none)
publish_with n version caddyfile (some m) =
    let (m', names) = maybe_publish n.sha256_hex n.url_host n.split_host_port m version caddyfile in
    (some m', names)

-- The first two statements of update.
unfoldable pub rearm : ℤ → Loader → Loader
rearm polling_interval s = record s {
  timer = polling_interval;
  skip_events = map (λ b. false) s.skip_events;
}

module _ {Config : Type 0} (c : Caddy Config) (h : Http) (n : Naming) where
  -- `namePublishMgr.MaybePublish(version, lastCaddyfile)`
  unfoldable pub publish_config : ℤ → Loader → Loader × List Effect
  unfolding publish_with
  publish_config version s =
      let (m, names) = publish_with n version s.last_caddyfile s.name_publish_mgr in
      (record s { name_publish_mgr = m }, publishes names)

  -- The server has accepted.
  unfoldable pub configured : Text → ℤ → Loader → Loader × List Effect
  unfolding publish_config set_value
  configured server version s =
      publish_config version
        (record s { servers_versions = set_value server version s.servers_versions })

  -- updateServer from addAdminListen on.
  unfoldable pub send_config : Text → ℤ → Loader → Loader × List Effect
  unfolding post_body post configured
  send_config server version s = elim (post_body c server s.last_json_config) [
    | err e ↦ (s, [])
    | ok body ↦ elim (post h (url_of server) body) [
      | none ↦ (s, [])
      | some false ↦ (s, request server body false ∷ [])
      | some true ↦
          let (s', effects) = configured server version s in
          (s', request server body true ∷ effects)
    ]
  ]

  -- updateServer
  unfoldable pub update_server : Text → Loader → Loader × List Effect
  unfolding send_config get_value set_value delete_value
  update_server server s =
      if is_updating server s
      then (s, [])
      else let marked = record s { servers_updating = set_value server true s.servers_updating } in
        let version = s.last_version in
        let (s', effects) =
          if int_leb version (version_of server marked)
          then (marked, [])
          else send_config server version marked in
        (record s' { servers_updating = delete_value server s'.servers_updating }, effects)

  unfoldable pub update_servers : List Text → Loader → Loader × List Effect
  unfolding update_server
  update_servers [] s = (s, [])
  update_servers (server ∷ servers) s =
      let (s', effects) = update_server server s in
      let (s'', more) = update_servers servers s' in (s'', effects ++ more)

  -- The part `if caddyfileChanged { … }`; the flag says that update goes on.
  unfoldable pub load_caddyfile : Text → Loader → Bool × Loader
  unfolding text_eq
  load_caddyfile caddyfile s =
      let s' = record s { last_caddyfile = caddyfile } in
      if text_eq s.last_caddyfile caddyfile then (true, s') else elim (c.adapt caddyfile) [
        | err e ↦ (false, s')
        | ok config_json ↦ (
          true,
          record s' {
            last_json_config = config_json;
            last_version = increment_int64 s.last_version;
          },
        )
      ]

  -- What follows the part for a changed Caddyfile.
  unfoldable pub update_all : List Text → Bool × Loader → Bool × Loader × List Effect
  unfolding update_servers
  update_all controlled_servers (false, s) = (false, s, [])
  update_all controlled_servers (true, s) =
      let (s', effects) = update_servers controlled_servers s in (true, s', effects)

  -- update, for what GenerateCaddyfile has returned: the result, the loader and the effects.
  unfoldable pub update : ℤ → Text × List Text → Loader → Bool × Loader × List Effect
  unfolding rearm load_caddyfile update_all
  update polling_interval (caddyfile, controlled_servers) s =
      update_all controlled_servers (load_caddyfile caddyfile (rearm polling_interval s))
