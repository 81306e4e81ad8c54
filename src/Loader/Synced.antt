-- ===== src/Loader/Synced.antt =====
-- What the servers run: the requests of updateServer, seen as changes of what is deployed.
pub mod Served
pub mod Current
pub mod Deploys
pub mod Quiet
use caddy_docker_proxy.Loader.{
  Caddy, Http, Loader, Effect, request, published, is_updating, url_of, post_body, post,
}
use caddy_docker_proxy.Prelude.{
  ◌≡◌, true, false, Option, some, List, [], ◌∷◌, ok, if◌then◌else◌, Text, text_eq,
}

-- The configuration that each server has accepted last.
abbrev pub Deployed : Type 0
Deployed = Text → Option Text

abbrev pub put_config : Text → Text → Deployed → Deployed
put_config server body d x = if text_eq server x then some body else d x

-- What is deployed after some effects.
abbrev pub deploy : List Effect → Deployed → Deployed
deploy [] d = d
deploy (request server body true ∷ es) d = deploy es (put_config server body d)
deploy (request server body false ∷ es) d = deploy es d
deploy (published names ∷ es) d = deploy es d

-- No server is being updated.
abbrev pub IsIdle : Loader → Type 0
IsIdle s = (x : Text) → is_updating x s ≡ false

module _ {Config : Type 0} (c : Caddy Config) (h : Http) where
  -- The server would take the loader's configuration.
  abbrev pub Accepts : Text → Loader → Type 0
  Accepts server s =
      (body : Text) × (post_body c server s.last_json_config ≡ ok body)
      × (post h (url_of server) body ≡ some true)
