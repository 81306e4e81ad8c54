-- ===== src/Loader/Tests.antt =====
-- Runs of the loader, and the theorems at concrete inputs.
use caddy_docker_proxy.Generator.Docker.{Answer}
use caddy_docker_proxy.Loader.{
  Response, Caddy, Http, Naming, Loader, request, create_docker_loader, url_of, post_body, post,
  update,
}
use caddy_docker_proxy.Loader.Events.{
  Event, is_update, resetting, System, set_at, initially, notice, Reach, at_start, after_step,
}
use caddy_docker_proxy.Loader.Events.Noticed.{IsComing, IsCarried, Reach-IsComing}
use caddy_docker_proxy.Loader.Synced.{Deployed, deploy}
use caddy_docker_proxy.Loader.Synced.Current.{IsSynced}
use caddy_docker_proxy.Loader.Synced.Deploys.{max_version, update-IsSynced, update-deploys}
use caddy_docker_proxy.Loader.Synced.Quiet.{update_again}
use caddy_docker_proxy.Prelude.{
  ◌≤◌, ◌<◌, ◌≡◌, refl, subst, ◌≢◌, ◌⊎◌, inl, inr, true, false, none, some, List, [], ◌∷◌, ◌++◌,
  arith, pos, int_leb_refl, In, ok, if◌then◌else◌, Text, codes, text_eq,
}
use caddy_docker_proxy.Utils.{get_value}

-- A configuration is its text, and the server "b" answers 500.
abbrev caddy : Caddy Text
caddy = record {
  adapt = λ t. ok t;
  unmarshal_config = λ t. ok t;
  set_admin_listen = λ listen t. t ++ listen;
  marshal_config = λ t. ok t;
}

refuses_b : Text → Text → Answer Response
unfolding text_eq
refuses_b url body = ok (record {
  status_code = if text_eq url (codes "http://b:2019/load") then 500 else 200;
  body = ok [];
})

abbrev http : Http
http = record { new_request = λ url. ok tt; send = refuses_b }

abbrev naming : Naming
naming = record { sha256_hex = λ t. t; url_host = λ t. none; split_host_port = λ t. none }

abbrev site : Text
site = codes "a.com {\n}\n"

abbrev two_servers : List Text
two_servers = codes "a" ∷ codes "b" ∷ []

abbrev start : Loader
start = create_docker_loader (false ∷ []) none

abbrev nothing_deployed : Deployed
nothing_deployed x = none

abbrev config_of_a : Text
config_of_a = site ++ codes "tcp/a:2019"

runs_a :
    deploy
      (update caddy http naming (pos 30) (site, two_servers) start).2
      nothing_deployed
      (codes "a")
    ≡ some config_of_a
unfolding update refuses_b
runs_a = refl

-- The server that refuses is tried again, the other one is not.
retries_b :
    (update caddy http naming
      (pos 30)
      (site, two_servers)
      (update caddy http naming (pos 30) (site, two_servers) start).1).2
    ≡ request (codes "b") (site ++ codes "tcp/b:2019") false ∷ []
unfolding update refuses_b
retries_b = refl

start-IsSynced : IsSynced caddy http naming start nothing_deployed
unfolding get_value
start-IsSynced = record {
  started = int_leb_refl (pos 0);
  behind = λ x. int_leb_refl (pos 0);
  current = λ x q z. absurd (z refl);
  idle = λ x. refl;
}

zero-small : pos 0 ≢ max_version
zero-small e = cc

site-IsNew : text_eq [] site ≡ false
unfolding text_eq
site-IsNew = refl

posts_a : post http (url_of (codes "a")) config_of_a ≡ some true
unfolding post refuses_b
posts_a = refl

body_of_a : post_body caddy (codes "a") site ≡ ok config_of_a
unfolding post_body
body_of_a = refl

update-IsSynced_example :
    IsSynced caddy http naming
      (update caddy http naming (pos 30) (site, two_servers) start).1
      (deploy (update caddy http naming (pos 30) (site, two_servers) start).2 nothing_deployed)
update-IsSynced_example =
    update-IsSynced caddy http naming (pos 30) site two_servers start nothing_deployed zero-small
      start-IsSynced

update-deploys_example :
    deploy
      (update caddy http naming (pos 30) (site, two_servers) start).2
      nothing_deployed
      (codes "a")
    ≡ some config_of_a
update-deploys_example =
    update-deploys caddy http naming (pos 30) site site two_servers start nothing_deployed
      zero-small start-IsSynced site-IsNew refl (codes "a") config_of_a (inl refl) body_of_a posts_a

update_again_example :
    (update caddy http naming
      (pos 30)
      (site, codes "a" ∷ [])
      (update caddy http naming (pos 30) (site, codes "a" ∷ []) start).1).2
    ≡ []
update_again_example =
    update_again caddy http naming (pos 30) site site (codes "a" ∷ []) start nothing_deployed
      zero-small start-IsSynced site-IsNew refl accepts
  where
    accepts :
        (server : Text)
        → In server (codes "a" ∷ [])
        → (body : Text) × (post_body caddy server site ≡ ok body)
          × (post http (url_of server) body ≡ some true)
    accepts server (inl e) =
        subst
          (λ x.
            (body : Text) × (post_body caddy x site ≡ ok body)
            × (post http (url_of x) body ≡ some true))
          e (config_of_a, body_of_a, posts_a)
    accepts server (inr i) = absurd i

abbrev started : Event
started = record { event_type = codes "container"; action = codes "start" }

started-IsUpdate : is_update started ≡ true
unfolding is_update
started-IsUpdate = refl

-- A container starts, and the flag is set.
abbrev noticed : System
noticed = record initially {
  skip_events = set_at 0 true (λ i. false);
  listener = resetting;
  events = 1;
}

noticed-Reach : Reach 1 (pos 100) (pos 30) noticed
noticed-Reach = after_step at_start (notice started refl (omega arith) refl started-IsUpdate)

Reach-IsComing_example :
    IsComing (pos 100) noticed
    ⊎ IsCarried (pos 100) noticed
    ⊎ ((noticed.stored < noticed.shown) × (noticed.events ≤ noticed.shown))
Reach-IsComing_example = Reach-IsComing (pos 100) 1 (pos 30) noticed-Reach (omega arith)
