-- ===== src/Generator/Generate/Accepted.antt =====
-- What GenerateCaddyfile returns with ProcessCaddyfile.
use caddy_docker_proxy.Caddyfile.Lexer.{is_empty}
use caddy_docker_proxy.Caddyfile.Process.Accepted.{process_accepted}
use caddy_docker_proxy.Config.{server, runs_as, Options}
use caddy_docker_proxy.Generator.Docker.{Client}
use caddy_docker_proxy.Generator.Generate.{
  World, Generator, Built, refresh, write_sites, finish, build, generate_caddyfile,
}
use caddy_docker_proxy.Generator.Generate.Panicked.{HasPanic, build-HasPanic}
use caddy_docker_proxy.Prelude.{
  ℕ, ◌≡◌, refl, ◌⊎◌, inl, inr, true, none, some, List, [], ◌∷◌, ◌++◌, ok, if◌then◌else◌, Bool-cases,
  Text, codes,
}

module _ (w : World) (o : Options) (clients : List Client) where
  -- What is returned where all is empty, and what the adapter accepts.
  abbrev pub IsLoadable : Text → Type 0
  IsLoadable t = (t ≡ codes "# Empty caddyfile") ⊎ (w.adapt t ≡ ok tt)

  loadable :
      (t : Text)
      → (t ≡ []) ⊎ (w.adapt t ≡ ok tt)
      → IsLoadable (if is_empty t then codes "# Empty caddyfile" else t)
  loadable [] h = inl refl
  loadable (c ∷ cs) (inl e) = inl cc
  loadable (c ∷ cs) (inr a) = inr a

  finish-IsLoadable :
      (content : Text)
      → o.process_caddyfile ≡ true
      → (t : Text) × (finish w o clients content ≡ some t) × IsLoadable t
  unfolding finish
  finish-IsLoadable content p =
      let (r, e, a) = process_accepted w.adapt content in
      (if is_empty r.0 then codes "# Empty caddyfile" else r.0, rw (p, e) refl, loadable r.0 a)

  -- With ProcessCaddyfile, GenerateCaddyfile returns the empty Caddyfile or one that the adapter accepts,
  -- whatever the file and the templates answer; or it panics, and then it does so on the labels of a
  -- container or a service that one of the Docker clients lists.
  pub generate_caddyfile-IsLoadable :
      (now : ℕ) (g : Generator)
      → o.process_caddyfile ≡ true
      → ((t : Text) × (servers : List Text) × (generate_caddyfile w o clients now g
            ≡ some (refresh w o clients now g, t, servers))
          × IsLoadable t)
        ⊎ ((generate_caddyfile w o clients now g ≡ none)
            × HasPanic w o clients (refresh w o clients now g))
  unfolding generate_caddyfile
  generate_caddyfile-IsLoadable now g p = elim (Bool-cases b.panicked) [
    | inl e ↦ inr (rw (generate_caddyfile, e) refl, build-HasPanic w o clients g' e)
    | inr e ↦
        let (t, q, a) = finish-IsLoadable (write_sites w o clients b.sites) p in
        inl (t, servers, rw (generate_caddyfile, e, q) refl, a)
  ]
    where
      g' : Generator
      g' = refresh w o clients now g

      b : Built
      b = build w o clients g'

      servers : List Text
      servers = if runs_as server o.mode then b.servers ++ codes "localhost" ∷ [] else b.servers
