-- ===== src/NamePublish/Manager.antt =====
-- namepublish/manager.go. The hash of a text (crypto/sha256 in hexadecimal), `url.Parse` and
-- `net.SplitHostPort` are parameters. The goroutine that publishes is the list of names that it gets.
pub mod Once
use caddy_docker_proxy.Caddyfile.Lexer.{is_empty}
use caddy_docker_proxy.NamePublish.Extract.{extract_desired_names}
use caddy_docker_proxy.Prelude.{
  Bool, true, false, ◌&&◌, ◌||◌, Option, none, some, List, [], ◌∷◌, ◌++◌, map, ℤ, pos, negsuc, keep,
  sort_strings, join, ok, err, ◌==◌, if◌then◌else◌, Text, codes, text_eq,
}

-- PublisherEntry: the name, and whether it has a publisher.
pub record PublisherEntry : Type 0 where
  pub name : Text
  pub has_publisher : Bool

-- The fields of Manager; a version is an int64.
pub record Manager : Type 0 where
  pub caddy_host : Text
  pub publishers : List PublisherEntry
  pub last_version : ℤ
  pub last_hash : Text

abbrev pub is_nothing : List PublisherEntry → Bool
is_nothing [] = true
is_nothing (p ∷ ps) = false

-- NewManager; `none` is nil.
unfoldable pub new_manager : Text → List PublisherEntry → Option Manager
new_manager caddy_host publishers =
    if is_empty caddy_host || is_nothing publishers
    then none
    else some (record {
      caddy_host = caddy_host;
      publishers = publishers;
      last_version = pos 0;
      last_hash = [];
    })

-- publish: each entry with a publisher is asked once, whatever the others answer.
unfoldable pub publish : List PublisherEntry → List Text
publish entries =
    map (λ (p : PublisherEntry). p.name) (keep (λ (p : PublisherEntry). p.has_publisher) entries)

abbrev pub int_eq : ℤ → ℤ → Bool
int_eq (pos m) (pos n) = m == n
int_eq (negsuc m) (negsuc n) = m == n
int_eq _ _ = false

abbrev pub is_last : Manager → ℤ → Text → Bool
is_last m version hash = int_eq version m.last_version && text_eq hash m.last_hash

module _ (sha256_hex : Text → Text) where
  -- hashNames
  unfoldable pub hash_names : List Text → Text → Text
  unfolding sort_strings join
  hash_names names caddy_host =
      sha256_hex (join (codes ",") (sort_strings names) ++ (codes "|" ++ caddy_host))

  -- After the names are extracted: the manager, and the names that are published.
  unfoldable pub publish_names : Manager → ℤ → List Text → Manager × Option (List Text)
  unfolding hash_names text_eq
  publish_names m version [] = (m, none)
  publish_names m version (n ∷ ns) =
      let hash = hash_names (n ∷ ns) m.caddy_host in
      if is_last m version hash
      then (m, none)
      else (record m { last_version = version; last_hash = hash }, some (n ∷ ns))

  module _ (url_host split_host_port : Text → Option Text) where
    -- MaybePublish of a manager that is not nil.
    unfoldable pub maybe_publish : Manager → ℤ → Text → Manager × Option (List Text)
    unfolding publish_names extract_desired_names
    maybe_publish m version caddyfile =
        elim (extract_desired_names url_host split_host_port caddyfile) [
          | err e ↦ (m, none)
          | ok names ↦ publish_names m version names
        ]
