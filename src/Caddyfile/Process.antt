-- ===== src/Caddyfile/Process.antt =====
-- caddyfile/processor.go: Process. Caddy's Caddyfile adapter is the parameter `adapt`, a function of
-- the text; its configuration is dropped. The logs are a list of their messages. The pointer `block`
-- of the loop is the entry of the new container that is marked `true`.
pub mod Settle
pub mod Accepted
pub mod Kept
use caddy_docker_proxy.Caddyfile.Block.{
  Block, block, Container, keys, to_list, of_list, is_global_block,
}
use caddy_docker_proxy.Caddyfile.Marshal.{write, marshal_block}
use caddy_docker_proxy.Caddyfile.Parser.{ParseError, unmarshal}
use caddy_docker_proxy.Caddyfile.Sort.{slice_stable, sort_block, sort}
use caddy_docker_proxy.Prelude.{
  ℕ, zero, suc, Bool, true, false, not, ◌&&◌, Option, none, some, List, [], ◌∷◌, ◌++◌, map, length,
  keep, Result, ok, err, if◌then◌else◌, Text, codes, text_eq, trim_space, after_first, first_field,
}
use mathlib.Core.Option

pub data LogEntry : Type 0 where
  invalid_caddyfile : ParseError → Text → LogEntry
  removing_invalid_block : Text → Text → LogEntry
  duplicate_site_hint : Text → LogEntry

-- The children of newContainer.
abbrev pub Marked : Type 0
Marked = Bool × Block

abbrev pub block_of : Marked → Block
block_of e = e.1

abbrev pub is_current : Marked → Bool
is_current e = e.0

unfoldable pub sort_marked : List Marked → List Marked
unfolding slice_stable sort_block
sort_marked es = slice_stable block_of (map (λ (e : Marked). (e.0, sort_block e.1)) es)

abbrev pub container_of : List Marked → Container
container_of es = of_list (map block_of es)

abbrev ambiguous_site_definition_prefix : Text
ambiguous_site_definition_prefix = codes "ambiguous site definition:"

unfoldable pub ambiguous_site_name : Text → Text
unfolding after_first trim_space first_field
ambiguous_site_name message = elim (after_first ambiguous_site_definition_prefix message) [
  | none ↦ []
  | some rest ↦ first_field (trim_space rest)
]

-- The first key that is equal to `key` is left out; the flag says if there is one.
unfoldable pub remove_key : Text → List Text → Bool × List Text
unfolding text_eq
remove_key key [] = (false, [])
remove_key key (k ∷ ks) =
    let (removed, rest) = remove_key key ks in
    if text_eq k key then (true, ks) else (removed, k ∷ rest)

-- removeBlockKey
unfoldable pub remove_block_key : Text → Block → Bool × Block
unfolding remove_key
remove_block_key [] b = (false, b)
remove_block_key (c ∷ cs) (block ds o ks) =
    let (removed, rest) = remove_key (c ∷ cs) ks in (removed, block ds o rest)

-- removeBlockKey on the current block, and the test that it has keys left: the flag, and the
-- container.
unfoldable pub remove_current_key : Text → List Marked → Bool × List Marked
unfolding remove_block_key
remove_current_key key [] = (false, [])
remove_current_key key ((false, b) ∷ es) =
    let (removed, rest) = remove_current_key key es in (removed, (false, b) ∷ rest)
remove_current_key key ((true, b) ∷ es) =
    let (removed, b') = remove_block_key key b in
    (removed && not (is_global_block b'), (true, b') ∷ es)

abbrev pub is_other : Marked → Bool
is_other e = not e.0

-- newContainer.Remove(block)
abbrev pub remove_current : List Marked → List Marked
remove_current es = keep is_other es

abbrev pub unmark : Marked → Marked
unmark e = (false, e.1)

abbrev pub hints : Text → List LogEntry
hints [] = []
hints (c ∷ cs) = duplicate_site_hint (c ∷ cs) ∷ []

module _ (adapt : Text → Result Text (Unit {0})) where
  -- The inner loop, on fuel: each round but the last takes a key from the block. `none` is fuel that
  -- ran out.
  unfoldable pub settle : ℕ → Text → List Marked → Option (List Marked × List LogEntry)
  unfolding sort_marked write ambiguous_site_name remove_current_key
  settle zero snapshot es = none
  settle (suc fuel) snapshot es =
      let sorted = sort_marked es in
      elim (adapt (write (container_of sorted) 0)) [
        | ok _ ↦ some (map unmark sorted, [])
        | err message ↦
            let name = ambiguous_site_name message in
            let (go_on, es') = remove_current_key name sorted in
            let again = settle fuel snapshot es' in
            if go_on
            then again
            else some (
              map unmark (remove_current es'),
              removing_invalid_block message snapshot ∷ hints name,
            )
      ]

  -- The outer loop.
  unfoldable pub process_blocks : List Block → List Marked → Option (List Marked × List LogEntry)
  unfolding settle marshal_block
  process_blocks [] es = some (es, [])
  process_blocks (b ∷ bs) es =
      elim (settle (suc (length (keys b))) (marshal_block b) (es ++ (true, b) ∷ [])) [
        | none ↦ none
        | some (es', logs) ↦ Option.map (λ r. (r.0, logs ++ r.1)) (process_blocks bs es')
      ]

  unfoldable pub process : Text → Option (Text × List LogEntry)
  unfolding unmarshal sort process_blocks
  process [] = some ([], [])
  process (c ∷ content) = elim (unmarshal (c ∷ content)) [
    | err e ↦ some ([], invalid_caddyfile e (c ∷ content) ∷ [])
    | ok container ↦
        Option.map (λ r. (write (container_of (sort_marked r.0)) 0, r.1))
          (process_blocks (to_list (sort container)) [])
  ]
