-- ===== src/Caddyfile/FromLabels.antt =====
-- caddyfile/fromlabels.go: FromLabels. The template engine (text/template with the data and the
-- functions) is the parameter `process_variables`. A Go map is the list of its entries in the order
-- in which `range` visits them; the map blocksByPath is an association list.
pub mod Fuel
use caddy_docker_proxy.Caddyfile.Block.{Block, block, Container, order, create_container, add_keys}
use caddy_docker_proxy.Caddyfile.LabelPath.{parse_path}
use caddy_docker_proxy.Caddyfile.Lexer.{Token, all_tokens}
use caddy_docker_proxy.Caddyfile.Lexer.Progress.{tokens}
use caddy_docker_proxy.Caddyfile.Tree.{Pointer, modify_block, add_block_at}
use caddy_docker_proxy.Prelude.{
  ℕ, zero, suc, Option, none, some, List, [], ◌∷◌, map, length, Result, ok, err, ◌>>=◌,
  if◌then◌else◌, Text, text_eq,
}

-- `no_match` is the panic of parsePath. `out_of_fuel` has no counterpart in the program.
pub data LabelsError : Type 0 where
  template_error : Text → LabelsError
  args_eof : LabelsError
  no_match : LabelsError
  out_of_fuel : LabelsError

-- The container that is built, and blocksByPath.
pub record Labels : Type 0 where
  pub root : Container
  pub blocks_by_path : List (Text × Pointer)

unfoldable pub lookup_path : Text → List (Text × Pointer) → Option Pointer
unfolding text_eq
lookup_path path [] = none
lookup_path path ((q, p) ∷ m) = if text_eq q path then some p else lookup_path path m

-- A new block goes to the end of the container at `parent`, and into the map.
unfoldable pub store_block : Text → Pointer → Block → Labels → Pointer × Labels
unfolding add_block_at
store_block path parent b s =
    let (p, root) = add_block_at parent b s.root in
    (p, record s { root = root; blocks_by_path = (path, p) ∷ s.blocks_by_path })

abbrev pub LabelsResult : Type 0 → Type 0
LabelsResult A = Result LabelsError A

-- A parent path is shorter than the path; the fuel bounds the length.
unfoldable pub get_or_create_block : ℕ → Text → Labels → LabelsResult (Pointer × Labels)
unfolding lookup_path parse_path store_block
get_or_create_block zero path s = err out_of_fuel
get_or_create_block (suc fuel) path s = elim (lookup_path path s.blocks_by_path) [
  | some p ↦ ok (p, s)
  | none ↦ elim (parse_path path) [
    | none ↦ err no_match
    | some ([], order, name) ↦ ok (store_block path [] (block create_container order []) s)
    | some (c ∷ cs, order, name) ↦ do
      (parent, s') ← get_or_create_block fuel (c ∷ cs) s
      ok (store_block path parent (block create_container order (name ∷ [])) s')
  ]
]

-- parseArgs
unfoldable pub parse_args : Text → LabelsResult (List Text)
unfolding all_tokens
parse_args [] = ok []
parse_args (c ∷ cs) = elim (all_tokens (c ∷ cs)) [
  | none ↦ err args_eof
  | some tokens ↦ ok (map (λ (t : Token). t.text) tokens)
]

module _ (process_variables : Text → LabelsResult Text) where
  -- One round of the loop over the labels.
  unfoldable pub add_label : Text → Text → Labels → LabelsResult Labels
  unfolding get_or_create_block parse_args modify_block add_keys
  add_label label value s = do
    (p, s') ← get_or_create_block (suc (length label)) label s
    args_text ← process_variables value
    args ← parse_args args_text
    ok (record s' { root = modify_block p (add_keys args) s'.root })

  unfoldable pub add_labels : List (Text × Text) → Labels → LabelsResult Labels
  unfolding add_label
  add_labels [] s = ok s
  add_labels ((label, value) ∷ rest) s = do s' ← add_label label value s; add_labels rest s'

  unfoldable pub from_labels : List (Text × Text) → LabelsResult Container
  unfolding add_labels
  from_labels labels = do
    s ← add_labels labels (record { root = create_container; blocks_by_path = [] })
    ok s.root
