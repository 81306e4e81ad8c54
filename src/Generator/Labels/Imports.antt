-- ===== src/Generator/Labels/Imports.antt =====
-- applyDefaultImport.
use caddy_docker_proxy.Caddyfile.Block.{
  Block, block, Container, nil, cons, children, order, keys, max_int32, get_first_key, to_list,
  is_global_block, is_snippet, is_matcher,
}
use caddy_docker_proxy.Generator.Labels.{has_directive}
use caddy_docker_proxy.Prelude.{◌≡◌, ◌⊎◌, Bool, true, ◌||◌, [], ◌∷◌, ◌++◌, In, Text, codes}

abbrev is_left_alone : Block → Bool
is_left_alone b = is_global_block b || is_snippet b || is_matcher b

abbrev has_tls_or_import : Block → Bool
has_tls_or_import b = has_directive b (codes "import") || has_directive b (codes "tls")

-- A child with the directive.
abbrev pub HasChild : Text → Block → Type 0
HasChild name b = (c : Block) × In c (to_list (children b)) × (get_first_key c ≡ name)

-- A block that gets no import: it is no site, or it has an import or the directive tls.
abbrev pub IsExempt : Block → Type 0
IsExempt b =
    (is_global_block b ≡ true)
    ⊎ (is_snippet b ≡ true)
    ⊎ (is_matcher b ≡ true)
    ⊎ HasChild (codes "import") b
    ⊎ HasChild (codes "tls") b

-- The exempt blocks are as before; the others have one child more, the import, behind the others.
pub data IsImported (name : Text) : Container → Container → Type 0 where
  no_blocks : IsImported name nil nil
  left_exempt :
      {cs ds : Container} (b : Block)
      → IsExempt b
      → IsImported name cs ds
      → IsImported name (cons b cs) (cons b ds)
  gets_import :
      {cs ds : Container} (b x : Block)
      → (IsExempt b → ⊥)
      → order x ≡ order b
      → keys x ≡ keys b
      → to_list (children x)
        ≡ to_list (children b) ++ block nil max_int32 (codes "import" ∷ name ∷ []) ∷ []
      → IsImported name cs ds
      → IsImported name (cons b cs) (cons x ds)
