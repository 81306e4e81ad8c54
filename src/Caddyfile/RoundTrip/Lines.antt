-- ===== src/Caddyfile/RoundTrip/Lines.antt =====
-- The tokens of a written container, with their lines.
use caddy_docker_proxy.Caddyfile.Block.{Block, block, Container, nil, cons}
use caddy_docker_proxy.Caddyfile.Lexer.{Token}
use caddy_docker_proxy.Caddyfile.Marshal.{is_nil}
use caddy_docker_proxy.Caddyfile.RoundTrip.Read.{token_of}
use caddy_docker_proxy.Caddyfile.RoundTrip.Writable.{is_writable}
use caddy_docker_proxy.Prelude.{
  ℕ, ◌+◌, ◌≡◌, ◌⊎◌, Bool, true, false, List, [], ◌∷◌, ◌++◌, All, Text, codes, text_eq, count,
}

-- The line breaks in the keys of a block, and in what `write` makes of blocks.
unfoldable pub key_lines : List Text → ℕ
unfolding count
key_lines [] = 0
key_lines (k ∷ ks) = count b'\n' k + key_lines ks

unfoldable mutual
  unfolding key_lines

  pub lines : Block → ℕ
  lines (block cs o ks) = key_lines ks + child_lines cs + 1

  pub child_lines : Container → ℕ
  child_lines nil = 0
  child_lines (cons b cs) = 1 + lines b + all_lines cs

  pub all_lines : Container → ℕ
  all_lines nil = 0
  all_lines (cons b cs) = lines b + all_lines cs

unfoldable pub key_tokens : ℕ → List Text → List Token
unfolding count
key_tokens n [] = []
key_tokens n (k ∷ ks) = token_of n k ∷ key_tokens (n + count b'\n' k) ks

unfoldable mutual
  unfolding key_tokens lines

  pub block_tokens : ℕ → Block → List Token
  block_tokens n (block cs o ks) = key_tokens n ks ++ child_tokens (n + key_lines ks) cs

  -- The braces stand on the line of the last key and on a line of their own.
  pub child_tokens : ℕ → Container → List Token
  child_tokens n nil = []
  child_tokens n (cons b cs) =
      token_of n (codes "{")
      ∷ (block_tokens (n + 1) b
          ++ (all_tokens_of (n + 1 + lines b) cs
              ++ token_of (n + 1 + lines b + all_lines cs) (codes "}") ∷ []))

  pub all_tokens_of : ℕ → Container → List Token
  all_tokens_of n nil = []
  all_tokens_of n (cons b cs) = block_tokens n b ++ all_tokens_of (n + lines b) cs

-- All keys of a container can be written so that they are read back, none is a brace, and no block
-- is without keys and children.
abbrev pub IsWritableKey : Text → Type 0
IsWritableKey k =
    (is_writable k ≡ true) × (text_eq k (codes "{") ≡ false) × (text_eq k (codes "}") ≡ false)

abbrev pub has_children : Container → Bool
has_children nil = false
has_children (cons b cs) = true

mutual
  pub data IsWritableBlock : Block → Type 0 where
    writable :
        {cs : Container} {o : ℕ} {ks : List Text}
        → All IsWritableKey ks
        → (is_nil ks ≡ false) ⊎ (has_children cs ≡ true)
        → IsWritable cs
        → IsWritableBlock (block cs o ks)

  pub data IsWritable : Container → Type 0 where
    none_left : IsWritable nil
    and_rest :
        {b : Block} {cs : Container} → IsWritableBlock b → IsWritable cs → IsWritable (cons b cs)
