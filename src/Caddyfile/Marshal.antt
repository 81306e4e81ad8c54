-- ===== src/Caddyfile/Marshal.antt =====
-- caddyfile/marshal.go: Marshal and write. The buffer is the text that is returned.
pub mod Canonical
use caddy_docker_proxy.Caddyfile.Block.{Block, block, Container, nil, cons}
use caddy_docker_proxy.Caddyfile.Sort.{sort_block, sort}
use caddy_docker_proxy.Prelude.{
  ℕ, zero, suc, Bool, true, false, ◌||◌, List, [], ◌∷◌, ◌++◌, ◌==◌, if◌then◌else◌, Text, codes,
  contains_any,
}

-- strings.ReplaceAll of one character by a text.
unfoldable pub replace_all : ℕ → Text → Text → Text
replace_all c new [] = []
replace_all c new (x ∷ s) =
    let rest = replace_all c new s in if x == c then new ++ rest else x ∷ rest

-- strings.Repeat("\t", level)
unfoldable pub tabs : ℕ → Text
tabs zero = []
tabs (suc level) = b'\t' ∷ tabs level

abbrev pub is_line_break_or_quote : ℕ → Bool
is_line_break_or_quote c = c == b'\n' || c == b'"'

abbrev pub is_blank : ℕ → Bool
is_blank c = c == b' '

unfoldable pub write_key : Text → Text
unfolding contains_any replace_all
write_key key =
    if contains_any is_line_break_or_quote key
    then codes "`" ++ (replace_all b'`' (codes "\\`") key ++ codes "`")
    else if contains_any is_blank key
    then codes "\"" ++ (replace_all b'"' (codes "\\\"") key ++ codes "\"")
    else key

-- The loop over the keys; the flag is `needsWhitespace`.
unfoldable pub write_keys : Bool → List Text → Text
unfolding write_key
write_keys needs_whitespace [] = []
write_keys needs_whitespace (key ∷ rest) =
    (if needs_whitespace then codes " " else []) ++ (write_key key ++ write_keys true rest)

abbrev pub is_nil : List Text → Bool
is_nil [] = true
is_nil (k ∷ ks) = false

unfoldable mutual
  unfolding write_keys tabs

  -- Block.write
  pub write_block : Block → ℕ → Text
  write_block (block cs o ks) level =
      tabs level ++ (write_keys false ks ++ (write_children (is_nil ks) cs level ++ codes "\n"))

  -- `if len(block.Children) > 0 { … }`; the flag says that there are no keys.
  pub write_children : Bool → Container → ℕ → Text
  write_children no_keys nil level = []
  write_children no_keys (cons b cs) level =
      (if no_keys then [] else codes " ")
      ++ (codes "{\n"
          ++ (write_block b (suc level) ++ (write cs (suc level) ++ (tabs level ++ codes "}"))))

  -- Container.write
  pub write : Container → ℕ → Text
  write nil level = []
  write (cons b cs) level = write_block b level ++ write cs level

-- Container.Marshal: the bytes; the container is `sort c` afterwards.
unfoldable pub marshal : Container → Text
unfolding sort write
marshal c = write (sort c) 0

-- Block.Marshal
unfoldable pub marshal_block : Block → Text
unfolding sort_block write_block
marshal_block b = write_block (sort_block b) 0
