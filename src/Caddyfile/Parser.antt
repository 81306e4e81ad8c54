-- ===== src/Caddyfile/Parser.antt =====
-- caddyfile/marshal.go: Unmarshal and parseContainer.
use caddy_docker_proxy.Caddyfile.Block.{block, Container, create_container, create_block, add_keys}
use caddy_docker_proxy.Caddyfile.Lexer.{Token, all_tokens}
use caddy_docker_proxy.Caddyfile.Lexer.Progress.{tokens}
use caddy_docker_proxy.Caddyfile.Tree.{Pointer, modify_block, container_at, size, add_block_at}
use caddy_docker_proxy.Prelude.{
  ℕ, ◌+◌, Bool, true, false, Option, none, some, List, [], ◌∷◌, Result, ok, err, ◌>>=◌, ◌==◌,
  if◌then◌else◌, Text, codes, text_eq, count,
}

pub data ParseError : Type 0 where
  eof : ParseError
  unexpected_brace : ℕ → ParseError

-- The variables of parseContainer. `top` and `below` are the stack; `token_line` is `none` for -1.
-- `current` is the pointer currentBlock, [] before the first block: it is not used before, since
-- `is_new_block` starts as true.
pub record ParseState : Type 0 where
  pub root : Container
  pub top : Pointer
  pub below : List Pointer
  pub is_new_block : Bool
  pub token_line : Option ℕ
  pub current : Pointer

-- `if token.Line != tokenLine { … }`
unfoldable pub note_line : ℕ → ParseState → ParseState
note_line line s = elim s.token_line [
  | none ↦ record s { token_line = some line }
  | some l ↦ if line == l then s else record s { is_new_block = true; token_line = some line }
]

-- A new block with an order goes into the container on top of the stack.
abbrev pub create_at : ℕ → ParseState → ParseState
create_at n s =
    let (p, root) = add_block_at s.top (block create_container n []) s.root in
    record s { root = root; current = p; is_new_block = false }

-- `if isNewBlock { … }`
unfoldable pub open_block : ParseState → ParseState
unfolding add_block_at create_block
open_block s = if s.is_new_block then create_at (size (container_at s.top s.root)) s else s

abbrev pub close_block : ℕ → ParseState → Result ParseError ParseState
close_block line s = elim s.below [
  | [] ↦ err (unexpected_brace line)
  | p ∷ ps ↦ ok (record s { top = p; below = ps })
]

-- `tokenLine += strings.Count(token.Text, "\n")`
abbrev pub skip_lines : ℕ → Option ℕ → Option ℕ
skip_lines n none = none
skip_lines n (some l) = some (l + n)

-- What is done with a token that is not "}", in the current block.
unfoldable pub put_token : Text → ParseState → ParseState
unfolding modify_block add_keys count
put_token text s =
    if text_eq text (codes "{")
    then record s { top = s.current; below = s.top ∷ s.below }
    else record s {
      root = modify_block s.current (add_keys (text ∷ [])) s.root;
      token_line = skip_lines (count b'\n' text) s.token_line;
    }

unfoldable pub parse_token : Token → ParseState → Result ParseError ParseState
unfolding note_line open_block put_token text_eq
parse_token t s =
    let s' = note_line t.line s in
    if text_eq t.text (codes "}")
    then close_block t.line s'
    else ok (put_token t.text (open_block s'))

unfoldable pub parse_tokens : List Token → ParseState → Result ParseError ParseState
unfolding parse_token
parse_tokens [] s = ok s
parse_tokens (t ∷ ts) s = do s' ← parse_token t s; parse_tokens ts s'

abbrev pub initial : ParseState
initial = record {
  root = create_container;
  top = [];
  below = [];
  is_new_block = true;
  token_line = none;
  current = [];
}

unfoldable pub parse_container : List Token → Result ParseError Container
unfolding parse_tokens
parse_container ts = do s ← parse_tokens ts initial; ok s.root

unfoldable pub unmarshal : Text → Result ParseError Container
unfolding all_tokens parse_container
unmarshal content = elim (all_tokens content) [
  | none ↦ err eof
  | some tokens ↦ parse_container tokens
]
