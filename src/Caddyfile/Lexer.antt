-- ===== src/Caddyfile/Lexer.antt =====
-- caddyfile/lexer.go: the lexer. The reader is the list of the code points that are left; what is
-- not valid UTF-8 reads as U+FFFD before it gets here. Lines are counted from 1.
pub mod Progress
use caddy_docker_proxy.Prelude.{
  ℕ, zero, suc, ◌+◌, Bool, true, false, not, ◌&&◌, ◌||◌, Option, none, some, List, [], ◌∷◌, ◌++◌,
  length, ◌==◌, if◌then◌else◌, Text, is_space,
}
use mathlib.Core.Option

pub record Token : Type 0 where
  pub line : ℕ
  pub text : Text

-- The fields of `lexer`; `File` is always "".
pub record Lexer : Type 0 where
  pub reader : Text
  pub token : Token
  pub line : ℕ
  pub skipped_lines : ℕ

-- The variables of one call of `next`.
pub record Word : Type 0 where
  pub val : Text
  pub comment : Bool
  pub quoted : Bool
  pub bt_quoted : Bool
  pub escaped : Bool

abbrev pub no_token : Token
no_token = record { line = 0; text = [] }

abbrev pub byte_order_mark : ℕ
byte_order_mark = 0xfeff

-- `load`: `none` is the error io.EOF of an empty input.
unfoldable pub load : Text → Option Lexer
load [] = none
load (c ∷ cs) = some (record {
  reader = if c == byte_order_mark then cs else c ∷ cs;
  token = no_token;
  line = 1;
  skipped_lines = 0;
})

abbrev pub is_empty : Text → Bool
is_empty [] = true
is_empty (c ∷ cs) = false

-- What the loop of `next` does with one code point: go on, or return true with the token made.
pub data Turn : Type 0 where
  continue : Lexer → Word → Turn
  token_made : Lexer → Turn

-- `makeToken`
abbrev pub make_token : Lexer → Word → Lexer
make_token l w = record l { token = record { line = l.token.line; text = w.val } }

-- `l.line += 1 + l.skippedLines; l.skippedLines = 0`
abbrev pub next_line : Lexer → Lexer
next_line l = record l { line = l.line + 1 + l.skipped_lines; skipped_lines = 0 }

abbrev pub push : ℕ → Word → Word
push c w = record w { val = w.val ++ c ∷ [] }

-- `if ch == '\n' { … }; val = append(val, ch)`, inside quotes
abbrev pub take_quoted : ℕ → Lexer → Word → Turn
take_quoted c l w = continue (if c == b'\n' then next_line l else l) (push c w)

unfoldable pub turn_quoted : ℕ → Lexer → Word → Turn
turn_quoted c l w =
    if w.quoted && w.escaped
    then take_quoted c l (record (if not (c == b'"') then push b'\\' w else w) { escaped = false })
    else if (w.quoted && c == b'"') || (w.bt_quoted && c == b'`')
    then token_made (make_token l w)
    else take_quoted c l w

unfoldable pub turn_space : ℕ → Lexer → Word → Turn
turn_space c l w =
    if c == b'\r'
    then continue l w
    else let l' =
        if c == b'\n'
        then (if w.escaped then record l { skipped_lines = l.skipped_lines + 1 } else next_line l)
        else l in
      let w' = if c == b'\n' then record w { escaped = false; comment = false } else w in
      if not (is_empty w.val) then token_made (make_token l' w') else continue l' w'

unfoldable pub turn_plain : ℕ → Lexer → Word → Turn
turn_plain c l w =
    let comment = w.comment || (c == b'#' && is_empty w.val) in
    let w₁ = record w { comment = comment } in
    let l' =
      if is_empty w.val then record l { token = record { line = l.line; text = [] } } else l in
    if comment
    then continue l w₁
    else if is_empty w.val && c == b'"'
    then continue l' (record w₁ { quoted = true })
    else if is_empty w.val && c == b'`'
    then continue l' (record w₁ { bt_quoted = true })
    else continue l' (push c (if w.escaped then record (push b'\\' w₁) { escaped = false } else w₁))

unfoldable pub turn : ℕ → Lexer → Word → Turn
unfolding turn_quoted turn_space turn_plain is_space
turn c l w =
    if not w.escaped && not w.bt_quoted && c == b'\\'
    then continue l (record w { escaped = true })
    else if w.quoted || w.bt_quoted
    then turn_quoted c l w
    else if is_space c
    then turn_space c l w
    else turn_plain c l w

-- At the end of the input: the result, and the lexer with its token.
abbrev pub at_end : Lexer → Word → Bool × Lexer
at_end l w =
    if not (is_empty w.val)
    then (true, make_token (record l { reader = [] }) w)
    else (false, record l { reader = [] })

-- The loop over the code points that are left; the reader of the lexer is not used meanwhile.
unfoldable pub next_from : Text → Lexer → Word → Bool × Lexer
unfolding turn
next_from [] l w = at_end l w
next_from (c ∷ cs) l w = elim (turn c l w) [
  | continue l' w' ↦ next_from cs l' w'
  | token_made l' ↦ (true, record l' { reader = cs })
]

abbrev pub new_word : Word
new_word = record { val = []; comment = false; quoted = false; bt_quoted = false; escaped = false }

unfoldable pub next : Lexer → Bool × Lexer
unfolding next_from
next l = next_from l.reader (record l { reader = [] }) new_word

-- `for l.next() { tokens = append(tokens, l.token) }`; each token takes a code point, and the fuel
-- is the number of those.
unfoldable pub tokens_from : ℕ → Lexer → List Token
unfolding next
tokens_from zero l = []
tokens_from (suc fuel) l =
    let (more, l') = next l in
    let rest = tokens_from fuel l' in if more then l'.token ∷ rest else []

-- `allTokens`
unfoldable pub all_tokens : Text → Option (List Token)
unfolding load tokens_from
all_tokens input = Option.map (λ l. tokens_from (suc (length input)) l) (load input)
