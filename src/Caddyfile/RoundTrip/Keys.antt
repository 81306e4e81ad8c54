-- ===== src/Caddyfile/RoundTrip/Keys.antt =====
-- The lexer reads a written key back.
use caddy_docker_proxy.Caddyfile.Lexer.{Token, Lexer, Word, next_line, turn, next_from, next}
use caddy_docker_proxy.Caddyfile.Marshal.{is_line_break_or_quote}
use caddy_docker_proxy.Caddyfile.RoundTrip.Writable.{ends_escaped, starts_word}
use caddy_docker_proxy.Prelude.{
  ℕ, ◌+◌, ◌≡◌, refl, sym, ap, ◌∙◌, ◌⊎◌, inl, inr, Bool, true, false, not, ◌&&◌, ◌||◌, [], ◌∷◌, ◌++◌,
  append_assoc, append-nil, arith, ◌==◌, if◌then◌else◌, ==_iff, Bool-cases, Text, contains_any,
  count, is_space,
}

-- The lexer in front of a text, on a line.
abbrev pub at_line : Text → ℕ → Token → Lexer
at_line text line token = record { reader = text; token = token; line = line; skipped_lines = 0 }

-- A backslash that waits.
abbrev pub pending : Bool → Text → Text
pending true k = b'\\' ∷ k
pending false k = k

abbrev pub in_quotes : Text → Bool → Word
in_quotes val escaped = record {
  val = val;
  comment = false;
  quoted = true;
  bt_quoted = false;
  escaped = escaped;
}

abbrev pub in_backticks : Text → Word
in_backticks val = record {
  val = val;
  comment = false;
  quoted = false;
  bt_quoted = true;
  escaped = false;
}

abbrev pub in_word : Text → Bool → Word
in_word val escaped = record {
  val = val;
  comment = false;
  quoted = false;
  bt_quoted = false;
  escaped = escaped;
}

-- One character between quotes.
quotes_step :
    (c : ℕ) (cs : Text) (l : Lexer) (val : Text) (escaped : Bool)
    → is_line_break_or_quote c ≡ false
    → next_from (c ∷ cs) l (in_quotes val escaped)
      ≡ next_from cs l (
          if not escaped && c == b'\\'
          then in_quotes val true
          else in_quotes (if escaped then (val ++ b'\\' ∷ []) ++ c ∷ [] else val ++ c ∷ []) false)
unfolding next_from turn
quotes_step c cs l val escaped h = ground arith

abbrev pub token_at : Lexer → Text → Token
token_at l text = record { line = l.token.line; text = text }

-- The closing character of a quoted word, and the end of a plain one.
close_quotes :
    (rest : Text) (l : Lexer) (val : Text)
    → next_from (b'"' ∷ rest) l (in_quotes val false)
      ≡ (true, record l { reader = rest; token = token_at l val })
unfolding next_from turn
close_quotes rest l val = refl

pub or_false : (a b : Bool) → (a || b) ≡ false → (a ≡ false) × (b ≡ false)
or_false a b h = ground arith

pub read_quotes :
    (k rest : Text) (l : Lexer) (val : Text) (escaped : Bool)
    → contains_any is_line_break_or_quote k ≡ false
    → ends_escaped escaped k ≡ false
    → next_from (k ++ b'"' ∷ rest) l (in_quotes val escaped)
      ≡ (true, record l { reader = rest; token = token_at l (val ++ pending escaped k) })
unfolding contains_any ends_escaped
read_quotes [] rest l val true h e = cc
read_quotes [] rest l val false h e = rw append-nil (close_quotes rest l val)
read_quotes (c ∷ k) rest l val true h e =
    quotes_step c (k ++ b'"' ∷ rest) l val true (or_false _ _ h).0
    ∙ read_quotes k rest l ((val ++ b'\\' ∷ []) ++ c ∷ []) false (or_false _ _ h).1 e
    ∙ ap (λ (v : Text). (true, record l { reader = rest; token = token_at l v }))
        (simp append_assoc)
read_quotes (c ∷ k) rest l val false h e = elim (Bool-cases (c == b'\\')) [
  | inl slash ↦
      quotes_step c (k ++ b'"' ∷ rest) l val false (or_false _ _ h).0
      ∙ rw slash (
          read_quotes k rest l val true (or_false _ _ h).1 (rw slash at e)
          ∙ ap (λ (d : ℕ). (true, record l { reader = rest; token = token_at l (val ++ d ∷ k) }))
              (sym ((==_iff c b'\\').0 slash)))
  | inr letter ↦
      quotes_step c (k ++ b'"' ∷ rest) l val false (or_false _ _ h).0
      ∙ rw letter (
          read_quotes k rest l (val ++ c ∷ []) false (or_false _ _ h).1 (rw letter at e)
          ∙ ap (λ (v : Text). (true, record l { reader = rest; token = token_at l v }))
              (simp append_assoc))
]

-- Between backticks a line break counts, and nothing else is special.
backticks_step :
    (c : ℕ) (cs : Text) (l : Lexer) (val : Text)
    → (c == b'`') ≡ false
    → next_from (c ∷ cs) l (in_backticks val)
      ≡ next_from cs (if c == b'\n' then next_line l else l) (in_backticks (val ++ c ∷ []))
unfolding next_from turn
backticks_step c cs l val h = ground arith

close_backticks :
    (rest : Text) (l : Lexer) (val : Text)
    → next_from (b'`' ∷ rest) l (in_backticks val)
      ≡ (true, record l { reader = rest; token = token_at l val })
unfolding next_from turn
close_backticks rest l val = refl

abbrev after_lines : ℕ → Lexer → Lexer
after_lines n l = record l { line = l.line + n }

pub read_backticks :
    (k rest : Text) (l : Lexer) (val : Text)
    → contains_any (λ c. c == b'`') k ≡ false
    → l.skipped_lines ≡ 0
    → next_from (k ++ b'`' ∷ rest) l (in_backticks val) ≡ (
      true,
      record l {
        reader = rest;
        token = token_at l (val ++ k);
        line = l.line + count b'\n' k;
        skipped_lines = 0;
      },
    )
unfolding contains_any count
read_backticks [] rest l val h z = close_backticks rest l val ∙ ground (arith, append-nil val)
read_backticks (c ∷ k) rest l val h z =
    backticks_step c (k ++ b'`' ∷ rest) l val (or_false _ _ h).0
    ∙ read_backticks k rest (if c == b'\n' then next_line l else l) (val ++ c ∷ [])
        (or_false _ _ h).1 (ground arith)
    ∙ ground (arith, append_assoc val (c ∷ []) k)

-- A plain word.
word_step :
    (c : ℕ) (cs : Text) (l : Lexer) (x : ℕ) (val : Text) (escaped : Bool)
    → is_space c ≡ false
    → next_from (c ∷ cs) l (in_word (x ∷ val) escaped)
      ≡ next_from cs l (
          if not escaped && c == b'\\'
          then in_word (x ∷ val) true
          else in_word
              (x ∷ (if escaped then (val ++ b'\\' ∷ []) ++ c ∷ [] else val ++ c ∷ []))
              false)
unfolding next_from turn
word_step c cs l x val escaped h = ground arith

-- A blank or a line break ends a word.
abbrev pub IsBreak : ℕ → Type 0
IsBreak c = (c ≡ b' ') ⊎ (c ≡ b'\n')

-- The line on which a character of that kind leaves the lexer.
abbrev pub line_after : ℕ → ℕ → ℕ
line_after c n = if c == b'\n' then n + 1 else n

close_word :
    (c : ℕ) (rest : Text) (l : Lexer) (x : ℕ) (val : Text)
    → IsBreak c
    → l.skipped_lines ≡ 0
    → next_from (c ∷ rest) l (in_word (x ∷ val) false) ≡ (
      true,
      record l {
        reader = rest;
        token = token_at l (x ∷ val);
        line = line_after c l.line;
        skipped_lines = 0;
      },
    )
unfolding next_from turn
close_word c rest l x val h z = ground arith

pub read_word :
    (k : Text) (c : ℕ) (rest : Text) (l : Lexer) (x : ℕ) (val : Text) (escaped : Bool)
    → IsBreak c
    → l.skipped_lines ≡ 0
    → contains_any is_space k ≡ false
    → ends_escaped escaped k ≡ false
    → next_from (k ++ c ∷ rest) l (in_word (x ∷ val) escaped) ≡ (
      true,
      record l {
        reader = rest;
        token = token_at l (x ∷ (val ++ pending escaped k));
        line = line_after c l.line;
        skipped_lines = 0;
      },
    )
unfolding contains_any ends_escaped
read_word [] c rest l x val true b z h e = cc
read_word [] c rest l x val false b z h e = rw append-nil (close_word c rest l x val b z)
read_word (d ∷ k) c rest l x val true b z h e =
    word_step d (k ++ c ∷ rest) l x val true (or_false _ _ h).0
    ∙ read_word k c rest l x ((val ++ b'\\' ∷ []) ++ d ∷ []) false b z (or_false _ _ h).1 e
    ∙ ap
        (λ (v : Text). (
          true,
          record l {
            reader = rest;
            token = token_at l (x ∷ v);
            line = line_after c l.line;
            skipped_lines = 0;
          },
        ))
        (simp append_assoc)
read_word (d ∷ k) c rest l x val false b z h e = elim (Bool-cases (d == b'\\')) [
  | inl slash ↦
      word_step d (k ++ c ∷ rest) l x val false (or_false _ _ h).0
      ∙ rw slash (
          read_word k c rest l x val true b z (or_false _ _ h).1 (rw slash at e)
          ∙ ap
              (λ (d : ℕ). (
                true,
                record l {
                  reader = rest;
                  token = token_at l (x ∷ (val ++ d ∷ k));
                  line = line_after c l.line;
                  skipped_lines = 0;
                },
              ))
              (sym ((==_iff d b'\\').0 slash)))
  | inr letter ↦
      word_step d (k ++ c ∷ rest) l x val false (or_false _ _ h).0
      ∙ rw letter (
          read_word k c rest l x (val ++ d ∷ []) false b z (or_false _ _ h).1 (rw letter at e)
          ∙ ap
              (λ (v : Text). (
                true,
                record l {
                  reader = rest;
                  token = token_at l (x ∷ v);
                  line = line_after c l.line;
                  skipped_lines = 0;
                },
              ))
              (simp append_assoc))
]

-- The first character of a word.
pub open_word :
    (x : ℕ) (cs : Text) (n : ℕ) (t : Token)
    → is_space x ≡ false
    → starts_word (x ∷ []) ≡ true
    → (x == b'"') ≡ false
    → next (at_line (x ∷ cs) n t)
      ≡ next_from cs (at_line [] n (record { line = n; text = [] })) (in_word (x ∷ []) false)
unfolding next next_from turn
open_word x cs n t h k q = ground arith

pub open_quotes :
    (cs : Text) (n : ℕ) (t : Token)
    → next (at_line (b'"' ∷ cs) n t)
      ≡ next_from cs (at_line [] n (record { line = n; text = [] })) (in_quotes [] false)
unfolding next next_from turn
open_quotes cs n t = refl

pub open_backticks :
    (cs : Text) (n : ℕ) (t : Token)
    → next (at_line (b'`' ∷ cs) n t)
      ≡ next_from cs (at_line [] n (record { line = n; text = [] })) (in_backticks [])
unfolding next next_from turn
open_backticks cs n t = refl

-- White space in front of a token is skipped.
pub next-blank :
    (cs : Text) (n : ℕ) (t : Token) → next (at_line (b' ' ∷ cs) n t) ≡ next (at_line cs n t)
unfolding next next_from turn
next-blank cs n t = refl

pub next-tab :
    (cs : Text) (n : ℕ) (t : Token) → next (at_line (b'\t' ∷ cs) n t) ≡ next (at_line cs n t)
unfolding next next_from turn
next-tab cs n t = refl

pub next-newline :
    (cs : Text) (n : ℕ) (t : Token) → next (at_line (b'\n' ∷ cs) n t) ≡ next (at_line cs (n + 1) t)
unfolding next next_from turn
next-newline cs n t = ground arith
