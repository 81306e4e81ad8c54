-- ===== src/Caddyfile/RoundTrip/Read.antt =====
-- A written key is read back as one token, whatever follows.
use caddy_docker_proxy.Caddyfile.Lexer.{Token, Lexer, next}
use caddy_docker_proxy.Caddyfile.Lexer.Progress.{tokens, tokens-next, tokens-end}
use caddy_docker_proxy.Caddyfile.Marshal.{
  replace_all, tabs, is_line_break_or_quote, is_blank, write_key,
}
use caddy_docker_proxy.Caddyfile.RoundTrip.Keys.{
  at_line, or_false, read_quotes, read_backticks, IsBreak, line_after, read_word, open_word,
  open_quotes, open_backticks, next-blank, next-tab, next-newline,
}
use caddy_docker_proxy.Caddyfile.RoundTrip.Writable.{ends_escaped, starts_word, is_writable}
use caddy_docker_proxy.Prelude.{
  ℕ, zero, suc, ◌+◌, ◌≡◌, refl, sym, ap, ◌∙◌, inl, inr, Bool, true, false, not, ◌&&◌, [], ◌∷◌, ◌++◌,
  append_assoc, arith, ◌==◌, Bool-cases, Text, codes, contains_any, count, is_space,
}

tokens-eq : (l m : Lexer) → next l ≡ next m → tokens l ≡ tokens m
tokens-eq l m e = elim (Bool-cases (next m).0) [
  | inl more ↦ tokens-next l (rw e more) ∙ rw e (sym (tokens-next m more))
  | inr stop ↦ tokens-end l (rw e stop) ∙ sym (tokens-end m stop)
]

pub tokens-blank :
    (cs : Text) (n : ℕ) (t : Token) → tokens (at_line (b' ' ∷ cs) n t) ≡ tokens (at_line cs n t)
tokens-blank cs n t = tokens-eq (at_line (b' ' ∷ cs) n t) (at_line cs n t) (next-blank cs n t)

pub tokens-newline :
    (cs : Text) (n : ℕ) (t : Token)
    → tokens (at_line (b'\n' ∷ cs) n t) ≡ tokens (at_line cs (n + 1) t)
tokens-newline cs n t =
    tokens-eq (at_line (b'\n' ∷ cs) n t) (at_line cs (n + 1) t) (next-newline cs n t)

pub tokens-tabs :
    (level : ℕ) (cs : Text) (n : ℕ) (t : Token)
    → tokens (at_line (tabs level ++ cs) n t) ≡ tokens (at_line cs n t)
unfolding tabs
tokens-tabs zero cs n t = refl
tokens-tabs (suc level) cs n t =
    tokens-eq (at_line (b'\t' ∷ (tabs level ++ cs)) n t) (at_line (tabs level ++ cs) n t)
      (next-tab (tabs level ++ cs) n t)
    ∙ tokens-tabs level cs n t

tokens-break :
    (c : ℕ) (cs : Text) (n : ℕ) (t : Token)
    → IsBreak c
    → tokens (at_line (c ∷ cs) n t) ≡ tokens (at_line cs (line_after c n) t)
tokens-break c cs n t (inl e) = rw e (tokens-blank cs n t)
tokens-break c cs n t (inr e) = rw e (tokens-newline cs n t)

-- One token, from the call of `next` that makes it.
first_token : (l m : Lexer) → next l ≡ (true, m) → tokens l ≡ m.token ∷ tokens m
first_token l m e = tokens-next l (rw e) ∙ rw e

count-newline : (k : Text) → contains_any is_line_break_or_quote k ≡ false → count b'\n' k ≡ 0
unfolding contains_any count
count-newline [] h = refl
count-newline (c ∷ k) h = ground (arith, count-newline k)

replace_all_absent :
    (k new : Text) → contains_any is_line_break_or_quote k ≡ false → replace_all b'"' new k ≡ k
unfolding contains_any replace_all
replace_all_absent [] new h = refl
replace_all_absent (c ∷ k) new h = ground (arith, replace_all_absent k new)

replace_all_backtick :
    (k new : Text) → contains_any (λ c. c == b'`') k ≡ false → replace_all b'`' new k ≡ k
unfolding contains_any replace_all
replace_all_backtick [] new h = refl
replace_all_backtick (c ∷ k) new h = ground (arith, replace_all_backtick k new)

abbrev pub token_of : ℕ → Text → Token
token_of n k = record { line = n; text = k }

-- The three ways to write a key.
write_key_backticks :
    (k : Text)
    → contains_any is_line_break_or_quote k ≡ true
    → is_writable k ≡ true
    → (write_key k ≡ b'`' ∷ (k ++ b'`' ∷ [])) × (contains_any (λ c. c == b'`') k ≡ false)
unfolding write_key is_writable
write_key_backticks k h w =
    let free : contains_any (λ c. c == b'`') k ≡ false = not_true (rw h at w) in
    (rw (h, replace_all_backtick k (codes "\\`") free), free)
  where
    not_true : {b : Bool} → not b ≡ true → b ≡ false
    not_true {b} e = ground arith

write_key_quotes :
    (k : Text)
    → contains_any is_line_break_or_quote k ≡ false
    → contains_any is_blank k ≡ true
    → is_writable k ≡ true
    → (write_key k ≡ b'"' ∷ (k ++ b'"' ∷ [])) × (ends_escaped false k ≡ false)
unfolding write_key is_writable
write_key_quotes k h b w =
    (rw (h, b, replace_all_absent k (codes "\\\"") h), not_true (rw (h, b) at w))
  where
    not_true : {b : Bool} → not b ≡ true → b ≡ false
    not_true {b} e = ground arith

-- What a plain key is made of.
record IsPlain (k : Text) : Type 0 where
  no_space : contains_any is_space k ≡ false
  starts : starts_word k ≡ true
  ends : ends_escaped false k ≡ false

write_key-unquoted :
    (k : Text)
    → contains_any is_line_break_or_quote k ≡ false
    → contains_any is_blank k ≡ false
    → is_writable k ≡ true
    → (write_key k ≡ k) × IsPlain k
unfolding write_key is_writable
write_key-unquoted k h b w =
    let parts =
      all_three (contains_any is_space k) (starts_word k) (ends_escaped false k) (rw (h, b) at w) in
    (rw (h, b), record { no_space = parts.0; starts = parts.1; ends = parts.2 })
  where
    all_three :
        (x y z : Bool) → (not x && y && not z) ≡ true → (x ≡ false) × (y ≡ true) × (z ≡ false)
    all_three x y z e = ground arith

tokens_plain :
    (k : Text) (c : ℕ) (rest : Text) (n : ℕ) (t : Token)
    → contains_any is_line_break_or_quote k ≡ false
    → IsPlain k
    → IsBreak c
    → tokens (at_line (k ++ c ∷ rest) n t)
      ≡ token_of n k ∷ tokens (at_line rest (line_after c n) (token_of n k))
unfolding contains_any ends_escaped
tokens_plain [] c rest n t h p b = absurd (clash p.starts)
  where
    clash : false ≡ true → ⊥
    clash e = cc
tokens_plain (x ∷ k) c rest n t h p b =
    first_token (at_line ((x ∷ k) ++ c ∷ rest) n t)
      (at_line rest (line_after c n) (token_of n (x ∷ k)))
      (open_word x (k ++ c ∷ rest) n t (or_false _ _ p.no_space).0 p.starts
          (or_false _ _ (or_false _ _ h).0).1
        ∙ read_word k c rest (at_line [] n (token_of n [])) x [] false b refl
            (or_false _ _ p.no_space).1
            (plain_end (x == b'#') (x == b'`') (x == b'\\') p.starts p.ends))
  where
    plain_end :
        (u v slash : Bool)
        → (not u && not v && not slash) ≡ true
        → ends_escaped (not false && slash) k ≡ false
        → ends_escaped false k ≡ false
    plain_end u v true q e = absurd (clash u v q)
      where
        clash : (u v : Bool) → (not u && not v && false) ≡ true → ⊥
        clash u v q = ground arith
    plain_end u v false q e = e

-- A written key, with a blank or a line break behind it, is read back as one token. The lexer is then
-- in front of that character, on the line on which the key ends. The key is writable.
pub tokens-write_key :
    (k : Text) (c : ℕ) (rest : Text) (n : ℕ) (t : Token)
    → is_writable k ≡ true
    → IsBreak c
    → tokens (at_line (write_key k ++ c ∷ rest) n t)
      ≡ token_of n k ∷ tokens (at_line (c ∷ rest) (n + count b'\n' k) (token_of n k))
tokens-write_key k c rest n t w b = elim (Bool-cases (contains_any is_line_break_or_quote k)) [
  | inl h ↦
      let (e, free) = write_key_backticks k h w in
      rw (e, append_assoc k (b'`' ∷ []) (c ∷ rest))
        (first_token (at_line (b'`' ∷ (k ++ b'`' ∷ c ∷ rest)) n t)
          (at_line (c ∷ rest) (n + count b'\n' k) (token_of n k))
          (open_backticks (k ++ b'`' ∷ c ∷ rest) n t
            ∙ read_backticks k (c ∷ rest) (at_line [] n (token_of n [])) [] free refl))
  | inr h ↦ elim (Bool-cases (contains_any is_blank k)) [
    | inl s ↦
        let (e, free) = write_key_quotes k h s w in
        rw (e, append_assoc k (b'"' ∷ []) (c ∷ rest))
          (first_token (at_line (b'"' ∷ (k ++ b'"' ∷ c ∷ rest)) n t)
              (at_line (c ∷ rest) n (token_of n k))
              (open_quotes (k ++ b'"' ∷ c ∷ rest) n t
                ∙ read_quotes k (c ∷ rest) (at_line [] n (token_of n [])) [] false h free)
            ∙ ap (λ (m : ℕ). token_of n k ∷ tokens (at_line (c ∷ rest) m (token_of n k)))
                (omega (arith, count-newline k h)))
    | inr s ↦
        let (e, p) = write_key-unquoted k h s w in
        rw e (
          tokens_plain k c rest n t h p b
          ∙ ap (◌∷◌ (token_of n k)) (
              sym (tokens-break c rest n (token_of n k) b)
              ∙ ap (λ (m : ℕ). tokens (at_line (c ∷ rest) m (token_of n k)))
                  (omega (arith, count-newline k h))))
  ]
]
