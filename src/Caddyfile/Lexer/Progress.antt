-- ===== src/Caddyfile/Lexer/Progress.antt =====
-- Each token takes at least one code point, so the fuel of allTokens is enough.
use caddy_docker_proxy.Caddyfile.Lexer.{
  Token, Lexer, Word, Turn, continue, token_made, turn, next_from, new_word, next, tokens_from,
}
use caddy_docker_proxy.Prelude.{
  ℕ, zero, suc, ◌≤◌, ◌<◌, ◌≡◌, ap, inl, inr, Bool, true, false, List, [], ◌∷◌, arith, length,
  Bool-cases, Text,
}

-- What is left to read after one turn, if the rest of the loop leaves at most `n` code points.
after_turn-le :
    (t : Turn) (cs : Text) (rest : Lexer → Word → Bool × Lexer)
    → ((l : Lexer) (w : Word) → length (rest l w).1.reader ≤ length cs)
    → length
        (elim t as (λ _. Bool × Lexer) [
          | continue l w ↦ rest l w
          | token_made l ↦ (true, record l { reader = cs })
        ]).1.reader
      ≤ length cs
after_turn-le (continue l w) cs rest h = h l w
after_turn-le (token_made l) cs rest h = omega arith

next_from-le : (cs : Text) (l : Lexer) (w : Word) → length (next_from cs l w).1.reader ≤ length cs
unfolding next_from
next_from-le [] l w = ground arith
next_from-le (c ∷ cs) l w =
    omega (arith, after_turn-le (turn c l w) cs (next_from cs) (λ l' w'. next_from-le cs l' w'))

next_from-lt :
    (cs : Text) (l : Lexer)
    → (next_from cs l new_word).0 ≡ true
    → length (next_from cs l new_word).1.reader < length cs
unfolding next_from
next_from-lt [] l h = cc
next_from-lt (c ∷ cs) l h =
    omega
      (arith, after_turn-le (turn c l new_word) cs (next_from cs) (λ l' w'. next_from-le cs l' w'))

-- A call of `next` that makes a token reads at least one code point.
pub next-lt : (l : Lexer) → (next l).0 ≡ true → length (next l).1.reader < length l.reader
unfolding next
next-lt l h = next_from-lt l.reader (record l { reader = [] }) h

-- Any two amounts of fuel above the number of code points give the same tokens.
pub tokens_from_enough :
    (f g : ℕ) (l : Lexer)
    → length l.reader < f
    → length l.reader < g
    → tokens_from f l ≡ tokens_from g l
unfolding tokens_from
tokens_from_enough zero g l h k = absurd (omega arith)
tokens_from_enough (suc f) zero l h k = absurd (omega arith)
tokens_from_enough (suc f) (suc g) l h k = elim (Bool-cases (next l).0) [
  | inl more ↦ rw more (
      ap (◌∷◌ (next l).1.token) (
        tokens_from_enough f g (next l).1 (omega (arith, next-lt l more))
          (omega (arith, next-lt l more))))
  | inr stop ↦ rw stop
]

-- All tokens that are left.
unfoldable pub tokens : Lexer → List Token
unfolding tokens_from
tokens l = tokens_from (suc (length l.reader)) l

-- The tokens that are left begin with the next one.
pub tokens-next : (l : Lexer) → (next l).0 ≡ true → tokens l ≡ (next l).1.token ∷ tokens (next l).1
unfolding tokens
tokens-next l more =
    rw (more, tokens_from)
      (ap (◌∷◌ (next l).1.token) (
        tokens_from_enough (length l.reader) (suc (length (next l).1.reader)) (next l).1
          (next-lt l more) (omega arith)))

pub tokens-end : (l : Lexer) → (next l).0 ≡ false → tokens l ≡ []
unfolding tokens
tokens-end l stop = rw (stop, tokens_from)
