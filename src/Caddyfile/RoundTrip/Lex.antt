-- ===== src/Caddyfile/RoundTrip/Lex.antt =====
-- What `write` makes of a container is lexed into its tokens.
use caddy_docker_proxy.Caddyfile.Block.{Block, block, Container, nil, cons}
use caddy_docker_proxy.Caddyfile.Lexer.{Token}
use caddy_docker_proxy.Caddyfile.Lexer.Progress.{tokens}
use caddy_docker_proxy.Caddyfile.Marshal.{
  tabs, write_key, write_keys, is_nil, write_block, write_children, write,
}
use caddy_docker_proxy.Caddyfile.RoundTrip.Keys.{at_line, IsBreak}
use caddy_docker_proxy.Caddyfile.RoundTrip.Lines.{
  key_lines, lines, child_lines, all_lines, key_tokens, block_tokens, child_tokens, all_tokens_of,
  IsWritableKey, IsWritableBlock, writable, IsWritable, none_left, and_rest,
}
use caddy_docker_proxy.Caddyfile.RoundTrip.Read.{
  tokens-blank, tokens-newline, tokens-tabs, token_of, tokens-write_key,
}
use caddy_docker_proxy.Caddyfile.RoundTrip.Writable.{is_writable}
use caddy_docker_proxy.Prelude.{
  ℕ, suc, ◌+◌, ◌≡◌, refl, sym, ap, subst, subst₂, ◌∙◌, ◌⊎◌, inl, inr, Bool, true, false, List, [],
  ◌∷◌, ◌++◌, append_assoc, arith, All, if◌then◌else◌, Text, codes, count,
}

-- The lexer reads `ts` off a text and is then in front of `rest`, on a line.
pub record Lexes (text : Text) (n : ℕ) (ts : List Token) (rest : Text) (m : ℕ) : Type 0 where
  pub run :
      (t : Token) → (u : Token) × (tokens (at_line text n t) ≡ ts ++ tokens (at_line rest m u))

module _ {a b c : Text} {n m k : ℕ} {ts us : List Token} where
  Lexes-trans : Lexes a n ts b m → Lexes b m us c k → Lexes a n (ts ++ us) c k
  Lexes-trans f g = record { run = λ t. go t (f.run t) }
    where
      go :
          (t : Token)
          → (u : Token) × (tokens (at_line a n t) ≡ ts ++ tokens (at_line b m u))
          → (u : Token) × (tokens (at_line a n t) ≡ (ts ++ us) ++ tokens (at_line c k u))
      go t (u, e) =
          let (v, d) = g.run u in
          (v, e ∙ ap (◌++◌ ts) d ∙ sym (append_assoc ts us (tokens (at_line c k v))))

Lexes-nothing : (text : Text) (n : ℕ) → Lexes text n [] text n
Lexes-nothing text n = record { run = λ t. (t, refl) }

Lexes-tabs : (level : ℕ) (text : Text) (n : ℕ) → Lexes (tabs level ++ text) n [] text n
Lexes-tabs level text n = record { run = λ t. (t, tokens-tabs level text n t) }

Lexes-blank : (text : Text) (n : ℕ) → Lexes (b' ' ∷ text) n [] text n
Lexes-blank text n = record { run = λ t. (t, tokens-blank text n t) }

Lexes-newline : (text : Text) (n : ℕ) → Lexes (b'\n' ∷ text) n [] text (n + 1)
Lexes-newline text n = record { run = λ t. (t, tokens-newline text n t) }

Lexes-cast :
    {a b : Text} {n m m' : ℕ} {ts ts' : List Token}
    → Lexes a n ts b m
    → ts ≡ ts'
    → m ≡ m'
    → Lexes a n ts' b m'
Lexes-cast {a} {b} {n} f e d = subst₂ (λ us k. Lexes a n us b k) e d f

Lexes-of :
    {a a' b : Text} {n m : ℕ} {ts : List Token} → a ≡ a' → Lexes a' n ts b m → Lexes a n ts b m
Lexes-of {b = b} {n} {m} {ts} e f = subst (λ x. Lexes x n ts b m) (sym e) f

abbrev BreakAhead : Text → Type 0
BreakAhead [] = ⊥
BreakAhead (c ∷ cs) = IsBreak c

Lexes-write_key :
    (k : Text) (rest : Text) (n : ℕ)
    → is_writable k ≡ true
    → BreakAhead rest
    → Lexes (write_key k ++ rest) n (token_of n k ∷ []) rest (n + count b'\n' k)
Lexes-write_key k [] n w b = absurd b
Lexes-write_key k (c ∷ rest) n w b = record {
  run = λ t. (token_of n k, tokens-write_key k c rest n t w b);
}

-- A brace with a line break behind it.
Lexes-brace :
    (k : Text) (rest : Text) (n : ℕ)
    → is_writable k ≡ true
    → write_key k ≡ k
    → count b'\n' k ≡ 0
    → Lexes (k ++ b'\n' ∷ rest) n (token_of n k ∷ []) rest (n + 1)
Lexes-brace k rest n w e z = record {
  run = λ t. (
    token_of n k,
    ap (λ (s : Text). tokens (at_line (s ++ b'\n' ∷ rest) n t)) (sym e)
        ∙ tokens-write_key k b'\n' rest n t w (inr refl)
        ∙ ap (◌∷◌ (token_of n k)) (
            tokens-newline rest (n + count b'\n' k) (token_of n k)
            ∙ ap (λ (m : ℕ). tokens (at_line rest m (token_of n k))) (omega (arith, z))),
  );
}

Lexes-open :
    (rest : Text) (n : ℕ) → Lexes (b'{' ∷ b'\n' ∷ rest) n (token_of n (codes "{") ∷ []) rest (n + 1)
unfolding is_writable write_key count
Lexes-open rest n = Lexes-brace (codes "{") rest n refl refl refl

Lexes-close :
    (rest : Text) (n : ℕ) → Lexes (b'}' ∷ b'\n' ∷ rest) n (token_of n (codes "}") ∷ []) rest (n + 1)
unfolding is_writable write_key count
Lexes-close rest n = Lexes-brace (codes "}") rest n refl refl refl

write_keys-BreakAhead :
    (ks : List Text) (rest : Text) → BreakAhead rest → BreakAhead (write_keys true ks ++ rest)
unfolding write_keys
write_keys-BreakAhead [] rest b = b
write_keys-BreakAhead (k ∷ ks) rest b = inl refl

-- Keys behind one another, with a blank or a line break behind the last one.
Lexes-more_keys :
    (ks : List Text) (rest : Text) (n : ℕ)
    → All IsWritableKey ks
    → BreakAhead rest
    → Lexes (write_keys true ks ++ rest) n (key_tokens n ks) rest (n + key_lines ks)
unfolding write_keys key_tokens key_lines
Lexes-more_keys [] rest n w b = Lexes-cast (Lexes-nothing rest n) refl (omega arith)
Lexes-more_keys (k ∷ ks) rest n w b =
    Lexes-cast
      (Lexes-trans (Lexes-blank _ n) (
        Lexes-of (append_assoc (write_key k) (write_keys true ks) rest) (
          Lexes-trans
            (Lexes-write_key k (write_keys true ks ++ rest) n w.0.0
              (write_keys-BreakAhead ks rest b))
            (Lexes-more_keys ks rest (n + count b'\n' k) w.1 b))))
      refl (omega arith)

-- The keys of a block, with a blank or a line break behind them if there are any.
Lexes-write_keys :
    (ks : List Text) (rest : Text) (n : ℕ)
    → All IsWritableKey ks
    → (is_nil ks ≡ true) ⊎ BreakAhead rest
    → Lexes (write_keys false ks ++ rest) n (key_tokens n ks) rest (n + key_lines ks)
unfolding write_keys key_tokens key_lines
Lexes-write_keys [] rest n w b = Lexes-cast (Lexes-nothing rest n) refl (omega arith)
Lexes-write_keys (k ∷ ks) rest n w (inl e) = cc
Lexes-write_keys (k ∷ ks) rest n w (inr b) =
    Lexes-cast
      (Lexes-of (append_assoc (write_key k) (write_keys true ks) rest) (
        Lexes-trans
          (Lexes-write_key k (write_keys true ks ++ rest) n w.0.0 (write_keys-BreakAhead ks rest b))
          (Lexes-more_keys ks rest (n + count b'\n' k) w.1 b)))
      refl (omega arith)

children-BreakAhead :
    (ks : List Text) (cs : Container) (level : ℕ) (rest : Text)
    → (is_nil ks ≡ true) ⊎ BreakAhead (write_children (is_nil ks) cs level ++ b'\n' ∷ rest)
unfolding write_children
children-BreakAhead [] cs level rest = inl refl
children-BreakAhead (k ∷ ks) nil level rest = inr (inr refl)
children-BreakAhead (k ∷ ks) (cons b cs) level rest = inr (inl refl)

-- The blank in front of a brace.
Lexes-blank_if :
    (no_keys : Bool) (text : Text) (n : ℕ)
    → Lexes ((if no_keys then [] else codes " ") ++ text) n [] text n
Lexes-blank_if true text n = Lexes-nothing text n
Lexes-blank_if false text n = Lexes-blank text n

block_text :
    (cs : Container) (o : ℕ) (ks : List Text) (level : ℕ) (rest : Text)
    → write_block (block cs o ks) level ++ rest
      ≡ tabs level ++ (write_keys false ks ++ (write_children (is_nil ks) cs level ++ b'\n' ∷ rest))
unfolding write_block
block_text cs o ks level rest = simp append_assoc

children_text :
    (no_keys : Bool) (b : Block) (cs : Container) (level : ℕ) (rest : Text)
    → write_children no_keys (cons b cs) level ++ b'\n' ∷ rest
      ≡ (if no_keys then [] else codes " ")
        ++ b'{'
          ∷ b'\n'
          ∷ (write_block b (suc level)
              ++ (write cs (suc level) ++ (tabs level ++ b'}' ∷ b'\n' ∷ rest)))
unfolding write_children
children_text no_keys b cs level rest = simp append_assoc

mutual
  unfolding block_tokens lines write

  Lexes-write_block :
      {b : Block} (level : ℕ) (rest : Text) (n : ℕ)
      → IsWritableBlock b
      → Lexes (write_block b level ++ rest) n (block_tokens n b) rest (n + lines b)
  Lexes-write_block level rest n (writable {cs} {o} {ks} ws some_part wc) =
      Lexes-cast
        (Lexes-of (block_text cs o ks level rest) (
          Lexes-trans
            (Lexes-tabs level
              (write_keys false ks ++ (write_children (is_nil ks) cs level ++ b'\n' ∷ rest)) n)
            (Lexes-trans
              (Lexes-write_keys ks (write_children (is_nil ks) cs level ++ b'\n' ∷ rest) n ws
                (children-BreakAhead ks cs level rest))
              (Lexes-children (is_nil ks) level rest (n + key_lines ks) wc))))
        refl (omega arith)

  Lexes-children :
      {cs : Container} (no_keys : Bool) (level : ℕ) (rest : Text) (n : ℕ)
      → IsWritable cs
      → Lexes
          (write_children no_keys cs level ++ b'\n' ∷ rest)
          n
          (child_tokens n cs)
          rest
          (n + child_lines cs + 1)
  Lexes-children no_keys level rest n none_left =
      Lexes-cast (Lexes-newline rest n) refl (omega arith)
  Lexes-children no_keys level rest n (and_rest {b} {cs} w wc) =
      Lexes-cast
        (Lexes-of (children_text no_keys b cs level rest) (
          Lexes-trans (Lexes-blank_if no_keys _ n) (
            Lexes-trans (Lexes-open _ n) (
              Lexes-trans (Lexes-write_block (suc level) _ (n + 1) w) (
                Lexes-trans (Lexes-write (suc level) _ (n + 1 + lines b) wc) (
                  Lexes-trans (Lexes-tabs level _ (n + 1 + lines b + all_lines cs))
                    (Lexes-close rest (n + 1 + lines b + all_lines cs))))))))
        refl (omega arith)

  Lexes-write :
      {cs : Container} (level : ℕ) (rest : Text) (n : ℕ)
      → IsWritable cs
      → Lexes (write cs level ++ rest) n (all_tokens_of n cs) rest (n + all_lines cs)
  Lexes-write level rest n none_left = Lexes-cast (Lexes-nothing rest n) refl (omega arith)
  Lexes-write level rest n (and_rest {b} {cs} w wc) =
      Lexes-cast
        (Lexes-of (append_assoc (write_block b level) (write cs level) rest) (
          Lexes-trans (Lexes-write_block level (write cs level ++ rest) n w)
            (Lexes-write level rest (n + lines b) wc)))
        refl (omega arith)

-- The lexer reads the tokens of a writable container off what `write` makes of it.
pub Lexes-write_lem :
    {cs : Container} (level : ℕ) (rest : Text) (n : ℕ)
    → IsWritable cs
    → Lexes (write cs level ++ rest) n (all_tokens_of n cs) rest (n + all_lines cs)
Lexes-write_lem level rest n w = Lexes-write level rest n w
