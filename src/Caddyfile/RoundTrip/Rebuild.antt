-- ===== src/Caddyfile/RoundTrip/Rebuild.antt =====
-- A written container is unmarshalled into the same container, with the positions for orders.
use caddy_docker_proxy.Caddyfile.Block.{Block, block, Container, nil, cons, add_block}
use caddy_docker_proxy.Caddyfile.Lexer.{Token}
use caddy_docker_proxy.Caddyfile.Parser.{ParseState, parse_tokens}
use caddy_docker_proxy.Caddyfile.RoundTrip.Context.{Context, append, path_of, extend}
use caddy_docker_proxy.Caddyfile.RoundTrip.Lines.{
  key_lines, lines, child_lines, all_lines, key_tokens, block_tokens, child_tokens, all_tokens_of,
  has_children, IsWritableBlock, writable, IsWritable, none_left, and_rest,
}
use caddy_docker_proxy.Caddyfile.RoundTrip.Parse.{
  renumber_block, renumber, At, IsFresh, Parsed, Opens, parse_tokens-cons, first_keys, Entered,
  enter_open, enter_fresh, leave,
}
use caddy_docker_proxy.Caddyfile.RoundTrip.Read.{token_of}
use caddy_docker_proxy.Caddyfile.Tree.{Pointer, size}
use caddy_docker_proxy.Prelude.{
  ℕ, suc, ◌+◌, ◌≡◌, refl, sym, ap, subst₃, ◌∙◌, ◌⊎◌, inl, inr, Bool, true, false, List, [], ◌∷◌,
  ◌++◌, append_assoc, append-nil, arith, Text, codes,
}

Parsed-trans :
    (s : ParseState) (ts us : List Token) (x : Context) (c d : Container) (bl : List Pointer)
    (m k : ℕ)
    → (p : Parsed s ts x c bl m) → Parsed p.after us x d bl k
    → Parsed s (ts ++ us) x d bl k
Parsed-trans s ts us x c d bl m k p q = record {
  after = q.after;
  runs = λ vs. ap (λ ws. parse_tokens ws s) (append_assoc ts us vs) ∙ p.runs (us ++ vs) ∙ q.runs vs;
  place = q.place;
  fresh = q.fresh;
}

Parsed-nothing :
    (s : ParseState) (n : ℕ) (x : Context) (c : Container) (bl : List Pointer)
    → At s x c bl
    → IsFresh s n
    → Parsed s [] x c bl n
Parsed-nothing s n x c bl a f = record { after = s; runs = λ us. refl; place = a; fresh = f }

Parsed-cast :
    (s : ParseState) (ts us : List Token) (x : Context) (c d : Container) (bl : List Pointer)
    (m k : ℕ)
    → ts ≡ us
    → c ≡ d
    → m ≡ k
    → Parsed s ts x c bl m
    → Parsed s us x d bl k
Parsed-cast s ts us x c d bl m k e f g p = subst₃ (λ vs a n. Parsed s vs x a bl n) e f g p

size-add_block : (b : Block) (c : Container) → size (add_block b c) ≡ suc (size c)
unfolding size add_block
size-add_block b nil = refl
size-add_block b (cons a c) = ap suc (size-add_block b c)

append-after_add_block :
    (b : Block) (c r : Container) → append (add_block b c) r ≡ append c (cons b r)
unfolding add_block
append-after_add_block b nil r = refl
append-after_add_block b (cons a c) r = ap (cons a) (append-after_add_block b c r)

pub append-nil_container : (c : Container) → append c nil ≡ c
append-nil_container nil = refl
append-nil_container (cons a c) = ap (cons a) (append-nil_container c)

-- What is parsed behind an opening brace, up to the closing one.
enclosed :
    (s : ParseState) (n m : ℕ) (x : Context) (c ds : Container) (ks : List Text) (bl : List Pointer)
    (ts : List Token)
    → (e : Entered s n x c ks bl) → Parsed e.after ts (extend x c (size c) ks) ds (path_of x ∷ bl) m
    → Parsed s
        (token_of n (codes "{") ∷ (ts ++ token_of m (codes "}") ∷ []))
        x
        (add_block (block ds (size c) ks) c)
        bl
        (m + 1)
enclosed s n m x c ds ks bl ts e p =
    let q = leave p.after m x c ds ks bl p.place p.fresh in
    record {
      after = q.after;
      runs = λ us.
          parse_tokens-cons (token_of n (codes "{")) _ s e.runs
          ∙ ap (λ ws. parse_tokens ws e.after) (append_assoc ts (token_of m (codes "}") ∷ []) us)
          ∙ p.runs (token_of m (codes "}") ∷ us)
          ∙ q.runs us;
      place = q.place;
      fresh = q.fresh;
    }

-- A block whose keys have been parsed, and which has children or not.
Opens→Parsed :
    (s : ParseState) (n : ℕ) (x : Context) (c : Container) (ks : List Text) (bl : List Pointer)
    (ts : List Token)
    → Opens s ts n x c ks bl
    → Parsed s (ts ++ []) x (add_block (block nil (size c) ks) c) bl (n + 0 + 1)
Opens→Parsed s n x c ks bl ts o = record {
  after = o.after;
  runs = λ us. ap (λ ws. parse_tokens (ws ++ us) s) (append-nil ts) ∙ o.runs us;
  place = record { root = o.is_open.root; top = o.is_open.top; below = o.is_open.below };
  fresh = inr (n, o.is_open.line, omega arith);
}

Opens-trans :
    (s : ParseState) (n k : ℕ) (x : Context) (c d : Container) (ks : List Text) (bl : List Pointer)
    (ts us : List Token)
    → (o : Opens s ts n x c ks bl) → Parsed o.after us x d bl k
    → Parsed s (ts ++ us) x d bl k
Opens-trans s n k x c d ks bl ts us o q = record {
  after = q.after;
  runs = λ vs. ap (λ ws. parse_tokens ws s) (append_assoc ts us vs) ∙ o.runs (us ++ vs) ∙ q.runs vs;
  place = q.place;
  fresh = q.fresh;
}

no_part : (◌≡◌ {A = Bool} true false) ⊎ (◌≡◌ {A = Bool} false true) → ⊥
no_part (inl e) = cc
no_part (inr e) = cc

mutual
  unfolding renumber block_tokens lines size add_block

  parse_block :
      {b : Block} (s : ParseState) (n : ℕ) (x : Context) (c : Container) (bl : List Pointer)
      → IsWritableBlock b
      → At s x c bl
      → IsFresh s n
      → Parsed s (block_tokens n b) x (add_block (renumber_block (size c) b) c) bl (n + lines b)
  parse_block s n x c bl (writable {cs = nil} {ks = []} ws some_part wc) a f =
      absurd (no_part some_part)
  parse_block s n x c bl (writable {cs = nil} {ks = k ∷ ks} ws some_part wc) a f =
      Parsed-cast s _ _ x _ _ bl _ _ refl refl (omega arith) (
        Opens→Parsed s (n + key_lines (k ∷ ks)) x c (k ∷ ks) bl (key_tokens n (k ∷ ks))
          (first_keys k ks n s x c bl ws a f))
  parse_block s n x c bl (writable {cs = cons b cs} {ks = []} ws some_part wc) a f =
      Parsed-cast s _ _ x _ _ bl _ _ (ap (λ m. child_tokens m (cons b cs)) (omega arith)) refl
        (omega arith) (parse_children s n x c [] bl wc refl (enter_fresh s n x c bl a f))
  parse_block s n x c bl (writable {cs = cons b cs} {ks = k ∷ ks} ws some_part wc) a f =
      let o = first_keys k ks n s x c bl ws a f in
      Parsed-cast s _ _ x _ _ bl _ _ refl refl (omega arith) (
        Opens-trans s (n + key_lines (k ∷ ks)) _ x c _ (k ∷ ks) bl (key_tokens n (k ∷ ks)) _ o (
          parse_children o.after (n + key_lines (k ∷ ks)) x c (k ∷ ks) bl wc refl
            (enter_open o.after (n + key_lines (k ∷ ks)) x c (k ∷ ks) bl o.is_open)))

  parse_children :
      {ds : Container} (s : ParseState) (n : ℕ) (x : Context) (c : Container) (ks : List Text)
      (bl : List Pointer)
      → IsWritable ds
      → has_children ds ≡ true
      → Entered s n x c ks bl
      → Parsed s
          (child_tokens n ds)
          x
          (add_block (block (renumber 0 ds) (size c) ks) c)
          bl
          (n + child_lines ds + 1)
  parse_children s n x c ks bl none_left h e = cc
  parse_children s n x c ks bl (and_rest {b} {cs} w wc) h e =
      let y = extend x c (size c) ks in
      let p = parse_block e.after (n + 1) y nil (path_of x ∷ bl) w e.place e.fresh in
      let q =
        parse_all p.after (n + 1 + lines b) y (add_block (renumber_block 0 b) nil) (path_of x ∷ bl)
          wc p.place p.fresh in
      Parsed-cast s _ _ x _ _ bl _ _
        (ap (◌∷◌ (token_of n (codes "{")))
          (append_assoc (block_tokens (n + 1) b) (all_tokens_of (n + 1 + lines b) cs) _))
        refl (omega arith)
        (enclosed s n (n + 1 + lines b + all_lines cs) x c _ ks bl _ e
          (Parsed-trans e.after _ _ y _ _ (path_of x ∷ bl) _ _ p q))

  pub parse_all :
      {cs : Container} (s : ParseState) (n : ℕ) (x : Context) (c : Container) (bl : List Pointer)
      → IsWritable cs
      → At s x c bl
      → IsFresh s n
      → Parsed s (all_tokens_of n cs) x (append c (renumber (size c) cs)) bl (n + all_lines cs)
  parse_all s n x c bl none_left a f =
      Parsed-cast s _ _ x _ _ bl _ _ refl (sym (append-nil_container c)) (omega arith)
        (Parsed-nothing s n x c bl a f)
  parse_all s n x c bl (and_rest {b} {cs} w wc) a f =
      let p = parse_block s n x c bl w a f in
      let q =
        parse_all p.after (n + lines b) x (add_block (renumber_block (size c) b) c) bl wc p.place
          p.fresh in
      Parsed-cast s _ _ x _ _ bl _ _ refl
        (append-after_add_block (renumber_block (size c) b) c _
          ∙ ap (λ k. append c (cons (renumber_block (size c) b) (renumber k cs)))
              (size-add_block (renumber_block (size c) b) c))
        (omega arith) (Parsed-trans s _ _ x _ _ bl _ _ p q)
