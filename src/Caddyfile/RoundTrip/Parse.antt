-- ===== src/Caddyfile/RoundTrip/Parse.antt =====
-- The tokens of a written container are parsed into that container.
use caddy_docker_proxy.Caddyfile.Block.{Block, block, Container, nil, cons, add_keys, add_block}
use caddy_docker_proxy.Caddyfile.Lexer.{Token}
use caddy_docker_proxy.Caddyfile.Parser.{
  ParseState, note_line, open_block, put_token, parse_token, parse_tokens,
}
use caddy_docker_proxy.Caddyfile.RoundTrip.Context.{
  Context, plug, path_of, extend, container_at-plug, modify_container-plug, plug-extend,
  path_of-extend, modify_block-plug,
}
use caddy_docker_proxy.Caddyfile.RoundTrip.Lines.{key_lines, key_tokens, IsWritableKey}
use caddy_docker_proxy.Caddyfile.RoundTrip.Read.{token_of}
use caddy_docker_proxy.Caddyfile.Tree.{Pointer, size}
use caddy_docker_proxy.Prelude.{
  ℕ, suc, ◌+◌, ◌<◌, ◌≡◌, refl, sym, ap₂, subst, subst₂, ◌∙◌, ◌⊎◌, inl, inr, true, false, none, some,
  List, [], ◌∷◌, ◌++◌, append_assoc, append-nil, arith, All, ok, Text, codes, text_eq, count,
}

-- The container that Unmarshal builds: the orders are the positions.
unfoldable mutual
  pub renumber_block : ℕ → Block → Block
  renumber_block i (block cs o ks) = block (renumber 0 cs) i ks

  pub renumber : ℕ → Container → Container
  renumber i nil = nil
  renumber i (cons b cs) = cons (renumber_block i b) (renumber (suc i) cs)

-- The parser is in the container at a place of the tree.
pub record At (s : ParseState) (x : Context) (c : Container) (bl : List Pointer) : Type 0 where
  pub root : s.root ≡ plug x c
  pub top : s.top ≡ path_of x
  pub below : s.below ≡ bl

-- The next token, on line `n`, starts a new block.
abbrev pub IsFresh : ParseState → ℕ → Type 0
IsFresh s n =
    ((s.token_line ≡ none) × (s.is_new_block ≡ true))
    ⊎ ((l : ℕ) × (s.token_line ≡ some l) × (l < n))

note_line-IsFresh :
    (n : ℕ) (s : ParseState)
    → IsFresh s n
    → note_line n s ≡ record s { is_new_block = true; token_line = some n }
unfolding note_line
note_line-IsFresh n s (inl (e, f)) = ground arith
note_line-IsFresh n s (inr (l, e, f)) = ground arith

note_line_same : (n : ℕ) (s : ParseState) → s.token_line ≡ some n → note_line n s ≡ s
unfolding note_line
note_line_same n s e = ground arith

-- The last block of the container is open on line `n`, with its keys so far.
pub record IsOpen (s : ParseState) (n : ℕ) (x : Context) (c : Container) (ks : List Text)
    (bl : List Pointer) : Type 0 where
  pub root : s.root ≡ plug x (add_block (block nil (size c) ks) c)
  pub top : s.top ≡ path_of x
  pub below : s.below ≡ bl
  pub same_block : s.is_new_block ≡ false
  pub line : s.token_line ≡ some n
  pub current : s.current ≡ path_of x ++ size c ∷ []

open_block-IsOpen :
    (n : ℕ) (s : ParseState) (x : Context) (c : Container) (bl : List Pointer)
    → At s x c bl
    → IsOpen (open_block (record s { is_new_block = true; token_line = some n })) n x c [] bl
unfolding open_block
open_block-IsOpen n s x c bl a = record {
  root =
      rw (a.root, a.top, container_at-plug x c)
        (modify_container-plug x (add_block (block nil (size c) [])) c);
  top = a.top;
  below = a.below;
  same_block = refl;
  line = refl;
  current = rw (a.root, a.top, container_at-plug x c);
}

open_block_same : (s : ParseState) → s.is_new_block ≡ false → open_block s ≡ s
unfolding open_block
open_block_same s e = rw e

-- A key goes to the open block.
put_token-IsOpen :
    (k : Text) (n : ℕ) (s : ParseState) (x : Context) (c : Container) (ks : List Text)
    (bl : List Pointer)
    → text_eq k (codes "{") ≡ false
    → IsOpen s n x c ks bl
    → IsOpen (put_token k s) (n + count b'\n' k) x c (ks ++ k ∷ []) bl
unfolding put_token
put_token-IsOpen k n s x c ks bl e o = rw e (record {
  root = rw (o.root, o.current) (modify_block-plug x c (add_keys (k ∷ [])) (block nil (size c) ks));
  top = o.top;
  below = o.below;
  same_block = o.same_block;
  line = rw o.line;
  current = o.current;
})

-- A brace: the children of the open block follow.
put_token_brace :
    (n : ℕ) (s : ParseState) (x : Context) (c : Container) (ks : List Text) (bl : List Pointer)
    → IsOpen s n x c ks bl
    → At (put_token (codes "{") s) (extend x c (size c) ks) nil (path_of x ∷ bl)
unfolding put_token text_eq
put_token_brace n s x c ks bl o = record {
  root = o.root ∙ sym (plug-extend x c (size c) ks nil);
  top = o.current ∙ sym (path_of-extend x c (size c) ks);
  below = ap₂ ◌∷◌ o.top o.below;
}

-- After some tokens the parser is in the same container, which has grown, on a line before `m`.
pub record Parsed (s : ParseState) (ts : List Token) (x : Context) (c : Container)
    (bl : List Pointer) (m : ℕ) : Type 0 where
  pub after : ParseState
  pub runs : (us : List Token) → parse_tokens (ts ++ us) s ≡ parse_tokens us after
  pub place : At after x c bl
  pub fresh : IsFresh after m

-- The same with the last block open on a line.
pub record Opens (s : ParseState) (ts : List Token) (n : ℕ) (x : Context) (c : Container)
    (ks : List Text) (bl : List Pointer) : Type 0 where
  pub after : ParseState
  pub runs : (us : List Token) → parse_tokens (ts ++ us) s ≡ parse_tokens us after
  pub is_open : IsOpen after n x c ks bl

pub parse_tokens-cons :
    (t : Token) (ts : List Token) (s : ParseState) {s' : ParseState}
    → parse_token t s ≡ ok s'
    → parse_tokens (t ∷ ts) s ≡ parse_tokens ts s'
unfolding parse_tokens
parse_tokens-cons t ts s e = rw e

-- A token that is no closing brace, where a new block starts.
parse_token-IsFresh :
    (k : Text) (n : ℕ) (s : ParseState)
    → text_eq k (codes "}") ≡ false
    → IsFresh s n
    → parse_token (token_of n k) s
      ≡ ok (put_token k (open_block (record s { is_new_block = true; token_line = some n })))
unfolding parse_token
parse_token-IsFresh k n s e f = rw (e, note_line-IsFresh n s f)

-- And in an open block on the same line.
parse_token_same :
    (k : Text) (n : ℕ) (s : ParseState)
    → text_eq k (codes "}") ≡ false
    → s.token_line ≡ some n
    → s.is_new_block ≡ false
    → parse_token (token_of n k) s ≡ ok (put_token k s)
unfolding parse_token
parse_token_same k n s e f g = rw (e, note_line_same n s f, open_block_same s g)

-- More keys on the lines of an open block.
more_keys :
    (ks : List Text) (n : ℕ) (s : ParseState) (x : Context) (c : Container) (js : List Text)
    (bl : List Pointer)
    → All IsWritableKey ks
    → IsOpen s n x c js bl
    → Opens s (key_tokens n ks) (n + key_lines ks) x c (js ++ ks) bl
unfolding key_tokens key_lines
more_keys [] n s x c js bl w o = record {
  after = s;
  runs = λ us. refl;
  is_open = subst₂ (λ m is. IsOpen s m x c is bl) (omega arith) (sym (append-nil js)) o;
}
more_keys (k ∷ ks) n s x c js bl w o =
    let rest =
      more_keys ks (n + count b'\n' k) (put_token k s) x c (js ++ k ∷ []) bl w.1
        (put_token-IsOpen k n s x c js bl w.0.1 o) in
    record {
      after = rest.after;
      runs = λ us.
          parse_tokens-cons (token_of n k) _ s (parse_token_same k n s w.0.2 o.line o.same_block)
          ∙ rest.runs us;
      is_open =
          subst₂ (λ m is. IsOpen rest.after m x c is bl) (omega arith) (append_assoc js (k ∷ []) ks)
            rest.is_open;
    }

-- The keys of a block with keys.
pub first_keys :
    (k : Text) (ks : List Text) (n : ℕ) (s : ParseState) (x : Context) (c : Container)
    (bl : List Pointer)
    → All IsWritableKey (k ∷ ks)
    → At s x c bl
    → IsFresh s n
    → Opens s (key_tokens n (k ∷ ks)) (n + key_lines (k ∷ ks)) x c (k ∷ ks) bl
unfolding key_tokens key_lines
first_keys k ks n s x c bl w a f =
    let s' = open_block (record s { is_new_block = true; token_line = some n }) in
    let rest =
      more_keys ks (n + count b'\n' k) (put_token k s') x c (k ∷ []) bl w.1
        (put_token-IsOpen k n s' x c [] bl w.0.1 (open_block-IsOpen n s x c bl a)) in
    record {
      after = rest.after;
      runs = λ us.
          parse_tokens-cons (token_of n k) _ s (parse_token-IsFresh k n s w.0.2 f) ∙ rest.runs us;
      is_open = subst (λ m. IsOpen rest.after m x c (k ∷ ks) bl) (omega arith) rest.is_open;
    }

-- The opening brace behind the keys.
pub record Entered (s : ParseState) (n : ℕ) (x : Context) (c : Container) (ks : List Text)
    (bl : List Pointer) : Type 0 where
  pub after : ParseState
  pub runs : parse_token (token_of n (codes "{")) s ≡ ok after
  pub place : At after (extend x c (size c) ks) nil (path_of x ∷ bl)
  pub fresh : IsFresh after (n + 1)

pub enter_open :
    (s : ParseState) (n : ℕ) (x : Context) (c : Container) (ks : List Text) (bl : List Pointer)
    → IsOpen s n x c ks bl
    → Entered s n x c ks bl
unfolding put_token text_eq
enter_open s n x c ks bl o = record {
  after = put_token (codes "{") s;
  runs = parse_token_same (codes "{") n s refl o.line o.same_block;
  place = put_token_brace n s x c ks bl o;
  fresh = inr (n, o.line, omega arith);
}

-- An opening brace of a block without keys.
pub enter_fresh :
    (s : ParseState) (n : ℕ) (x : Context) (c : Container) (bl : List Pointer)
    → At s x c bl
    → IsFresh s n
    → Entered s n x c [] bl
unfolding put_token text_eq
enter_fresh s n x c bl a f =
    let s' = open_block (record s { is_new_block = true; token_line = some n }) in
    let o = open_block-IsOpen n s x c bl a in
    record {
      after = put_token (codes "{") s';
      runs = parse_token-IsFresh (codes "{") n s refl f;
      place = put_token_brace n s' x c [] bl o;
      fresh = inr (n, o.line, omega arith);
    }

-- The closing brace.
pub leave :
    (s : ParseState) (m : ℕ) (x : Context) (c ds : Container) (ks : List Text) (bl : List Pointer)
    → At s (extend x c (size c) ks) ds (path_of x ∷ bl)
    → IsFresh s m
    → Parsed s (token_of m (codes "}") ∷ []) x (add_block (block ds (size c) ks) c) bl (m + 1)
unfolding parse_token text_eq
leave s m x c ds ks bl a f = record {
  after = record s { is_new_block = true; token_line = some m; top = path_of x; below = bl };
  runs =
      λ us. parse_tokens-cons (token_of m (codes "}")) us s (rw (note_line-IsFresh m s f, a.below));
  place = record { root = a.root ∙ plug-extend x c (size c) ks ds; top = refl; below = refl };
  fresh = inr (m, refl, omega arith);
}
