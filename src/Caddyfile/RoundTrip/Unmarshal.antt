-- ===== src/Caddyfile/RoundTrip/Unmarshal.antt =====
-- Unmarshal reads back what `write` makes of a container.
use caddy_docker_proxy.Caddyfile.Block.{block, Container, nil, cons}
use caddy_docker_proxy.Caddyfile.Lexer.{
  Token, no_token, byte_order_mark, load, is_empty, next_from, next, all_tokens,
}
use caddy_docker_proxy.Caddyfile.Lexer.Progress.{tokens, tokens-end}
use caddy_docker_proxy.Caddyfile.Marshal.{
  tabs, write_keys, is_nil, write_block, write_children, write,
}
use caddy_docker_proxy.Caddyfile.Parser.{parse_tokens, initial, parse_container, unmarshal}
use caddy_docker_proxy.Caddyfile.RoundTrip.Context.{here}
use caddy_docker_proxy.Caddyfile.RoundTrip.Keys.{at_line}
use caddy_docker_proxy.Caddyfile.RoundTrip.Lex.{Lexes-write_lem}
use caddy_docker_proxy.Caddyfile.RoundTrip.Lines.{
  all_lines, all_tokens_of, has_children, IsWritable,
}
use caddy_docker_proxy.Caddyfile.RoundTrip.Parse.{renumber}
use caddy_docker_proxy.Caddyfile.RoundTrip.Rebuild.{parse_all}
use caddy_docker_proxy.Caddyfile.Tree.{size}
use caddy_docker_proxy.Prelude.{
  ℕ, ◌+◌, ◌≡◌, refl, sym, ap, ◌∙◌, inl, Bool, true, false, some, [], ◌∷◌, ◌++◌, append-nil, ok,
  ◌==◌, Text, codes,
}

-- At the start of a text a byte order mark would be dropped.
abbrev pub starts_with_mark : Text → Bool
starts_with_mark [] = false
starts_with_mark (c ∷ cs) = c == byte_order_mark

all_tokens-tokens :
    (text : Text)
    → is_empty text ≡ false
    → starts_with_mark text ≡ false
    → all_tokens text ≡ some (tokens (at_line text 1 no_token))
unfolding all_tokens load tokens
all_tokens-tokens [] e m = cc
all_tokens-tokens (c ∷ cs) e m = rw m

is_empty-append_right : (a b : Text) → is_empty b ≡ false → is_empty (a ++ b) ≡ false
is_empty-append_right [] b h = h
is_empty-append_right (c ∷ a) b h = refl

is_empty-append_left : (a b : Text) → is_empty a ≡ false → is_empty (a ++ b) ≡ false
is_empty-append_left [] b h = cc
is_empty-append_left (c ∷ a) b h = refl

write-is_empty : (c : Container) → has_children c ≡ true → is_empty (write c 0) ≡ false
unfolding write
write-is_empty nil h = cc
write-is_empty (cons (block ds o ks) cs) h =
    is_empty-append_left (write_block (block ds o ks) 0) (write cs 0) (
      is_empty-append_right (tabs 0) _ (
        is_empty-append_right (write_keys false ks) _
          (is_empty-append_right (write_children (is_nil ks) ds 0) (codes "\n") refl)))

parse_all-root :
    (c : Container) → IsWritable c → parse_container (all_tokens_of 1 c) ≡ ok (renumber 0 c)
unfolding parse_container size
parse_all-root c w =
    let p =
      parse_all initial 1 here nil [] w (record { root = refl; top = refl; below = refl })
        (inl (refl, refl)) in
    rw (sym (ap (λ ts. parse_tokens ts initial) (append-nil (all_tokens_of 1 c))) ∙ p.runs [])
      (unfold parse_tokens in ap ok p.place.root)

-- Unmarshal reads a written container back: its keys and its nesting, with the positions of the
-- blocks as their orders. The container has a child, its keys are writable, no block is without keys
-- and children, and the text does not begin with a byte order mark.
pub unmarshal-write :
    (c : Container)
    → IsWritable c
    → has_children c ≡ true
    → starts_with_mark (write c 0) ≡ false
    → unmarshal (write c 0) ≡ ok (renumber 0 c)
unfolding unmarshal
unmarshal-write c w h m =
    let lexed = (Lexes-write_lem {cs = c} 0 [] 1 w).run no_token in
    let whole : all_tokens (write c 0) ≡ some (all_tokens_of 1 c) =
      all_tokens-tokens (write c 0) (write-is_empty c h) m
      ∙ ap some (
          ap (λ text. tokens (at_line text 1 no_token)) (sym (append-nil (write c 0)))
          ∙ lexed.1
          ∙ ap (◌++◌ (all_tokens_of 1 c)) (
              tokens-end (at_line [] (1 + all_lines c) lexed.0) (no_more (1 + all_lines c) lexed.0))
          ∙ append-nil (all_tokens_of 1 c)) in
    rw (whole, unmarshal) (parse_all-root c w)
  where
    no_more : (n : ℕ) (t : Token) → (next (at_line [] n t)).0 ≡ false
    no_more n t = unfold next next_from in refl
