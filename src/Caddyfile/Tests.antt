-- ===== src/Caddyfile/Tests.antt =====
-- Runs of package caddyfile, and the theorems at concrete inputs.
use caddy_docker_proxy.Caddyfile.Block.{Block, block, Container, nil, cons}
use caddy_docker_proxy.Caddyfile.Compare.{compare_blocks}
use caddy_docker_proxy.Caddyfile.Compare.Order.{
  flip, compare_blocks-eq_iff, compare_blocks-flip, compare_blocks_trans,
}
use caddy_docker_proxy.Caddyfile.FromLabels.{no_match, out_of_fuel, LabelsResult, from_labels}
use caddy_docker_proxy.Caddyfile.FromLabels.Fuel.{from_labels-IsEnough}
use caddy_docker_proxy.Caddyfile.Lexer.{Token, no_token, tokens_from, all_tokens}
use caddy_docker_proxy.Caddyfile.Lexer.Progress.{tokens_from_enough, tokens}
use caddy_docker_proxy.Caddyfile.Marshal.{write_key, write, marshal}
use caddy_docker_proxy.Caddyfile.Marshal.Canonical.{marshal-Shuffle}
use caddy_docker_proxy.Caddyfile.Merge.{merge}
use caddy_docker_proxy.Caddyfile.Merge.Takes.{Takes}
use caddy_docker_proxy.Caddyfile.Parser.{ParseError, unmarshal}
use caddy_docker_proxy.Caddyfile.Process.{
  LogEntry, removing_invalid_block, duplicate_site_hint, process,
}
use caddy_docker_proxy.Caddyfile.Process.Accepted.{process_accepted}
use caddy_docker_proxy.Caddyfile.Process.Kept.{process-marshal}
use caddy_docker_proxy.Caddyfile.RoundTrip.Keys.{at_line}
use caddy_docker_proxy.Caddyfile.RoundTrip.Lines.{writable, IsWritable, none_left, and_rest}
use caddy_docker_proxy.Caddyfile.RoundTrip.Parse.{renumber}
use caddy_docker_proxy.Caddyfile.RoundTrip.Read.{token_of, tokens-write_key}
use caddy_docker_proxy.Caddyfile.RoundTrip.Unmarshal.{unmarshal-write}
use caddy_docker_proxy.Caddyfile.RoundTrip.Writable.{is_writable}
use caddy_docker_proxy.Caddyfile.Sort.{sort}
use caddy_docker_proxy.Caddyfile.Sort.Shuffle.{Shuffle, swapped, Shuffle-sort, sort-sort}
use caddy_docker_proxy.Prelude.{
  ℕ, ◌+◌, Ordering, ◌≡◌, refl, ◌≢◌, ◌↔◌, ◌⊎◌, inl, inr, Option, none, some, List, [], ◌∷◌, ◌++◌,
  map, arith, Result, ok, err, ◌>>=◌, Text, codes, text_eq, count, after_first,
}
use Prim.Native.String.{String}
use mathlib.Core.Option

abbrev lexed : String → Option (List (ℕ × Text))
lexed s = Option.map (map (λ (t : Token). (t.line, t.text))) (all_tokens (codes s))

lexes :
    lexed "a \"b c\" `d\"e`\n# no\n\tf\\\n g\\\"h \"i\\\"j\\k\""
    ≡ some (
        (1, codes "a")
        ∷ (1, codes "b c")
        ∷ (1, codes "d\"e")
        ∷ (3, codes "f")
        ∷ (3, codes "g\\\"h")
        ∷ (3, codes "i\"j\\k")
        ∷ [])
unfolding all_tokens
lexes = refl

-- What a text reads as, marshalled again.
abbrev formatted : String → Result ParseError Text
formatted s = do c ← unmarshal (codes s); ok (marshal c)

formats :
    formatted "{\n\temail a@b\n}\nb.com {\n\tz 1\n\ty \"a b\" `c\nd`\n}\n(s) {\n}\n"
    ≡ ok (codes "{\n\temail a@b\n}\n(s)\nb.com {\n\tz 1\n\ty \"a b\" `c\nd`\n}\n")
unfolding unmarshal marshal
formats = refl

merged : String → String → Result ParseError Text
merged a b = do c ← unmarshal (codes a); d ← unmarshal (codes b); ok (marshal (merge c d))

merges :
    (merged "e {\n php_fastcgi service-a:80\n}" "e {\n php_fastcgi service-b:81\n}"
      ≡ ok (codes "e {\n\tphp_fastcgi service-a:80 service-b:81\n}\n"))
    × (merged "e {\n reverse_proxy /a service-a:80\n}" "e {\n reverse_proxy /b service-b:81\n}"
        ≡ ok (codes "e {\n\treverse_proxy /a service-a:80\n\treverse_proxy /b service-b:81\n}\n"))
unfolding merged merge unmarshal marshal
merges = (refl, refl)

abbrev from_text : List (String × String) → List (Text × Text)
from_text = map (λ (e : String × String). (codes e.0, codes e.1))

labelled : List (String × String) → LabelsResult Text
labelled ls = do c ← from_labels (λ v. ok v) (from_text ls); ok (marshal c)

converts :
    (labelled (
        ("caddy", "localhost")
        ∷ ("caddy.2_aaa", "value")
        ∷ ("caddy.1_bbb_3.x", "\"a b\" c")
        ∷ ("caddy.@m", "path /p")
        ∷ [])
      ≡ ok (codes "localhost {\n\t@m path /p\n\tbbb {\n\t\tx \"a b\" c\n\t}\n\taaa value\n}\n"))
    × (labelled (("caddy.", "x") ∷ []) ≡ err no_match)
unfolding labelled from_labels marshal
converts = (refl, refl)

-- A site with a directive, and a snippet.
abbrev plain_respond : Block
plain_respond = block nil 0 (codes "respond" ∷ codes "a b" ∷ codes "x\ny" ∷ [])

abbrev site : Block
site = block (cons plain_respond nil) 3 (codes "e.com" ∷ [])

abbrev snippet : Block
snippet = block nil 7 (codes "(s)" ∷ [])

abbrev two_blocks : Container
two_blocks = cons site (cons snippet nil)

two_blocks-IsWritable : IsWritable two_blocks
unfolding is_writable text_eq
two_blocks-IsWritable =
    and_rest
      (writable ((refl, refl, refl), tt) (inl refl)
        (and_rest
          (writable ((refl, refl, refl), ((refl, refl, refl), ((refl, refl, refl), tt))) (inl refl)
            none_left)
          none_left))
      (and_rest (writable ((refl, refl, refl), tt) (inl refl) none_left) none_left)

unmarshal-write_example : unmarshal (write two_blocks 0) ≡ ok (renumber 0 two_blocks)
unmarshal-write_example =
    unmarshal-write two_blocks two_blocks-IsWritable refl (unfold write in refl)

tokens-write_key_example :
    tokens (at_line (write_key (codes "a b") ++ b'\n' ∷ codes "c") 4 no_token)
    ≡ token_of 4 (codes "a b")
      ∷ tokens
          (at_line (b'\n' ∷ codes "c") (4 + count b'\n' (codes "a b")) (token_of 4 (codes "a b")))
tokens-write_key_example =
    tokens-write_key (codes "a b") b'\n' (codes "c") 4 no_token (unfold is_writable in refl)
      (inr refl)

marshal-Shuffle_example : marshal two_blocks ≡ marshal (cons snippet (cons site nil))
marshal-Shuffle_example = marshal-Shuffle (swapped site snippet nil)

compare_blocks-eq_iff_example : (compare_blocks site snippet ≡ Ordering.eq) ↔ (site ≡ snippet)
compare_blocks-eq_iff_example = compare_blocks-eq_iff site snippet

compare_blocks-flip_example : compare_blocks snippet site ≡ flip (compare_blocks site snippet)
compare_blocks-flip_example = compare_blocks-flip site snippet

snippet_before_site : compare_blocks snippet site ≢ Ordering.gt
unfolding compare_blocks
snippet_before_site e = cc

compare_blocks_trans_example : compare_blocks snippet site ≢ Ordering.gt
compare_blocks_trans_example =
    compare_blocks_trans snippet snippet site (λ e. unfold compare_blocks in cc) snippet_before_site

Shuffle-sort_example : Shuffle two_blocks (sort two_blocks)
Shuffle-sort_example = Shuffle-sort two_blocks

sort-sort_example : sort (sort two_blocks) ≡ sort two_blocks
sort-sort_example = sort-sort two_blocks

-- Two proxies, each with a child.
abbrev proxy : Text → Text → Container
proxy target directive =
    cons (block (cons (block nil 0 (directive ∷ [])) nil) 0 (codes "reverse_proxy" ∷ target ∷ []))
      nil

merges_proxies :
    merge (proxy (codes "a") (codes "x")) (proxy (codes "b") (codes "y"))
    ≡ cons
        (block
          (cons (block nil 0 (codes "x" ∷ [])) (cons (block nil 0 (codes "y" ∷ [])) nil))
          0
          (codes "reverse_proxy" ∷ codes "a" ∷ codes "b" ∷ []))
        nil
unfolding merge
merges_proxies = refl

tokens_from_enough_example :
    tokens_from 9 (at_line (codes "a b") 1 no_token)
    ≡ tokens_from 4 (at_line (codes "a b") 1 no_token)
tokens_from_enough_example =
    tokens_from_enough 9 4 (at_line (codes "a b") 1 no_token) (omega arith) (omega arith)

-- An adapter that refuses the site "bad" as ambiguous.
no_bad : Text → Result Text (Unit {0})
no_bad t = elim (after_first (codes "bad") t) [
  | none ↦ ok tt
  | some _ ↦ err (codes "ambiguous site definition: bad")
]

abbrev with_bad : Text
with_bad = codes "a bad {\n tls internal\n}\nbad {\n}\n"

-- The key "bad" is taken from the first site, and the second site is removed.
processes :
    process no_bad with_bad
    ≡ some (
      codes "a {\n\ttls internal\n}\n",
      removing_invalid_block (codes "ambiguous site definition: bad") (codes "bad\n")
          ∷ duplicate_site_hint (codes "bad")
          ∷ [],
    )
unfolding process no_bad after_first
processes = refl

process_accepted_example :
    (r : Text × List LogEntry) × (process no_bad with_bad ≡ some r)
    × ((r.0 ≡ []) ⊎ (no_bad r.0 ≡ ok tt))
process_accepted_example = process_accepted no_bad with_bad

from_labels-IsEnough_example :
    from_labels (λ v. ok v) ((codes "caddy.a.b", codes "x") ∷ []) ≢ err out_of_fuel
from_labels-IsEnough_example =
    from_labels-IsEnough (λ v. ok v) (λ v e. cc) ((codes "caddy.a.b", codes "x") ∷ [])

-- Two sites in another order than Marshal's.
abbrev two_sites : Container
two_sites = cons (block nil 0 (codes "b" ∷ [])) (cons (block nil 1 (codes "(s)" ∷ [])) nil)

reads_two_sites : unmarshal (codes "b\n(s)\n") ≡ ok two_sites
unfolding unmarshal
reads_two_sites = refl

process-marshal_example : process (λ t. ok tt) (codes "b\n(s)\n") ≡ some (marshal two_sites, [])
process-marshal_example =
    process-marshal (λ t. ok tt) (λ t. refl) (codes "b\n(s)\n") two_sites reads_two_sites
