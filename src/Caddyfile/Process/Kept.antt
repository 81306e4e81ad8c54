-- ===== src/Caddyfile/Process/Kept.antt =====
-- Process of a Caddyfile of which the adapter refuses nothing.
use caddy_docker_proxy.Caddyfile.Block.{
  Block, Container, nil, cons, keys, to_list, of_list, of_list-to_list,
}
use caddy_docker_proxy.Caddyfile.Marshal.{write, marshal, marshal_block}
use caddy_docker_proxy.Caddyfile.Parser.{unmarshal}
use caddy_docker_proxy.Caddyfile.Process.{
  Marked, block_of, sort_marked, container_of, unmark, settle, process_blocks, process,
}
use caddy_docker_proxy.Caddyfile.RoundTrip.Context.{append}
use caddy_docker_proxy.Caddyfile.Sort.{slice_stable, same, sort_block, sort_each, sort}
use caddy_docker_proxy.Caddyfile.Sort.Shuffle.{
  Shuffle, empty, both, swapped, chained, sort-Shuffle, Shuffle-refl, Shuffle-sort, sort-sort,
}
use caddy_docker_proxy.Caddyfile.Sort.Stable.{map-slice_stable}
use caddy_docker_proxy.Prelude.{
  ℕ, suc, ◌≡◌, refl, sym, ap, ◌∙◌, true, some, List, [], ◌∷◌, ◌++◌, map, length, Result, ok, Text,
}

sort_each-of_list :
    (es : List Marked)
    → sort_each (container_of es) ≡ map block_of (map (λ (e : Marked). (e.0, sort_block e.1)) es)
unfolding sort_each
sort_each-of_list [] = refl
sort_each-of_list (e ∷ es) = ap (◌∷◌ (sort_block e.1)) (sort_each-of_list es)

container_of-sort_marked :
    (es : List Marked) → container_of (sort_marked es) ≡ sort (container_of es)
unfolding sort_marked sort
container_of-sort_marked es = ap of_list (
    map-slice_stable block_of (map (λ (e : Marked). (e.0, sort_block e.1)) es)
    ∙ ap (slice_stable same) (sym (sort_each-of_list es)))

Shuffle-append :
    {cs ds : Container} (rest : Container)
    → Shuffle cs ds
    → Shuffle (append cs rest) (append ds rest)
Shuffle-append rest empty = Shuffle-refl rest
Shuffle-append rest (both h k) = both h (Shuffle-append rest k)
Shuffle-append rest (swapped a b cs) = swapped a b (append cs rest)
Shuffle-append rest (chained h k) = chained (Shuffle-append rest h) (Shuffle-append rest k)

append_nil : (c : Container) → append c nil ≡ c
append_nil nil = refl
append_nil (cons b cs) = ap (cons b) (append_nil cs)

append_cons :
    (c : Container) (b : Block) (d : Container)
    → append c (cons b d) ≡ append (append c (cons b nil)) d
append_cons nil b d = refl
append_cons (cons a cs) b d = ap (cons a) (append_cons cs b d)

container_of-append :
    (es : List Marked) (b : Block)
    → container_of (es ++ (true, b) ∷ []) ≡ append (container_of es) (cons b nil)
container_of-append [] b = refl
container_of-append (e ∷ es) b = ap (cons e.1) (container_of-append es b)

container_of-unmark : (es : List Marked) → container_of (map unmark es) ≡ container_of es
container_of-unmark [] = refl
container_of-unmark (e ∷ es) = ap (cons e.1) (container_of-unmark es)

module _ (adapt : Text → Result Text (Unit {0})) (accepts : (t : Text) → adapt t ≡ ok tt) where
  -- The new container after one block.
  abbrev after_block : List Marked → Block → List Marked
  after_block es b = map unmark (sort_marked (es ++ (true, b) ∷ []))

  settle-after_block :
      (fuel : ℕ) (snapshot : Text) (es : List Marked) (b : Block)
      → settle adapt (suc fuel) snapshot (es ++ (true, b) ∷ []) ≡ some (after_block es b, [])
  unfolding settle
  settle-after_block fuel snapshot es b =
      rw (settle, accepts (write (container_of (sort_marked (es ++ (true, b) ∷ []))) 0)) refl

  Shuffle-after_block :
      (es : List Marked) (b : Block) (bs : Container)
      → Shuffle (append (container_of es) (cons b bs)) (append (container_of (after_block es b)) bs)
  Shuffle-after_block es b bs =
      rw
        (
          append_cons (container_of es) b bs,
          container_of-unmark (sort_marked (es ++ (true, b) ∷ [])),
          container_of-sort_marked (es ++ (true, b) ∷ []),
          container_of-append es b,
        )
        (Shuffle-append bs (Shuffle-sort (append (container_of es) (cons b nil))))

  process_blocks-Shuffle :
      (bs : List Block) (es : List Marked)
      → (es' : List Marked) × (process_blocks adapt bs es ≡ some (es', []))
        × Shuffle (append (container_of es) (of_list bs)) (container_of es')
  unfolding process_blocks
  process_blocks-Shuffle [] es =
      (es, refl, rw (append_nil (container_of es)) (Shuffle-refl (container_of es)))
  process_blocks-Shuffle (b ∷ bs) es =
      let (es', runs, h) = process_blocks-Shuffle bs (after_block es b) in
      (
        es',
        rw (process_blocks, settle-after_block (length (keys b)) (marshal_block b) es b, runs) refl,
        chained (Shuffle-after_block es b (of_list bs)) h,
      )

  -- Where the adapter accepts everything, Process changes nothing but the layout: of a Caddyfile that
  -- Unmarshal reads it returns what Marshal writes of the same container, and an empty log.
  pub process-marshal :
      (content : Text) (c : Container)
      → unmarshal content ≡ ok c
      → process adapt content ≡ some (marshal c, [])
  unfolding process unmarshal marshal
  process-marshal [] c e = absurd (no_container e)
    where
      no_container : unmarshal [] ≡ ok c → ⊥
      no_container q = cc
  process-marshal (x ∷ xs) c e =
      let (es, runs, h) = process_blocks-Shuffle (to_list (sort c)) [] in
      rw (process, e, runs)
        (ap (λ d. some (write d 0, []))
          (container_of-sort_marked es
            ∙ (sym (sort-Shuffle h) ∙ (ap sort (of_list-to_list (sort c)) ∙ sort-sort c))))
