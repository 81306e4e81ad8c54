-- ===== src/Caddyfile/Process/Accepted.antt =====
-- What Process returns is accepted by the adapter, and the inner loop ends.
use caddy_docker_proxy.Caddyfile.Block.{Block, Container, cons, keys, to_list}
use caddy_docker_proxy.Caddyfile.Marshal.{write, marshal_block}
use caddy_docker_proxy.Caddyfile.Parser.{ParseError, unmarshal}
use caddy_docker_proxy.Caddyfile.Process.{
  LogEntry, Marked, sort_marked, container_of, ambiguous_site_name, remove_current_key,
  remove_current, unmark, settle, process_blocks, process,
}
use caddy_docker_proxy.Caddyfile.Process.Settle.{
  sort_marked-sort_marked, map-unmark-sort_marked, remove_current-sort_marked,
  remove_current-remove_current_key, current_keys, current_keys-sort_marked,
  current_keys-remove_current_key,
}
use caddy_docker_proxy.Caddyfile.Sort.{sort}
use caddy_docker_proxy.Prelude.{
  ℕ, zero, suc, ◌+◌, ◌<◌, ◌≡◌, refl, sym, ap, ◌∙◌, ◌⊎◌, inl, inr, true, Option, none, some, List,
  [], ◌∷◌, ◌++◌, map, arith, length, Result, ok, err, Bool-cases, Text,
}
use mathlib.Core.Option

module _ (adapt : Text → Result Text (Unit {0})) where
  abbrev Accepts : List Marked → Type 0
  Accepts es = adapt (write (container_of es) 0) ≡ ok tt

  -- The new container between two rounds of the outer loop.
  record IsSettled (es : List Marked) : Type 0 where
    unmarked : map unmark es ≡ es
    sorted : sort_marked es ≡ es
    accepted : (es ≡ []) ⊎ Accepts es

  -- The inner loop ends with a settled container.
  abbrev Ends : Option (List Marked × List LogEntry) → Type 0
  Ends none = ⊥
  Ends (some (es, logs)) = IsSettled es

  module _ (es fs : List Marked) (s : IsSettled es) (r : remove_current fs ≡ es) where
    remove_current_sorted : remove_current (sort_marked fs) ≡ es
    remove_current_sorted = remove_current-sort_marked fs ∙ ap sort_marked r ∙ s.sorted

    remove_current_shorter :
        (key : Text) → remove_current (remove_current_key key (sort_marked fs)).1 ≡ es
    remove_current_shorter key =
        remove_current-remove_current_key key (sort_marked fs) ∙ remove_current_sorted

    current_keys_shorter :
        (key : Text)
        → (remove_current_key key (sort_marked fs)).0 ≡ true
        → current_keys (remove_current_key key (sort_marked fs)).1 + 1 ≡ current_keys fs
    current_keys_shorter key h =
        current_keys-remove_current_key key (sort_marked fs) h ∙ current_keys-sort_marked fs

    -- The block is left out.
    left_out-IsSettled :
        (key : Text)
        → IsSettled (map unmark (remove_current (remove_current_key key (sort_marked fs)).1))
    left_out-IsSettled key = rw (remove_current_shorter key, s.unmarked) s

  map-unmark_twice : (es : List Marked) → map unmark (map unmark es) ≡ map unmark es
  map-unmark_twice [] = refl
  map-unmark_twice (e ∷ es) = ap (◌∷◌ (unmark e)) (map-unmark_twice es)

  container_of-unmark : (es : List Marked) → container_of (map unmark es) ≡ container_of es
  container_of-unmark [] = refl
  container_of-unmark (e ∷ es) = ap (cons e.1) (container_of-unmark es)

  -- The block stays.
  kept-IsSettled :
      (fs : List Marked) → Accepts (sort_marked fs) → IsSettled (map unmark (sort_marked fs))
  kept-IsSettled fs h = record {
    unmarked = map-unmark_twice (sort_marked fs);
    sorted =
        sym (map-unmark-sort_marked (sort_marked fs))
        ∙ ap (map unmark) (sort_marked-sort_marked fs);
    accepted = inr (rw (container_of-unmark (sort_marked fs)) h);
  }

  settle-IsSettled :
      (fuel : ℕ) (snapshot : Text) (es fs : List Marked)
      → IsSettled es
      → remove_current fs ≡ es
      → current_keys fs < fuel
      → Ends (settle adapt fuel snapshot fs)
  unfolding settle
  settle-IsSettled zero snapshot es fs s r k = absurd (omega arith)
  settle-IsSettled (suc fuel) snapshot es fs s r k =
      round (adapt (write (container_of (sort_marked fs)) 0)) refl
        (λ key. settle-IsSettled fuel snapshot es (remove_current_key key (sort_marked fs)).1 s)
    where
      round :
          (answer : Result Text (Unit {0}))
          → adapt (write (container_of (sort_marked fs)) 0) ≡ answer
          → ((key : Text)
              → remove_current (remove_current_key key (sort_marked fs)).1 ≡ es
              → current_keys (remove_current_key key (sort_marked fs)).1 < fuel
              → Ends (settle adapt fuel snapshot (remove_current_key key (sort_marked fs)).1))
          → Ends (settle adapt (suc fuel) snapshot fs)
      round (ok u) e again = rw (e, settle) (kept-IsSettled fs e)
      round (err message) e again =
          let name = ambiguous_site_name message in
          elim (Bool-cases (remove_current_key name (sort_marked fs)).0) [
            | inl go_on ↦
                rw (e, settle, go_on)
                  (again name (remove_current_shorter es fs s r name)
                    (omega (arith, current_keys_shorter es fs s r name go_on)))
            | inr stop ↦ rw (e, settle, stop) (left_out-IsSettled es fs s r name)
          ]

  unmarked-keep :
      (es : List Marked) (b : Block)
      → map unmark es ≡ es
      → (remove_current (es ++ (true, b) ∷ []) ≡ es)
        × (current_keys (es ++ (true, b) ∷ []) ≡ length (keys b))
  unmarked-keep es b h = rw (← h) (go es)
    where
      go :
          (es : List Marked)
          → (remove_current (map unmark es ++ (true, b) ∷ []) ≡ map unmark es)
            × (current_keys (map unmark es ++ (true, b) ∷ []) ≡ length (keys b))
      go [] = (refl, omega arith)
      go (e ∷ es) = (ap (◌∷◌ (unmark e)) (go es).0, omega (arith, (go es).1))

  process_blocks-IsSettled :
      (bs : List Block) (es : List Marked) → IsSettled es → Ends (process_blocks adapt bs es)
  unfolding process_blocks
  process_blocks-IsSettled [] es s = s
  process_blocks-IsSettled (b ∷ bs) es s =
      round (settle adapt (suc (length (keys b))) (marshal_block b) (es ++ (true, b) ∷ [])) refl
        (settle-IsSettled (suc (length (keys b))) (marshal_block b) es (es ++ (true, b) ∷ []) s
          (unmarked-keep es b s.unmarked).0 (omega (arith, (unmarked-keep es b s.unmarked).1)))
        (λ es'. process_blocks-IsSettled bs es')
    where
      with_logs :
          (logs : List LogEntry) (m : Option (List Marked × List LogEntry))
          → Ends m
          → Ends (Option.map (λ r. (r.0, logs ++ r.1)) m)
      with_logs logs none h = h
      with_logs logs (some (es, more)) h = h

      round :
          (m : Option (List Marked × List LogEntry))
          → settle adapt (suc (length (keys b))) (marshal_block b) (es ++ (true, b) ∷ []) ≡ m
          → Ends m
          → ((es' : List Marked) → IsSettled es' → Ends (process_blocks adapt bs es'))
          → Ends (process_blocks adapt (b ∷ bs) es)
      round none e h rest = absurd h
      round (some (es', logs)) e h rest =
          rw (e, process_blocks) (with_logs logs (process_blocks adapt bs es') (rest es' h))

  nothing-IsSettled : IsSettled []
  unfolding sort_marked
  nothing-IsSettled = record { unmarked = refl; sorted = refl; accepted = inl refl }

  -- A returned text that is not empty is accepted.
  abbrev Returns : Option (Text × List LogEntry) → Type 0
  Returns m = (r : Text × List LogEntry) × (m ≡ some r) × ((r.0 ≡ []) ⊎ (adapt r.0 ≡ ok tt))

  returned :
      (m : Option (List Marked × List LogEntry))
      → Ends m
      → Returns (Option.map (λ r. (write (container_of (sort_marked r.0)) 0, r.1)) m)
  unfolding write
  returned none h = absurd h
  returned (some (es, logs)) h = elim h.accepted [
    | inl e ↦ ((_, logs), refl, inl (rw (h.sorted, e)))
    | inr a ↦ ((_, logs), refl, inr (rw h.sorted a))
  ]

  -- Process always returns: each round of its inner loop takes a key from the block. The Caddyfile that
  -- it returns is empty, or the adapter accepts it.
  pub process_accepted :
      (content : Text)
      → (r : Text × List LogEntry) × (process adapt content ≡ some r)
        × ((r.0 ≡ []) ⊎ (adapt r.0 ≡ ok tt))
  unfolding process
  process_accepted [] = (([], []), refl, inl refl)
  process_accepted (c ∷ content) = round (unmarshal (c ∷ content)) refl
    where
      round :
          (parsed : Result ParseError Container)
          → unmarshal (c ∷ content) ≡ parsed
          → Returns (process adapt (c ∷ content))
      round (err e) h = rw (h, process) (_, refl, inl refl)
      round (ok container) h =
          rw (h, process)
            (returned (process_blocks adapt (to_list (sort container)) [])
              (process_blocks-IsSettled (to_list (sort container)) [] nothing-IsSettled))
