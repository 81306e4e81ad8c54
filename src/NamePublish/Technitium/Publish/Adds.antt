-- ===== src/NamePublish/Technitium/Publish/Adds.antt =====
-- The requests that a run of publishOnce adds to those before it.
use caddy_docker_proxy.NamePublish.Technitium.{Call}
use caddy_docker_proxy.NamePublish.Technitium.Publish.{Run, and_then, visit_each}
use caddy_docker_proxy.Prelude.{
  ◌≡◌, refl, sym, ap, ◌∙◌, inl, inr, Option, none, some, List, [], ◌∷◌, ◌++◌, append_assoc,
  append-nil, All, In, All-append, Text,
}

-- What a run adds to the requests satisfies a predicate.
abbrev pub Adds : (Call → Type 0) → List Call → Run → Type 0
Adds P calls r = (more : List Call) × (r.0 ≡ calls ++ more) × All P more

module _ (P : Call → Type 0) where
  pub Adds-none : (calls : List Call) (e : Option Text) → Adds P calls (calls, e)
  Adds-none calls e = ([], sym (append-nil calls), tt)

  pub Adds-one :
      (calls : List Call) (c : Call) (e : Option Text) → P c → Adds P calls (calls ++ c ∷ [], e)
  Adds-one calls c e p = (c ∷ [], refl, (p, tt))

  pub Adds-and_then :
      (calls : List Call) (r : Run) (f : List Call → Run)
      → Adds P calls r
      → ((calls' : List Call) → Adds P calls' (f calls'))
      → Adds P calls (and_then r f)
  Adds-and_then calls (calls', some e) f a g = a
  Adds-and_then calls (calls', none) f (more, e, h) g =
      let (rest, e', k) = g calls' in
      (
        more ++ rest,
        e' ∙ (ap (λ cs. cs ++ rest) e ∙ append_assoc calls more rest),
        All-append P more rest h k,
      )

  pub Adds-visit_each :
      {A : Type 0} (f : A → List Call → Run) (xs : List A)
      → ((x : A) → In x xs → (calls : List Call) → Adds P calls (f x calls))
      → (calls : List Call) → Adds P calls (visit_each f xs calls)
  Adds-visit_each f [] g calls = Adds-none calls none
  Adds-visit_each f (x ∷ xs) g calls =
      Adds-and_then calls (f x calls) (visit_each f xs) (g x (inl refl) calls)
        (Adds-visit_each f xs (λ y i. g y (inr i)))
