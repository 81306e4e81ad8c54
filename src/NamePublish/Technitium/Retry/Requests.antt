-- ===== src/NamePublish/Technitium/Retry/Requests.antt =====
-- Publish: the requests of all its attempts.
use caddy_docker_proxy.NamePublish.Technitium.{
  DnsRecord, TechnitiumPublisher, Call, TechnitiumWorld, is_retryable_error,
}
use caddy_docker_proxy.NamePublish.Technitium.Publish.{Run, publish_once}
use caddy_docker_proxy.NamePublish.Technitium.Publish.Adds.{Adds}
use caddy_docker_proxy.NamePublish.Technitium.Publish.Guarded.{IsAllowedOnce, publish_once-Adds}
use caddy_docker_proxy.NamePublish.Technitium.Retry.{
  retry_delays, Publication, last_attempt, earlier_attempt, attempt_from, technitium_publish,
}
use caddy_docker_proxy.Prelude.{
  ℕ, suc, ap, ◌∙◌, inl, inr, Bool, not, none, some, List, [], ◌∷◌, ◌++◌, append_assoc, All,
  All-append, if◌then◌else◌, Bool-cases, Text,
}

module _ (w : TechnitiumWorld) (p : TechnitiumPublisher) (visits : ℕ → List DnsRecord → List Text)
    (sleeps : ℕ → Bool) (names : List Text) (caddy_host : Text) where
  -- A request that is allowed to an attempt after some requests.
  abbrev pub IsAllowedSometime : Call → Type 0
  IsAllowedSometime c = (before : List Call) × IsAllowedOnce w p names caddy_host before c

  Adds-weaken :
      (before calls : List Call) (r : Run)
      → Adds (IsAllowedOnce w p names caddy_host before) calls r
      → Adds IsAllowedSometime calls r
  Adds-weaken before calls r (more, e, h) = (more, e, each more h)
    where
      each :
          (cs : List Call)
          → All (IsAllowedOnce w p names caddy_host before) cs
          → All IsAllowedSometime cs
      each [] h = tt
      each (c ∷ cs) h = ((before, h.0), each cs h.1)

  publish_once-IsAllowedSometime :
      (attempt : ℕ) (calls : List Call)
      → Adds IsAllowedSometime calls (publish_once w p (visits attempt) names caddy_host calls)
  publish_once-IsAllowedSometime attempt calls =
      Adds-weaken calls calls (publish_once w p (visits attempt) names caddy_host calls)
        (publish_once-Adds w p (visits attempt) names caddy_host calls)

  -- The requests behind those of an attempt.
  Adds-later :
      (P : Call → Type 0) (calls : List Call) (r later : Run)
      → Adds P calls r
      → Adds P r.0 later
      → Adds P calls later
  Adds-later P calls r later (more, e, h) (more', e', h') = (
    more ++ more',
    e' ∙ (ap (λ cs. cs ++ more') e ∙ append_assoc calls more more'),
    All-append P more more' h h',
  )

  abbrev requests : Publication → Run
  requests o = (o.calls, o.error)

  attempt_from-Adds :
      (delays : List ℕ) (attempt : ℕ) (calls : List Call)
      → Adds IsAllowedSometime calls
          (requests (attempt_from w p visits sleeps names caddy_host attempt delays calls))
  unfolding attempt_from
  attempt_from-Adds [] attempt calls = publish_once-IsAllowedSometime attempt calls
  attempt_from-Adds (delay ∷ delays) attempt calls =
      by_result (publish_once w p (visits attempt) names caddy_host calls)
        (publish_once-IsAllowedSometime attempt calls)
        (λ cs. attempt_from-Adds delays (suc attempt) cs)
    where
      step : Run → Publication
      step r = elim r.1 [
        | none ↦ last_attempt r []
        | some e ↦
            if not (is_retryable_error w e)
            then last_attempt r []
            else if not (sleeps attempt)
            then last_attempt r (delay ∷ [])
            else earlier_attempt e delay
                (attempt_from w p visits sleeps names caddy_host (suc attempt) delays r.0)
      ]

      by_result :
          (r : Run)
          → Adds IsAllowedSometime calls r
          → ((cs : List Call)
              → Adds IsAllowedSometime cs (
                  requests
                    (attempt_from w p visits sleeps names caddy_host (suc attempt) delays cs)))
          → Adds IsAllowedSometime calls (requests (step r))
      by_result (cs, none) a g = a
      by_result (cs, some e) a g = elim (Bool-cases (is_retryable_error w e)) [
        | inr f ↦ rw f a
        | inl t ↦ elim (Bool-cases (sleeps attempt)) [
          | inr f ↦ rw (t, f) a
          | inl s ↦
              rw (t, s)
                (Adds-later IsAllowedSometime calls (cs, some e)
                  (requests
                    (attempt_from w p visits sleeps names caddy_host (suc attempt) delays cs))
                  a (g cs))
        ]
      ]

  -- All requests of Publish, those of its retries included, are allowed ones of publishOnce: it removes
  -- only what it has made, and adds only what it is asked for.
  pub technitium_publish-Adds :
      (calls : List Call)
      → Adds IsAllowedSometime calls
          (requests (technitium_publish w p visits sleeps names caddy_host calls))
  technitium_publish-Adds = attempt_from-Adds retry_delays 0
