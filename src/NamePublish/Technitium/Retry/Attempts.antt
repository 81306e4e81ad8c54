-- ===== src/NamePublish/Technitium/Retry/Attempts.antt =====
-- Publish: how often it tries, how long it waits, and what it returns.
use caddy_docker_proxy.NamePublish.Technitium.{
  DnsRecord, TechnitiumPublisher, Call, TechnitiumWorld, is_retryable_error,
}
use caddy_docker_proxy.NamePublish.Technitium.Publish.{Run, publish_once}
use caddy_docker_proxy.NamePublish.Technitium.Retry.{
  retry_delays, Publication, last_attempt, earlier_attempt, attempt_from, technitium_publish,
}
use caddy_docker_proxy.Prelude.{
  ℕ, suc, ◌+◌, ◌≤◌, ◌≡◌, refl, inl, inr, Bool, true, false, not, none, some, List, [], ◌∷◌, arith,
  length, if◌then◌else◌, Bool-cases, Text,
}

-- The sum of the waits, in seconds.
abbrev pub total : List ℕ → ℕ
total [] = 0
total (x ∷ xs) = x + total xs

module _ (w : TechnitiumWorld) (p : TechnitiumPublisher) (visits : ℕ → List DnsRecord → List Text)
    (sleeps : ℕ → Bool) (names : List Text) (caddy_host : Text) where
  -- What an attempt does after some requests.
  abbrev pub attempted : ℕ → List Call → Run
  attempted attempt calls = publish_once w p (visits attempt) names caddy_host calls

  -- A call of Publish from an attempt on, after some requests and with some delays left. It ends with an
  -- attempt that succeeds, that fails with an error that forbids a retry, that fails with no delay left,
  -- or that fails and is followed by a wait during which the context ends. A retry follows only a failure
  -- that allows it, and a wait for the next delay that runs to its end.
  pub data IsRetried : ℕ → List ℕ → List Call → Publication → Type 0 where
    success :
        (attempt : ℕ) (delays : List ℕ) (calls cs : List Call)
        → attempted attempt calls ≡ (cs, none)
        → IsRetried attempt delays calls (last_attempt (cs, none) [])
    forbidden :
        (attempt : ℕ) (delays : List ℕ) (calls cs : List Call) (e : Text)
        → attempted attempt calls ≡ (cs, some e)
        → is_retryable_error w e ≡ false
        → IsRetried attempt delays calls (last_attempt (cs, some e) [])
    exhausted :
        (attempt : ℕ) (calls cs : List Call) (e : Text)
        → attempted attempt calls ≡ (cs, some e)
        → IsRetried attempt [] calls (last_attempt (cs, some e) [])
    interrupted :
        (attempt delay : ℕ) (delays : List ℕ) (calls cs : List Call) (e : Text)
        → attempted attempt calls ≡ (cs, some e)
        → is_retryable_error w e ≡ true
        → sleeps attempt ≡ false
        → IsRetried attempt (delay ∷ delays) calls (last_attempt (cs, some e) (delay ∷ []))
    retried :
        (attempt delay : ℕ) (delays : List ℕ) (calls cs : List Call) (e : Text)
        (later : Publication)
        → attempted attempt calls ≡ (cs, some e)
        → is_retryable_error w e ≡ true
        → sleeps attempt ≡ true
        → IsRetried (suc attempt) delays cs later
        → IsRetried attempt (delay ∷ delays) calls (earlier_attempt e delay later)

  IsRetried-results :
      (attempt : ℕ) (delays : List ℕ) (calls : List Call) (o : Publication)
      → IsRetried attempt delays calls o
      → (1 ≤ length o.results)
        × (length o.results ≤ length delays + 1)
        × (total o.waits ≤ total delays)
  IsRetried-results _ _ _ _ (success _ delays _ cs q) = (omega arith, omega arith, omega arith)
  IsRetried-results _ _ _ _ (forbidden _ delays _ cs e q f) =
      (omega arith, omega arith, omega arith)
  IsRetried-results _ _ _ _ (exhausted _ _ cs e q) = (omega arith, omega arith, omega arith)
  IsRetried-results _ _ _ _ (interrupted _ delay delays _ cs e q t f) =
      (omega arith, omega arith, omega arith)
  IsRetried-results _ _ _ _ (retried attempt delay delays _ cs e later q t u r) =
      let (a, b, c) = IsRetried-results (suc attempt) delays cs later r in
      (omega arith, omega arith, omega arith)

  attempt_from-IsRetried :
      (delays : List ℕ) (attempt : ℕ) (calls : List Call)
      → IsRetried attempt delays calls
          (attempt_from w p visits sleeps names caddy_host attempt delays calls)
  unfolding attempt_from
  attempt_from-IsRetried [] attempt calls = by_result (attempted attempt calls) refl
    where
      by_result :
          (r : Run) → attempted attempt calls ≡ r → IsRetried attempt [] calls (last_attempt r [])
      by_result (cs, none) q = success attempt [] calls cs q
      by_result (cs, some e) q = exhausted attempt calls cs e q
  attempt_from-IsRetried (delay ∷ delays) attempt calls =
      by_result (attempted attempt calls) refl
        (λ cs. attempt_from-IsRetried delays (suc attempt) cs)
    where
      step : Run → Publication
      step r = elim r.1 [
        | none ↦ last_attempt r []
        | some e ↦
            if not (is_retryable_error w e)
            then last_attempt r []
            else if not (sleeps attempt)
            then last_attempt r (delay ∷ [])
            else earlier_attempt e delay
                (attempt_from w p visits sleeps names caddy_host (suc attempt) delays r.0)
      ]

      by_result :
          (r : Run)
          → attempted attempt calls ≡ r
          → ((cs : List Call)
              → IsRetried
                  (suc attempt)
                  delays
                  cs
                  (attempt_from w p visits sleeps names caddy_host (suc attempt) delays cs))
          → IsRetried attempt (delay ∷ delays) calls (step r)
      by_result (cs, none) q g = success attempt (delay ∷ delays) calls cs q
      by_result (cs, some e) q g = elim (Bool-cases (is_retryable_error w e)) [
        | inr f ↦ rw f (forbidden attempt (delay ∷ delays) calls cs e q f)
        | inl t ↦ elim (Bool-cases (sleeps attempt)) [
          | inr f ↦ rw (t, f) (interrupted attempt delay delays calls cs e q t f)
          | inl u ↦ rw (t, u) (retried attempt delay delays calls cs e _ q t u (g cs))
        ]
      ]

  -- Publish tries at least once and at most five times, and its waits are 180 seconds at most in all,
  -- less than the 195 seconds that the manager gives it.
  pub technitium_publish-bounds :
      (calls : List Call)
      → (1 ≤ length (technitium_publish w p visits sleeps names caddy_host calls).results)
        × (length (technitium_publish w p visits sleeps names caddy_host calls).results ≤ 5)
        × (total (technitium_publish w p visits sleeps names caddy_host calls).waits ≤ 180)
  technitium_publish-bounds calls =
      IsRetried-results 0 retry_delays calls _ (attempt_from-IsRetried retry_delays 0 calls)

  -- Publish's attempts are runs of publishOnce, each after the requests of those before it: failures that
  -- allow a retry, each followed by a wait for the next of the delays that runs to its end, and then one
  -- whose result is what Publish returns. That one succeeds, or fails with an error that forbids a retry,
  -- or fails and the context ends during the wait behind it, or fails with no delay left.
  pub technitium_publish-IsRetried :
      (calls : List Call)
      → IsRetried 0 retry_delays calls (technitium_publish w p visits sleeps names caddy_host calls)
  technitium_publish-IsRetried = attempt_from-IsRetried retry_delays 0
