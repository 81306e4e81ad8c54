-- ===== src/NamePublish/Technitium/Retry.antt =====
-- namepublish/technitium.go: Publish. `visits` has the order of the names for each attempt, and
-- `sleeps` whether the context lets the wait after an attempt end. A delay is in seconds.
pub mod Attempts
pub mod Requests
use caddy_docker_proxy.NamePublish.Technitium.{
  DnsRecord, TechnitiumPublisher, Call, TechnitiumWorld, is_retryable_error,
}
use caddy_docker_proxy.NamePublish.Technitium.Publish.{Run, publish_once}
use caddy_docker_proxy.Prelude.{
  ℕ, suc, Bool, not, Option, none, some, List, [], ◌∷◌, if◌then◌else◌, Text,
}

-- retryDelays
abbrev pub retry_delays : List ℕ
retry_delays = 12 ∷ 24 ∷ 48 ∷ 96 ∷ []

-- What a call of Publish does: the requests, the result of each attempt, the waits between them, and
-- the error that it returns.
pub record Publication : Type 0 where
  pub calls : List Call
  pub results : List (Option Text)
  pub waits : List ℕ
  pub error : Option Text

-- An attempt that is the last one, and one with a wait behind it.
abbrev pub last_attempt : Run → List ℕ → Publication
last_attempt (calls, e) waits = record { calls = calls; results = e ∷ []; waits = waits; error = e }

abbrev pub earlier_attempt : Text → ℕ → Publication → Publication
earlier_attempt e delay later = record {
  calls = later.calls;
  results = some e ∷ later.results;
  waits = delay ∷ later.waits;
  error = later.error;
}

module _ (w : TechnitiumWorld) (p : TechnitiumPublisher) (visits : ℕ → List DnsRecord → List Text)
    (sleeps : ℕ → Bool) (names : List Text) (caddy_host : Text) where
  -- The loop of Publish from an attempt on, with the delays that are left.
  unfoldable pub attempt_from : ℕ → List ℕ → List Call → Publication
  unfolding publish_once is_retryable_error
  attempt_from attempt [] calls =
      last_attempt (publish_once w p (visits attempt) names caddy_host calls) []
  attempt_from attempt (delay ∷ delays) calls =
      let r = publish_once w p (visits attempt) names caddy_host calls in
      let later = attempt_from (suc attempt) delays r.0 in
      elim r.1 [
        | none ↦ last_attempt r []
        | some e ↦
            if not (is_retryable_error w e)
            then last_attempt r []
            else if not (sleeps attempt)
            then last_attempt r (delay ∷ [])
            else earlier_attempt e delay later
      ]

  -- Publish, of a publisher that is not nil.
  abbrev pub technitium_publish : List Call → Publication
  technitium_publish calls = attempt_from 0 retry_delays calls
