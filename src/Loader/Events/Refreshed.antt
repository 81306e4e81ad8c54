-- ===== src/Loader/Events/Refreshed.antt =====
-- An update event leads to a new Caddyfile.
use caddy_docker_proxy.Loader.Events.{
  resting, System, Step, skip, pass, notice, reset, disconnect, fire, rearm_timer, clear, ask,
  store,
}
use caddy_docker_proxy.Prelude.{ℕ, ◌≤◌, ◌≡◌, ℤ}

module _ (clients : ℕ) (throttle polling : ℤ) where
  -- A step that the loader takes without another event, without the loss of a connection, and without
  -- waiting for the polling interval: the timer fires after the throttle interval only.
  abbrev pub IsPrompt : {s t : System} → Step clients throttle polling s t → Type 0
  IsPrompt (skip e l c f) = ⊥
  IsPrompt (pass e l c f u) = ⊥
  IsPrompt (notice e l c f u) = ⊥
  IsPrompt (reset l) = Unit {0}
  IsPrompt (disconnect l) = ⊥
  IsPrompt (fire j d e r) = d ≡ throttle
  IsPrompt (rearm_timer j r) = Unit {0}
  IsPrompt (clear j i r b) = Unit {0}
  IsPrompt (ask j i r b) = Unit {0}
  IsPrompt (store j n r) = Unit {0}

  -- Some such steps in a row.
  pub data Steps : System → System → Type 0 where
    here : {s : System} → Steps s s
    then_step :
        {s t u : System} (st : Step clients throttle polling s t)
        → IsPrompt st
        → Steps t u
        → Steps s u

  -- A Caddyfile that shows so many update events is stored by such steps.
  abbrev pub CanShow : ℕ → System → Type 0
  CanShow m s = (t : System) × Steps s t × (m ≤ t.shown)

  -- Only finitely many goroutines have started.
  abbrev HasBound : System → Type 0
  HasBound s = (b : ℕ) × ((j : ℕ) → b ≤ j → s.updaters j ≡ resting)
