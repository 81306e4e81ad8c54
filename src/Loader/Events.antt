-- ===== src/Loader/Events.antt =====
-- loader.go: listenEvents, and update up to its new lastCaddyfile, as steps of goroutines: the one that listens, and
-- one for each time that the timer has fired, which may overlap. Each step is one access to what they
-- share. Docker's channels are the choice of the next event.
pub mod Noticed
pub mod Refreshed
use caddy_docker_proxy.Prelude.{
  ℕ, ◌+◌, ◌≤◌, ◌<◌, ◌≡◌, Bool, true, false, ◌&&◌, Option, none, some, List, [], ◌∷◌, ℤ, pos, any,
  ltb, leb, ◌==◌, if◌then◌else◌, Text, codes, text_eq,
}

pub record Event : Type 0 where
  pub event_type : Text
  pub action : Text

-- The types and actions that are looked for.
abbrev pub update_events : List (Text × Text)
update_events =
    (codes "container", codes "create")
    ∷ (codes "container", codes "start")
    ∷ (codes "container", codes "stop")
    ∷ (codes "container", codes "die")
    ∷ (codes "container", codes "destroy")
    ∷ (codes "service", codes "create")
    ∷ (codes "service", codes "update")
    ∷ (codes "service", codes "remove")
    ∷ (codes "config", codes "create")
    ∷ (codes "config", codes "remove")
    ∷ (codes "network", codes "connect")
    ∷ (codes "network", codes "disconnect")
    ∷ []

-- `update := …`
unfoldable pub is_update : Event → Bool
unfolding text_eq
is_update e =
    any (λ (p : Text × Text). text_eq e.event_type p.0 && text_eq e.action p.1) update_events

-- The goroutine of listenEvents: at the `select`, or between setting a flag and resetting the timer.
pub data Listener : Type 0 where
  selecting : Listener
  resetting : Listener

-- A goroutine of the timer: not started or past what is modelled, at the start of update, in the loop
-- over skipEvents, or with the Caddyfile that GenerateCaddyfile has returned, which shows so many update
-- events at least.
pub data Updater : Type 0 where
  resting : Updater
  fired : Updater
  clearing : ℕ → Updater
  generated : ℕ → Updater

-- `current` is the client that is listened to. `timer` is the duration that the timer runs for, if it
-- runs. The last four are no variables of the program but count update events: those that have arrived,
-- those that had when Docker was asked last, those that the last Caddyfile shows, and the most that any
-- last Caddyfile has shown.
pub record System : Type 0 where
  pub listener : Listener
  pub current : ℕ
  pub skip_events : ℕ → Bool
  pub timer : Option ℤ
  pub updaters : ℕ → Updater
  pub events : ℕ
  pub asked : ℕ
  pub stored : ℕ
  pub shown : ℕ

abbrev pub set_at : {A : Type 0} → ℕ → A → (ℕ → A) → ℕ → A
set_at i a f j = if i == j then a else f j

-- The state after Start: the timer is about to fire.
abbrev pub initially : System
initially = record {
  listener = selecting;
  current = 0;
  skip_events = λ i. false;
  timer = some (pos 0);
  updaters = λ j. resting;
  events = 0;
  asked = 0;
  stored = 0;
  shown = 0;
}

-- For so many clients, with the options EventThrottleInterval and PollingInterval.
pub data Step (clients : ℕ) (throttle polling : ℤ) (s : System) : System → Type 0 where
  -- An event while the client's events are skipped.
  skip :
      (e : Event)
      → s.listener ≡ selecting
      → s.current < clients
      → s.skip_events s.current ≡ true
      → Step clients throttle polling s
          (record s { events = if is_update e then s.events + 1 else s.events })
  -- An event of another kind.
  pass :
      (e : Event)
      → s.listener ≡ selecting
      → s.current < clients
      → s.skip_events s.current ≡ false
      → is_update e ≡ false
      → Step clients throttle polling s s
  -- `skipEvents[i] = true`
  notice :
      (e : Event)
      → s.listener ≡ selecting
      → s.current < clients
      → s.skip_events s.current ≡ false
      → is_update e ≡ true
      → Step clients throttle polling s (record s {
        skip_events = set_at s.current true s.skip_events;
        listener = resetting;
        events = s.events + 1;
      })
  -- `timer.Reset(EventThrottleInterval)`
  reset :
      s.listener ≡ resetting
      → Step clients throttle polling s (record s { timer = some throttle; listener = selecting })
  -- The channel of errors: the next client, or the first again after the last.
  disconnect :
      s.listener ≡ selecting
      → Step clients throttle polling s
          (record s { current = if ltb (s.current + 1) clients then s.current + 1 else 0 })
  fire :
      (j : ℕ) (d : ℤ)
      → s.timer ≡ some d
      → s.updaters j ≡ resting
      → Step clients throttle polling s
          (record s { timer = none; updaters = set_at j fired s.updaters })
  -- `timer.Reset(PollingInterval)`
  rearm_timer :
      (j : ℕ)
      → s.updaters j ≡ fired
      → Step clients throttle polling s
          (record s { timer = some polling; updaters = set_at j (clearing 0) s.updaters })
  -- `skipEvents[i] = false`
  clear :
      (j i : ℕ)
      → s.updaters j ≡ clearing i
      → i < clients
      → Step clients throttle polling s (record s {
        skip_events = set_at i false s.skip_events;
        updaters = set_at j (clearing (i + 1)) s.updaters;
      })
  -- GenerateCaddyfile starts to ask Docker.
  ask :
      (j i : ℕ)
      → s.updaters j ≡ clearing i
      → clients ≤ i
      → Step clients throttle polling s
          (record s { asked = s.events; updaters = set_at j (generated s.events) s.updaters })
  -- `lastCaddyfile = caddyfile`, which need not be in the order in which the goroutines have asked.
  store :
      (j n : ℕ)
      → s.updaters j ≡ generated n
      → Step clients throttle polling s (record s {
        stored = n;
        shown = if leb s.shown n then n else s.shown;
        updaters = set_at j resting s.updaters;
      })

pub data Reach (clients : ℕ) (throttle polling : ℤ) : System → Type 0 where
  at_start : Reach clients throttle polling initially
  after_step :
      {s t : System}
      → Reach clients throttle polling s
      → Step clients throttle polling s t
      → Reach clients throttle polling t
