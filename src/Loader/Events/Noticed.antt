-- ===== src/Loader/Events/Noticed.antt =====
-- No update event is lost.
use caddy_docker_proxy.Loader.Events.{
  resetting, Updater, resting, fired, clearing, generated, System, set_at, Step, skip, pass, notice,
  reset, disconnect, fire, rearm_timer, clear, ask, store, Reach, at_start, after_step,
}
use caddy_docker_proxy.Prelude.{
  ℕ, ◌+◌, ◌≤◌, ◌<◌, ◌≡◌, refl, sym, ap, subst, ◌∙◌, ◌≢◌, ◌⊎◌, inl, inr, Bool, true, false, some,
  arith, ℤ, ltb, leb, ◌==◌, if◌then◌else◌, ltb→lt, ==_iff, ==_refl, Bool-cases,
}

-- An updater that has not asked Docker yet.
abbrev pub is_ahead : Updater → Bool
is_ahead resting = false
is_ahead fired = true
is_ahead (clearing i) = true
is_ahead (generated n) = false

-- An updater that has not cleared the flag of this client yet.
abbrev pub is_before : ℕ → Updater → Bool
is_before k resting = false
is_before k fired = true
is_before k (clearing i) = leb i k
is_before k (generated n) = false

module _ (throttle : ℤ) where
  -- An update is coming within the throttle interval, or it runs and will ask Docker.
  abbrev pub IsComing : System → Type 0
  IsComing s =
      (s.timer ≡ some throttle)
      ⊎ (s.listener ≡ resetting)
      ⊎ ((j : ℕ) × (is_ahead (s.updaters j) ≡ true))

  -- The same, and the flag of this client will be cleared by it.
  abbrev WillClear : System → ℕ → Type 0
  WillClear s k =
      (s.timer ≡ some throttle)
      ⊎ (s.listener ≡ resetting)
      ⊎ ((j : ℕ) × (is_before k (s.updaters j) ≡ true))

  WillClear-IsComing : (s : System) (k : ℕ) → WillClear s k → IsComing s
  WillClear-IsComing s k (inl e) = inl e
  WillClear-IsComing s k (inr (inl e)) = inr (inl e)
  WillClear-IsComing s k (inr (inr (j, e))) = inr (inr (j, ahead (s.updaters j) e))
    where
      ahead : (u : Updater) → is_before k u ≡ true → is_ahead u ≡ true
      ahead resting h = h
      ahead fired h = refl
      ahead (clearing i) h = refl
      ahead (generated n) h = h

  -- The Caddyfile of the update that has asked last has been stored, or one that shows as much, or it is
  -- about to be.
  abbrev IsKept : System → Type 0
  IsKept s = (s.asked ≤ s.shown) ⊎ ((j : ℕ) × (s.updaters j ≡ generated s.asked))

  record Inv (clients : ℕ) (s : System) : Type 0 where
    covered : s.asked < s.events → IsComing s
    flagged : (k : ℕ) → k < clients → s.skip_events k ≡ true → WillClear s k
    in_hand : IsKept s

  pub set_at_self : {A : Type 0} (j : ℕ) (a : A) (f : ℕ → A) → set_at j a f j ≡ a
  set_at_self j a f = rw (==_refl j) refl

  -- An updater moves on, and leaves the flag of a client to be cleared if it did before.
  is_before-set_at :
      (k j : ℕ) (u : Updater) (f : ℕ → Updater) (l : ℕ)
      → (is_before k (f j) ≡ true → is_before k u ≡ true)
      → is_before k (f l) ≡ true
      → is_before k (set_at j u f l) ≡ true
  is_before-set_at k j u f l h e = elim (Bool-cases (j == l)) [
    | inl t ↦ rw t (h (subst (λ m. is_before k (f m) ≡ true) (sym ((==_iff j l).0 t)) e))
    | inr t ↦ rw t e
  ]

  WillClear-set_at :
      (k j : ℕ) (u : Updater) (s t : System)
      → t.timer ≡ s.timer
      → t.listener ≡ s.listener
      → t.updaters ≡ set_at j u s.updaters
      → (is_before k (s.updaters j) ≡ true → is_before k u ≡ true)
      → WillClear s k
      → WillClear t k
  WillClear-set_at k j u s t p q r h (inl e) = inl (p ∙ e)
  WillClear-set_at k j u s t p q r h (inr (inl e)) = inr (inl (q ∙ e))
  WillClear-set_at k j u s t p q r h (inr (inr (l, e))) =
      inr (inr (l, rw r (is_before-set_at k j u s.updaters l h e)))

  -- A flag that stays set is not the one that is cleared.
  set_at-false :
      (i k : ℕ) (f : ℕ → Bool) → set_at i false f k ≡ true → ((i == k) ≡ false) × (f k ≡ true)
  set_at-false i k f h = elim (Bool-cases (i == k)) [
    | inl t ↦ absurd (not_both (rw t at h))
    | inr t ↦ (t, rw t at h)
  ]
    where
      not_both : false ≡ true → ⊥
      not_both e = cc

  -- Another goroutine moves on.
  IsKept-set_at :
      (s : System) (j : ℕ) (v u : Updater)
      → s.updaters j ≡ v
      → v ≢ generated s.asked
      → IsKept s
      → (s.asked ≤ s.shown) ⊎ ((l : ℕ) × (set_at j u s.updaters l ≡ generated s.asked))
  IsKept-set_at s j v u r h (inl e) = inl e
  IsKept-set_at s j v u r h (inr (l, e)) = inr (l, other_one)
    where
      other_one : set_at j u s.updaters l ≡ generated s.asked
      other_one = elim (Bool-cases (j == l)) [
        | inl t ↦ absurd (h (sym r ∙ (ap s.updaters ((==_iff j l).0 t) ∙ e)))
        | inr t ↦ rw t e
      ]

  not_generated_fired : {n : ℕ} → fired ≢ generated n
  not_generated_fired e = cc

  not_generated_resting : {n : ℕ} → resting ≢ generated n
  not_generated_resting e = cc

  not_generated_clearing : {i n : ℕ} → clearing i ≢ generated n
  not_generated_clearing e = cc

  -- A Caddyfile is stored.
  store-IsKept :
      (s : System) (j n : ℕ)
      → s.updaters j ≡ generated n
      → IsKept s
      → (s.asked ≤ (if leb s.shown n then n else s.shown))
        ⊎ ((l : ℕ) × (set_at j resting s.updaters l ≡ generated s.asked))
  store-IsKept s j n r (inl e) = inl (ground arith)
  store-IsKept s j n r (inr (l, e)) = elim (Bool-cases (j == l)) [
    | inl t ↦ inl (stored_now (same_number (sym r ∙ (ap s.updaters ((==_iff j l).0 t) ∙ e))))
    | inr t ↦ inr (l, rw t e)
  ]
    where
      same_number : {m k : ℕ} → generated m ≡ generated k → m ≡ k
      same_number e = cc

      stored_now : n ≡ s.asked → s.asked ≤ (if leb s.shown n then n else s.shown)
      stored_now e = ground arith

  Step-Inv :
      (clients : ℕ) (polling : ℤ) {s t : System}
      → Step clients throttle polling s t
      → Inv clients s
      → Inv clients t
  Step-Inv clients polling {s} (skip e l c f) v = record {
    covered = λ h. WillClear-IsComing s s.current (v.flagged s.current c f);
    flagged = v.flagged;
    in_hand = v.in_hand;
  }
  Step-Inv clients polling (pass e l c f u) v = v
  Step-Inv clients polling (notice e l c f u) v = record {
    covered = λ h. inr (inl refl);
    flagged = λ k b h. inr (inl refl);
    in_hand = v.in_hand;
  }
  Step-Inv clients polling (reset l) v = record {
    covered = λ h. inl refl;
    flagged = λ k b h. inl refl;
    in_hand = v.in_hand;
  }
  Step-Inv clients polling (disconnect l) v = record {
    covered = v.covered;
    flagged = v.flagged;
    in_hand = v.in_hand;
  }
  Step-Inv clients polling {s} (fire j d e r) v = record {
    covered = λ h. inr (inr (j, rw (set_at_self j fired s.updaters) refl));
    flagged = λ k b h. inr (inr (j, rw (set_at_self j fired s.updaters) refl));
    in_hand = IsKept-set_at s j resting fired r not_generated_resting v.in_hand;
  }
  Step-Inv clients polling {s} (rearm_timer j r) v = record {
    covered = λ h. inr (inr (j, rw (set_at_self j (clearing 0) s.updaters) refl));
    flagged = λ k b h. inr (inr (j, rw (set_at_self j (clearing 0) s.updaters) (ground arith)));
    in_hand = IsKept-set_at s j fired (clearing 0) r not_generated_fired v.in_hand;
  }
  Step-Inv clients polling {s} (clear j i r b) v = record {
    covered = λ h. inr (inr (j, rw (set_at_self j (clearing (i + 1)) s.updaters) refl));
    flagged = λ k c h.
        let (ne, f) = set_at-false i k s.skip_events h in
        WillClear-set_at k j (clearing (i + 1)) s
          (record s {
            skip_events = set_at i false s.skip_events;
            updaters = set_at j (clearing (i + 1)) s.updaters;
          })
          refl refl refl (λ e. beyond i k ne (subst (λ u. is_before k u ≡ true) r e))
          (v.flagged k c f);
    in_hand = IsKept-set_at s j (clearing i) (clearing (i + 1)) r not_generated_clearing v.in_hand;
  }
    where
      beyond : (i k : ℕ) → (i == k) ≡ false → leb i k ≡ true → leb (i + 1) k ≡ true
      beyond i k ne e = ground arith
  Step-Inv clients polling {s} (ask j i r b) v = record {
    covered = λ h. absurd (not_below h);
    flagged = λ k c h.
        WillClear-set_at k j (generated s.events) s
          (record s { asked = s.events; updaters = set_at j (generated s.events) s.updaters }) refl
          refl refl (λ e. absurd (past i k b c (subst (λ u. is_before k u ≡ true) r e)))
          (v.flagged k c h);
    in_hand = inr (j, set_at_self j (generated s.events) s.updaters);
  }
    where
      not_below : s.events < s.events → ⊥
      not_below h = omega arith

      past : (i k : ℕ) → clients ≤ i → k < clients → leb i k ≡ true → ⊥
      past i k b c e = ground arith
  Step-Inv clients polling {s} (store j n r) v = record {
    covered = λ h. still (v.covered h);
    flagged = λ k c h.
        WillClear-set_at k j resting s t refl refl refl
          (λ e. absurd (not_true (subst (λ u. is_before k u ≡ true) r e))) (v.flagged k c h);
    in_hand = store-IsKept s j n r v.in_hand;
  }
    where
      t : System
      t = record s {
        stored = n;
        shown = if leb s.shown n then n else s.shown;
        updaters = set_at j resting s.updaters;
      }

      not_true : false ≡ true → ⊥
      not_true e = cc

      still : IsComing s → IsComing t
      still (inl e) = inl e
      still (inr (inl e)) = inr (inl e)
      still (inr (inr (l, e))) = inr (
          inr (
            l,
            elim (Bool-cases (j == l)) [
              | inl u ↦ absurd (
                  not_true
                    (subst (λ z. is_ahead z ≡ true) (ap s.updaters (sym ((==_iff j l).0 u)) ∙ r) e))
              | inr u ↦ rw u e
            ],
          ))

  Reach-Inv :
      (clients : ℕ) (polling : ℤ) {s : System} → Reach clients throttle polling s → Inv clients s
  Reach-Inv clients polling at_start = record {
    covered = λ h. absurd (not_below h);
    flagged = λ k b h. cc;
    in_hand = inl (omega arith);
  }
    where
      not_below : 0 < 0 → ⊥
      not_below h = omega arith
  Reach-Inv clients polling (after_step r st) =
      Step-Inv clients polling st (Reach-Inv clients polling r)

  -- An update holds a Caddyfile that shows all update events, and has not stored it yet.
  abbrev pub IsCarried : System → Type 0
  IsCarried s = (j : ℕ) × (n : ℕ) × (s.updaters j ≡ generated n) × (s.events ≤ n)

  pub Reach-shown :
      (clients : ℕ) (polling : ℤ) {s : System}
      → Reach clients throttle polling s
      → IsComing s ⊎ IsCarried s ⊎ (s.events ≤ s.shown)
  Reach-shown clients polling {s} r = elim (Bool-cases (ltb s.asked s.events)) [
    | inl t ↦ inl (v.covered (ltb→lt s.asked s.events t))
    | inr t ↦ elim v.in_hand [
      | inl e ↦ inr (inr (ground arith))
      | inr (j, e) ↦ inr (inl (j, s.asked, e, ground arith))
    ]
  ]
    where
      v : Inv clients s
      v = Reach-Inv clients polling r

  -- No update event of the client that is listened to is lost, in any interleaving of listenEvents with
  -- any number of updates that may overlap: while the last Caddyfile does not show all update events that
  -- have arrived, the timer runs for the throttle interval, or is about to be reset to it, or an update
  -- runs that has not yet asked Docker, or one runs that has asked after all of them and has its
  -- Caddyfile still to store, or such a Caddyfile was stored and an update that had asked earlier has
  -- stored its own after it.
  pub Reach-IsComing :
      (clients : ℕ) (polling : ℤ) {s : System}
      → Reach clients throttle polling s
      → s.stored < s.events
      → IsComing s ⊎ IsCarried s ⊎ ((s.stored < s.shown) × (s.events ≤ s.shown))
  Reach-IsComing clients polling {s} r h = by_case (Reach-shown clients polling r)
    where
      by_case :
          IsComing s ⊎ IsCarried s ⊎ (s.events ≤ s.shown)
          → IsComing s ⊎ IsCarried s ⊎ ((s.stored < s.shown) × (s.events ≤ s.shown))
      by_case (inl c) = inl c
      by_case (inr (inl c)) = inr (inl c)
      by_case (inr (inr e)) = inr (inr (omega arith, e))
