-- ===== src/NamePublish/Avahi/Published.antt =====
-- What is published after Publish.
use caddy_docker_proxy.Generator.Docker.{Answer}
use caddy_docker_proxy.NamePublish.Avahi.{
  AvahiPublisher, AvahiWorld, Question, hash_avahi_state, same_string_slice, start_ticker_locked,
  if_address_type, name_has_local_suffix, filter_local_names, contains_name, resolve_ips,
  refresh_state, with_ips, with_local_names, reconcile, reconcile_after, avahi_publish, asked_name,
  given_records, mdns_records,
}
use caddy_docker_proxy.Prelude.{
  ◌≡◌, refl, sym, ap, ap₂, subst, ◌∙◌, ◌≢◌, inl, inr, Bool, true, false, ◌&&◌, ◌||◌, Option, none,
  some, List, [], ◌∷◌, ◌++◌, arith, any, insert_text, sort_strings, ok, err, if◌then◌else◌,
  Bool-cases, &&-true, Text, codes, text_eq, text_eq_iff,
}

any-insert_text :
    (f : Text → Bool) (x : Text) (ys : List Text) → any f (insert_text x ys) ≡ (f x || any f ys)
unfolding insert_text
any-insert_text f x [] = refl
any-insert_text f x (y ∷ ys) = ground (arith, any-insert_text f x ys)

any-sort_strings : (f : Text → Bool) (xs : List Text) → any f (sort_strings xs) ≡ any f xs
unfolding sort_strings
any-sort_strings f [] = refl
any-sort_strings f (x ∷ xs) =
    any-insert_text f x (sort_strings xs) ∙ ap (λ b. f x || b) (any-sort_strings f xs)

same_string_slice-eq : (xs ys : List Text) → same_string_slice xs ys ≡ true → xs ≡ ys
unfolding same_string_slice
same_string_slice-eq [] [] h = refl
same_string_slice-eq [] (y ∷ ys) h = cc
same_string_slice-eq (x ∷ xs) [] h = cc
same_string_slice-eq (x ∷ xs) (y ∷ ys) h =
    let (a, b) = &&-true h in
    ap₂ (λ z zs. z ∷ zs) ((text_eq_iff x y).0 a) (same_string_slice-eq xs ys b)

module _ (w : AvahiWorld)
    (folds : (a b : Text)
      → w.equal_fold a b ≡ true
      → name_has_local_suffix w a ≡ name_has_local_suffix w b) where
  -- The local names are enough to answer for a local name.
  contains_name-filter_local_names :
      (names : List Text) (c : Text)
      → name_has_local_suffix w c ≡ true
      → contains_name w (filter_local_names w names) c ≡ contains_name w names c
  unfolding contains_name filter_local_names
  contains_name-filter_local_names [] c h = refl
  contains_name-filter_local_names (n ∷ ns) c h = elim (Bool-cases (name_has_local_suffix w n)) [
    | inl t ↦ rw t (ap (λ b. w.equal_fold n c || b) (contains_name-filter_local_names ns c h))
    | inr f ↦ elim (Bool-cases (w.equal_fold n c)) [
      | inl t ↦ absurd (not_both (sym h ∙ (sym (folds n c t) ∙ f)))
      | inr u ↦ rw (f, u) (contains_name-filter_local_names ns c h)
    ]
  ]
    where
      not_both : true ≡ false → ⊥
      not_both q = cc

  -- Sorted local names, or the names that were asked for, answer alike.
  contains_name-refresh_state :
      (ips : List Text) (p : AvahiPublisher) (c : Text)
      → name_has_local_suffix w c ≡ true
      → contains_name w
          (refresh_state w
            (sort_strings (filter_local_names w p.desired_names))
            ips
            p).desired_names
          c
        ≡ contains_name w p.desired_names c
  unfolding refresh_state contains_name
  contains_name-refresh_state ips p c h =
      elim (Bool-cases (
        text_eq (hash_avahi_state (sort_strings (filter_local_names w p.desired_names)) ips)
          p.last_hash
        && same_string_slice ips p.last_ips)) [
          | inl t ↦ rw t refl
          | inr f ↦ rw f (
              any-sort_strings (λ n. w.equal_fold n c) (filter_local_names w p.desired_names)
              ∙ contains_name-filter_local_names p.desired_names c h)
        ]

  refresh_state-ips :
      (names ips : List Text) (p : AvahiPublisher) → (refresh_state w names ips p).last_ips ≡ ips
  unfolding refresh_state
  refresh_state-ips names ips p =
      elim (Bool-cases
        (text_eq (hash_avahi_state names ips) p.last_hash && same_string_slice ips p.last_ips)) [
          | inl t ↦ rw t (sym (same_string_slice-eq ips p.last_ips (&&-true t).1))
          | inr f ↦ rw f refl
        ]

  -- The state after a call, against the names and the host that it is for.
  pub record IsAnnounced (names : List Text) (host : Text) (r : AvahiPublisher × Option Text)
      : Type 0 where
    pub names_kept :
        (c : Text)
        → name_has_local_suffix w c ≡ true
        → contains_name w r.0.desired_names c ≡ contains_name w names c
    pub ips_stored :
        (ip : Text) (ips : List Text)
        → r.1 ≡ none
        → resolve_ips w host ≡ ok (ip ∷ ips)
        → filter_local_names w names ≢ []
        → r.0.last_ips ≡ sort_strings (ip ∷ ips)

  some_not_none : {x : Text} → ◌≡◌ {A = Option Text} (some x) none → ⊥
  some_not_none e = cc

  with_ips-IsAnnounced :
      (p : AvahiPublisher) (a : Answer (List Text))
      → resolve_ips w p.desired_host ≡ a
      → IsAnnounced p.desired_names p.desired_host
          (with_ips w (filter_local_names w p.desired_names) a p)
  with_ips-IsAnnounced p (err e) q = record {
    names_kept = λ c h. refl;
    ips_stored = λ ip ips h g m. absurd (some_not_none h);
  }
  with_ips-IsAnnounced p (ok []) q = record {
    names_kept = λ c h. refl;
    ips_stored = λ ip ips h g m. absurd (no_ips (sym q ∙ g));
  }
    where
      no_ips : {x : Text} {xs : List Text} → ◌≡◌ {A = Answer (List Text)} (ok []) (ok (x ∷ xs)) → ⊥
      no_ips e = cc
  with_ips-IsAnnounced p (ok (i ∷ is)) q = record {
    names_kept = λ c h. contains_name-refresh_state (sort_strings (i ∷ is)) p c h;
    ips_stored = λ ip ips h g m.
        refresh_state-ips (sort_strings (filter_local_names w p.desired_names))
          (sort_strings (i ∷ is)) p
        ∙ ap sort_strings (ok_ips (sym q ∙ g));
  }
    where
      ok_ips : {xs ys : List Text} → ◌≡◌ {A = Answer (List Text)} (ok xs) (ok ys) → xs ≡ ys
      ok_ips e = cc

  reconcile-IsAnnounced :
      (p : AvahiPublisher) → IsAnnounced p.desired_names p.desired_host (reconcile w p)
  unfolding reconcile
  reconcile-IsAnnounced p = by_names (filter_local_names w p.desired_names) refl
    where
      by_names :
          (ns : List Text)
          → filter_local_names w p.desired_names ≡ ns
          → IsAnnounced p.desired_names p.desired_host (with_local_names w ns p)
      by_names [] e = record {
        names_kept = λ c h.
            ap (λ ns. contains_name w ns c) (sym e)
            ∙ contains_name-filter_local_names p.desired_names c h;
        ips_stored = λ ip ips h g m. absurd (m e);
      }
      by_names (n ∷ ns) e =
          subst
            (λ z.
              IsAnnounced p.desired_names p.desired_host
                (with_ips w z (resolve_ips w p.desired_host) p))
            e (with_ips-IsAnnounced p (resolve_ips w p.desired_host) refl)

  avahi_publish-IsAnnounced :
      (names : List Text) (caddy_host : Text) (p : AvahiPublisher)
      → IsAnnounced names caddy_host (avahi_publish w names caddy_host p)
  unfolding avahi_publish
  avahi_publish-IsAnnounced names caddy_host p = by_server p.has_server w.new_server
    where
      started : AvahiPublisher
      started = start_ticker_locked (record p { desired_names = names; desired_host = caddy_host })

      ensured : Bool → Option Text → AvahiPublisher × Option Text
      ensured b o = if b then (started, none) else elim o [
        | none ↦ (record started { has_server = true }, none)
        | some e ↦ (started, some (codes "failed to start mdns server: " ++ e))
      ]

      by_server :
          (b : Bool) (o : Option Text)
          → IsAnnounced names caddy_host (reconcile_after w (ensured b o))
      by_server true o = reconcile-IsAnnounced started
      by_server false none = reconcile-IsAnnounced (record started { has_server = true })
      by_server false (some e) = record {
        names_kept = λ c h. refl;
        ips_stored = λ ip ips h g m. absurd (some_not_none h);
      }

  given_records-eq :
      (q : Question) (p p' : AvahiPublisher)
      → (name_has_local_suffix w (asked_name w q) ≡ true
          → contains_name w p.desired_names (asked_name w q)
            ≡ contains_name w p'.desired_names (asked_name w q))
      → p.last_ips ≡ p'.last_ips
      → given_records w q p ≡ given_records w q p'
  unfolding given_records
  given_records-eq q p p' n i = elim (Bool-cases (name_has_local_suffix w (asked_name w q))) [
    | inl t ↦ rw (given_records, t, n t, i) refl
    | inr f ↦ rw (given_records, f) refl
  ]

  -- After a call of Publish without an error, for names of which one at least ends in ".local" and a host
  -- that has addresses, every question is answered from these names and these addresses in order,
  -- whatever was published before. It is assumed that of two names that differ only in case both end in
  -- ".local" or none.
  pub avahi_publish-mdns_records :
      (names : List Text) (caddy_host ip : Text) (ips : List Text) (p : AvahiPublisher)
      (q : Question)
      → (avahi_publish w names caddy_host p).1 ≡ none
      → resolve_ips w caddy_host ≡ ok (ip ∷ ips)
      → filter_local_names w names ≢ []
      → mdns_records w q (avahi_publish w names caddy_host p).0
        ≡ mdns_records w q (record p { desired_names = names; last_ips = sort_strings (ip ∷ ips) })
  unfolding mdns_records
  avahi_publish-mdns_records names caddy_host ip ips p q h g m =
      let v = avahi_publish-IsAnnounced names caddy_host p in
      ap (if_address_type q.qtype) (
        given_records-eq q (avahi_publish w names caddy_host p).0
          (record p { desired_names = names; last_ips = sort_strings (ip ∷ ips) })
          (v.names_kept (asked_name w q)) (v.ips_stored ip ips h g m))
