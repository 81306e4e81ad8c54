-- ===== src/NamePublish/Technitium/Publish/Guarded.antt =====
-- publishOnce: all its requests are allowed ones.
use caddy_docker_proxy.Generator.Docker.{Answer}
use caddy_docker_proxy.NamePublish.Technitium.{
  DnsRecord, TechnitiumPublisher, Call, get_zone_call, TechnitiumWorld, RecordParams, record_params,
  filter_names_for_zone,
}
use caddy_docker_proxy.NamePublish.Technitium.Publish.{
  Run, get_zone_records, with_records, with_names, publish_once,
}
use caddy_docker_proxy.NamePublish.Technitium.Publish.Adds.{Adds, Adds-none, Adds-one}
use caddy_docker_proxy.NamePublish.Technitium.Publish.Managed.{IsAllowed, sync_records-Adds}
use caddy_docker_proxy.Prelude.{
  ◌≡◌, refl, sym, subst, ◌∙◌, ◌⊎◌, inl, inr, none, some, List, [], ◌∷◌, ◌++◌, append_assoc, All, ok,
  err, Text,
}

module _ (w : TechnitiumWorld) (p : TechnitiumPublisher) where
  -- A request of publishOnce: for the records of the zone, or allowed by the records that the server
  -- has answered with and by the names that belong to the zone.
  abbrev pub IsAllowedOnce : List Text → Text → List Call → Call → Type 0
  IsAllowedOnce names caddy_host calls c =
      (c ≡ get_zone_call)
      ⊎ ((records : List DnsRecord) × (params : RecordParams) × (record_params w caddy_host
            ≡ ok params)
          × (get_zone_records w p calls ≡ ok records)
          × IsAllowed w p records params (filter_names_for_zone w names p.zone) c)

  -- publishOnce changes nothing that it has not made: it removes only records of the zone that have its
  -- own comment and a type that it handles, with their values, and it adds records only for names that
  -- are asked for and belong to the zone, with the type and the value of the host, and where every
  -- record of that name and type has its comment. This holds of all requests of every run, also of one
  -- that ends with an error, in whatever order the names of the old records are gone through.
  pub publish_once-Adds :
      (visits : List DnsRecord → List Text) (names : List Text) (caddy_host : Text)
      (calls : List Call)
      → Adds
          (IsAllowedOnce names caddy_host calls)
          calls
          (publish_once w p visits names caddy_host calls)
  unfolding publish_once
  publish_once-Adds visits names caddy_host calls = with_params (record_params w caddy_host) refl
    where
      P : Call → Type 0
      P = IsAllowedOnce names caddy_host calls

      result : Run
      result = publish_once w p visits names caddy_host calls

      filtered : List Text
      filtered = filter_names_for_zone w names p.zone

      with_answer :
          (params : RecordParams)
          → record_params w caddy_host ≡ ok params
          → (fs : List Text) → filtered ≡ fs
          → (a : Answer (List DnsRecord)) → get_zone_records w p calls ≡ a
          → Adds P calls (with_records w p visits params fs (calls ++ get_zone_call ∷ []) a)
      with_answer params e fs f (err x) q = Adds-one P calls get_zone_call (some x) (inl refl)
      with_answer params e fs f (ok records) q =
          let (more, g, h) =
            sync_records-Adds w p records params fs visits (calls ++ get_zone_call ∷ []) in
          (
            get_zone_call ∷ more,
            g ∙ append_assoc calls (get_zone_call ∷ []) more,
            (inl refl, All-weaken more h),
          )
        where
          All-weaken : (cs : List Call) → All (IsAllowed w p records params fs) cs → All P cs
          All-weaken [] h = tt
          All-weaken (c ∷ cs) h = (
            inr (
              records,
              params,
              e,
              q,
              subst (λ ns. IsAllowed w p records params ns c) (sym f) h.0,
            ),
            All-weaken cs h.1,
          )

      by_names :
          (params : RecordParams)
          → record_params w caddy_host ≡ ok params
          → (fs : List Text) → filtered ≡ fs
          → Adds P calls (with_names w p visits params fs calls)
      by_names params e [] f = Adds-none P calls none
      by_names params e (name ∷ fs) f =
          with_answer params e (name ∷ fs) f (get_zone_records w p calls) refl

      with_params : (r : Answer RecordParams) → record_params w caddy_host ≡ r → Adds P calls result
      with_params (err x) e = rw (publish_once, e) (Adds-none P calls (some x))
      with_params (ok params) e = rw (publish_once, e) (by_names params e filtered refl)
