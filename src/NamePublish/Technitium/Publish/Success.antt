-- ===== src/NamePublish/Technitium/Publish/Success.antt =====
-- publishOnce without an error: what is published, and what is removed.
use caddy_docker_proxy.NamePublish.Technitium.{
  DnsRecord, TechnitiumPublisher, Call, get_zone_call, TechnitiumWorld, RecordParams, to_name_set,
  record_params, filter_names_for_zone,
}
use caddy_docker_proxy.NamePublish.Technitium.Publish.{
  Run, and_then, visit_each, get_zone_records, publish_name, remove_name, sync_records, with_names,
  publish_once,
}
use caddy_docker_proxy.NamePublish.Technitium.Publish.Grown.{and_then-none}
use caddy_docker_proxy.NamePublish.Technitium.Publish.Published.{
  IsPublished, IsWanted, publish_all-IsPublished,
}
use caddy_docker_proxy.Prelude.{◌≡◌, refl, sym, subst, none, List, [], ◌∷◌, ◌++◌, In, ok, Text}

module _ (w : TechnitiumWorld) (p : TechnitiumPublisher) (visits : List DnsRecord → List Text)
    (names : List Text) (caddy_host : Text) (calls : List Call) where
  abbrev result : Run
  result = publish_once w p visits names caddy_host calls

  abbrev filtered : List Text
  filtered = filter_names_for_zone w names p.zone

  -- With the records of the zone, publishOnce is the removal and then the publication.
  publish_once-sync_records :
      (params : RecordParams) (records : List DnsRecord) (name : Text)
      → record_params w caddy_host ≡ ok params
      → get_zone_records w p calls ≡ ok records
      → In name filtered
      → result ≡ sync_records w p visits records params filtered (calls ++ get_zone_call ∷ [])
  unfolding publish_once
  publish_once-sync_records params records name e g i = rw (publish_once, e) (by_names filtered i)
    where
      by_names :
          (fs : List Text)
          → In name fs
          → with_names w p visits params fs calls
            ≡ sync_records w p visits records params fs (calls ++ get_zone_call ∷ [])
      by_names [] j = absurd j
      by_names (f ∷ fs) j = rw g refl

  -- publishOnce that reports no error has published: for every name that is asked for, belongs to the
  -- zone, is not blank and has no record of that type of another's making, the zone's records have the
  -- right one of publishOnce already, or it is among the requests.
  pub publish_once-IsPublished :
      (params : RecordParams) (records : List DnsRecord)
      → record_params w caddy_host ≡ ok params
      → get_zone_records w p calls ≡ ok records
      → (publish_once w p visits names caddy_host calls).1 ≡ none
      → (name : Text) → In name (filter_names_for_zone w names p.zone)
      → IsWanted w p records params name
      → IsPublished w p records params name (publish_once w p visits names caddy_host calls).0
  unfolding sync_records
  publish_once-IsPublished params records e g h name i m =
      subst (λ (r : Run). IsPublished w p records params name r.0)
        (sym (publish_once-sync_records params records name e g i))
        (sync_records-IsPublished
          (subst (λ (r : Run). r.1 ≡ none) (publish_once-sync_records params records name e g i) h))
    where
      removal : Run
      removal =
          visit_each (remove_name w p records (to_name_set filtered)) (visits records)
            (calls ++ get_zone_call ∷ [])

      publication : List Call → Run
      publication = visit_each (publish_name w p records params) filtered

      sync_records-IsPublished :
          (and_then removal publication).1 ≡ none
          → IsPublished w p records params name (and_then removal publication).0
      sync_records-IsPublished k =
          let (a, b, q) = and_then-none removal publication k in
          subst (IsPublished w p records params name) (sym q)
            (publish_all-IsPublished w p records params filtered removal.0 b name i m)
