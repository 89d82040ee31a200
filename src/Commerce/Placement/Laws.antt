-- ===== src/Commerce/Placement/Laws.antt =====
-- backend/src/modules/commerce/commerce-placement.service.ts: what has been checked and written when a placement is
-- recorded.
use content_hub.Base.{ℕ, ◌≡◌, ap, true, false, none, some, ◌∷◌, arith, any}
use content_hub.Base.Effects.{M, ok, ◌>>=◌, ◌>>◌, return, modify}
use content_hub.Base.Effects.Passing.{Decides, passes, throws, passed}
use content_hub.Base.Effects.Keeping.{decided}
use content_hub.Base.Tables.{insert_unique}
use content_hub.Content.Records.{Content, find_content}
use content_hub.Content.Gate.Laws.{IsPublishable}
use content_hub.Publish.Store.{
  Store, Ports, find_user, record_audit, audit_row, commerce_placement_recorded,
}
use content_hub.Publish.StepUp.{password_matches}
use content_hub.Publish.Checks.{fresh_password, content_found, content_passes}
use content_hub.Commerce.Duration.Laws.{IsPlaceable}
use content_hub.Commerce.Market.{CommercePlacement, Market, placements_clash, on_store, note}
use content_hub.Commerce.Placement.{
  RecordCommercePlacement, ResolvedMedia, is_active_placement, resolve_media, new_placement,
  create_placement_or_conflict, record_placement,
}
use content_hub.Commerce.Lawful.Placements.{no_active_placement, media_resolved, duration_guards}

store_decides :
    {A : Type 0} {m : M Store A} {P : A → Type 0} {s : Market}
    → Decides m s.store P
    → Decides (on_store m) s P
store_decides {s = s} (passes a runs p) =
    passes a (ap (λ r. (r.0, record s { store = r.1 })) runs) p
store_decides {s = s} (throws e t refused) =
    throws e (record s { store = t }) (ap (λ r. (r.0, record s { store = r.1 })) refused)

pub record Placed (ports : Ports) (dto : RecordCommercePlacement) (user_id : ℕ) (s s' : Market)
    (p : CommercePlacement) : Type 0 where
  pub verified : password_matches ports (find_user user_id s.store.users) dto.password ≡ true
  pub content : Content
  pub loaded : find_content dto.content_id s.store.contents ≡ some content
  pub publishable : IsPublishable content
  pub sole : any (is_active_placement content.id dto.channel) s.placements ≡ false
  pub media : ResolvedMedia
  pub resolved : resolve_media dto s ≡ (ok media, s)
  pub placeable : IsPlaceable dto.channel media.duration_seconds
  pub row : p ≡ new_placement ports dto content.id media user_id
  pub persisted : s'.placements ≡ p ∷ s.placements
  pub indexed : any (placements_clash p) s.placements ≡ false
  pub audited :
      s'.store.audit ≡ audit_row user_id commerce_placement_recorded true none ∷ s.store.audit

inserted :
    (p : CommercePlacement) (user_id : ℕ) (s s' : Market) {made : CommercePlacement}
    → ((create_placement_or_conflict p >>= λ made.
          (modify (note user_id commerce_placement_recorded) >> return made))
        s)
      ≡ (ok made, s')
    → (made ≡ p)
      × (s'.placements ≡ made ∷ s.placements)
      × (any (placements_clash made) s.placements ≡ false)
      × (s'.store.audit ≡ audit_row user_id commerce_placement_recorded true none ∷ s.store.audit)
unfolding create_placement_or_conflict insert_unique note record_audit
inserted p user_id s s' h = ground arith

-- When recordManualExternal of the shop returns a placement, the password was verified, the content was
-- publishable, no active placement stood for it in the channel, and the duration (the one that the body gives,
-- or else the one of the asset) fits the channel; the placement is the row that the request describes, it clashes
-- with no row, it is inserted, and one audit row is written.
pub record_placement-Placed :
    (ports : Ports) (dto : RecordCommercePlacement) (user_id : ℕ) (s s' : Market)
    {p : CommercePlacement}
    → record_placement ports dto user_id s ≡ (ok p, s')
    → Placed ports dto user_id s s' p
unfolding record_placement
record_placement-Placed ports dto user_id s s' h =
    let verified =
      passed
        (store_decides
          (fresh_password ports user_id dto.password commerce_placement_recorded s.store))
        h in
    let loaded = passed (store_decides (content_found dto.content_id s.store)) verified.rest in
    let publishable = passed (store_decides (content_passes loaded.value s.store)) loaded.rest in
    let sole =
      passed (decided (no_active_placement (λ _. Unit {0}) loaded.value.id dto.channel tt))
        publishable.rest in
    let media = passed (decided (media_resolved (λ _. Unit {0}) dto tt)) sole.rest in
    let placeable =
      passed (decided (duration_guards (λ _. Unit {0}) dto.channel media.value.duration_seconds tt))
        media.rest in
    let made = inserted _ user_id s s' placeable.rest in
    record {
      verified = verified.holds;
      content = loaded.value;
      loaded = loaded.holds;
      publishable = publishable.holds;
      sole = sole.holds;
      media = media.value;
      resolved = media.holds;
      placeable = placeable.holds;
      row = made.0;
      persisted = made.1;
      indexed = made.2;
      audited = made.3;
    }
