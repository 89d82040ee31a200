-- ===== src/Commerce/Lawful/Placements.antt =====
-- backend/src/modules/commerce/commerce-placement.service.ts keeps the tables of the shop lawful.
use content_hub.Base.{
  ℕ, ◌≡◌, refl, ◌⊎◌, inl, inr, false, Option, none, some, arith, any, Option-cases, Bool-cases,
}
use content_hub.Base.Effects.{ok, err, conflict, not_found, unprocessable}
use content_hub.Base.Effects.Keeping.{Guards, passes, throws, guarded}
use content_hub.Base.Tables.{insert_unique, insert_unique-Apart, insert_unique-All}
use content_hub.Content.Assets.{find_asset}
use content_hub.Publish.Store.{Ports, commerce_placement_recorded}
use content_hub.Publish.Checks.{fresh_password, content_found, content_passes}
use content_hub.Commerce.Duration.{CommerceChannel, shopee, tiktok_shop, assert_shopee_duration}
use content_hub.Commerce.Duration.Laws.{IsPlaceable, assert_shopee_duration_iff}
use content_hub.Commerce.Market.{CommercePlacement, Market, placements_clash}
use content_hub.Commerce.Placement.{
  RecordCommercePlacement, ResolvedMedia, or_other, is_active_placement, assert_no_active_placement,
  resolve_media, new_placement, create_placement_or_conflict, record_placement,
}
use content_hub.Commerce.Lawful.{IsLawful}
use content_hub.Commerce.Lawful.Steps.{store_guards, noted}

pub no_active_placement :
    (I : Market → Type 0) (content_id : ℕ) (channel : CommerceChannel) {s : Market}
    → I s
    → Guards I
        (assert_no_active_placement content_id channel)
        s
        (λ _. any (is_active_placement content_id channel) s.placements ≡ false)
unfolding assert_no_active_placement
no_active_placement I content_id channel {s} i =
    elim (Bool-cases (any (is_active_placement content_id channel) s.placements)) [
      | inl taken ↦ throws conflict s (ground arith) i
      | inr free ↦ passes tt (ground arith) free
    ]

pub media_resolved :
    (I : Market → Type 0) (dto : RecordCommercePlacement) {s : Market}
    → I s
    → Guards I (resolve_media dto) s (λ media. resolve_media dto s ≡ (ok media, s))
unfolding resolve_media
media_resolved I dto {s} i = elim (Option-cases dto.source_asset_id) [
  | inl e ↦
      let media : ResolvedMedia = record {
        media_url = none;
        duration_seconds = dto.duration_seconds;
      } in
      passes media (ground arith) (ground arith)
  | inr (id, e) ↦ elim (Option-cases (find_asset id s.assets)) [
    | inl missing ↦ throws not_found s (ground arith) i
    | inr (asset, found) ↦
        let media : ResolvedMedia = record {
          media_url = some asset.media_url;
          duration_seconds = or_other dto.duration_seconds asset.duration_seconds;
        } in
        passes media (ground arith) (ground arith)
  ]
]

duration_decided :
    {S : Type 0} (channel : CommerceChannel) (duration : Option ℕ) (s : S)
    → (assert_shopee_duration channel duration s ≡ (ok tt, s))
      ⊎ (assert_shopee_duration channel duration s ≡ (err unprocessable, s))
unfolding assert_shopee_duration
duration_decided tiktok_shop duration s = inl refl
duration_decided shopee none s = inr refl
duration_decided shopee (some seconds) s = ground arith

pub duration_guards :
    (I : Market → Type 0) (channel : CommerceChannel) (duration : Option ℕ) {s : Market}
    → I s
    → Guards I (assert_shopee_duration channel duration) s (λ _. IsPlaceable channel duration)
duration_guards I channel duration {s} i = elim (duration_decided channel duration s) [
  | inl runs ↦ passes tt runs ((assert_shopee_duration_iff channel duration s).0 runs)
  | inr refused ↦ throws unprocessable s refused i
]

created :
    (p : CommercePlacement) (s : Market)
    → IsLawful s
    → IsPlaceable p.channel p.duration_seconds
    → IsLawful (create_placement_or_conflict p s).1
unfolding create_placement_or_conflict
created p s i fits = elim (Option-cases (insert_unique placements_clash p s.placements)) [
  | inl taken ↦ rw (taken, create_placement_or_conflict) i
  | inr (rows, made) ↦
      rw (made, create_placement_or_conflict)
        record {
          products_apart = i.products_apart;
          links_apart = i.links_apart;
          anchors_apart = i.anchors_apart;
          placements_apart = insert_unique-Apart _ p s.placements i.placements_apart made;
          conversions_apart = i.conversions_apart;
          linked = i.linked;
          placeable = insert_unique-All _ _ p s.placements fits i.placeable made;
          periods = i.periods;
          backed = i.backed;
        }
]

pub record_placement-IsLawful :
    (ports : Ports) (dto : RecordCommercePlacement) (user_id : ℕ) (s : Market)
    → IsLawful s
    → IsLawful (record_placement ports dto user_id s).1
unfolding record_placement new_placement
record_placement-IsLawful ports dto user_id s i =
    guarded _
      (store_guards i
        (fresh_password ports user_id dto.password commerce_placement_recorded s.store))
      λ _ _. guarded _ (store_guards i (content_found dto.content_id s.store)) λ content _.
        guarded _ (store_guards i (content_passes content s.store)) λ _ _.
          guarded _ (no_active_placement IsLawful content.id dto.channel i) λ _ _.
            guarded _ (media_resolved IsLawful dto i) λ media _.
              guarded _ (duration_guards IsLawful dto.channel media.duration_seconds i) λ _ fits.
                noted user_id commerce_placement_recorded
                  (create_placement_or_conflict (new_placement ports dto content.id media user_id))
                  s (created (new_placement ports dto content.id media user_id) s i fits)
