-- ===== src/Commerce/Placement.antt =====
-- backend/src/modules/commerce/commerce-placement.service.ts: the record of a video that the admin has placed
-- in a shop. The list of placements, a read, is left out.
pub mod Laws
use content_hub.Base.{
  ℕ, Bool, true, false, not, ◌&&◌, List, ◌∷◌, Option, none, some, String, ◌==◌, any,
}
use content_hub.Base.Effects.{M, ok, err, ◌>>=◌, ◌>>◌, return, modify, ensure, not_found, conflict}
use content_hub.Base.Tables.{insert_unique}
use content_hub.Content.Assets.{find_asset}
use content_hub.Publish.Store.{Ports, commerce_placement_recorded}
use content_hub.Publish.StepUp.{assert_fresh_password}
use content_hub.Publish.Orchestrator.{load_content_or_throw, assert_publishable_content}
use content_hub.Commerce.Duration.{CommerceChannel, assert_shopee_duration}
use content_hub.Commerce.Market.{
  CommercePlacement, recorded, Market, placements_clash, is_removed, channel_index, on_store, note,
}

pub record RecordCommercePlacement : Type 0 where
  pub content_id : ℕ
  pub channel : CommerceChannel
  pub external_media_id : String
  pub external_url : Option String
  pub duration_seconds : Option ℕ
  pub source_asset_id : Option ℕ
  pub password : String
  pub note : Option String

pub record ResolvedMedia : Type 0 where
  pub media_url : Option String
  pub duration_seconds : Option ℕ

-- `first ?? second ?? null`
abbrev pub or_other {ℓ} : {A : Type ℓ} → Option A → Option A → Option A
or_other none other = other
or_other (some a) other = some a

-- The rows that `assertNoActiveDuplicate` looks for.
unfoldable pub is_active_placement : ℕ → CommerceChannel → CommercePlacement → Bool
is_active_placement content_id channel p =
    p.content_id == content_id
    && channel_index p.channel == channel_index channel
    && not (is_removed p.status)

-- `assertNoActiveDuplicate`
unfoldable pub assert_no_active_placement : ℕ → CommerceChannel → M Market (Unit {0})
assert_no_active_placement content_id channel s =
    ensure (not (any (is_active_placement content_id channel) s.placements)) conflict s

-- `resolveMedia`
unfoldable pub resolve_media : RecordCommercePlacement → M Market ResolvedMedia
resolve_media dto s = elim dto.source_asset_id [
  | none ↦ (ok (record { media_url = none; duration_seconds = dto.duration_seconds }), s)
  | some id ↦ elim (find_asset id s.assets) [
    | none ↦ (err not_found, s)
    | some asset ↦ (
      ok (record {
        media_url = some asset.media_url;
        duration_seconds = or_other dto.duration_seconds asset.duration_seconds;
      }),
      s,
    )
  ]
]

-- The data of the row.
unfoldable pub new_placement :
    Ports → RecordCommercePlacement → ℕ → ResolvedMedia → ℕ → CommercePlacement
new_placement ports dto content_id media user_id = record {
  id = ports.new_id;
  content_id = content_id;
  channel = dto.channel;
  external_media_id = dto.external_media_id;
  external_url = dto.external_url;
  status = recorded;
  source_asset_id = dto.source_asset_id;
  media_url = media.media_url;
  duration_seconds = media.duration_seconds;
  note = dto.note;
  recorded_by = user_id;
  placed_at = ports.now;
}

-- `createPlacementOrConflict`
unfoldable pub create_placement_or_conflict : CommercePlacement → M Market CommercePlacement
create_placement_or_conflict p s = elim (insert_unique placements_clash p s.placements) [
  | none ↦ (err conflict, s)
  | some rows ↦ (ok p, record s { placements = rows })
]

-- `recordManualExternal`
unfoldable pub record_placement : Ports → RecordCommercePlacement → ℕ → M Market CommercePlacement
record_placement ports dto user_id = do
  on_store (assert_fresh_password ports user_id dto.password commerce_placement_recorded)
  content ← on_store (load_content_or_throw dto.content_id)
  on_store (assert_publishable_content content)
  assert_no_active_placement content.id dto.channel
  media ← resolve_media dto
  assert_shopee_duration dto.channel media.duration_seconds
  placement ← create_placement_or_conflict (new_placement ports dto content.id media user_id)
  modify (note user_id commerce_placement_recorded)
  return placement
