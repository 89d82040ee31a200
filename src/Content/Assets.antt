-- ===== src/Content/Assets.antt =====
-- backend/src/modules/content/content-asset.service.ts: the variants of a content, each reached through the
-- content that it belongs to.
pub mod Laws
mod Tests
use content_hub.Base.{
  ℕ, Bool, true, false, ◌&&◌, List, [], ◌∷◌, Option, none, some, String, ◌==◌, if◌then◌else◌, find,
  any,
}
use content_hub.Base.Effects.{
  M, ok, err, feed, ◌>>=◌, ◌>>◌, return, get, modify, ensure, not_found, database,
}
use content_hub.Schema.{AssetPlatform}
use content_hub.Content.Records.{Content, find_content}
use content_hub.Content.MediaUrl.{assert_media_url_is_owned}

pub data AspectRatio : Type 0 where
  ratio_1_1 ratio_4_5 ratio_9_16 ratio_16_9 : AspectRatio

pub record CreateContentAsset : Type 0 where
  pub platform : AssetPlatform
  pub aspect_ratio : AspectRatio
  pub media_url : String
  pub duration_seconds : Option ℕ

pub record ContentAsset : Type 0 where
  pub id : ℕ
  pub content_id : ℕ
  pub platform : AssetPlatform
  pub aspect_ratio : AspectRatio
  pub media_url : String
  pub duration_seconds : Option ℕ

-- The tables, and the assets that an audit row names, with true for an addition.
pub record Shelf : Type 0 where
  pub contents : List Content
  pub assets : List ContentAsset
  pub audit : List (Bool × ℕ)

-- `assertContentExists`
unfoldable pub assert_content_exists : ℕ → M Shelf (Unit {0})
assert_content_exists content_id s = elim (find_content content_id s.contents) [
  | none ↦ (err not_found, s)
  | some c ↦ (ok tt, s)
]

unfoldable pub new_asset : ℕ → ℕ → CreateContentAsset → ContentAsset
new_asset id content_id dto = record {
  id = id;
  content_id = content_id;
  platform = dto.platform;
  aspect_ratio = dto.aspect_ratio;
  media_url = dto.media_url;
  duration_seconds = dto.duration_seconds;
}

unfoldable pub find_asset : ℕ → List ContentAsset → Option ContentAsset
find_asset id [] = none
find_asset id (a ∷ assets) = if a.id == id then some a else find_asset id assets

-- `contentAsset.create`, which raises on a key that is taken.
unfoldable pub insert_asset : ContentAsset → M Shelf ContentAsset
insert_asset a s = elim (find_asset a.id s.assets) [
  | some _ ↦ (err database, s)
  | none ↦ (ok a, record s { assets = a ∷ s.assets })
]

-- `add`, with the fresh key of the row.
unfoldable pub add : ℕ → ℕ → CreateContentAsset → M Shelf ContentAsset
add id content_id dto = do
  assert_content_exists content_id
  assert_media_url_is_owned dto.media_url
  asset ← insert_asset (new_asset id content_id dto)
  modify (λ s. record s { audit = (true, asset.id) ∷ s.audit })
  return asset

unfoldable pub delete_asset : ℕ → List ContentAsset → List ContentAsset
delete_asset id [] = []
delete_asset id (a ∷ assets) = if a.id == id then assets else a ∷ delete_asset id assets

unfoldable pub owned_asset : ℕ → ℕ → M Shelf ContentAsset
owned_asset content_id asset_id s = elim (find_asset asset_id s.assets) [
  | none ↦ (err not_found, s)
  | some a ↦ if a.content_id == content_id then (ok a, s) else (err not_found, s)
]

-- `remove`
unfoldable pub remove : ℕ → ℕ → M Shelf (Unit {0})
remove content_id asset_id = do
  owned_asset content_id asset_id
  modify (λ s. record s { assets = delete_asset asset_id s.assets })
  modify (λ s. record s { audit = (false, asset_id) ∷ s.audit })
