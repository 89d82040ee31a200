-- ===== src/Schema.antt =====
-- backend/prisma/schema.prisma: the enums that several components share, with the map between the two
-- platform enums (backend/src/common/utils/platform-map.util.ts).
use content_hub.Base.{ℕ, ◌≡◌, ◌↔◌, Bool, true, false, Eq, ◌==◌, arith}

pub data AssetPlatform : Type 0 where
  facebook youtube tiktok line_oa : AssetPlatform

pub data Platform : Type 0 where
  facebook youtube tiktok line : Platform

-- `ASSET_TO_POST_PLATFORM`
unfoldable pub to_post_platform : AssetPlatform → Platform
to_post_platform AssetPlatform.facebook = Platform.facebook
to_post_platform AssetPlatform.youtube = Platform.youtube
to_post_platform AssetPlatform.tiktok = Platform.tiktok
to_post_platform line_oa = line

-- `POST_TO_ASSET_PLATFORM`
unfoldable pub to_asset_platform : Platform → AssetPlatform
to_asset_platform Platform.facebook = AssetPlatform.facebook
to_asset_platform Platform.youtube = AssetPlatform.youtube
to_asset_platform Platform.tiktok = AssetPlatform.tiktok
to_asset_platform line = line_oa

-- The position of a member in its enum, by which Postgres orders it.
abbrev pub asset_index : AssetPlatform → ℕ
asset_index AssetPlatform.facebook = 0
asset_index AssetPlatform.youtube = 1
asset_index AssetPlatform.tiktok = 2
asset_index line_oa = 3

abbrev pub platform_index : Platform → ℕ
platform_index Platform.facebook = 0
platform_index Platform.youtube = 1
platform_index Platform.tiktok = 2
platform_index line = 3

pub asset_same_iff : (a b : AssetPlatform) → ((asset_index a == asset_index b) ≡ true) ↔ (a ≡ b)
asset_same_iff a b = ground arith

pub platform_same_iff : (a b : Platform) → ((platform_index a == platform_index b) ≡ true) ↔ (a ≡ b)
platform_same_iff a b = ground arith

instance abbrev pub asset_platform_eq : Eq AssetPlatform
asset_platform_eq = record {
  same = λ a b. asset_index a == asset_index b;
  same_iff = asset_same_iff;
}

instance abbrev pub platform_eq : Eq Platform
platform_eq = record {
  same = λ a b. platform_index a == platform_index b;
  same_iff = platform_same_iff;
}

-- The two platform maps are inverse to one another, so that no two platforms share an image.
pub platform_maps_inverse :
    ((a : AssetPlatform) → to_asset_platform (to_post_platform a) ≡ a)
    × ((p : Platform) → to_post_platform (to_asset_platform p) ≡ p)
unfolding to_asset_platform to_post_platform
platform_maps_inverse = (λ a. ground arith, λ p. ground arith)

pub data ContentStatus : Type 0 where
  draft ready archived : ContentStatus

pub data ContentPillar : Type 0 where
  product drama comedy : ContentPillar

pub data CopyrightClearance : Type 0 where
  not_checked cleared blocked : CopyrightClearance

pub data ContentType : Type 0 where
  video image text : ContentType

pub data LicensingStatus : Type 0 where
  unlicensed pending_review licensed exempt : LicensingStatus

pub data EngineVersion : Type 0 where
  v1 v2 : EngineVersion

abbrev pub is_ready : ContentStatus → Bool
is_ready ready = true
is_ready _ = false

abbrev pub is_cleared : CopyrightClearance → Bool
is_cleared cleared = true
is_cleared _ = false

abbrev pub same_engine : EngineVersion → EngineVersion → Bool
same_engine v1 v1 = true
same_engine v2 v2 = true
same_engine _ _ = false
