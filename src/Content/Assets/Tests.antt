-- ===== src/Content/Assets/Tests.antt =====
-- The assets of two contents.
use content_hub.Base.{ℕ, ◌≡◌, ◌≢◌, [], ◌∷◌, none, arith}
use content_hub.Schema.{AssetPlatform}
use content_hub.Content.Assets.{ContentAsset, ratio_9_16, Shelf}
use content_hub.Content.Assets.Laws.{assets_of, shelve, to_remove, shelve_apart}

abbrev cut : ContentAsset
cut = record {
  id = 1;
  content_id = 3;
  platform = AssetPlatform.tiktok;
  aspect_ratio = ratio_9_16;
  media_url = "/uploads/x.mp4";
  duration_seconds = none;
}

abbrev shelf : Shelf
shelf = record { contents = []; assets = cut ∷ []; audit = [] }

apart : ◌≢◌ {A = ℕ} 4 3
apart e = absurd (omega arith)

-- The asset of content 3 cannot be removed through content 4.
shelve_apart_example : assets_of 3 (shelve 4 (to_remove 1) shelf).assets ≡ cut ∷ []
shelve_apart_example = shelve_apart 4 3 (to_remove 1) shelf apart
