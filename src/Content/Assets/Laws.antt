-- ===== src/Content/Assets/Laws.antt =====
-- A request through one content reaches the assets of that content alone.
use content_hub.Base.{
  ℕ, ◌≡◌, ◌≢◌, refl, inl, inr, false, List, [], ◌∷◌, some, ◌==◌, keep, arith, Bool-cases,
  Option-cases,
}
use content_hub.Content.MediaUrl.{assert_media_url_is_owned}
use content_hub.Content.Assets.{
  ContentAsset, CreateContentAsset, Shelf, assert_content_exists, new_asset, find_asset,
  insert_asset, add, delete_asset, owned_asset, remove,
}

-- The assets that belong to a content.
abbrev pub assets_of : ℕ → List ContentAsset → List ContentAsset
assets_of content_id assets = keep (λ a. a.content_id == content_id) assets

assets_of-delete_asset :
    (id other : ℕ) (assets : List ContentAsset) {a : ContentAsset}
    → find_asset id assets ≡ some a
    → (a.content_id == other) ≡ false
    → assets_of other (delete_asset id assets) ≡ assets_of other assets
unfolding find_asset delete_asset
assets_of-delete_asset id other [] e h = refl
assets_of-delete_asset id other (x ∷ assets) {a} e h =
    ground (arith, assets_of-delete_asset id other assets {a = a})

-- A request on the assets of a content.
pub data AssetRequest : Type 0 where
  to_add : ℕ → CreateContentAsset → AssetRequest
  to_remove : ℕ → AssetRequest

abbrev pub shelve : ℕ → AssetRequest → Shelf → Shelf
shelve content_id (to_add id dto) s = (add id content_id dto s).1
shelve content_id (to_remove asset_id) s = (remove content_id asset_id s).1

add_apart :
    (content_id id other : ℕ) (dto : CreateContentAsset) (s : Shelf)
    → (content_id == other) ≡ false
    → assets_of other (add id content_id dto s).1.assets ≡ assets_of other s.assets
unfolding add assert_content_exists assert_media_url_is_owned insert_asset new_asset
add_apart content_id id other dto s h = ground arith

remove_apart :
    (content_id asset_id other : ℕ) (s : Shelf)
    → (content_id == other) ≡ false
    → assets_of other (remove content_id asset_id s).1.assets ≡ assets_of other s.assets
unfolding remove owned_asset
remove_apart content_id asset_id other s h = elim (Option-cases (find_asset asset_id s.assets)) [
  | inl missing ↦ ground arith
  | inr (a, found) ↦ elim (Bool-cases (a.content_id == content_id)) [
    | inr foreign ↦ ground arith
    | inl own ↦ ground (arith, assets_of-delete_asset asset_id other s.assets {a = a} found)
  ]
]

-- A request through one content leaves the assets of every other content as they were, whatever asset it
-- names.
pub shelve_apart :
    (content_id other : ℕ) (request : AssetRequest) (s : Shelf)
    → content_id ≢ other
    → assets_of other (shelve content_id request s).assets ≡ assets_of other s.assets
shelve_apart content_id other (to_add id dto) s apart =
    add_apart content_id id other dto s (ground (arith, apart))
shelve_apart content_id other (to_remove asset_id) s apart =
    remove_apart content_id asset_id other s (ground (arith, apart))
