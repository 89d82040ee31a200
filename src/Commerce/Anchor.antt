-- ===== src/Commerce/Anchor.antt =====
-- backend/src/modules/commerce/commerce-anchor.service.ts: which products are pinned on a post or a placement.
-- The lists of anchors, reads, are left out, and so is the database's check that the author of a row exists.
pub mod Laws
use content_hub.Base.{
  ℕ, ◌+◌, Bool, true, false, not, ◌&&◌, List, [], ◌∷◌, Option, none, some, ◌==◌, find,
}
use content_hub.Base.Effects.{M, Result, ok, err, ◌>>=◌, ◌>>◌, return, modify, not_found, conflict}
use content_hub.Base.Tables.{find_row, update_row, insert_unique}
use content_hub.Publish.Posts.{find_post}
use content_hub.Publish.Store.{product_anchor_recorded, product_anchor_removed}
use content_hub.Commerce.Market.{
  CommerceProduct, product_keyed, AffiliateLink, link_keyed, ProductAnchor, anchor_keyed,
  placement_keyed, AnchorTarget, post, placement, Market, anchors_clash, same_target, is_unset,
  note,
}

pub record AnchorItem : Type 0 where
  pub product_id : ℕ
  pub affiliate_link_id : Option ℕ

-- `{ ...target, productId, removedAt: null }`
unfoldable pub is_anchored : AnchorTarget → ℕ → ProductAnchor → Bool
is_anchored target product_id a =
    same_target a.target target && a.product_id == product_id && is_unset a.removed_at

-- `assertPostExists` and `assertPlacementExists`
unfoldable pub assert_target_exists : AnchorTarget → M Market (Unit {0})
assert_target_exists (post id) s = elim (find_post id s.store.posts) [
  | none ↦ (err not_found, s)
  | some p ↦ (ok tt, s)
]
assert_target_exists (placement id) s = elim (find_row id s.placements) [
  | none ↦ (err not_found, s)
  | some p ↦ (ok tt, s)
]

-- `assertProductIsActive`
unfoldable pub assert_product_is_active : ℕ → M Market (Unit {0})
assert_product_is_active product_id s = elim (find_row product_id s.products) [
  | none ↦ (err not_found, s)
  | some product ↦ elim product.is_active [ true ↦ (ok tt, s) | false ↦ (err conflict, s) ]
]

-- `assertLinkBelongsToProduct`, where the item names a link.
unfoldable pub assert_link_belongs_to_product : Option ℕ → ℕ → M Market (Unit {0})
assert_link_belongs_to_product none product_id s = (ok tt, s)
assert_link_belongs_to_product (some link_id) product_id s = elim (find_row link_id s.links) [
  | none ↦ (err not_found, s)
  | some link ↦ elim (link.product_id == product_id) [
    | true ↦ (ok tt, s)
    | false ↦ (err conflict, s)
  ]
]

unfoldable pub new_anchor : ℕ → ℕ → AnchorTarget → AnchorItem → ℕ → ProductAnchor
new_anchor id now target item user_id = record {
  id = id;
  target = target;
  product_id = item.product_id;
  affiliate_link_id = item.affiliate_link_id;
  anchored_at = now;
  removed_at = none;
  recorded_by = user_id;
}

-- `createAnchorOrConflict`
unfoldable pub create_anchor_or_conflict : ProductAnchor → M Market ProductAnchor
create_anchor_or_conflict a s = elim (insert_unique anchors_clash a s.anchors) [
  | none ↦ (err conflict, s)
  | some rows ↦ (ok a, record s { anchors = rows })
]

-- The rest of `anchorOne`, for a product that is not anchored yet.
unfoldable pub anchor_new : ℕ → ℕ → AnchorTarget → AnchorItem → ℕ → M Market ProductAnchor
anchor_new id now target item user_id = do
  assert_product_is_active item.product_id
  assert_link_belongs_to_product item.affiliate_link_id item.product_id
  create_anchor_or_conflict (new_anchor id now target item user_id)

-- `anchorOne`
unfoldable pub anchor_one : ℕ → ℕ → AnchorTarget → AnchorItem → ℕ → M Market ProductAnchor
anchor_one id now target item user_id s =
    elim (find (is_anchored target item.product_id) s.anchors) [
      | some existing ↦ (ok existing, s)
      | none ↦ anchor_new id now target item user_id s
    ]

-- The loop of `anchorAll`, with a fresh key for each round.
unfoldable pub anchor_loop :
    ℕ → ℕ → AnchorTarget → List AnchorItem → ℕ → M Market (List ProductAnchor)
anchor_loop id now target [] user_id = return []
anchor_loop id now target (item ∷ items) user_id = do
  anchor ← anchor_one id now target item user_id
  results ← anchor_loop (id + 1) now target items user_id
  return (anchor ∷ results)

-- `anchorToPost` and `anchorToPlacement`
unfoldable pub anchor_to :
    ℕ → ℕ → AnchorTarget → List AnchorItem → ℕ → M Market (List ProductAnchor)
anchor_to id now target items user_id = do
  assert_target_exists target
  results ← anchor_loop id now target items user_id
  modify (note user_id product_anchor_recorded)
  return results

unfoldable pub set_removed : ℕ → ProductAnchor → ProductAnchor
set_removed now a = record a { removed_at = some now }

-- `removeFromPost` and `removeFromPlacement`
unfoldable pub remove_from : ℕ → AnchorTarget → ℕ → ℕ → M Market (Unit {0})
remove_from now target anchor_id user_id s =
    elim (find (λ a. a.id == anchor_id && same_target a.target target && is_unset a.removed_at)
      s.anchors) [
        | none ↦ (err not_found, s)
        | some anchor ↦ (
          ok tt,
          note user_id product_anchor_removed
              (record s { anchors = update_row anchor_id (set_removed now) s.anchors }),
        )
      ]
