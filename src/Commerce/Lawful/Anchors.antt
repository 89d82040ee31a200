-- ===== src/Commerce/Lawful/Anchors.antt =====
-- backend/src/modules/commerce/commerce-anchor.service.ts keeps the tables of the shop lawful.
use content_hub.Base.{
  ℕ, ◌+◌, ◌≡◌, refl, inl, inr, true, false, List, [], ◌∷◌, Option, none, some, arith, find, ◌==◌,
  ==_iff, ◌&&◌, Option-cases, Bool-cases,
}
use content_hub.Base.Effects.{M, Result, ok, err, feed, return, conflict, not_found}
use content_hub.Base.Effects.Keeping.{Guards, passes, throws, guarded}
use content_hub.Base.Tables.{
  find_row, update_row, insert_unique, insert_unique-Apart, insert_unique-All, update_row-Apart,
  update_row-All,
}
use content_hub.Publish.Posts.{find_post}
use content_hub.Publish.Store.{product_anchor_recorded}
use content_hub.Commerce.Market.{
  CommerceProduct, product_keyed, AffiliateLink, link_keyed, ProductAnchor, anchor_keyed,
  placement_keyed, AnchorTarget, post, placement, Market, anchors_clash, same_target, is_unset,
  note,
}
use content_hub.Commerce.Anchor.{
  AnchorItem, is_anchored, assert_target_exists, assert_product_is_active,
  assert_link_belongs_to_product, new_anchor, create_anchor_or_conflict, anchor_new, anchor_one,
  anchor_loop, anchor_to, set_removed, remove_from,
}
use content_hub.Commerce.Lawful.{IsLinked, IsLawful}
use content_hub.Commerce.Lawful.Steps.{noted}

pub target_exists :
    (target : AnchorTarget) {s : Market}
    → IsLawful s
    → Guards IsLawful (assert_target_exists target) s (λ _. Unit {0})
unfolding assert_target_exists
target_exists (post id) {s} i = elim (Option-cases (find_post id s.store.posts)) [
  | inl missing ↦ throws not_found s (ground arith) i
  | inr (p, found) ↦ passes tt (ground arith) tt
]
target_exists (placement id) {s} i = elim (Option-cases (find_row id s.placements)) [
  | inl missing ↦ throws not_found s (ground arith) i
  | inr (p, found) ↦ passes tt (ground arith) tt
]

pub product_active :
    (product_id : ℕ) {s : Market}
    → IsLawful s
    → Guards IsLawful (assert_product_is_active product_id) s (λ _.
      (p : CommerceProduct) × (find_row product_id s.products ≡ some p) × (p.is_active ≡ true))
unfolding assert_product_is_active
product_active product_id {s} i = elim (Option-cases (find_row product_id s.products)) [
  | inl missing ↦ throws not_found s (ground arith) i
  | inr (p, found) ↦ elim (Bool-cases p.is_active) [
    | inl active ↦ passes tt (ground arith) (p, found, active)
    | inr retired ↦ throws conflict s (ground arith) i
  ]
]

pub link_belongs :
    (link_id : Option ℕ) (product_id : ℕ) {s : Market}
    → IsLawful s
    → Guards IsLawful (assert_link_belongs_to_product link_id product_id) s (λ _.
      (id : ℕ)
      → link_id ≡ some id
      → (l : AffiliateLink) × (find_row id s.links ≡ some l) × (l.product_id ≡ product_id))
unfolding assert_link_belongs_to_product
link_belongs none product_id {s} i = passes tt refl (λ id e. absurd (ground arith))
link_belongs (some link_id) product_id {s} i = elim (Option-cases (find_row link_id s.links)) [
  | inl missing ↦ throws not_found s (ground arith) i
  | inr (l, found) ↦ elim (Bool-cases (l.product_id == product_id)) [
    | inl own ↦
        passes tt (ground arith) (λ id e. (l, ground arith, (==_iff l.product_id product_id).0 own))
    | inr foreign ↦ throws conflict s (ground arith) i
  ]
]

created :
    (a : ProductAnchor) (s : Market)
    → IsLawful s
    → IsLinked s.links a
    → IsLawful (create_anchor_or_conflict a s).1
unfolding create_anchor_or_conflict
created a s i linked = elim (Option-cases (insert_unique anchors_clash a s.anchors)) [
  | inl taken ↦ rw (taken, create_anchor_or_conflict) i
  | inr (rows, made) ↦
      rw (made, create_anchor_or_conflict)
        record {
          products_apart = i.products_apart;
          links_apart = i.links_apart;
          anchors_apart = insert_unique-Apart _ a s.anchors i.anchors_apart made;
          placements_apart = i.placements_apart;
          conversions_apart = i.conversions_apart;
          linked = insert_unique-All _ _ a s.anchors linked i.linked made;
          placeable = i.placeable;
          periods = i.periods;
          backed = i.backed;
        }
]

anchor_one-IsLawful :
    (id now : ℕ) (target : AnchorTarget) (item : AnchorItem) (user_id : ℕ) (s : Market)
    → IsLawful s
    → IsLawful (anchor_one id now target item user_id s).1
unfolding anchor_one anchor_new new_anchor
anchor_one-IsLawful id now target item user_id s i =
    elim (Option-cases (find (is_anchored target item.product_id) s.anchors)) [
      | inr (existing, found) ↦ rw (found, anchor_one) i
      | inl open_ ↦
          rw (open_, anchor_one)
            (guarded _ (product_active item.product_id i) λ _ _.
              guarded _ (link_belongs item.affiliate_link_id item.product_id i)
                λ _ linked. created (new_anchor id now target item user_id) s i linked)
    ]

-- A chain keeps the invariant if its first part and, from wherever that ends, the rest keep it.
chained :
    {A B : Type 0} (r : Result A × Market) (f : A → M Market B)
    → IsLawful r.1
    → ((a : A) (t : Market) → IsLawful t → IsLawful (f a t).1)
    → IsLawful (feed r f).1
chained (ok a, s) f i rest = rest a s i
chained (err e, s) f i rest = i

returned :
    {A B : Type 0} (g : A → B) (r : Result A × Market)
    → IsLawful r.1
    → IsLawful (feed r (λ a. return (g a))).1
returned g r i = chained r (λ a. return (g a)) i (λ a t j. j)

anchor_loop-IsLawful :
    (id now : ℕ) (target : AnchorTarget) (items : List AnchorItem) (user_id : ℕ) (s : Market)
    → IsLawful s
    → IsLawful (anchor_loop id now target items user_id s).1
unfolding anchor_loop
anchor_loop-IsLawful id now target [] user_id s i = i
anchor_loop-IsLawful id now target (item ∷ items) user_id s i =
    chained (anchor_one id now target item user_id s) _
      (anchor_one-IsLawful id now target item user_id s i)
      λ a t j.
        returned (λ results. a ∷ results) (anchor_loop (id + 1) now target items user_id t)
          (anchor_loop-IsLawful (id + 1) now target items user_id t j)

pub anchor_to-IsLawful :
    (id now : ℕ) (target : AnchorTarget) (items : List AnchorItem) (user_id : ℕ) (s : Market)
    → IsLawful s
    → IsLawful (anchor_to id now target items user_id s).1
unfolding anchor_to
anchor_to-IsLawful id now target items user_id s i = guarded _ (target_exists target i) λ _ _.
    noted user_id product_anchor_recorded (anchor_loop id now target items user_id) s
      (anchor_loop-IsLawful id now target items user_id s i)

removal_left :
    (now : ℕ) (a b : ProductAnchor)
    → anchors_clash a b ≡ false
    → anchors_clash (set_removed now a) b ≡ false
unfolding anchors_clash set_removed
removal_left now a b h = ground arith

removal_right :
    (now : ℕ) (a b : ProductAnchor)
    → anchors_clash a b ≡ false
    → anchors_clash a (set_removed now b) ≡ false
unfolding anchors_clash set_removed
removal_right now a b h = ground arith

removed_rows :
    (now anchor_id : ℕ) (s : Market)
    → IsLawful s
    → IsLawful (record s { anchors = update_row anchor_id (set_removed now) s.anchors })
unfolding set_removed
removed_rows now anchor_id s i = record {
  products_apart = i.products_apart;
  links_apart = i.links_apart;
  anchors_apart =
      update_row-Apart anchors_clash (set_removed now) (removal_left now) (removal_right now)
        anchor_id s.anchors i.anchors_apart;
  placements_apart = i.placements_apart;
  conversions_apart = i.conversions_apart;
  linked = update_row-All _ anchor_id (set_removed now) s.anchors (λ a linked. linked) i.linked;
  placeable = i.placeable;
  periods = i.periods;
  backed = i.backed;
}

pub remove_from-IsLawful :
    (now : ℕ) (target : AnchorTarget) (anchor_id user_id : ℕ) (s : Market)
    → IsLawful s
    → IsLawful (remove_from now target anchor_id user_id s).1
unfolding remove_from note
remove_from-IsLawful now target anchor_id user_id s i =
    elim (Option-cases (
      find (λ a. a.id == anchor_id && same_target a.target target && is_unset a.removed_at)
        s.anchors)) [
          | inl missing ↦ rw (missing, remove_from) i
          | inr (a, found) ↦ rw (found, remove_from) (removed_rows now anchor_id s i)
        ]
