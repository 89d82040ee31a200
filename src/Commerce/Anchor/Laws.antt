-- ===== src/Commerce/Anchor/Laws.antt =====
-- backend/src/modules/commerce/commerce-anchor.service.ts: a request to anchor products that is sent again.
use content_hub.Base.{
  ℕ, ◌+◌, ◌≡◌, refl, sym, ◌∙◌, ap, ◌⊎◌, inl, inr, true, List, [], ◌∷◌, Option, none, some, arith,
  find, ◌==◌, ==_refl, Option-cases, Bool-cases,
}
use mathlib.Core.Path.{subst}
use content_hub.Base.Effects.{ok, err, Exn, not_found, conflict}
use content_hub.Base.Effects.Passing.{feed-eq-ok}
use content_hub.Base.Tables.{find_row, insert_unique}
use content_hub.Publish.Posts.{find_post}
use content_hub.Publish.Store.{record_audit, product_anchor_recorded}
use content_hub.Commerce.Market.{
  ProductAnchor, link_keyed, AnchorTarget, post, placement, placement_keyed, Market, same_target,
  note,
}
use content_hub.Commerce.Anchor.{
  AnchorItem, is_anchored, assert_target_exists, assert_product_is_active,
  assert_link_belongs_to_product, new_anchor, create_anchor_or_conflict, anchor_new, anchor_one,
  anchor_loop, anchor_to,
}

same_target_self : (target : AnchorTarget) → same_target target target ≡ true
same_target_self (post id) = ==_refl id
same_target_self (placement id) = ==_refl id

new_anchor-is_anchored :
    (id now : ℕ) (target : AnchorTarget) (item : AnchorItem) (user_id : ℕ)
    → is_anchored target item.product_id (new_anchor id now target item user_id) ≡ true
unfolding is_anchored new_anchor
new_anchor-is_anchored id now target item user_id =
    ground (arith, same_target_self target, ==_refl item.product_id)

-- What a round of the loop has done when it returns.
data Anchored (target : AnchorTarget) (item : AnchorItem) (a : ProductAnchor) (s s' : Market)
    : Type 0 where
  already :
      find (is_anchored target item.product_id) s.anchors ≡ some a
      → s' ≡ s
      → Anchored target item a s s'
  created :
      find (is_anchored target item.product_id) s.anchors ≡ none
      → is_anchored target item.product_id a ≡ true
      → s' ≡ record s { anchors = a ∷ s.anchors }
      → Anchored target item a s s'

link_passes :
    (link_id : Option ℕ) (product_id : ℕ) (s : Market)
    → (assert_link_belongs_to_product link_id product_id s ≡ (ok tt, s))
      ⊎ ((e : Exn) × (assert_link_belongs_to_product link_id product_id s ≡ (err e, s)))
unfolding assert_link_belongs_to_product
link_passes none product_id s = inl refl
link_passes (some link_id) product_id s = elim (Option-cases (find_row link_id s.links)) [
  | inl missing ↦ inr (not_found, ground arith)
  | inr (l, found) ↦ elim (Bool-cases (l.product_id == product_id)) [
    | inl own ↦ inl (ground arith)
    | inr foreign ↦ inr (conflict, ground arith)
  ]
]

made_new :
    (id now : ℕ) (target : AnchorTarget) (item : AnchorItem) (user_id : ℕ) (s s' : Market)
    {a : ProductAnchor}
    → anchor_new id now target item user_id s ≡ (ok a, s')
    → (a ≡ new_anchor id now target item user_id) × (s' ≡ record s { anchors = a ∷ s.anchors })
unfolding anchor_new assert_product_is_active create_anchor_or_conflict insert_unique
made_new id now target item user_id s s' h =
    ground (arith, link_passes item.affiliate_link_id item.product_id s)

-- A round that returns found the product anchored, or has anchored it.
round_done :
    (id now : ℕ) (target : AnchorTarget) (item : AnchorItem) (user_id : ℕ) (s s' : Market)
    {a : ProductAnchor}
    → anchor_one id now target item user_id s ≡ (ok a, s')
    → Anchored target item a s s'
unfolding anchor_one
round_done id now target item user_id s s' {a} h =
    elim (Option-cases (find (is_anchored target item.product_id) s.anchors)) [
      | inr (b, found) ↦
          let (same, kept) : (a ≡ b) × (s' ≡ s) = ground arith in
          already (found ∙ ap some (sym same)) kept
      | inl open_ ↦
          let (row, grown) =
            made_new id now target item user_id s s' (rw (open_, anchor_one) at h) in
          created open_ (rw row (new_anchor-is_anchored id now target item user_id)) grown
    ]

same_product :
    (target : AnchorTarget) (p q : ℕ) (a : ProductAnchor)
    → is_anchored target p a ≡ true
    → is_anchored target q a ≡ true
    → p ≡ q
unfolding is_anchored
same_product target p q a h k = ground arith

Anchored-find :
    (target : AnchorTarget) (item : AnchorItem) (a : ProductAnchor) (s s' : Market)
    → Anchored target item a s s'
    → find (is_anchored target item.product_id) s'.anchors ≡ some a
Anchored-find target item a s s' (already found same) =
    ap (λ t. find (is_anchored target item.product_id) t.anchors) same ∙ found
Anchored-find target item a s s' (created open_ fits grown) =
    ap (λ t. find (is_anchored target item.product_id) t.anchors) grown ∙ rw fits refl

-- A product that is anchored keeps its anchor in later rounds.
Anchored-stays :
    (target : AnchorTarget) (item : AnchorItem) (a : ProductAnchor) (s s' : Market) (p : ℕ)
    {b : ProductAnchor}
    → Anchored target item a s s'
    → find (is_anchored target p) s.anchors ≡ some b
    → find (is_anchored target p) s'.anchors ≡ some b
Anchored-stays target item a s s' p (already found same) h =
    ap (λ t. find (is_anchored target p) t.anchors) same ∙ h
Anchored-stays target item a s s' p (created open_ fits grown) h =
    ap (λ t. find (is_anchored target p) t.anchors) grown
    ∙ elim (Bool-cases (is_anchored target p a)) [
      | inr other ↦ rw other h
      | inl same ↦
          let e : p ≡ item.product_id = same_product target p item.product_id a same fits in
          cc (sym (ap (λ q. find (is_anchored target q) s.anchors) e ∙ open_) ∙ h)
    ]

loop_step :
    (id now : ℕ) (target : AnchorTarget) (item : AnchorItem) (items : List AnchorItem) (user_id : ℕ)
    (s s' : Market) {rs : List ProductAnchor}
    → anchor_loop id now target (item ∷ items) user_id s ≡ (ok rs, s')
    → (a : ProductAnchor) × (t : Market) × (rest : List ProductAnchor) × Anchored target item a s t
      × (anchor_loop (id + 1) now target items user_id t ≡ (ok rest, s'))
      × (rs ≡ a ∷ rest)
unfolding anchor_loop
loop_step id now target item items user_id s s' h =
    let (a, t, one, h') = feed-eq-ok (anchor_one id now target item user_id s) _ h in
    let (rest, u, others, h'') =
      feed-eq-ok (anchor_loop (id + 1) now target items user_id t) _ h' in
    (a, t, rest, round_done id now target item user_id s t one, others ∙ ground arith, ground arith)

abbrev Recorded : AnchorTarget → List ProductAnchor → List AnchorItem → List ProductAnchor → Type 0
Recorded target anchors [] [] = Unit
Recorded target anchors (item ∷ items) (a ∷ rest) =
    (find (is_anchored target item.product_id) anchors ≡ some a)
    × Recorded target anchors items rest
Recorded target anchors _ _ = ⊥

loop_stays :
    (id now : ℕ) (target : AnchorTarget) (items : List AnchorItem) (user_id : ℕ) (s s' : Market)
    (p : ℕ) {rs : List ProductAnchor} {b : ProductAnchor}
    → anchor_loop id now target items user_id s ≡ (ok rs, s')
    → find (is_anchored target p) s.anchors ≡ some b
    → find (is_anchored target p) s'.anchors ≡ some b
unfolding anchor_loop
loop_stays id now target [] user_id s s' p h found = ground arith
loop_stays id now target (item ∷ items) user_id s s' p h found =
    let (a, t, rest, done, others, same) = loop_step id now target item items user_id s s' h in
    loop_stays (id + 1) now target items user_id t s' p others
      (Anchored-stays target item a s t p done found)

loop-Recorded :
    (id now : ℕ) (target : AnchorTarget) (items : List AnchorItem) (user_id : ℕ) (s s' : Market)
    {rs : List ProductAnchor}
    → anchor_loop id now target items user_id s ≡ (ok rs, s')
    → Recorded target s'.anchors items rs
unfolding anchor_loop
loop-Recorded id now target [] user_id s s' {rs} h =
    let e : [] ≡ rs = ground arith in subst (Recorded target s'.anchors []) e tt
loop-Recorded id now target (item ∷ items) user_id s s' {rs} h =
    let (a, t, rest, done, others, same) = loop_step id now target item items user_id s s' h in
    subst (Recorded target s'.anchors (item ∷ items)) (sym same) (
      loop_stays (id + 1) now target items user_id t s' item.product_id others
          (Anchored-find target item a s t done),
      loop-Recorded (id + 1) now target items user_id t s' others,
    )

Anchored-keeps :
    (target : AnchorTarget) (item : AnchorItem) (a : ProductAnchor) (s s' : Market)
    → Anchored target item a s s'
    → (s'.store ≡ s.store) × (s'.placements ≡ s.placements)
Anchored-keeps target item a s s' (already found same) = (cc, cc)
Anchored-keeps target item a s s' (created open_ fits grown) =
    (ap (λ t. t.store) grown, ap (λ t. t.placements) grown)

loop_keeps :
    (id now : ℕ) (target : AnchorTarget) (items : List AnchorItem) (user_id : ℕ) (s s' : Market)
    {rs : List ProductAnchor}
    → anchor_loop id now target items user_id s ≡ (ok rs, s')
    → (s'.store ≡ s.store) × (s'.placements ≡ s.placements)
unfolding anchor_loop
loop_keeps id now target [] user_id s s' h = ground arith
loop_keeps id now target (item ∷ items) user_id s s' h =
    let (a, t, rest, done, others, same) = loop_step id now target item items user_id s s' h in
    let (stores, placed) = loop_keeps (id + 1) now target items user_id t s' others in
    let (store, place) = Anchored-keeps target item a s t done in (stores ∙ store, placed ∙ place)

-- What is recorded already is returned as it is, and nothing is written.
replayed :
    (id now : ℕ) (target : AnchorTarget) (items : List AnchorItem) (user_id : ℕ) (s : Market)
    (rs : List ProductAnchor)
    → Recorded target s.anchors items rs
    → anchor_loop id now target items user_id s ≡ (ok rs, s)
unfolding anchor_loop anchor_one
replayed id now target [] user_id s [] h = refl
replayed id now target [] user_id s (a ∷ rest) h = absurd h
replayed id now target (item ∷ items) user_id s [] h = absurd h
replayed id now target (item ∷ items) user_id s (a ∷ rest) (found, others) =
    rw (found, anchor_one) (rw (replayed (id + 1) now target items user_id s rest others) refl)

target_stays :
    (target : AnchorTarget) (s s' : Market)
    → assert_target_exists target s ≡ (ok tt, s)
    → s'.store.posts ≡ s.store.posts
    → s'.placements ≡ s.placements
    → assert_target_exists target s' ≡ (ok tt, s')
unfolding assert_target_exists
target_stays (post id) s s' h posts placements = elim (Option-cases (find_post id s.store.posts)) [
  | inl missing ↦ absurd (ground arith)
  | inr (p, found) ↦ rw (ap (find_post id) posts ∙ found, assert_target_exists) refl
]
target_stays (placement id) s s' h posts placements =
    elim (Option-cases (find_row id s.placements)) [
      | inl missing ↦ absurd (ground arith)
      | inr (p, found) ↦ rw (ap (find_row id) placements ∙ found, assert_target_exists) refl
    ]

target_passed :
    (target : AnchorTarget) (s t : Market) {u : Unit {0}}
    → assert_target_exists target s ≡ (ok u, t)
    → t ≡ s
unfolding assert_target_exists
target_passed (post id) s t h = ground arith
target_passed (placement id) s t h = ground arith

-- Anchoring is idempotent: a request that has returned, sent again, whenever and by whom, returns the same rows
-- and writes nothing but its audit row.
pub anchor_to_again :
    (id now id' now' : ℕ) (target : AnchorTarget) (items : List AnchorItem) (user_id user_id' : ℕ)
    (s s' : Market) {rs : List ProductAnchor}
    → anchor_to id now target items user_id s ≡ (ok rs, s')
    → anchor_to id' now' target items user_id' s'
      ≡ (ok rs, note user_id' product_anchor_recorded s')
unfolding anchor_to note record_audit
anchor_to_again id now id' now' target items user_id user_id' s s' {rs} h =
    let (_, t, exists, h') = feed-eq-ok (assert_target_exists target s) _ h in
    let same = target_passed target s t exists in
    let (made, u, looped, h'') = feed-eq-ok (anchor_loop id now target items user_id t) _ h' in
    let rows : made ≡ rs = ground arith in
    let grown : s' ≡ note user_id product_anchor_recorded u = ground arith in
    let (store, placed) = loop_keeps id now target items user_id t u looped in
    let recorded : Recorded target s'.anchors items rs =
      subst (λ m. Recorded target m.anchors items rs) (sym grown)
        (subst (Recorded target u.anchors items) rows
          (loop-Recorded id now target items user_id t u looped)) in
    let there =
      target_stays target s s' (exists ∙ ap (λ m. (ok tt, m)) same)
        (ap (λ m. m.store.posts) grown ∙ ap (λ m. m.posts) store ∙ ap (λ m. m.store.posts) same)
        (ap (λ m. m.placements) grown ∙ placed ∙ ap (λ m. m.placements) same) in
    rw there (rw (replayed id' now' target items user_id' s' rs recorded) refl)
