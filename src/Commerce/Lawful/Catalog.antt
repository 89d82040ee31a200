-- ===== src/Commerce/Lawful/Catalog.antt =====
-- backend/src/modules/commerce/commerce-catalog.service.ts keeps the tables of the shop lawful: links stay under their
-- products, and what is retired stays where anchors and lines find it.
use content_hub.Base.{
  ℕ, ◌≡◌, refl, ap, ◌∙◌, inl, inr, true, false, not, none, some, String, All-map, arith,
  Option-cases, Bool-cases, ◌==◌, List,
}
use content_hub.Base.Effects.{bad_request, not_found, database}
use content_hub.Base.Effects.Keeping.{Guards, passes, throws, guarded, ensure_guards}
use content_hub.Base.Tables.{
  find_row, find_row-updated, find_row-insert_unique, update_row, Apart, insert_unique,
  insert_unique-Apart, update_row-Apart,
}
use content_hub.Common.Currency.{default_currency, assert_supported_currency, is_supported_currency}
use content_hub.Content.Service.{Field, undefined, null, given, is_null}
use content_hub.Publish.Store.{
  Ports, commerce_product_created, commerce_product_updated, commerce_product_retired,
  affiliate_link_created, affiliate_link_retired,
}
use content_hub.Commerce.Market.{
  CommerceProduct, product_keyed, AffiliateLink, link_keyed, Market, products_clash, links_clash,
}
use content_hub.Commerce.Catalog.{
  CreateProduct, UpdateProduct, CreateAffiliateLink, decimal_of, new_product,
  create_product_or_conflict, create_product, find_product_or_throw, currency_field,
  product_patched, update_product_row, update_product, product_retired, retire_product, new_link,
  create_link_or_conflict, create_link, link_retired, find_link_or_throw, update_link_row,
  retire_link,
}
use content_hub.Commerce.Lawful.{IsLawful}
use content_hub.Commerce.Lawful.Steps.{noted}

with_products :
    (rows : List CommerceProduct) (s : Market)
    → IsLawful s
    → Apart products_clash rows
    → IsLawful (record s { products = rows })
with_products rows s i apart = record {
  products_apart = apart;
  links_apart = i.links_apart;
  anchors_apart = i.anchors_apart;
  placements_apart = i.placements_apart;
  conversions_apart = i.conversions_apart;
  linked = i.linked;
  placeable = i.placeable;
  periods = i.periods;
  backed = i.backed;
}

-- The links may change as long as each that is found stays found, under its product.
with_links :
    (rows : List AffiliateLink) (s : Market)
    → IsLawful s
    → Apart links_clash rows
    → ((id : ℕ) (l : AffiliateLink)
        → find_row id s.links ≡ some l
        → (k : AffiliateLink) × (find_row id rows ≡ some k) × (k.product_id ≡ l.product_id))
    → IsLawful (record s { links = rows })
with_links rows s i apart found = record {
  products_apart = i.products_apart;
  links_apart = apart;
  anchors_apart = i.anchors_apart;
  placements_apart = i.placements_apart;
  conversions_apart = i.conversions_apart;
  linked =
      All-map
        (λ a linked id e.
          let (l, here, own) = linked id e in
          let (k, there, same) = found id l here in (k, there, same ∙ own))
        s.anchors i.linked;
  placeable = i.placeable;
  periods = i.periods;
  backed = i.backed;
}

currency_supported :
    (currency : String) {s : Market}
    → IsLawful s
    → Guards IsLawful (assert_supported_currency currency) s (λ _. Unit {0})
unfolding assert_supported_currency
currency_supported currency {s} i = elim (Bool-cases (is_supported_currency currency)) [
  | inl supported ↦ passes default_currency (ground arith) tt
  | inr other ↦ throws bad_request s (ground arith) i
]

decimal_read :
    (field : Field ℕ) {s : Market}
    → IsLawful s
    → Guards IsLawful (decimal_of field) s (λ _. Unit {0})
unfolding decimal_of
decimal_read undefined i = passes none refl tt
decimal_read null {s} i = throws database s refl i
decimal_read (given a) i = passes (some a) refl tt

currency_read :
    (field : Field String) {s : Market}
    → IsLawful s
    → Guards IsLawful (currency_field field) s (λ _. Unit {0})
unfolding currency_field assert_supported_currency
currency_read undefined i = passes undefined refl tt
currency_read null {s} i = throws database s refl i
currency_read (given c) {s} i = elim (Bool-cases (is_supported_currency c)) [
  | inl supported ↦ passes (given default_currency) (ground arith) tt
  | inr other ↦ throws bad_request s (ground arith) i
]

product_found :
    (id : ℕ) {s : Market}
    → IsLawful s
    → Guards IsLawful (find_product_or_throw id) s (λ p. find_row id s.products ≡ some p)
unfolding find_product_or_throw
product_found id {s} i = elim (Option-cases (find_row id s.products)) [
  | inl missing ↦ throws not_found s (ground arith) i
  | inr (p, found) ↦ passes p (ground arith) found
]

link_found :
    (id : ℕ) {s : Market}
    → IsLawful s
    → Guards IsLawful (find_link_or_throw id) s (λ l. find_row id s.links ≡ some l)
unfolding find_link_or_throw
link_found id {s} i = elim (Option-cases (find_row id s.links)) [
  | inl missing ↦ throws not_found s (ground arith) i
  | inr (l, found) ↦ passes l (ground arith) found
]

product_created :
    (p : CommerceProduct) (s : Market) → IsLawful s → IsLawful (create_product_or_conflict p s).1
unfolding create_product_or_conflict
product_created p s i = elim (Option-cases (insert_unique products_clash p s.products)) [
  | inl taken ↦ rw (taken, create_product_or_conflict) i
  | inr (rows, made) ↦
      rw (made, create_product_or_conflict)
        (with_products rows s i (insert_unique-Apart _ p s.products i.products_apart made))
]

pub create_product-IsLawful :
    (ports : Ports) (dto : CreateProduct) (user_id : ℕ) (s : Market)
    → IsLawful s
    → IsLawful (create_product ports dto user_id s).1
unfolding create_product
create_product-IsLawful ports dto user_id s i = guarded _ (currency_supported _ i) λ currency _.
    guarded _ (decimal_read dto.list_price i) λ list_price _.
      guarded _ (decimal_read dto.commission_rate_pct i) λ commission_rate_pct _.
        let p = new_product ports dto currency list_price commission_rate_pct user_id in
        noted user_id commerce_product_created (create_product_or_conflict p) s
          (product_created p s i)

-- An update that keeps the natural key of a product.
product_rewritten :
    (id : ℕ) (data_ : CommerceProduct → CommerceProduct) (p : CommerceProduct) (s : Market)
    → ((a b : CommerceProduct) → products_clash a b ≡ false → products_clash (data_ a) b ≡ false)
    → ((a b : CommerceProduct) → products_clash a b ≡ false → products_clash a (data_ b) ≡ false)
    → IsLawful s
    → IsLawful (update_product_row id data_ p s).1
unfolding update_product_row
product_rewritten id data_ p s left right i =
    with_products _ s i
      (update_row-Apart products_clash data_ left right id s.products i.products_apart)

pub update_product-IsLawful :
    (id : ℕ) (dto : UpdateProduct) (user_id : ℕ) (s : Market)
    → IsLawful s
    → IsLawful (update_product id dto user_id s).1
unfolding update_product product_patched products_clash
update_product-IsLawful id dto user_id s i = guarded _ (product_found id i) λ existing _.
    guarded _ (ensure_guards IsLawful (not (is_null dto.list_price)) database i) λ _ _.
      guarded _ (currency_read dto.currency i) λ currency _.
        guarded _ (ensure_guards IsLawful (not (is_null dto.commission_rate_pct)) database i) λ _ _.
          guarded _ (ensure_guards IsLawful (not (is_null dto.name)) database i) λ _ _.
            noted user_id commerce_product_updated
              (update_product_row id (product_patched dto currency) existing) s
              (product_rewritten id (product_patched dto currency) existing s (λ a b h. h)
                (λ a b h. h) i)

pub retire_product-IsLawful :
    (now id user_id : ℕ) (s : Market) → IsLawful s → IsLawful (retire_product now id user_id s).1
unfolding retire_product product_retired products_clash
retire_product-IsLawful now id user_id s i = guarded _ (product_found id i) λ existing _.
    noted user_id commerce_product_retired (update_product_row id (product_retired now) existing) s
      (product_rewritten id (product_retired now) existing s (λ a b h. h) (λ a b h. h) i)

links_cover : (k l : AffiliateLink) → (k.id == l.id) ≡ true → links_clash k l ≡ true
unfolding links_clash
links_cover k l same = ground arith

link_created :
    (l : AffiliateLink) (s : Market) → IsLawful s → IsLawful (create_link_or_conflict l s).1
unfolding create_link_or_conflict
link_created l s i = elim (Option-cases (insert_unique links_clash l s.links)) [
  | inl taken ↦ rw (taken, create_link_or_conflict) i
  | inr (rows, made) ↦
      rw (made, create_link_or_conflict)
        (with_links rows s i (insert_unique-Apart _ l s.links i.links_apart made) (λ id k found.
          (k, find_row-insert_unique links_clash links_cover l s.links id made found, refl)))
]

pub create_link-IsLawful :
    (id product_id : ℕ) (dto : CreateAffiliateLink) (user_id : ℕ) (s : Market)
    → IsLawful s
    → IsLawful (create_link id product_id dto user_id s).1
unfolding create_link
create_link-IsLawful id product_id dto user_id s i = guarded _ (product_found product_id i) λ _ _.
    let l = new_link id product_id dto user_id in
    noted user_id affiliate_link_created (create_link_or_conflict l) s (link_created l s i)

-- What is found after a link was retired.
still_found :
    (now id key : ℕ) (rows : List AffiliateLink) (l : AffiliateLink)
    → find_row key rows ≡ some l
    → (k : AffiliateLink) × (find_row key (update_row id (link_retired now) rows) ≡ some k)
      × (k.product_id ≡ l.product_id)
unfolding link_retired
still_found now id key rows l e =
    let (k, found, one) = find_row-updated id key (link_retired now) rows (λ x. refl) e in
    (
      k,
      found,
      elim one [
        | inl same ↦ ap (λ x. x.product_id) same
        | inr changed ↦ ap (λ x. x.product_id) changed
      ],
    )

pub retire_link-IsLawful :
    (now id user_id : ℕ) (s : Market) → IsLawful s → IsLawful (retire_link now id user_id s).1
unfolding retire_link update_link_row link_retired links_clash
retire_link-IsLawful now id user_id s i = guarded _ (link_found id i) λ existing _.
    noted user_id affiliate_link_retired (update_link_row id (link_retired now) existing) s (
      with_links (update_row id (link_retired now) s.links) s i
        (update_row-Apart links_clash (link_retired now) (λ a b h. h) (λ a b h. h) id s.links
          i.links_apart)
        (λ key l found. still_found now id key s.links l found))
