-- ===== src/Commerce/Catalog.antt =====
-- backend/src/modules/commerce/commerce-catalog.service.ts: the products of the shops and their affiliate links,
-- which are retired and never deleted. The lists, reads, are left out. Prices and rates are hundredths.
use content_hub.Base.{ℕ, true, false, not, Option, none, some, String}
use content_hub.Base.Effects.{
  M, ok, err, feed, ◌>>=◌, ◌>>◌, return, modify, ensure, not_found, conflict, database,
}
use content_hub.Base.Tables.{find_row, update_row, insert_unique}
use content_hub.Common.Currency.{default_currency, assert_supported_currency}
use content_hub.Content.Service.{Field, undefined, null, given, is_null, or_else, unless_undefined}
use content_hub.Publish.Store.{
  Ports, commerce_product_created, commerce_product_updated, commerce_product_retired,
  affiliate_link_created, affiliate_link_retired,
}
use content_hub.Commerce.Duration.{CommerceChannel}
use content_hub.Commerce.Market.{
  CommerceProduct, product_keyed, AffiliateLink, link_keyed, Market, products_clash, links_clash,
  note,
}

pub record CreateProduct : Type 0 where
  pub channel : CommerceChannel
  pub external_product_id : String
  pub name : String
  pub sku : Option String
  pub product_url : Option String
  pub list_price : Field ℕ
  pub currency : Option String
  pub commission_rate_pct : Field ℕ

pub record UpdateProduct : Type 0 where
  pub name : Field String
  pub sku : Field String
  pub product_url : Field String
  pub list_price : Field ℕ
  pub currency : Field String
  pub commission_rate_pct : Field ℕ

pub record CreateAffiliateLink : Type 0 where
  pub url : String
  pub tracking_code : Option String
  pub sub_id : Option String

-- `currency ?? 'THB'`
abbrev currency_or_default : Option String → String
currency_or_default none = default_currency
currency_or_default (some c) = c

-- `field !== undefined ? new Prisma.Decimal(field) : null`, which throws on null.
unfoldable pub decimal_of : {S : Type 0} → Field ℕ → M S (Option ℕ)
decimal_of undefined s = (ok none, s)
decimal_of null s = (err database, s)
decimal_of (given a) s = (ok (some a), s)

unfoldable pub new_product :
    Ports → CreateProduct → String → Option ℕ → Option ℕ → ℕ → CommerceProduct
new_product ports dto currency list_price commission_rate_pct user_id = record {
  id = ports.new_id;
  channel = dto.channel;
  external_product_id = dto.external_product_id;
  name = dto.name;
  sku = dto.sku;
  product_url = dto.product_url;
  list_price = list_price;
  currency = currency;
  commission_rate_pct = commission_rate_pct;
  is_active = true;
  retired_at = none;
  created_by = user_id;
}

-- `createProductOrConflict`
unfoldable pub create_product_or_conflict : CommerceProduct → M Market CommerceProduct
create_product_or_conflict p s = elim (insert_unique products_clash p s.products) [
  | none ↦ (err conflict, s)
  | some rows ↦ (ok p, record s { products = rows })
]

-- `createProduct`
unfoldable pub create_product : Ports → CreateProduct → ℕ → M Market CommerceProduct
create_product ports dto user_id = do
  currency ← assert_supported_currency (currency_or_default dto.currency)
  list_price ← decimal_of dto.list_price
  commission_rate_pct ← decimal_of dto.commission_rate_pct
  product ←
      create_product_or_conflict
        (new_product ports dto currency list_price commission_rate_pct user_id)
  modify (note user_id commerce_product_created)
  return product

-- `findProductOrThrow`
unfoldable pub find_product_or_throw : ℕ → M Market CommerceProduct
find_product_or_throw id s = elim (find_row id s.products) [
  | none ↦ (err not_found, s)
  | some p ↦ (ok p, s)
]

-- `...(dto.currency !== undefined && { currency: assertSupportedCurrency(dto.currency) })`; null has no
-- `toUpperCase`.
unfoldable pub currency_field : {S : Type 0} → Field String → M S (Field String)
currency_field undefined s = (ok undefined, s)
currency_field null s = (err database, s)
currency_field (given c) s =
    feed (assert_supported_currency c s) (λ currency. return (given currency))

-- The row with the given fields.
unfoldable pub product_patched : UpdateProduct → Field String → CommerceProduct → CommerceProduct
product_patched dto currency p = record p {
  name = or_else dto.name p.name;
  sku = unless_undefined dto.sku p.sku;
  product_url = unless_undefined dto.product_url p.product_url;
  list_price = unless_undefined dto.list_price p.list_price;
  currency = or_else currency p.currency;
  commission_rate_pct = unless_undefined dto.commission_rate_pct p.commission_rate_pct;
}

-- `commerceProduct.update` on a row that was found.
unfoldable pub update_product_row :
    ℕ → (CommerceProduct → CommerceProduct) → CommerceProduct → M Market CommerceProduct
update_product_row id data_ existing s =
    (ok (data_ existing), record s { products = update_row id data_ s.products })

-- `updateProduct`
unfoldable pub update_product : ℕ → UpdateProduct → ℕ → M Market CommerceProduct
update_product id dto user_id = do
  existing ← find_product_or_throw id
  ensure (not (is_null dto.list_price)) database
  currency ← currency_field dto.currency
  ensure (not (is_null dto.commission_rate_pct)) database
  ensure (not (is_null dto.name)) database
  product ← update_product_row id (product_patched dto currency) existing
  modify (note user_id commerce_product_updated)
  return product

unfoldable pub product_retired : ℕ → CommerceProduct → CommerceProduct
product_retired now p = record p { is_active = false; retired_at = some now }

-- `retireProduct`
unfoldable pub retire_product : ℕ → ℕ → ℕ → M Market CommerceProduct
retire_product now id user_id = do
  existing ← find_product_or_throw id
  product ← update_product_row id (product_retired now) existing
  modify (note user_id commerce_product_retired)
  return product

unfoldable pub new_link : ℕ → ℕ → CreateAffiliateLink → ℕ → AffiliateLink
new_link id product_id dto user_id = record {
  id = id;
  product_id = product_id;
  url = dto.url;
  tracking_code = dto.tracking_code;
  sub_id = dto.sub_id;
  is_active = true;
  retired_at = none;
  created_by = user_id;
}

-- `createLinkOrConflict`
unfoldable pub create_link_or_conflict : AffiliateLink → M Market AffiliateLink
create_link_or_conflict l s = elim (insert_unique links_clash l s.links) [
  | none ↦ (err conflict, s)
  | some rows ↦ (ok l, record s { links = rows })
]

-- `createLink`
unfoldable pub create_link : ℕ → ℕ → CreateAffiliateLink → ℕ → M Market AffiliateLink
create_link id product_id dto user_id = do
  find_product_or_throw product_id
  link ← create_link_or_conflict (new_link id product_id dto user_id)
  modify (note user_id affiliate_link_created)
  return link

unfoldable pub link_retired : ℕ → AffiliateLink → AffiliateLink
link_retired now l = record l { is_active = false; retired_at = some now }

unfoldable pub find_link_or_throw : ℕ → M Market AffiliateLink
find_link_or_throw id s = elim (find_row id s.links) [
  | none ↦ (err not_found, s)
  | some l ↦ (ok l, s)
]

-- `affiliateLink.update` on a row that was found.
unfoldable pub update_link_row :
    ℕ → (AffiliateLink → AffiliateLink) → AffiliateLink → M Market AffiliateLink
update_link_row id data_ existing s =
    (ok (data_ existing), record s { links = update_row id data_ s.links })

-- `retireLink`
unfoldable pub retire_link : ℕ → ℕ → ℕ → M Market AffiliateLink
retire_link now id user_id = do
  existing ← find_link_or_throw id
  link ← update_link_row id (link_retired now) existing
  modify (note user_id affiliate_link_retired)
  return link
