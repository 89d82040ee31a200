-- ===== src/Commerce/Lawful.antt =====
-- What the tables of the shop keep, whatever requests are served: the unique keys, the length of what stands in
-- a shop that limits it, links under their own products, and statement lines with ordered periods whose reversals
-- carry the attribution of what they reverse.
pub mod Steps
pub mod Placements
pub mod Anchors
pub mod Catalog
pub mod Conversions
use content_hub.Base.{ℕ, ◌≤◌, ◌≡◌, Option, none, some, List, All, Bool, true}
use content_hub.Base.Tables.{find_row, Apart}
use content_hub.Common.Currency.{default_currency}
use content_hub.Publish.Posts.{Post}
use content_hub.Commerce.Duration.Laws.{IsPlaceable}
use content_hub.Commerce.Market.{
  CommerceProduct, product_keyed, AffiliateLink, link_keyed, ProductAnchor, CommercePlacement,
  CommerceConversion, conversion_keyed, Market, products_clash, links_clash, anchors_clash,
  placements_clash, conversions_clash,
}

-- The link of an anchor is one of the product of the anchor.
abbrev pub IsLinked : List AffiliateLink → ProductAnchor → Type 0
IsLinked links a =
    (id : ℕ)
    → a.affiliate_link_id ≡ some id
    → (l : AffiliateLink) × (find_row id links ≡ some l) × (l.product_id ≡ a.product_id)

-- What two lines are attributed to.
pub record SameLinkage (c d : CommerceConversion) : Type 0 where
  pub channel : c.channel ≡ d.channel
  pub currency : c.currency ≡ d.currency
  pub post_id : c.post_id ≡ d.post_id
  pub placement_id : c.placement_id ≡ d.placement_id
  pub product_id : c.product_id ≡ d.product_id
  pub affiliate_link_id : c.affiliate_link_id ≡ d.affiliate_link_id

-- What a line reverses is a line of the table with the same attribution.
abbrev pub IsBacked : List CommerceConversion → CommerceConversion → Type 0
IsBacked rows c =
    (id : ℕ)
    → c.reversal_of_id ≡ some id
    → (t : CommerceConversion) × (find_row id rows ≡ some t) × SameLinkage c t

abbrev pub IsPeriod : CommerceConversion → Type 0
IsPeriod c = (c.period_start ≤ c.period_end) × (c.currency ≡ default_currency)

pub record LawfulTables (products : List CommerceProduct) (links : List AffiliateLink)
    (anchors : List ProductAnchor) (placements : List CommercePlacement)
    (conversions : List CommerceConversion) : Type 0 where
  pub products_apart : Apart products_clash products
  pub links_apart : Apart links_clash links
  pub anchors_apart : Apart anchors_clash anchors
  pub placements_apart : Apart placements_clash placements
  pub conversions_apart : Apart conversions_clash conversions
  pub linked : All (IsLinked links) anchors
  pub placeable : All (λ p. IsPlaceable p.channel p.duration_seconds) placements
  pub periods : All IsPeriod conversions
  pub backed : All (IsBacked conversions) conversions

abbrev pub IsLawful : Market → Type 0
IsLawful s = LawfulTables s.products s.links s.anchors s.placements s.conversions
