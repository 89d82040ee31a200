-- ===== src/Commerce/Market.antt =====
-- The tables of the shop (models CommerceProduct, AffiliateLink, ProductAnchor, CommercePlacement and
-- CommerceConversion of backend/prisma/schema.prisma, with their indexes and constraints in the migration
-- 20260721000000_phase6_commerce), and the state that its services share. Amounts of money are hundredths, times
-- milliseconds, days the milliseconds of their midnight; `source` and `updated_at` are left out. The texts
-- that an admin enters are not examined but for their shape.
use content_hub.Base.{
  ℕ, ◌-◌, ◌*◌, ◌%◌, Bool, true, false, not, ◌&&◌, ◌||◌, List, Option, none, some, String, ◌==◌,
}
use content_hub.Base.Int.{ℤ}
use content_hub.Base.Effects.{M}
use content_hub.Base.Tables.{Keyed}
use text.Mathlib.Text.{◌==◌ as str_eq}
use content_hub.Content.Assets.{ContentAsset}
use content_hub.Commerce.Duration.{CommerceChannel, shopee, tiktok_shop}
use content_hub.Publish.Store.{Store, AuditAction, record_audit, audit_row}

pub data CommercePlacementStatus : Type 0 where
  recorded removed : CommercePlacementStatus

pub record CommerceProduct : Type 0 where
  pub id : ℕ
  pub channel : CommerceChannel
  pub external_product_id : String
  pub name : String
  pub sku : Option String
  pub product_url : Option String
  pub list_price : Option ℕ
  pub currency : String
  pub commission_rate_pct : Option ℕ
  pub is_active : Bool
  pub retired_at : Option ℕ
  pub created_by : ℕ

pub record AffiliateLink : Type 0 where
  pub id : ℕ
  pub product_id : ℕ
  pub url : String
  pub tracking_code : Option String
  pub sub_id : Option String
  pub is_active : Bool
  pub retired_at : Option ℕ
  pub created_by : ℕ

-- The two columns for the target, of which a constraint wants exactly one.
pub data AnchorTarget : Type 0 where
  post placement : ℕ → AnchorTarget

pub record ProductAnchor : Type 0 where
  pub id : ℕ
  pub target : AnchorTarget
  pub product_id : ℕ
  pub affiliate_link_id : Option ℕ
  pub anchored_at : ℕ
  pub removed_at : Option ℕ
  pub recorded_by : ℕ

pub record CommercePlacement : Type 0 where
  pub id : ℕ
  pub content_id : ℕ
  pub channel : CommerceChannel
  pub external_media_id : String
  pub external_url : Option String
  pub status : CommercePlacementStatus
  pub source_asset_id : Option ℕ
  pub media_url : Option String
  pub duration_seconds : Option ℕ
  pub note : Option String
  pub recorded_by : ℕ
  pub placed_at : ℕ

pub record CommerceConversion : Type 0 where
  pub id : ℕ
  pub channel : CommerceChannel
  pub period_start : ℕ
  pub period_end : ℕ
  pub orders_count : Option ℕ
  pub items_sold : Option ℕ
  pub gross_sales_amount : Option ℤ
  pub commission_amount : ℤ
  pub currency : String
  pub post_id : Option ℕ
  pub placement_id : Option ℕ
  pub product_id : Option ℕ
  pub affiliate_link_id : Option ℕ
  pub statement_ref : Option String
  pub reversal_of_id : Option ℕ
  pub recorded_by : ℕ
  pub created_at : ℕ

-- The tables of the publish flow stand in `store`, with the audit log.
pub record Market : Type 0 where
  pub store : Store
  pub assets : List ContentAsset
  pub products : List CommerceProduct
  pub links : List AffiliateLink
  pub anchors : List ProductAnchor
  pub placements : List CommercePlacement
  pub conversions : List CommerceConversion

instance abbrev pub product_keyed : Keyed CommerceProduct
product_keyed = record { key = λ p. p.id }

instance abbrev pub link_keyed : Keyed AffiliateLink
link_keyed = record { key = λ l. l.id }

instance abbrev pub anchor_keyed : Keyed ProductAnchor
anchor_keyed = record { key = λ a. a.id }

instance abbrev pub placement_keyed : Keyed CommercePlacement
placement_keyed = record { key = λ p. p.id }

instance abbrev pub conversion_keyed : Keyed CommerceConversion
conversion_keyed = record { key = λ c. c.id }

abbrev pub channel_index : CommerceChannel → ℕ
channel_index shopee = 0
channel_index tiktok_shop = 1

abbrev pub is_removed : CommercePlacementStatus → Bool
is_removed removed = true
is_removed recorded = false

abbrev pub is_unset : Option ℕ → Bool
is_unset none = true
is_unset (some t) = false

abbrev pub same_target : AnchorTarget → AnchorTarget → Bool
same_target (post a) (post b) = a == b
same_target (placement a) (placement b) = a == b
same_target _ _ = false

-- The unique keys, the primary key among them: rows that the database does not let stand together.
unfoldable pub products_clash : CommerceProduct → CommerceProduct → Bool
products_clash p q =
    p.id == q.id
    || (channel_index p.channel == channel_index q.channel
        && str_eq p.external_product_id q.external_product_id)

unfoldable pub links_clash : AffiliateLink → AffiliateLink → Bool
links_clash k l = k.id == l.id || (k.product_id == l.product_id && str_eq k.url l.url)

unfoldable pub anchors_clash : ProductAnchor → ProductAnchor → Bool
anchors_clash a b =
    a.id == b.id
    || (is_unset a.removed_at
        && is_unset b.removed_at
        && same_target a.target b.target
        && a.product_id == b.product_id)

unfoldable pub placements_clash : CommercePlacement → CommercePlacement → Bool
placements_clash p q =
    p.id == q.id
    || (not (is_removed p.status)
        && not (is_removed q.status)
        && p.content_id == q.content_id
        && channel_index p.channel == channel_index q.channel)

unfoldable pub conversions_clash : CommerceConversion → CommerceConversion → Bool
conversions_clash c d = c.id == d.id

-- A value of a column of type DATE: the time of day is cut off.
abbrev pub day_ms : ℕ
day_ms = 24 * 60 * 60 * 1000

abbrev pub to_day : ℕ → ℕ
to_day time = time - time % day_ms

-- A method of the publish services, on the store.
abbrev pub on_store : {A : Type 0} → M Store A → M Market A
on_store m s = ((m s.store).0, record s { store = (m s.store).1 })

-- `this.auditLog.record` of a success; its meta names no post.
unfoldable pub note : ℕ → AuditAction → Market → Market
note actor action s = record s { store = record_audit (audit_row actor action true none) s.store }
