-- ===== src/Commerce/Conversion.antt =====
-- backend/src/modules/commerce/commerce-conversion.service.ts: the append-only statement lines of the shops. The
-- list of lines, a read, is left out. Dates are the milliseconds that `new Date` gives for valid texts.
pub mod Laws
use content_hub.Base.{
  ℕ, ◌-◌, ◌*◌, Bool, true, false, not, ◌&&◌, List, ◌∷◌, Option, none, some, String, ◌==◌, leb, any,
  keep, if◌then◌else◌,
}
use content_hub.Base.Int.{ℤ, same_ℤ}
use content_hub.Base.Effects.{
  M, ok, err, ◌>>=◌, ◌>>◌, return, modify, ensure, not_found, conflict, bad_request, database,
}
use content_hub.Base.Tables.{find_row, insert_unique}
use text.Mathlib.Text.{◌==◌ as str_eq}
use content_hub.Common.DateRange.{assert_valid_date_range}
use content_hub.Common.RefShape.{assert_ref_shape}
use content_hub.Common.Currency.{default_currency}
use content_hub.Content.Service.{Field, undefined, null, given, is_null}
use content_hub.Publish.Posts.{find_post}
use content_hub.Publish.Store.{Ports, find_user, commerce_conversion_added}
use content_hub.Commerce.Duration.{CommerceChannel}
use content_hub.Commerce.Market.{
  CommerceConversion, Market, product_keyed, link_keyed, placement_keyed, conversion_keyed,
  channel_index, conversions_clash, to_day, note,
}

pub record CreateConversion : Type 0 where
  pub channel : CommerceChannel
  pub period_start : ℕ
  pub period_end : ℕ
  pub orders_count : Option ℕ
  pub items_sold : Option ℕ
  pub gross_sales_amount : Field ℤ
  pub commission_amount : ℤ
  pub post_id : Option ℕ
  pub placement_id : Option ℕ
  pub product_id : Option ℕ
  pub affiliate_link_id : Option ℕ
  pub reversal_of_id : Option ℕ
  pub statement_ref : Option String

-- `COMMERCE_CONVERSION_IDEMPOTENCY_WINDOW_MS`
abbrev pub idempotency_window_ms : ℕ
idempotency_window_ms = 60 * 1000

abbrev pub same_id : Option ℕ → Option ℕ → Bool
same_id none none = true
same_id (some a) (some b) = a == b
same_id _ _ = false

abbrev pub same_text : Option String → Option String → Bool
same_text none none = true
same_text (some a) (some b) = str_eq a b
same_text _ _ = false

-- The condition on a duplicate.
unfoldable pub is_duplicate : ℕ → CreateConversion → ℕ → CommerceConversion → Bool
is_duplicate now dto user_id c =
    c.recorded_by == user_id
    && leb (now - idempotency_window_ms) c.created_at
    && channel_index c.channel == channel_index dto.channel
    && c.period_start == to_day dto.period_start
    && c.period_end == to_day dto.period_end
    && same_ℤ c.commission_amount dto.commission_amount
    && same_id c.orders_count dto.orders_count
    && same_id c.items_sold dto.items_sold
    && same_id c.post_id dto.post_id
    && same_id c.placement_id dto.placement_id
    && same_id c.product_id dto.product_id
    && same_id c.affiliate_link_id dto.affiliate_link_id
    && same_text c.statement_ref dto.statement_ref

-- `assertNotDuplicateWithinWindow`
unfoldable pub assert_not_duplicate : ℕ → CreateConversion → ℕ → M Market (Unit {0})
assert_not_duplicate now dto user_id s =
    ensure (not (any (is_duplicate now dto user_id) s.conversions)) conflict s

-- `loadAndValidateReversalTarget`
unfoldable pub load_reversal_target : CreateConversion → M Market (Option CommerceConversion)
load_reversal_target dto s = elim dto.reversal_of_id [
  | none ↦ (ok none, s)
  | some id ↦ elim (find_row id s.conversions) [
    | none ↦ (err not_found, s)
    | some target ↦
        if not (channel_index target.channel == channel_index dto.channel)
        then (err bad_request, s)
        else if not (str_eq target.currency default_currency)
        then (err bad_request, s)
        else (ok (some target), s)
  ]
]

pub record Linkage : Type 0 where
  pub post_id : Option ℕ
  pub placement_id : Option ℕ
  pub product_id : Option ℕ
  pub affiliate_link_id : Option ℕ

-- The attribution of a row, which a reversal takes from its target.
unfoldable pub linkage_of : CreateConversion → Option CommerceConversion → Linkage
linkage_of dto none = record {
  post_id = dto.post_id;
  placement_id = dto.placement_id;
  product_id = dto.product_id;
  affiliate_link_id = dto.affiliate_link_id;
}
linkage_of dto (some target) = record {
  post_id = target.post_id;
  placement_id = target.placement_id;
  product_id = target.product_id;
  affiliate_link_id = target.affiliate_link_id;
}

abbrev pub id_of : Option CommerceConversion → Option ℕ
id_of none = none
id_of (some target) = some target.id

abbrev pub amount_of : Field ℤ → Option ℤ
amount_of (given a) = some a
amount_of _ = none

-- The data of the row, with the default of the schema.
unfoldable pub new_conversion :
    Ports → CreateConversion → Option CommerceConversion → ℕ → CommerceConversion
new_conversion ports dto reversal_of user_id =
    let linkage = linkage_of dto reversal_of in
    record {
      id = ports.new_id;
      channel = dto.channel;
      period_start = to_day dto.period_start;
      period_end = to_day dto.period_end;
      orders_count = dto.orders_count;
      items_sold = dto.items_sold;
      gross_sales_amount = amount_of dto.gross_sales_amount;
      commission_amount = dto.commission_amount;
      currency = default_currency;
      post_id = linkage.post_id;
      placement_id = linkage.placement_id;
      product_id = linkage.product_id;
      affiliate_link_id = linkage.affiliate_link_id;
      statement_ref = dto.statement_ref;
      reversal_of_id = id_of reversal_of;
      recorded_by = user_id;
      created_at = ports.now;
    }

abbrev pub is_there {ℓ} : {A : Type ℓ} → Option A → Bool
is_there none = false
is_there (some a) = true

-- A column that may be null refers to a row.
abbrev pub refers : (ℕ → Bool) → Option ℕ → Bool
refers found none = true
refers found (some id) = found id

-- The foreign keys of a row.
unfoldable pub references_hold : Market → CommerceConversion → Bool
references_hold s c =
    refers (λ id. is_there (find_post id s.store.posts)) c.post_id
    && refers (λ id. is_there (find_row id s.placements)) c.placement_id
    && refers (λ id. is_there (find_row id s.products)) c.product_id
    && refers (λ id. is_there (find_row id s.links)) c.affiliate_link_id
    && refers (λ id. is_there (find_row id s.conversions)) c.reversal_of_id
    && is_there (find_user c.recorded_by s.store.users)

-- `commerceConversion.create`, whose errors the code does not translate.
unfoldable pub insert_conversion : CommerceConversion → M Market CommerceConversion
insert_conversion c s =
    if not (references_hold s c)
    then (err database, s)
    else elim (insert_unique conversions_clash c s.conversions) [
      | none ↦ (err database, s)
      | some rows ↦ (ok c, record s { conversions = rows })
    ]

-- `create`; `new Prisma.Decimal(null)` throws.
unfoldable pub create_conversion : Ports → CreateConversion → ℕ → M Market CommerceConversion
create_conversion ports dto user_id = do
  assert_ref_shape dto.statement_ref
  assert_valid_date_range dto.period_start (some dto.period_end)
  assert_not_duplicate ports.now dto user_id
  reversal_of ← load_reversal_target dto
  ensure (not (is_null dto.gross_sales_amount)) database
  conversion ← insert_conversion (new_conversion ports dto reversal_of user_id)
  modify (note user_id commerce_conversion_added)
  return conversion
