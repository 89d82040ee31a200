-- ===== src/Commerce/Read.antt =====
-- backend/src/modules/commerce/commerce-read.service.ts: the totals of the statement lines, grouped by currency and by
-- channel, product or period. Amounts are hundredths, which `round2` leaves as they are. The keys of the groups
-- are pairs here and texts there; no channel, key, day or currency has a colon, so they are told apart alike.
-- The time of the answer and the printed rows are left out.
pub mod Laws
pub mod Sums
pub mod Reversal
use content_hub.Base.{
  ℕ, ◌+◌, Bool, true, false, ◌&&◌, ◌||◌, List, [], ◌∷◌, Option, none, some, String, ◌==◌, leb, ltb,
  any, keep, map, if◌then◌else◌, optional, or_zero,
}
use content_hub.Base.Grouping.{group_loop}
use content_hub.Base.Int.{ℤ, pos, ◌+ℤ◌}
use content_hub.Base.Effects.{M, ok, err, not_found}
use text.Mathlib.Text.{◌==◌ as str_eq}
use content_hub.Content.Records.{find_content}
use content_hub.Publish.Posts.{Post}
use content_hub.Commerce.Duration.{CommerceChannel}
use content_hub.Commerce.Market.{CommercePlacement, CommerceConversion, Market, channel_index}
use content_hub.Commerce.Conversion.{same_id}

pub record CommerceCurrencyTotal : Type 0 where
  pub currency : String
  pub commission_amount : ℤ
  pub gross_sales_amount : ℤ
  pub orders_count : ℕ
  pub items_sold : ℕ
  pub conversion_records : ℕ

abbrev pub amount_or_zero : Option ℤ → ℤ
amount_or_zero none = pos 0
amount_or_zero (some a) = a

-- The fresh total of `accumulate`.
unfoldable pub zero_total : CommerceConversion → CommerceCurrencyTotal
zero_total c = record {
  currency = c.currency;
  commission_amount = pos 0;
  gross_sales_amount = pos 0;
  orders_count = 0;
  items_sold = 0;
  conversion_records = 0;
}

-- The additions of `accumulate`.
unfoldable pub add_row : CommerceConversion → CommerceCurrencyTotal → CommerceCurrencyTotal
add_row c existing = record existing {
  commission_amount = existing.commission_amount +ℤ c.commission_amount;
  gross_sales_amount = existing.gross_sales_amount +ℤ amount_or_zero c.gross_sales_amount;
  orders_count = existing.orders_count + or_zero c.orders_count;
  items_sold = existing.items_sold + or_zero c.items_sold;
  conversion_records = existing.conversion_records + 1;
}

unfoldable pub by_currency : List CommerceConversion → List (String × CommerceCurrencyTotal)
by_currency conversions = group_loop zero_total add_row str_eq (λ c. c.currency) conversions []

abbrev pub same_channel_key : CommerceChannel × String → CommerceChannel × String → Bool
same_channel_key (a, x) (b, y) = channel_index a == channel_index b && str_eq x y

unfoldable pub by_channel :
    List CommerceConversion → List ((CommerceChannel × String) × CommerceCurrencyTotal)
by_channel conversions =
    group_loop zero_total add_row same_channel_key (λ c. (c.channel, c.currency)) conversions []

abbrev pub same_product_key : Option ℕ × String → Option ℕ × String → Bool
same_product_key (a, x) (b, y) = same_id a b && str_eq x y

unfoldable pub by_product :
    List CommerceConversion → List ((Option ℕ × String) × CommerceCurrencyTotal)
by_product conversions =
    group_loop zero_total add_row same_product_key (λ c. (c.product_id, c.currency)) conversions []

abbrev pub same_period_key : ℕ × ℕ × String → ℕ × ℕ × String → Bool
same_period_key (a, b, x) (c, d, y) = a == c && b == d && str_eq x y

unfoldable pub by_period : List CommerceConversion → List ((ℕ × ℕ × String) × CommerceCurrencyTotal)
by_period conversions =
    group_loop zero_total add_row same_period_key (λ c. (c.period_start, c.period_end, c.currency))
      conversions []

pub record CommerceSummaryQuery : Type 0 where
  pub channel : Option CommerceChannel
  pub product_id : Option ℕ
  pub period_start : Option ℕ
  pub period_end : Option ℕ

abbrev pub names : ℕ → Option ℕ → Bool
names id none = false
names id (some id') = id == id'

-- `summaryWhere`; the dates of a query are days.
unfoldable pub summary_where : CommerceSummaryQuery → CommerceConversion → Bool
summary_where query c =
    optional query.channel (λ channel. channel_index c.channel == channel_index channel)
    && optional query.product_id (λ id. names id c.product_id)
    && optional query.period_start (λ day. leb day c.period_start)
    && optional query.period_end (λ day. leb c.period_end day)

pub record CommerceSummary : Type 0 where
  pub totals : List (String × CommerceCurrencyTotal)
  pub by_channel : List ((CommerceChannel × String) × CommerceCurrencyTotal)
  pub by_product : List ((Option ℕ × String) × CommerceCurrencyTotal)
  pub by_period : List ((ℕ × ℕ × String) × CommerceCurrencyTotal)

-- `summary`
unfoldable pub summary : CommerceSummaryQuery → Market → CommerceSummary
summary query s =
    let conversions = keep (summary_where query) s.conversions in
    record {
      totals = by_currency conversions;
      by_channel = by_channel conversions;
      by_product = by_product conversions;
      by_period = by_period conversions;
    }

-- `orderBy: { createdAt: 'desc' }`
pub insert_by_age : CommerceConversion → List CommerceConversion → List CommerceConversion
insert_by_age c [] = c ∷ []
insert_by_age c (d ∷ ds) =
    if ltb c.created_at d.created_at then d ∷ insert_by_age c ds else c ∷ d ∷ ds

pub newest_first : List CommerceConversion → List CommerceConversion
newest_first [] = []
newest_first (c ∷ cs) = insert_by_age c (newest_first cs)

-- `{ in: ids }`, which no null is in.
abbrev pub in_ids : List ℕ → Option ℕ → Bool
in_ids ids none = false
in_ids ids (some id) = any (λ i. i == id) ids

-- `conversionsForTargets`; with no target the condition holds of no row.
unfoldable pub conversions_for_targets :
    List ℕ → List ℕ → List CommerceConversion → List CommerceConversion
unfolding newest_first insert_by_age
conversions_for_targets placement_ids post_ids conversions =
    newest_first
      (keep (λ c. in_ids placement_ids c.placement_id || in_ids post_ids c.post_id) conversions)

-- `contentSummary`, its totals and its lines.
unfoldable pub content_summary :
    ℕ → M Market (List (String × CommerceCurrencyTotal) × List CommerceConversion)
content_summary content_id s = elim (find_content content_id s.store.contents) [
  | none ↦ (err not_found, s)
  | some content ↦
      let placement_ids = map (λ p. p.id) (keep (λ p. p.content_id == content_id) s.placements) in
      let post_ids = map (λ p. p.id) (keep (λ p. p.content_id == content_id) s.store.posts) in
      let conversions = conversions_for_targets placement_ids post_ids s.conversions in
      (ok (by_currency conversions, conversions), s)
]
