-- ===== src/Paid/Read.antt =====
-- backend/src/modules/paid/paid-read.service.ts: the totals of the entries, by currency, and by campaign or type of result
-- within a currency. Spend is in hundredths, which `round2` leaves as they are. The keys of the groups are
-- pairs here and texts there; a currency has no colon, so they are told apart alike. The time of the answer
-- is left out.
pub mod Laws
mod Tests
use content_hub.Base.{
  ℕ, ◌+◌, Bool, true, false, ◌&&◌, List, [], ◌∷◌, Option, none, some, String, ◌==◌, leb, any, keep,
  map, if◌then◌else◌, optional, or_zero,
}
use content_hub.Base.Grouping.{group_loop}
use text.Mathlib.Text.{◌==◌ as str_eq}
use content_hub.Commerce.Conversion.{same_id}
use content_hub.Paid.Desk.{AdCampaign, AdPerformanceEntry, PaidDesk}

pub record PaidCurrencyTotal : Type 0 where
  pub currency : String
  pub total_spend : ℕ
  pub total_reach : ℕ
  pub total_impressions : ℕ
  pub total_clicks : ℕ
  pub total_result_count : ℕ
  pub entries_count : ℕ

-- The fresh total of `accumulate`.
unfoldable pub zero_entry : AdPerformanceEntry → PaidCurrencyTotal
zero_entry e = record {
  currency = e.currency;
  total_spend = 0;
  total_reach = 0;
  total_impressions = 0;
  total_clicks = 0;
  total_result_count = 0;
  entries_count = 0;
}

-- The additions of `accumulate`.
unfoldable pub add_spend : AdPerformanceEntry → PaidCurrencyTotal → PaidCurrencyTotal
add_spend e existing = record existing {
  total_spend = existing.total_spend + e.spend;
  total_reach = existing.total_reach + or_zero e.reach;
  total_impressions = existing.total_impressions + or_zero e.impressions;
  total_clicks = existing.total_clicks + or_zero e.clicks;
  total_result_count = existing.total_result_count + or_zero e.result_count;
  entries_count = existing.entries_count + 1;
}

unfoldable pub paid_by_currency : List AdPerformanceEntry → List (String × PaidCurrencyTotal)
paid_by_currency entries = group_loop zero_entry add_spend str_eq (λ e. e.currency) entries []

abbrev pub same_campaign_key : ℕ × String → ℕ × String → Bool
same_campaign_key (a, x) (b, y) = a == b && str_eq x y

-- The campaign of an item is the first part of its key.
unfoldable pub by_campaign : List AdPerformanceEntry → List ((ℕ × String) × PaidCurrencyTotal)
by_campaign entries =
    group_loop zero_entry add_spend same_campaign_key (λ e. (e.campaign_id, e.currency)) entries []

-- The item has the type of its first entry, which may be null.
pub record PaidResultTypeBreakdownItem : Type 0 where
  pub result_type : Option String
  pub total : PaidCurrencyTotal

unfoldable pub zero_item : AdPerformanceEntry → PaidResultTypeBreakdownItem
zero_item e = record { result_type = e.result_type; total = zero_entry e }

unfoldable pub add_item :
    AdPerformanceEntry → PaidResultTypeBreakdownItem → PaidResultTypeBreakdownItem
add_item e item = record item { total = add_spend e item.total }

-- `entry.resultType ?? 'unlabelled'`
abbrev pub label_of : Option String → String
label_of none = "unlabelled"
label_of (some label) = label

abbrev pub same_label_key : String × String → String × String → Bool
same_label_key (a, x) (b, y) = str_eq a b && str_eq x y

unfoldable pub by_result_type :
    List AdPerformanceEntry → List ((String × String) × PaidResultTypeBreakdownItem)
by_result_type entries =
    group_loop zero_item add_item same_label_key (λ e. (label_of e.result_type, e.currency)) entries
      []

pub record PaidSummaryQuery : Type 0 where
  pub campaign_id : Option ℕ
  pub content_id : Option ℕ
  pub period_start : Option ℕ
  pub period_end : Option ℕ

-- The ids of the campaigns of a content.
unfoldable pub campaign_ids : ℕ → List AdCampaign → List ℕ
campaign_ids content_id campaigns =
    map (λ c. c.id) (keep (λ c. same_id c.content_id (some content_id)) campaigns)

-- The condition on the campaign: the one of a content takes the place of the one that is asked for.
unfoldable pub campaign_where : PaidSummaryQuery → List AdCampaign → AdPerformanceEntry → Bool
campaign_where query campaigns e = elim query.content_id [
  | none ↦ optional query.campaign_id (λ id. e.campaign_id == id)
  | some content_id ↦ any (λ id. id == e.campaign_id) (campaign_ids content_id campaigns)
]

-- `entriesFor`; the dates of a query are days.
unfoldable pub entries_for : PaidSummaryQuery → PaidDesk → List AdPerformanceEntry
entries_for query s =
    keep
      (λ e.
        campaign_where query s.campaigns e
        && optional query.period_start (λ day. leb day e.period_start)
        && optional query.period_end (λ day. leb e.period_end day))
      s.entries

pub record PaidSummary : Type 0 where
  pub totals : List (String × PaidCurrencyTotal)
  pub by_campaign : List ((ℕ × String) × PaidCurrencyTotal)
  pub by_result_type : List ((String × String) × PaidResultTypeBreakdownItem)

-- `summary`
unfoldable pub paid_summary : PaidSummaryQuery → PaidDesk → PaidSummary
paid_summary query s =
    let entries = entries_for query s in
    record {
      totals = paid_by_currency entries;
      by_campaign = by_campaign entries;
      by_result_type = by_result_type entries;
    }
