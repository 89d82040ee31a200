-- ===== src/Paid/Performance.antt =====
-- backend/src/modules/paid/paid-performance.service.ts: the append-only entries on what a campaign has cost and brought. The
-- lists, reads, are left out.
pub mod Laws
use content_hub.Base.{
  ℕ, ◌-◌, ◌*◌, Bool, true, false, not, ◌&&◌, List, ◌∷◌, Option, none, some, String, ◌==◌, leb, any,
  or_this,
}
use content_hub.Base.Effects.{
  M, ok, err, feed, ◌>>=◌, ◌>>◌, return, modify, ensure, not_found, conflict, bad_request, database,
}
use content_hub.Base.Tables.{find_row, insert_unique}
use text.Mathlib.Text.{◌==◌ as str_eq}
use content_hub.Common.DateRange.{assert_valid_date_range}
use content_hub.Common.RefShape.{assert_ref_shape}
use content_hub.Common.Currency.{default_currency, assert_supported_currency}
use content_hub.Publish.Store.{Ports, ad_performance_entry_added}
use content_hub.Commerce.Market.{to_day}
use content_hub.Commerce.Conversion.{same_id, same_text}
use content_hub.Paid.Desk.{AdPerformanceEntry, entry_keyed, PaidDesk, entries_clash, note}
use content_hub.Paid.Campaign.{find_campaign_or_throw}

pub record CreatePerformanceEntry : Type 0 where
  pub period_start : ℕ
  pub period_end : ℕ
  pub spend : ℕ
  pub reach : Option ℕ
  pub impressions : Option ℕ
  pub clicks : Option ℕ
  pub result_type : Option String
  pub result_count : Option ℕ
  pub currency : Option String
  pub corrects_entry_id : Option ℕ
  pub source_ref : Option String

-- `PAID_PERFORMANCE_ENTRY_IDEMPOTENCY_WINDOW_MS`
abbrev pub entry_window_ms : ℕ
entry_window_ms = 60 * 1000

-- The condition on a duplicate.
unfoldable pub is_same_entry :
    ℕ → ℕ → CreatePerformanceEntry → ℕ → String → AdPerformanceEntry → Bool
is_same_entry now campaign_id dto user_id currency e =
    e.campaign_id == campaign_id
    && e.recorded_by == user_id
    && leb (now - entry_window_ms) e.created_at
    && e.period_start == to_day dto.period_start
    && e.period_end == to_day dto.period_end
    && e.spend == dto.spend
    && same_id e.reach dto.reach
    && same_id e.impressions dto.impressions
    && same_id e.clicks dto.clicks
    && same_text e.result_type dto.result_type
    && same_id e.result_count dto.result_count
    && str_eq e.currency currency
    && same_text e.source_ref dto.source_ref
    && same_id e.corrects_entry_id dto.corrects_entry_id

-- `assertNotDuplicateWithinWindow`
unfoldable pub assert_new_entry :
    ℕ → ℕ → CreatePerformanceEntry → ℕ → String → M PaidDesk (Unit {0})
assert_new_entry now campaign_id dto user_id currency s =
    ensure (not (any (is_same_entry now campaign_id dto user_id currency) s.entries)) conflict s

-- `assertCorrectionTargetIsSameCampaign`
unfoldable pub assert_correction_target : ℕ → Option ℕ → M PaidDesk (Unit {0})
assert_correction_target campaign_id none s = (ok tt, s)
assert_correction_target campaign_id (some id) s = elim (find_row id s.entries) [
  | none ↦ (err not_found, s)
  | some target ↦ elim (target.campaign_id == campaign_id) [
    | true ↦ (ok tt, s)
    | false ↦ (err bad_request, s)
  ]
]

unfoldable pub new_entry : Ports → ℕ → CreatePerformanceEntry → String → ℕ → AdPerformanceEntry
new_entry ports campaign_id dto currency user_id = record {
  id = ports.new_id;
  campaign_id = campaign_id;
  spend = dto.spend;
  reach = dto.reach;
  impressions = dto.impressions;
  clicks = dto.clicks;
  result_type = dto.result_type;
  result_count = dto.result_count;
  currency = currency;
  period_start = to_day dto.period_start;
  period_end = to_day dto.period_end;
  source_ref = dto.source_ref;
  corrects_entry_id = dto.corrects_entry_id;
  recorded_by = user_id;
  created_at = ports.now;
}

-- `adPerformanceEntry.create`; what the row refers to was found before.
unfoldable pub insert_entry : AdPerformanceEntry → M PaidDesk AdPerformanceEntry
insert_entry e s = elim (insert_unique entries_clash e s.entries) [
  | none ↦ (err database, s)
  | some rows ↦ (ok e, record s { entries = rows })
]

-- `addEntry`
unfoldable pub add_entry : Ports → ℕ → CreatePerformanceEntry → ℕ → M PaidDesk AdPerformanceEntry
add_entry ports campaign_id dto user_id = do
  find_campaign_or_throw campaign_id
  assert_ref_shape dto.source_ref
  currency ← assert_supported_currency (or_this dto.currency default_currency)
  assert_valid_date_range dto.period_start (some dto.period_end)
  assert_new_entry ports.now campaign_id dto user_id currency
  assert_correction_target campaign_id dto.corrects_entry_id
  entry ← insert_entry (new_entry ports campaign_id dto currency user_id)
  modify (note user_id ad_performance_entry_added)
  return entry
