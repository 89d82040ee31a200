-- ===== src/Paid/Read/Tests.antt =====
-- Two entries of one campaign, one without a type of result.
use content_hub.Base.{◌≡◌, refl, true, [], ◌∷◌, none, some, ℕ, length, map}
use content_hub.Base.Grouping.{accumulate, group_loop}
use text.Mathlib.Text.{◌==◌ as str_eq}
use content_hub.Publish.Samples.{before}
use content_hub.Paid.Desk.{AdCampaign, active, AdPerformanceEntry, PaidDesk}
use content_hub.Paid.Read.{
  zero_entry, add_spend, paid_by_currency, by_campaign, zero_item, add_item, by_result_type,
  PaidSummaryQuery, campaign_ids, campaign_where, entries_for, paid_summary,
}

abbrev entry : ℕ → AdPerformanceEntry
entry id = record {
  id = id;
  campaign_id = 31;
  spend = 2500;
  reach = none;
  impressions = some 7;
  clicks = some 2;
  result_type = none;
  result_count = none;
  currency = "THB";
  period_start = 86400000;
  period_end = 172800000;
  source_ref = none;
  corrects_entry_id = none;
  recorded_by = 1;
  created_at = 10;
}

abbrev campaign : AdCampaign
campaign = record {
  id = 31;
  external_campaign_name = "Launch";
  external_campaign_id = none;
  objective = "reach";
  content_id = some 3;
  start_date = 86400000;
  end_date = none;
  planned_budget = none;
  currency = "THB";
  status = active;
  is_active = true;
  retired_at = none;
  created_by = 1;
}

abbrev desk : PaidDesk
desk = record {
  store = before;
  campaigns = campaign ∷ [];
  entries = entry 1 ∷ record (entry 2) { result_type = some "unlabelled" } ∷ [];
}

abbrev anything : PaidSummaryQuery
anything = record { campaign_id = none; content_id = none; period_start = none; period_end = none }

reading : Unit {0}
unfolding paid_summary entries_for campaign_where campaign_ids by_result_type by_campaign
    paid_by_currency zero_entry add_spend zero_item add_item accumulate group_loop
reading = tt

-- A type that is missing and the type "unlabelled" have one group.
one_label : map (λ g. g.1.total.total_spend) (paid_summary anything desk).by_result_type ≡ 5000 ∷ []
unfolding reading
one_label = refl

-- The campaign of a query counts for nothing where it also names a content.
campaign_overruled :
    length (entries_for (record anything { campaign_id = some 99; content_id = some 3 }) desk) ≡ 2
unfolding reading
campaign_overruled = refl
