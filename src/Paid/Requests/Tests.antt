-- ===== src/Paid/Requests/Tests.antt =====
-- One campaign, with a change of its dates, and an entry that is sent twice.
use content_hub.Base.{◌≡◌, refl, [], ◌∷◌, true, none, some, arith}
use content_hub.Base.Effects.{err, conflict, database}
use content_hub.Base.Tables.{find_row, insert_unique, update_row}
use content_hub.Common.DateRange.{assert_valid_date_range}
use content_hub.Common.RefShape.{matches_ref, assert_ref_shape}
use content_hub.Common.Currency.{is_supported_currency, assert_supported_currency}
use content_hub.Content.Service.{undefined, null}
use content_hub.Publish.Samples.{ports, before}
use content_hub.Publish.Store.{record_audit}
use content_hub.Commerce.Catalog.{currency_field}
use content_hub.Paid.Desk.{AdCampaign, active, PaidDesk, campaigns_clash, entries_clash, note}
use content_hub.Paid.Campaign.{
  UpdatePaidCampaign, assert_content_found, find_campaign_or_throw, campaign_patched,
  update_campaign_row, nulls_required, update_campaign,
}
use content_hub.Paid.Performance.{
  CreatePerformanceEntry, is_same_entry, assert_new_entry, assert_correction_target, new_entry,
  insert_entry, add_entry,
}
use content_hub.Paid.Performance.Laws.{add_entry_again}
use content_hub.Paid.Lawful.{IsLawful}
use content_hub.Paid.Requests.{PaidRequest, after_request}
use content_hub.Paid.Requests.Laws.{after_paid_request-IsLawful}

abbrev launch : AdCampaign
launch = record {
  id = 31;
  external_campaign_name = "Launch";
  external_campaign_id = none;
  objective = "reach";
  content_id = some 3;
  start_date = 86400000;
  end_date = some 864000000;
  planned_budget = none;
  currency = "THB";
  status = active;
  is_active = true;
  retired_at = none;
  created_by = 1;
}

abbrev desk : PaidDesk
desk = record { store = before; campaigns = launch ∷ []; entries = [] }

abbrev week : CreatePerformanceEntry
week = record {
  period_start = 86400000;
  period_end = 604800000;
  spend = 30000;
  reach = none;
  impressions = none;
  clicks = some 12;
  result_type = none;
  result_count = none;
  currency = none;
  corrects_entry_id = none;
  source_ref = some "w29";
}

abbrev open_ended : UpdatePaidCampaign
open_ended = record {
  external_campaign_name = undefined;
  objective = undefined;
  content_id = undefined;
  start_date = undefined;
  end_date = null;
  planned_budget = undefined;
  currency = undefined;
  status = undefined;
}

serving : Unit {0}
unfolding find_row insert_unique update_row assert_valid_date_range matches_ref assert_ref_shape
    is_supported_currency assert_supported_currency record_audit currency_field campaigns_clash
    entries_clash note assert_content_found find_campaign_or_throw campaign_patched
    update_campaign_row nulls_required update_campaign is_same_entry assert_new_entry
    assert_correction_target new_entry insert_entry add_entry
serving = tt

desk-IsLawful : IsLawful desk
desk-IsLawful = record {
  campaigns_apart = (refl, tt);
  entries_apart = tt;
  dated = ((omega arith, refl), tt);
  under = tt;
  periods = tt;
  corrections = tt;
}

after_paid_request-IsLawful_example :
    IsLawful (after_request ports 1 (PaidRequest.add_entry 31 week) desk)
after_paid_request-IsLawful_example =
    after_paid_request-IsLawful ports 1 (PaidRequest.add_entry 31 week) desk desk-IsLawful

add_entry_again_example :
    add_entry ports 31 week 1 (add_entry ports 31 week 1 desk).1
    ≡ (err conflict, (add_entry ports 31 week 1 desk).1)
unfolding serving
add_entry_again_example = add_entry_again ports ports 31 week 1 desk _ refl (omega arith)

-- A body that clears the end of a campaign writes the start of 1970, which the constraint refuses.
cleared_end : update_campaign 31 open_ended 1 desk ≡ (err database, desk)
unfolding serving
cleared_end = refl
