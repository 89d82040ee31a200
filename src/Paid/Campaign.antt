-- ===== src/Paid/Campaign.antt =====
-- backend/src/modules/paid/paid-campaign.service.ts: campaigns are recorded, changed and retired. The list, a read, is left
-- out. The dates of a body are the milliseconds that `new Date` gives for valid texts.
use content_hub.Base.{
  ℕ, Bool, true, false, not, ◌||◌, Option, none, some, String, if◌then◌else◌, leb, or_this,
}
use content_hub.Base.Effects.{
  M, ok, err, ◌>>=◌, ◌>>◌, return, modify, ensure, not_found, conflict, database,
}
use content_hub.Base.Tables.{find_row, update_row, insert_unique}
use content_hub.Common.DateRange.{assert_valid_date_range}
use content_hub.Common.Currency.{default_currency, assert_supported_currency}
use content_hub.Content.Records.{find_content}
use content_hub.Content.Service.{Field, undefined, null, given, is_null, or_else, unless_undefined}
use content_hub.Publish.Store.{Ports, ad_campaign_created, ad_campaign_updated, ad_campaign_retired}
use content_hub.Commerce.Catalog.{decimal_of, currency_field}
use content_hub.Commerce.Market.{to_day}
use content_hub.Paid.Desk.{
  AdCampaignStatus, active, AdCampaign, campaign_keyed, PaidDesk, campaigns_clash, note,
}

pub record CreatePaidCampaign : Type 0 where
  pub external_campaign_name : String
  pub external_campaign_id : Option String
  pub objective : String
  pub content_id : Option ℕ
  pub start_date : ℕ
  pub end_date : Option ℕ
  pub planned_budget : Field ℕ
  pub currency : Option String
  pub status : Option AdCampaignStatus

pub record UpdatePaidCampaign : Type 0 where
  pub external_campaign_name : Field String
  pub objective : Field String
  pub content_id : Field ℕ
  pub start_date : Field ℕ
  pub end_date : Field ℕ
  pub planned_budget : Field ℕ
  pub currency : Field String
  pub status : Field AdCampaignStatus

abbrev pub day_of : Option ℕ → Option ℕ
day_of none = none
day_of (some t) = some (to_day t)

-- `if (contentId) await this.content.findOne(contentId)`
unfoldable pub assert_content_found : Option ℕ → M PaidDesk (Unit {0})
assert_content_found none s = (ok tt, s)
assert_content_found (some id) s = elim (find_content id s.store.contents) [
  | none ↦ (err not_found, s)
  | some content ↦ (ok tt, s)
]

unfoldable pub new_campaign : Ports → CreatePaidCampaign → String → Option ℕ → ℕ → AdCampaign
new_campaign ports dto currency planned_budget user_id = record {
  id = ports.new_id;
  external_campaign_name = dto.external_campaign_name;
  external_campaign_id = dto.external_campaign_id;
  objective = dto.objective;
  content_id = dto.content_id;
  start_date = to_day dto.start_date;
  end_date = day_of dto.end_date;
  planned_budget = planned_budget;
  currency = currency;
  status = or_this dto.status active;
  is_active = true;
  retired_at = none;
  created_by = user_id;
}

-- `createOrConflict`
unfoldable pub create_or_conflict : AdCampaign → M PaidDesk AdCampaign
create_or_conflict c s = elim (insert_unique campaigns_clash c s.campaigns) [
  | none ↦ (err conflict, s)
  | some rows ↦ (ok c, record s { campaigns = rows })
]

-- `create`
unfoldable pub create_campaign : Ports → CreatePaidCampaign → ℕ → M PaidDesk AdCampaign
create_campaign ports dto user_id = do
  currency ← assert_supported_currency (or_this dto.currency default_currency)
  assert_content_found dto.content_id
  assert_valid_date_range dto.start_date dto.end_date
  planned_budget ← decimal_of dto.planned_budget
  campaign ← create_or_conflict (new_campaign ports dto currency planned_budget user_id)
  modify (note user_id ad_campaign_created)
  return campaign

-- `findOrThrow`
unfoldable pub find_campaign_or_throw : ℕ → M PaidDesk AdCampaign
find_campaign_or_throw id s = elim (find_row id s.campaigns) [
  | none ↦ (err not_found, s)
  | some c ↦ (ok c, s)
]

abbrev pub given_id : Field ℕ → Option ℕ
given_id (given id) = some id
given_id _ = none

-- `effectiveEndDate`
abbrev pub effective_end : Field ℕ → Option ℕ → Option ℕ
effective_end undefined existing = existing
effective_end null existing = none
effective_end (given t) existing = some t

-- `...(dto.startDate !== undefined && { startDate: new Date(dto.startDate) })`; `new Date(null)` is the start of 1970.
abbrev pub start_column : Field ℕ → ℕ → ℕ
start_column undefined existing = existing
start_column null existing = 0
start_column (given t) existing = to_day t

abbrev pub end_column : Field ℕ → Option ℕ → Option ℕ
end_column undefined existing = existing
end_column null existing = some 0
end_column (given t) existing = some (to_day t)

-- The row with the given fields.
unfoldable pub campaign_patched : UpdatePaidCampaign → Field String → AdCampaign → AdCampaign
campaign_patched dto currency c = record c {
  external_campaign_name = or_else dto.external_campaign_name c.external_campaign_name;
  objective = or_else dto.objective c.objective;
  content_id = unless_undefined dto.content_id c.content_id;
  start_date = start_column dto.start_date c.start_date;
  end_date = end_column dto.end_date c.end_date;
  planned_budget = unless_undefined dto.planned_budget c.planned_budget;
  currency = or_else currency c.currency;
  status = or_else dto.status c.status;
}

-- The constraint `ad_campaigns_date_range_chk`.
abbrev pub dates_in_order : ℕ → Option ℕ → Bool
dates_in_order start none = true
dates_in_order start (some end_) = leb start end_

-- `adCampaign.update` on a row that was found, whose errors the code does not translate.
unfoldable pub update_campaign_row :
    ℕ → (AdCampaign → AdCampaign) → AdCampaign → M PaidDesk AdCampaign
update_campaign_row id data_ existing s =
    if dates_in_order (data_ existing).start_date (data_ existing).end_date
    then (ok (data_ existing), record s { campaigns = update_row id data_ s.campaigns })
    else (err database, s)

-- Required columns that the body sets to null, which the driver refuses.
unfoldable pub nulls_required : UpdatePaidCampaign → Bool
nulls_required dto =
    is_null dto.external_campaign_name || is_null dto.objective || is_null dto.status

-- `update`
unfoldable pub update_campaign : ℕ → UpdatePaidCampaign → ℕ → M PaidDesk AdCampaign
update_campaign id dto user_id = do
  existing ← find_campaign_or_throw id
  assert_content_found (given_id dto.content_id)
  assert_valid_date_range (or_else dto.start_date existing.start_date)
      (effective_end dto.end_date existing.end_date)
  ensure (not (is_null dto.planned_budget)) database
  currency ← currency_field dto.currency
  ensure (not (nulls_required dto)) database
  campaign ← update_campaign_row id (campaign_patched dto currency) existing
  modify (note user_id ad_campaign_updated)
  return campaign

unfoldable pub campaign_retired : ℕ → AdCampaign → AdCampaign
campaign_retired now c = record c { is_active = false; retired_at = some now }

-- `retire`
unfoldable pub retire_campaign : ℕ → ℕ → ℕ → M PaidDesk AdCampaign
retire_campaign now id user_id = do
  existing ← find_campaign_or_throw id
  campaign ← update_campaign_row id (campaign_retired now) existing
  modify (note user_id ad_campaign_retired)
  return campaign
