-- ===== src/Paid/Lawful.antt =====
-- What the tables of backend/src/modules/paid keep: unique keys, dates in order, entries under their campaign, and
-- corrections within one campaign.
pub mod Campaigns
pub mod Entries
use content_hub.Base.{ℕ, ◌≤◌, ◌≡◌, Option, none, some, List, All}
use content_hub.Base.Tables.{find_row, Apart}
use content_hub.Common.DateRange.{InOrder}
use content_hub.Common.Currency.{default_currency}
use content_hub.Paid.Desk.{
  AdCampaign, campaign_keyed, AdPerformanceEntry, entry_keyed, PaidDesk, campaigns_clash,
  entries_clash,
}

abbrev pub IsDated : AdCampaign → Type 0
IsDated c = InOrder c.start_date c.end_date × (c.currency ≡ default_currency)

abbrev pub IsUnder : List AdCampaign → AdPerformanceEntry → Type 0
IsUnder campaigns e = (c : AdCampaign) × (find_row e.campaign_id campaigns ≡ some c)

abbrev pub IsPeriod : AdPerformanceEntry → Type 0
IsPeriod e = (e.period_start ≤ e.period_end) × (e.currency ≡ default_currency)

-- What an entry corrects is an entry of the same campaign.
abbrev pub IsCorrection : List AdPerformanceEntry → AdPerformanceEntry → Type 0
IsCorrection entries e =
    (id : ℕ)
    → e.corrects_entry_id ≡ some id
    → (t : AdPerformanceEntry) × (find_row id entries ≡ some t) × (t.campaign_id ≡ e.campaign_id)

pub record LawfulTables (campaigns : List AdCampaign) (entries : List AdPerformanceEntry)
    : Type 0 where
  pub campaigns_apart : Apart campaigns_clash campaigns
  pub entries_apart : Apart entries_clash entries
  pub dated : All IsDated campaigns
  pub under : All (IsUnder campaigns) entries
  pub periods : All IsPeriod entries
  pub corrections : All (IsCorrection entries) entries

abbrev pub IsLawful : PaidDesk → Type 0
IsLawful s = LawfulTables s.campaigns s.entries
