-- ===== src/Paid/Desk.antt =====
-- The tables of the paid campaigns (models AdCampaign and AdPerformanceEntry of backend/prisma/schema.prisma, with the
-- constraints of the migration 20260721091512_phase7_paid_visibility). The one channel, `source` and `updated_at` are left out;
-- amounts are hundredths and days the milliseconds of their midnight.
use content_hub.Base.{ℕ, Bool, true, false, ◌||◌, List, Option, none, some, String, ◌==◌}
use content_hub.Base.Tables.{Keyed}
use text.Mathlib.Text.{◌==◌ as str_eq}
use content_hub.Publish.Store.{Store, AuditAction, record_audit, audit_row}

pub data AdCampaignStatus : Type 0 where
  active paused ended : AdCampaignStatus

pub record AdCampaign : Type 0 where
  pub id : ℕ
  pub external_campaign_name : String
  pub external_campaign_id : Option String
  pub objective : String
  pub content_id : Option ℕ
  pub start_date : ℕ
  pub end_date : Option ℕ
  pub planned_budget : Option ℕ
  pub currency : String
  pub status : AdCampaignStatus
  pub is_active : Bool
  pub retired_at : Option ℕ
  pub created_by : ℕ

pub record AdPerformanceEntry : Type 0 where
  pub id : ℕ
  pub campaign_id : ℕ
  pub spend : ℕ
  pub reach : Option ℕ
  pub impressions : Option ℕ
  pub clicks : Option ℕ
  pub result_type : Option String
  pub result_count : Option ℕ
  pub currency : String
  pub period_start : ℕ
  pub period_end : ℕ
  pub source_ref : Option String
  pub corrects_entry_id : Option ℕ
  pub recorded_by : ℕ
  pub created_at : ℕ

pub record PaidDesk : Type 0 where
  pub store : Store
  pub campaigns : List AdCampaign
  pub entries : List AdPerformanceEntry

instance abbrev pub campaign_keyed : Keyed AdCampaign
campaign_keyed = record { key = λ c. c.id }

instance abbrev pub entry_keyed : Keyed AdPerformanceEntry
entry_keyed = record { key = λ e. e.id }

-- A unique key with a null clashes with none.
abbrev pub same_external : Option String → Option String → Bool
same_external (some a) (some b) = str_eq a b
same_external _ _ = false

unfoldable pub campaigns_clash : AdCampaign → AdCampaign → Bool
campaigns_clash c d = c.id == d.id || same_external c.external_campaign_id d.external_campaign_id

unfoldable pub entries_clash : AdPerformanceEntry → AdPerformanceEntry → Bool
entries_clash e f = e.id == f.id

-- `this.auditLog.record` of a success.
unfoldable pub note : ℕ → AuditAction → PaidDesk → PaidDesk
note actor action s = record s { store = record_audit (audit_row actor action true none) s.store }
