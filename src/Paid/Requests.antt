-- ===== src/Paid/Requests.antt =====
-- The requests that change the paid campaigns (backend/src/modules/paid), and what they keep.
mod Tests
pub mod Laws
use content_hub.Base.{ℕ}
use content_hub.Publish.Store.{Ports}
use content_hub.Paid.Desk.{PaidDesk}
use content_hub.Paid.Campaign
use content_hub.Paid.Campaign.{CreatePaidCampaign, UpdatePaidCampaign}
use content_hub.Paid.Performance
use content_hub.Paid.Performance.{CreatePerformanceEntry}

pub data PaidRequest : Type 0 where
  create_campaign : CreatePaidCampaign → PaidRequest
  update_campaign : ℕ → UpdatePaidCampaign → PaidRequest
  retire_campaign : ℕ → PaidRequest
  add_entry : ℕ → CreatePerformanceEntry → PaidRequest

-- The state after a request, whether it returns or throws.
unfoldable pub after_request : Ports → ℕ → PaidRequest → PaidDesk → PaidDesk
after_request ports user_id (PaidRequest.create_campaign dto) s =
    (Campaign.create_campaign ports dto user_id s).1
after_request ports user_id (PaidRequest.update_campaign id dto) s =
    (Campaign.update_campaign id dto user_id s).1
after_request ports user_id (PaidRequest.retire_campaign id) s =
    (Campaign.retire_campaign ports.now id user_id s).1
after_request ports user_id (PaidRequest.add_entry campaign_id dto) s =
    (Performance.add_entry ports campaign_id dto user_id s).1
