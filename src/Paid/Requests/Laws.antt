-- ===== src/Paid/Requests/Laws.antt =====
-- The invariant of the paid campaigns over the requests.
use content_hub.Base.{ℕ}
use content_hub.Publish.Store.{Ports}
use content_hub.Paid.Desk.{PaidDesk}
use content_hub.Paid.Requests.{PaidRequest, after_request}
use content_hub.Paid.Lawful.{IsLawful}
use content_hub.Paid.Lawful.Campaigns.{
  create_campaign-IsLawful, update_campaign-IsLawful, retire_campaign-IsLawful,
}
use content_hub.Paid.Lawful.Entries.{add_entry-IsLawful}

-- Every request of the paid campaigns keeps their tables lawful, whether it returns or throws: the unique keys hold,
-- the dates of a campaign and the period of an entry are in order, all is in the one currency, an entry
-- stands under a campaign, and what it corrects is an entry of the same campaign.
pub after_paid_request-IsLawful :
    (ports : Ports) (user_id : ℕ) (request : PaidRequest) (s : PaidDesk)
    → IsLawful s
    → IsLawful (after_request ports user_id request s)
unfolding after_request
after_paid_request-IsLawful ports user_id (PaidRequest.create_campaign dto) s i =
    create_campaign-IsLawful ports dto user_id s i
after_paid_request-IsLawful ports user_id (PaidRequest.update_campaign id dto) s i =
    update_campaign-IsLawful id dto user_id s i
after_paid_request-IsLawful ports user_id (PaidRequest.retire_campaign id) s i =
    retire_campaign-IsLawful ports.now id user_id s i
after_paid_request-IsLawful ports user_id (PaidRequest.add_entry campaign_id dto) s i =
    add_entry-IsLawful ports campaign_id dto user_id s i
