-- ===== src/Commerce/Requests/Laws.antt =====
-- The invariant of the shop over any sequence of requests.
use content_hub.Base.{ℕ}
use content_hub.Publish.Store.{Ports}
use content_hub.Commerce.Market.{Market}
use content_hub.Commerce.Requests.{MarketRequest, after_request}
use content_hub.Commerce.Lawful.{IsLawful}
use content_hub.Commerce.Lawful.Placements.{record_placement-IsLawful}
use content_hub.Commerce.Lawful.Anchors.{anchor_to-IsLawful, remove_from-IsLawful}
use content_hub.Commerce.Lawful.Catalog.{
  create_product-IsLawful, update_product-IsLawful, retire_product-IsLawful, create_link-IsLawful,
  retire_link-IsLawful,
}
use content_hub.Commerce.Lawful.Conversions.{create_conversion-IsLawful}

-- Every request of the shop keeps its tables lawful, whether it returns or throws: the unique keys hold, what stands
-- in a shop fits the rule on its length, a link of an anchor is one of the anchored product, and each line has
-- an ordered period and the attribution of the line that it reverses.
pub after_request-IsLawful :
    (ports : Ports) (user_id : ℕ) (request : MarketRequest) (s : Market)
    → IsLawful s
    → IsLawful (after_request ports user_id request s)
unfolding after_request
after_request-IsLawful ports user_id (MarketRequest.record_placement dto) s i =
    record_placement-IsLawful ports dto user_id s i
after_request-IsLawful ports user_id (MarketRequest.anchor_to target items) s i =
    anchor_to-IsLawful ports.new_id ports.now target items user_id s i
after_request-IsLawful ports user_id (MarketRequest.remove_from target id) s i =
    remove_from-IsLawful ports.now target id user_id s i
after_request-IsLawful ports user_id (MarketRequest.create_product dto) s i =
    create_product-IsLawful ports dto user_id s i
after_request-IsLawful ports user_id (MarketRequest.update_product id dto) s i =
    update_product-IsLawful id dto user_id s i
after_request-IsLawful ports user_id (MarketRequest.retire_product id) s i =
    retire_product-IsLawful ports.now id user_id s i
after_request-IsLawful ports user_id (MarketRequest.retire_link id) s i =
    retire_link-IsLawful ports.now id user_id s i
after_request-IsLawful ports user_id (MarketRequest.create_link product_id dto) s i =
    create_link-IsLawful ports.new_id product_id dto user_id s i
after_request-IsLawful ports user_id (MarketRequest.create_conversion dto) s i =
    create_conversion-IsLawful ports dto user_id s i
