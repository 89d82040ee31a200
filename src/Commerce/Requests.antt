-- ===== src/Commerce/Requests.antt =====
-- The requests that change the shop (backend/src/modules/commerce), and how each is served.
mod Tests
pub mod Laws
use content_hub.Base.{ℕ, List}
use content_hub.Publish.Store.{Ports}
use content_hub.Commerce.Market.{Market, AnchorTarget}
use content_hub.Commerce.Placement
use content_hub.Commerce.Anchor
use content_hub.Commerce.Catalog
use content_hub.Commerce.Conversion
use content_hub.Commerce.Placement.{RecordCommercePlacement}
use content_hub.Commerce.Anchor.{AnchorItem}
use content_hub.Commerce.Catalog.{CreateProduct, UpdateProduct, CreateAffiliateLink}
use content_hub.Commerce.Conversion.{CreateConversion}

pub data MarketRequest : Type 0 where
  record_placement : RecordCommercePlacement → MarketRequest
  anchor_to : AnchorTarget → List AnchorItem → MarketRequest
  remove_from : AnchorTarget → ℕ → MarketRequest
  create_product : CreateProduct → MarketRequest
  update_product : ℕ → UpdateProduct → MarketRequest
  retire_product retire_link : ℕ → MarketRequest
  create_link : ℕ → CreateAffiliateLink → MarketRequest
  create_conversion : CreateConversion → MarketRequest

-- The state after a request, whether it returns or throws. What is awaited is read and written at once.
unfoldable pub after_request : Ports → ℕ → MarketRequest → Market → Market
after_request ports user_id (MarketRequest.record_placement dto) s =
    (Placement.record_placement ports dto user_id s).1
after_request ports user_id (MarketRequest.anchor_to target items) s =
    (Anchor.anchor_to ports.new_id ports.now target items user_id s).1
after_request ports user_id (MarketRequest.remove_from target id) s =
    (Anchor.remove_from ports.now target id user_id s).1
after_request ports user_id (MarketRequest.create_product dto) s =
    (Catalog.create_product ports dto user_id s).1
after_request ports user_id (MarketRequest.update_product id dto) s =
    (Catalog.update_product id dto user_id s).1
after_request ports user_id (MarketRequest.retire_product id) s =
    (Catalog.retire_product ports.now id user_id s).1
after_request ports user_id (MarketRequest.retire_link id) s =
    (Catalog.retire_link ports.now id user_id s).1
after_request ports user_id (MarketRequest.create_link product_id dto) s =
    (Catalog.create_link ports.new_id product_id dto user_id s).1
after_request ports user_id (MarketRequest.create_conversion dto) s =
    (Conversion.create_conversion ports dto user_id s).1
