-- ===== src/Commerce/Samples.antt =====
-- A small shop with its requests, for the tests.
use content_hub.Base.{true, List, [], ◌∷◌, none, some}
use content_hub.Base.Int.{pos, negsuc}
use content_hub.Content.Service.{undefined}
use content_hub.Publish.Store.{Ports}
use content_hub.Publish.Samples.{ports, before}
use content_hub.Commerce.Duration.{shopee}
use content_hub.Commerce.Market.{CommerceProduct, CommercePlacement, recorded, Market}
use content_hub.Commerce.Placement.{RecordCommercePlacement}
use content_hub.Commerce.Anchor.{AnchorItem}
use content_hub.Commerce.Conversion.{CreateConversion}

abbrev pub mug : CommerceProduct
mug = record {
  id = 21;
  channel = shopee;
  external_product_id = "sp-1";
  name = "Mug";
  sku = none;
  product_url = none;
  list_price = some 25000;
  currency = "THB";
  commission_rate_pct = none;
  is_active = true;
  retired_at = none;
  created_by = 1;
}

abbrev pub bare : Market
bare = record {
  store = before;
  assets = [];
  products = mug ∷ [];
  links = [];
  anchors = [];
  placements = [];
  conversions = [];
}

abbrev pub placing : RecordCommercePlacement
placing = record {
  content_id = 3;
  channel = shopee;
  external_media_id = "v-1";
  external_url = none;
  duration_seconds = some 30;
  source_asset_id = none;
  password = "p";
  note = none;
}

abbrev pub placed_row : CommercePlacement
placed_row = record {
  id = 7;
  content_id = 3;
  channel = shopee;
  external_media_id = "v-1";
  external_url = none;
  status = recorded;
  source_asset_id = none;
  media_url = none;
  duration_seconds = some 30;
  note = none;
  recorded_by = 1;
  placed_at = 50;
}

abbrev pub stocked : Market
stocked = record bare { placements = placed_row ∷ [] }

abbrev pub pins : List AnchorItem
pins = record { product_id = 21; affiliate_link_id = none } ∷ []

abbrev pub line_of_week : CreateConversion
line_of_week = record {
  channel = shopee;
  period_start = 0;
  period_end = 604800000;
  orders_count = some 4;
  items_sold = none;
  gross_sales_amount = undefined;
  commission_amount = pos 12050;
  post_id = none;
  placement_id = some 7;
  product_id = some 21;
  affiliate_link_id = none;
  reversal_of_id = none;
  statement_ref = some "2026-W29";
}

abbrev pub refund_of_week : CreateConversion
refund_of_week = record line_of_week {
  orders_count = none;
  commission_amount = negsuc 12049;
  placement_id = none;
  product_id = none;
  reversal_of_id = some 7;
}

abbrev pub later_ports : Ports
later_ports = record ports { now = 60; new_id = 8 }
