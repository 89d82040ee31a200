-- ===== src/Commerce/Requests/Tests.antt =====
-- The theorems on the shop at a small shop.
use content_hub.Base.{inr, ◌≡◌, refl, [], ◌∷◌, none, arith, ◌↔◌}
use content_hub.Base.Int.{pos, ◌+ℤ◌, negate}
use content_hub.Base.Effects.{ok, err, conflict}
use content_hub.Base.Tables.{find_row, insert_unique}
use content_hub.Common.DateRange.{assert_valid_date_range}
use content_hub.Common.RefShape.{matches_ref, assert_ref_shape}
use content_hub.Content.Records.{find_content}
use content_hub.Content.Gate.{can_mark_copyright_cleared}
use content_hub.Publish.Samples.{ports}
use content_hub.Publish.Posts.{find_post}
use content_hub.Publish.Store.{find_user, record_audit, product_anchor_recorded}
use content_hub.Publish.StepUp.{assert_fresh_password}
use content_hub.Publish.Orchestrator.{load_content_or_throw, assert_publishable_content}
use text.Mathlib.Text.{◌==◌ as str_eq}
use content_hub.Commerce.Duration.{assert_shopee_duration}
use content_hub.Commerce.Market.{
  placements_clash, anchors_clash, conversions_clash, placement, note, Market,
}
use content_hub.Commerce.Placement.{
  is_active_placement, assert_no_active_placement, resolve_media, new_placement,
  create_placement_or_conflict, record_placement,
}
use content_hub.Commerce.Placement.Laws.{Placed, record_placement-Placed}
use content_hub.Commerce.Anchor.{
  is_anchored, assert_target_exists, assert_product_is_active, assert_link_belongs_to_product,
  new_anchor, create_anchor_or_conflict, anchor_new, anchor_one, anchor_loop, anchor_to,
}
use content_hub.Commerce.Anchor.Laws.{anchor_to_again}
use content_hub.Commerce.Conversion.{
  is_duplicate, assert_not_duplicate, load_reversal_target, linkage_of, new_conversion,
  references_hold, insert_conversion, create_conversion,
}
use content_hub.Commerce.Conversion.Laws.{
  Added, create_conversion-Added, NamesLinkage, resubmitted_iff,
}
use content_hub.Commerce.Read.{
  by_currency, zero_total, add_row, summary, summary_where, CommerceSummaryQuery,
}
use content_hub.Base.Grouping.{accumulate, group_loop}
use content_hub.Commerce.Read.Sums.{commission_in}
use content_hub.Commerce.Read.Reversal.{content_totals, reversal_cancels}
use content_hub.Commerce.Lawful.{IsLawful}
use content_hub.Commerce.Requests.{MarketRequest, after_request}
use content_hub.Commerce.Requests.Laws.{after_request-IsLawful}
use content_hub.Commerce.Samples.{
  bare, placing, placed_row, stocked, pins, line_of_week, refund_of_week, later_ports,
}

serving : Unit {0}
unfolding find_row insert_unique find_content can_mark_copyright_cleared find_post find_user
    record_audit assert_fresh_password load_content_or_throw assert_publishable_content
    assert_shopee_duration placements_clash anchors_clash conversions_clash note is_active_placement
    assert_no_active_placement resolve_media new_placement create_placement_or_conflict
    record_placement is_anchored assert_target_exists assert_product_is_active
    assert_link_belongs_to_product new_anchor create_anchor_or_conflict anchor_new anchor_one
    anchor_loop anchor_to is_duplicate assert_not_duplicate load_reversal_target linkage_of
    new_conversion references_hold insert_conversion create_conversion assert_valid_date_range
    matches_ref assert_ref_shape negate summary_where
serving = tt

record_placement-Placed_example :
    Placed ports placing 1 bare (record_placement ports placing 1 bare).1 placed_row
unfolding serving
record_placement-Placed_example = record_placement-Placed ports placing 1 bare _ refl

stocked-IsLawful : IsLawful stocked
stocked-IsLawful = record {
  products_apart = (refl, tt);
  links_apart = tt;
  anchors_apart = tt;
  placements_apart = (refl, tt);
  conversions_apart = tt;
  linked = tt;
  placeable = (inr (30, refl, omega arith, omega arith), tt);
  periods = tt;
  backed = tt;
}

after_request-IsLawful_example :
    IsLawful (after_request ports 1 (MarketRequest.create_conversion line_of_week) stocked)
after_request-IsLawful_example =
    after_request-IsLawful ports 1 (MarketRequest.create_conversion line_of_week) stocked
      stocked-IsLawful

abbrev pinned : Market
pinned = (anchor_to 40 60 (placement 7) pins 1 stocked).1

anchor_to_again_example : anchor_to 41 90 (placement 7) pins 1 pinned ≡ (
  ok (new_anchor 40 60 (placement 7) (record { product_id = 21; affiliate_link_id = none }) 1 ∷ []),
  note 1 product_anchor_recorded pinned,
)
unfolding serving
anchor_to_again_example = anchor_to_again 40 60 41 90 (placement 7) pins 1 1 stocked _ refl

abbrev sold : Market
sold = (create_conversion ports line_of_week 1 stocked).1

create_conversion-Added_example :
    Added ports line_of_week 1 stocked sold (new_conversion ports line_of_week none 1)
unfolding serving
create_conversion-Added_example = create_conversion-Added ports line_of_week 1 stocked _ refl

resubmitted_iff_example :
    (create_conversion (record ports { now = 60; new_id = 77 }) line_of_week 1 sold
      ≡ (err conflict, sold))
    ↔ NamesLinkage line_of_week (new_conversion ports line_of_week none 1)
unfolding serving
resubmitted_iff_example =
    resubmitted_iff ports line_of_week 1 stocked _ 60 77 refl (omega arith) (omega arith)

abbrev everything : CommerceSummaryQuery
everything = record { channel = none; product_id = none; period_start = none; period_end = none }

abbrev refunded : Market
refunded = (create_conversion later_ports refund_of_week 1 sold).1

reversal_cancels_example :
    (commission_in "THB" (summary everything refunded).totals
      ≡ commission_in "THB" (summary everything stocked).totals)
    × (commission_in "THB" (content_totals 3 refunded)
        ≡ commission_in "THB" (content_totals 3 stocked))
unfolding serving
reversal_cancels_example =
    reversal_cancels ports later_ports line_of_week refund_of_week 1 1 stocked sold _ everything
      "THB" 3 refl refl refl refl refl

-- The line of the week is in the totals, and its refund takes it out.
sold_total : commission_in "THB" (summary everything sold).totals ≡ pos 12050
unfolding serving summary by_currency zero_total add_row accumulate group_loop ◌+ℤ◌
sold_total = refl
