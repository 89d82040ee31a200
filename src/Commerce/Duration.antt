-- ===== src/Commerce/Duration.antt =====
-- backend/src/modules/commerce/commerce-duration.ts: the length of a video that is placed in a shop.
pub mod Laws
mod Tests
use content_hub.Base.{ℕ, Bool, true, false, ◌||◌, Option, none, some, ltb, if◌then◌else◌}
use content_hub.Base.Effects.{M, ok, err, unprocessable}

pub data CommerceChannel : Type 0 where
  shopee tiktok_shop : CommerceChannel

-- `SHOPEE_DURATION_MIN_SECONDS` and `SHOPEE_DURATION_MAX_SECONDS`
abbrev pub shopee_duration_min_seconds : ℕ
shopee_duration_min_seconds = 10

abbrev pub shopee_duration_max_seconds : ℕ
shopee_duration_max_seconds = 60

-- `assertShopeeDuration`; null and undefined are `none`.
unfoldable pub assert_shopee_duration : {S : Type 0} → CommerceChannel → Option ℕ → M S (Unit {0})
assert_shopee_duration tiktok_shop duration s = (ok tt, s)
assert_shopee_duration shopee none s = (err unprocessable, s)
assert_shopee_duration shopee (some seconds) s =
    if ltb seconds shopee_duration_min_seconds || ltb shopee_duration_max_seconds seconds
    then (err unprocessable, s)
    else (ok tt, s)
