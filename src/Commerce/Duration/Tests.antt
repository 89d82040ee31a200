-- ===== src/Commerce/Duration/Tests.antt =====
-- Videos in the shop, at the bounds.
use content_hub.Base.{ℕ, ◌≡◌, refl, none, some}
use content_hub.Base.Effects.{ok, err, unprocessable}
use content_hub.Commerce.Duration.{shopee, assert_shopee_duration}

longest : assert_shopee_duration {S = ℕ} shopee (some 60) 0 ≡ (ok tt, 0)
unfolding assert_shopee_duration
longest = refl

unknown : assert_shopee_duration {S = ℕ} shopee none 0 ≡ (err unprocessable, 0)
unfolding assert_shopee_duration
unknown = refl
