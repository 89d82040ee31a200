-- ===== src/Commerce/Duration/Laws.antt =====
-- When a duration passes: a missing one does not.
use content_hub.Base.{ℕ, ◌≤◌, ◌≡◌, ◌≢◌, ◌↔◌, refl, ◌⊎◌, inl, inr, Option, none, some, arith}
use content_hub.Base.Effects.{ok}
use content_hub.Commerce.Duration.{CommerceChannel, shopee, tiktok_shop, assert_shopee_duration}

-- The rule of the channel, in words of the platform: only Shopee limits the length.
abbrev pub IsPlaceable : CommerceChannel → Option ℕ → Type 0
IsPlaceable channel duration =
    (channel ≢ shopee)
    ⊎ ((seconds : ℕ) × (duration ≡ some seconds) × (10 ≤ seconds) × (seconds ≤ 60))

-- A duration passes exactly if the channel is not Shopee, or it is known and from 10 to 60 seconds.
pub assert_shopee_duration_iff :
    {S : Type 0} (channel : CommerceChannel) (duration : Option ℕ) (s : S)
    → (assert_shopee_duration channel duration s ≡ (ok tt, s)) ↔ IsPlaceable channel duration
unfolding assert_shopee_duration
assert_shopee_duration_iff tiktok_shop duration s = (λ h. inl (λ e. cc), λ h. refl)
assert_shopee_duration_iff shopee none s = (λ h. absurd (ground arith), λ h. ground arith)
assert_shopee_duration_iff shopee (some seconds) s =
    (λ h. inr (seconds, refl, ground arith, ground arith), λ h. ground arith)
