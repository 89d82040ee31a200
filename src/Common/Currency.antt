-- ===== src/Common/Currency.antt =====
-- backend/src/modules/commerce/commerce-currency.util.ts and backend/src/modules/paid/paid-currency.util.ts: both
-- accept the Thai baht alone. `toUpperCase` is kept to ASCII: no other character has T, H or B, or a text
-- with one of them, as its upper case.
use content_hub.Base.{
  ℕ, ◌-◌, Bool, true, false, ◌&&◌, List, [], ◌∷◌, String, ◌==◌, leb, if◌then◌else◌, map,
}
use content_hub.Base.Effects.{M, ok, err, bad_request}
use content_hub.Content.Gate.Trim.{codes}

-- `COMMERCE_DEFAULT_CURRENCY` and `PAID_DEFAULT_CURRENCY`, the one supported currency.
abbrev pub default_currency : String
default_currency = "THB"

unfoldable pub to_upper_case : ℕ → ℕ
to_upper_case c = if leb 97 c && leb c 122 then c - 32 else c

abbrev pub is_code : List ℕ → List ℕ → Bool
is_code [] [] = true
is_code (a ∷ as_) (b ∷ bs) = a == b && is_code as_ bs
is_code _ _ = false

unfoldable pub is_supported_currency : String → Bool
unfolding to_upper_case
is_supported_currency currency =
    is_code (map to_upper_case (codes currency)) (codes default_currency)

-- `assertSupportedCurrency` and `assertPaidSupportedCurrency`: the normalized text is the supported one.
unfoldable pub assert_supported_currency : {S : Type 0} → String → M S String
assert_supported_currency currency s =
    if is_supported_currency currency then (ok default_currency, s) else (err bad_request, s)
