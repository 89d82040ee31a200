-- ===== src/Paid/Read/Laws.antt =====
-- The groups of backend/src/modules/paid/paid-read.service.ts against sums over the entries of each key.
use content_hub.Base.{ℕ, ◌+◌, ◌≡◌, List, [], ◌∷◌, length, or_zero}
use text.Mathlib.Text.{◌==◌ as str_eq}
use content_hub.Paid.Desk.{AdPerformanceEntry}
use content_hub.Paid.Read.{PaidCurrencyTotal, PaidResultTypeBreakdownItem}

-- A sum over entries, by recursion.
abbrev pub sum_of : (AdPerformanceEntry → ℕ) → List AdPerformanceEntry → ℕ
sum_of f [] = 0
sum_of f (e ∷ es) = f e + sum_of f es

-- The total `t` after the entries are added to the total `old`.
pub record IsSpend (old t : PaidCurrencyTotal) (es : List AdPerformanceEntry) : Type 0 where
  pub currency : t.currency ≡ old.currency
  pub spend : t.total_spend ≡ old.total_spend + sum_of (λ e. e.spend) es
  pub reach : t.total_reach ≡ old.total_reach + sum_of (λ e. or_zero e.reach) es
  pub impressions :
      t.total_impressions ≡ old.total_impressions + sum_of (λ e. or_zero e.impressions) es
  pub clicks : t.total_clicks ≡ old.total_clicks + sum_of (λ e. or_zero e.clicks) es
  pub results :
      t.total_result_count ≡ old.total_result_count + sum_of (λ e. or_zero e.result_count) es
  pub entries : t.entries_count ≡ old.entries_count + length es

-- The same of an item, which keeps the type of the first entry.
pub record IsItem (old t : PaidResultTypeBreakdownItem) (es : List AdPerformanceEntry)
    : Type 0 where
  pub result_type : t.result_type ≡ old.result_type
  pub total : IsSpend old.total t.total es
