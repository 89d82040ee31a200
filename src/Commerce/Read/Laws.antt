-- ===== src/Commerce/Read/Laws.antt =====
-- The groups of backend/src/modules/commerce/commerce-read.service.ts against sums over the lines of each key.
use content_hub.Base.{
  ℕ, ◌+◌, ◌≡◌, refl, ◌∙◌, Bool, true, List, [], ◌∷◌, Option, arith, length, keep, ◌↔◌, or_zero,
}
use content_hub.Base.Grouping.{group_loop}
use content_hub.Base.Grouping.Laws.{group_at, IsGroup, grouped}
use content_hub.Base.Int.{ℤ, pos, ◌+ℤ◌, int_laws}
use text.Mathlib.Text.{◌==◌ as str_eq}
use content_hub.Commerce.Market.{CommerceConversion, Market}
use content_hub.Commerce.Read.{CommerceCurrencyTotal, amount_or_zero, zero_total, add_row}

-- Sums over lines, by recursion.
abbrev pub sum_commission : List CommerceConversion → ℤ
sum_commission [] = pos 0
sum_commission (c ∷ cs) = c.commission_amount +ℤ sum_commission cs

abbrev pub sum_gross : List CommerceConversion → ℤ
sum_gross [] = pos 0
sum_gross (c ∷ cs) = amount_or_zero c.gross_sales_amount +ℤ sum_gross cs

abbrev pub sum_orders : List CommerceConversion → ℕ
sum_orders [] = 0
sum_orders (c ∷ cs) = or_zero c.orders_count + sum_orders cs

abbrev pub sum_items : List CommerceConversion → ℕ
sum_items [] = 0
sum_items (c ∷ cs) = or_zero c.items_sold + sum_items cs

-- The total `t` after the lines are added to the total `old`.
pub record IsSum (old t : CommerceCurrencyTotal) (cs : List CommerceConversion) : Type 0 where
  pub currency : t.currency ≡ old.currency
  pub commission : t.commission_amount ≡ old.commission_amount +ℤ sum_commission cs
  pub gross : t.gross_sales_amount ≡ old.gross_sales_amount +ℤ sum_gross cs
  pub orders : t.orders_count ≡ old.orders_count + sum_orders cs
  pub items : t.items_sold ≡ old.items_sold + sum_items cs
  pub records : t.conversion_records ≡ old.conversion_records + length cs

IsSum-step :
    (c : CommerceConversion) (old t : CommerceCurrencyTotal) (cs : List CommerceConversion)
    → IsSum (add_row c old) t cs
    → IsSum old t (c ∷ cs)
unfolding add_row
IsSum-step c old t cs h = record {
  currency = h.currency;
  commission = h.commission ∙ omega int_laws;
  gross = h.gross ∙ omega int_laws;
  orders = h.orders ∙ omega arith;
  items = h.items ∙ omega arith;
  records = h.records ∙ omega arith;
}

IsSum-none : (t : CommerceCurrencyTotal) → IsSum t t []
IsSum-none t = record {
  currency = refl;
  commission = omega int_laws;
  gross = omega int_laws;
  orders = omega arith;
  items = omega arith;
  records = omega arith;
}

abbrev pub IsGroupOf : List CommerceConversion → Option CommerceCurrencyTotal → Type 0
IsGroupOf = IsGroup zero_total IsSum

-- The group of every key has the sums over its lines.
pub grouped_rows :
    {K : Type 0} (same : K → K → Bool) (same_iff : (a b : K) → (same a b ≡ true) ↔ (a ≡ b))
    (key : CommerceConversion → K) (k : K) (cs : List CommerceConversion)
    → IsGroupOf
        (keep (λ c. same (key c) k) cs)
        (group_at same k (group_loop zero_total add_row same key cs []))
grouped_rows same same_iff key k cs =
    grouped zero_total add_row IsSum IsSum-none IsSum-step same same_iff key k cs
