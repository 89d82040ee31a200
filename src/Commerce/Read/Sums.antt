-- ===== src/Commerce/Read/Sums.antt =====
-- Sums over the lines that a test keeps: the commission of a group, and the order of the rows.
use content_hub.Base.{
  ◌≡◌, refl, sym, ◌∙◌, ap, inl, inr, Bool, ◌&&◌, List, [], ◌∷◌, Option, none, some, String, arith,
  keep, ltb, Bool-cases, if◌then◌else◌,
}
use text.Mathlib.Text.{◌==◌ as str_eq}
use text.Mathlib.TextEquality.{eq_iff}
use content_hub.Base.Int.{ℤ, pos, ◌+ℤ◌, negate, int_laws}
use content_hub.Commerce.Market.{CommerceConversion, conversion_keyed}
use content_hub.Commerce.Read.{
  CommerceCurrencyTotal, zero_total, by_currency, insert_by_age, newest_first,
}
use content_hub.Commerce.Read.Laws.{sum_commission, IsGroupOf, grouped_rows}
use content_hub.Base.Grouping.Laws.{group_at}

-- The commission of a currency in the totals, nothing where the currency has no group.
abbrev pub commission_in : String → List (String × CommerceCurrencyTotal) → ℤ
commission_in currency totals = elim (group_at str_eq currency totals) [
  | none ↦ pos 0
  | some t ↦ t.commission_amount
]

abbrev amount_in : Option CommerceCurrencyTotal → ℤ
amount_in none = pos 0
amount_in (some t) = t.commission_amount

group_commission :
    (cs : List CommerceConversion) (g : Option CommerceCurrencyTotal)
    → IsGroupOf cs g
    → amount_in g ≡ sum_commission cs
unfolding zero_total
group_commission [] g h = ap amount_in h
group_commission (c ∷ cs) g (t, e, sum) = ap amount_in e ∙ sum.commission ∙ omega int_laws

amount_in-commission_in :
    (currency : String) (totals : List (String × CommerceCurrencyTotal))
    → commission_in currency totals ≡ amount_in (group_at str_eq currency totals)
amount_in-commission_in currency totals = ground arith

pub commission_in-sum :
    (currency : String) (cs : List CommerceConversion)
    → commission_in currency (by_currency cs)
      ≡ sum_commission (keep (λ c. str_eq c.currency currency) cs)
unfolding by_currency
commission_in-sum currency cs =
    amount_in-commission_in currency (by_currency cs)
    ∙ group_commission (keep (λ c. str_eq c.currency currency) cs) _
        (grouped_rows str_eq eq_iff (λ c. c.currency) currency cs)

-- Lines that a test keeps in the sum.
unfoldable pub sum_kept : (CommerceConversion → Bool) → List CommerceConversion → ℤ
sum_kept p cs = sum_commission (keep p cs)

-- A line and its reversal, both in the sum or both out of it.
pub cancels :
    (p : CommerceConversion → Bool) (r c : CommerceConversion) (cs : List CommerceConversion)
    → p r ≡ p c
    → r.commission_amount ≡ negate c.commission_amount
    → sum_kept p (r ∷ c ∷ cs) ≡ sum_kept p cs
unfolding sum_kept
cancels p r c cs same e = elim (Bool-cases (p c)) [
  | inl kept ↦ rw (same, kept, e) (omega int_laws)
  | inr dropped ↦ rw (same, dropped) refl
]

pub keep-keep :
    (p q : CommerceConversion → Bool) (cs : List CommerceConversion)
    → keep p (keep q cs) ≡ keep (λ c. q c && p c) cs
keep-keep p q [] = refl
keep-keep p q (c ∷ cs) = ground (arith, keep-keep p q cs)

-- What a line adds to the sum.
weight : (CommerceConversion → Bool) → CommerceConversion → ℤ
weight p c = if p c then c.commission_amount else pos 0

sum_front :
    (p : CommerceConversion → Bool) (c : CommerceConversion) (cs : List CommerceConversion)
    → sum_kept p (c ∷ cs) ≡ weight p c +ℤ sum_kept p cs
unfolding sum_kept weight
sum_front p c cs = elim (Bool-cases (p c)) [
  | inl kept ↦ rw kept refl
  | inr dropped ↦ rw dropped (omega int_laws)
]

swap : (a b c : ℤ) → a +ℤ (b +ℤ c) ≡ b +ℤ (a +ℤ c)
swap a b c = omega int_laws

insert_by_age-sum :
    (p : CommerceConversion → Bool) (c : CommerceConversion) (cs : List CommerceConversion)
    → sum_kept p (insert_by_age c cs) ≡ sum_kept p (c ∷ cs)
unfolding insert_by_age
insert_by_age-sum p c [] = refl
insert_by_age-sum p c (d ∷ cs) = elim (Bool-cases (ltb c.created_at d.created_at)) [
  | inr older ↦ rw older refl
  | inl newer ↦ rw newer (
      sum_front p d (insert_by_age c cs)
      ∙ ap (λ z. weight p d +ℤ z) (insert_by_age-sum p c cs ∙ sum_front p c cs)
      ∙ swap (weight p d) (weight p c) (sum_kept p cs)
      ∙ ap (λ z. weight p c +ℤ z) (sym (sum_front p d cs))
      ∙ sym (sum_front p c (d ∷ cs)))
]

-- The order of the rows does not change a sum.
pub newest_first-sum :
    (p : CommerceConversion → Bool) (cs : List CommerceConversion)
    → sum_kept p (newest_first cs) ≡ sum_kept p cs
unfolding newest_first
newest_first-sum p [] = refl
newest_first-sum p (c ∷ cs) =
    insert_by_age-sum p c (newest_first cs)
    ∙ sum_front p c (newest_first cs)
    ∙ ap (λ z. weight p c +ℤ z) (newest_first-sum p cs)
    ∙ sym (sum_front p c cs)
