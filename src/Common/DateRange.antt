-- ===== src/Common/DateRange.antt =====
-- backend/src/common/utils/date-range.util.ts: the order of two dates, in milliseconds.
use content_hub.Base.{ℕ, ◌≤◌, refl, inl, inr, Option, none, some, ltb, Bool-cases, arith, not}
use content_hub.Base.Effects.{M, ok, bad_request, ensure}
use content_hub.Base.Effects.Passing.{Decides, passes, throws}

-- `assertValidDateRange`
unfoldable pub assert_valid_date_range : {S : Type 0} → ℕ → Option ℕ → M S (Unit {0})
assert_valid_date_range start none s = (ok tt, s)
assert_valid_date_range start (some end_) s = ensure (not (ltb end_ start)) bad_request s

-- The dates are in order, as far as there is an end.
abbrev pub InOrder : ℕ → Option ℕ → Type 0
InOrder start none = Unit
InOrder start (some end_) = start ≤ end_

pub date_range_valid :
    {S : Type 0} (start : ℕ) (end_ : Option ℕ) (s : S)
    → Decides (assert_valid_date_range start end_) s (λ _. InOrder start end_)
unfolding assert_valid_date_range
date_range_valid start none s = passes tt refl tt
date_range_valid start (some end_) s = elim (Bool-cases (ltb end_ start)) [
  | inl reversed ↦ throws bad_request s (ground arith)
  | inr ordered ↦ passes tt (ground arith) (ground arith)
]
