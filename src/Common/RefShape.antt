-- ===== src/Common/RefShape.antt =====
-- The pattern of a statement reference, COMMERCE_STATEMENT_REF_PATTERN of
-- backend/src/modules/commerce/commerce.constants.ts and PAID_SOURCE_REF_PATTERN of
-- backend/src/modules/paid/paid.constants.ts, which are one: ^[A-Za-z0-9][A-Za-z0-9._\-/]{0,63}$
use content_hub.Base.{
  ℕ, Bool, true, false, ◌&&◌, ◌||◌, List, [], ◌∷◌, Option, none, some, String, ◌==◌, leb, all,
  length,
}
use content_hub.Base.Effects.{M, ensure, bad_request}
use content_hub.Content.Gate.Trim.{codes}

unfoldable pub is_alphanumeric : ℕ → Bool
is_alphanumeric c = (leb 65 c && leb c 90) || (leb 97 c && leb c 122) || (leb 48 c && leb c 57)

unfoldable pub is_ref_char : ℕ → Bool
unfolding is_alphanumeric
is_ref_char c = is_alphanumeric c || c == 46 || c == 95 || c == 45 || c == 47

unfoldable pub matches_ref : List ℕ → Bool
unfolding is_ref_char
matches_ref [] = false
matches_ref (c ∷ cs) = is_alphanumeric c && all is_ref_char cs && leb (length cs) 63

-- `assertStatementRefShape` and `assertPaidSourceRefShape`; null and undefined are `none`.
abbrev pub is_ref_shape : Option String → Bool
is_ref_shape none = true
is_ref_shape (some ref) = matches_ref (codes ref)

unfoldable pub assert_ref_shape : {S : Type 0} → Option String → M S (Unit {0})
assert_ref_shape ref = ensure (is_ref_shape ref) bad_request
