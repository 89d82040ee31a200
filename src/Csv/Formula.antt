-- ===== src/Csv/Formula.antt =====
-- backend/src/common/utils/csv.util.ts: what a spreadsheet reads in a field is no formula.
use content_hub.Base.{
  ℕ, ◌≤◌, ◌≡◌, ◌≢◌, refl, sym, ◌∙◌, ap, ◌==◌, ◌⊎◌, inl, inr, true, false, List, [], ◌∷◌, ◌++◌, none,
  some, arith, Bool-cases,
}
use mathlib.Core.Path.{subst}
use mathlib.Core.List.{append-nil}
use content_hub.Csv.{
  CsvValue, is_formulaish, is_empty, starts_with_digit, drop_digits, is_fraction, is_safe_numeric,
  guard_text, escape_csv_field,
}
use content_hub.Csv.Reader.{read_field}
use content_hub.Csv.Laws.{EndsField, shown, read_field-escape}

-- One or more digits.
pub data IsDigits : List ℕ → Type 0 where
  one_digit : (d : ℕ) → 48 ≤ d → d ≤ 57 → IsDigits (d ∷ [])
  more_digits : (d : ℕ) {ds : List ℕ} → 48 ≤ d → d ≤ 57 → IsDigits ds → IsDigits (d ∷ ds)

-- Digits, and perhaps a point and digits behind them.
pub data IsUnsigned (text : List ℕ) : Type 0 where
  whole : IsDigits text → IsUnsigned text
  decimal : {ds es : List ℕ} → IsDigits ds → IsDigits es → text ≡ ds ++ 46 ∷ es → IsUnsigned text

-- A plain number, perhaps behind a minus.
pub data IsNumeral (text : List ℕ) : Type 0 where
  positive : IsUnsigned text → IsNumeral text
  negative : {u : List ℕ} → text ≡ 45 ∷ u → IsUnsigned u → IsNumeral text

-- The text starts with none of = + - @, tab and carriage return.
abbrev pub StartsNoFormula : List ℕ → Type 0
StartsNoFormula [] = Unit
StartsNoFormula (c ∷ cs) = (c ≢ 61) × (c ≢ 43) × (c ≢ 45) × (c ≢ 64) × (c ≢ 9) × (c ≢ 13)

is_formulaish-StartsNoFormula : (text : List ℕ) → is_formulaish text ≡ false → StartsNoFormula text
is_formulaish-StartsNoFormula [] h = tt
is_formulaish-StartsNoFormula (c ∷ cs) h = (
  λ e. absurd (ground (arith, h, e)),
  λ e. absurd (ground (arith, h, e)),
  λ e. absurd (ground (arith, h, e)),
  λ e. absurd (ground (arith, h, e)),
  λ e. absurd (ground (arith, h, e)),
  λ e. absurd (ground (arith, h, e)),
)

no_digits : (text : List ℕ) → starts_with_digit text ≡ false → drop_digits text ≡ text
unfolding drop_digits
no_digits [] h = refl
no_digits (c ∷ cs) h = ground (arith, h)

-- The leading digits of a text.
leading-IsDigits :
    (text : List ℕ)
    → starts_with_digit text ≡ true
    → (ds : List ℕ) × IsDigits ds × (text ≡ ds ++ drop_digits text)
unfolding drop_digits
leading-IsDigits [] h = absurd (ground (arith, h))
leading-IsDigits (c ∷ cs) h = elim (Bool-cases (starts_with_digit cs)) [
  | inl more ↦
      let (ds, digits, same) = leading-IsDigits cs more in
      (
        c ∷ ds,
        more_digits c (ground (arith, h)) (ground (arith, h)) digits,
        rw h (ap (λ r. c ∷ r) same),
      )
  | inr last ↦ (
    c ∷ [],
    one_digit c (ground (arith, h)) (ground (arith, h)),
    rw h (ap (λ r. c ∷ r) (sym (no_digits cs last))),
  )
]

all-IsDigits :
    (text : List ℕ) → starts_with_digit text ≡ true → drop_digits text ≡ [] → IsDigits text
all-IsDigits text h ends =
    let (ds, digits, same) = leading-IsDigits text h in
    subst IsDigits (sym (same ∙ ap (λ r. ds ++ r) ends ∙ append-nil ds)) digits

fraction_cases :
    (text rest ds : List ℕ)
    → IsDigits ds
    → text ≡ ds ++ rest
    → is_fraction rest ≡ true
    → IsUnsigned text
fraction_cases text [] ds digits same h = whole (subst IsDigits (sym (same ∙ append-nil ds)) digits)
fraction_cases text (c ∷ cs) ds digits same h =
    decimal digits
      (all-IsDigits cs (ground (arith, h)) (empty_nil (drop_digits cs) (ground (arith, h))))
      (same ∙ ap (λ p. ds ++ p ∷ cs) {x = c} {y = 46} (ground (arith, h)))
  where
    empty_nil : (xs : List ℕ) → is_empty xs ≡ true → xs ≡ []
    empty_nil [] e = refl
    empty_nil (x ∷ xs) e = cc

unsigned :
    (text : List ℕ)
    → starts_with_digit text ≡ true
    → is_fraction (drop_digits text) ≡ true
    → IsUnsigned text
unsigned text h fraction =
    let (ds, digits, same) = leading-IsDigits text h in
    fraction_cases text (drop_digits text) ds digits same fraction

is_safe_numeric-IsNumeral : (text : List ℕ) → is_safe_numeric text ≡ true → IsNumeral text
unfolding is_safe_numeric
is_safe_numeric-IsNumeral [] h = absurd (ground (arith, h))
is_safe_numeric-IsNumeral (c ∷ cs) h = elim (Bool-cases (c == 45)) [
  | inl minus ↦
      let h' = rw minus at h in
      negative (ap (λ m. m ∷ cs) {x = c} {y = 45} (ground (arith, minus)))
        (unsigned cs (ground (arith, h')) (ground (arith, h')))
  | inr other ↦
      let h' = rw other at h in
      positive (unsigned (c ∷ cs) (ground (arith, h')) (ground (arith, h')))
]

guarded : (text : List ℕ) → StartsNoFormula (guard_text text) ⊎ IsNumeral (guard_text text)
unfolding guard_text
guarded text = elim (Bool-cases (is_formulaish text)) [
  | inr harmless ↦ rw harmless (inl (is_formulaish-StartsNoFormula text harmless))
  | inl formula ↦ elim (Bool-cases (is_safe_numeric text)) [
    | inl number ↦ rw (formula, number) (inr (is_safe_numeric-IsNumeral text number))
    | inr risky ↦ rw (formula, risky) (inl (is_formulaish-StartsNoFormula (39 ∷ text) refl))
  ]
]

shown_cases : (v : CsvValue) → StartsNoFormula (shown v) ⊎ IsNumeral (shown v)
shown_cases none = inl tt
shown_cases (some text) = guarded text

-- What an RFC 4180 reader reads where escapeCsvField has written a field, at the end of the text or before a comma or a line
-- ending, starts with none of = + - @, tab and carriage return, unless it is a plain number: digits, perhaps with a
-- point and more digits, perhaps behind a minus.
pub shown_safe :
    (v : CsvValue) (rest : List ℕ)
    → EndsField rest
    → let field = (read_field (escape_csv_field v ++ rest)).0 in
      StartsNoFormula field ⊎ IsNumeral field
shown_safe v rest e =
    subst (λ field. StartsNoFormula field ⊎ IsNumeral field)
      (sym (ap (λ r. r.0) (read_field-escape v rest e))) (shown_cases v)
