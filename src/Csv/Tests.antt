-- ===== src/Csv/Tests.antt =====
-- Fields and rows of the CSV writer.
use content_hub.Base.{ℕ, ◌≡◌, ◌⊎◌, refl, inl, true, List, [], ◌∷◌, ◌++◌, some, none, map, arith}
use content_hub.Csv.{
  is_safe_numeric, drop_digits, guard_text, quote_text, double_quotes, escape_csv_field, csv_line,
}
use content_hub.Csv.Reader.{read_row, read_field}
use content_hub.Csv.Laws.{shown, read_row-csv_line}
use content_hub.Csv.Formula.{StartsNoFormula, IsNumeral, shown_safe}

-- -250.00
abbrev reversal : List ℕ
reversal = 45 ∷ 50 ∷ 53 ∷ 48 ∷ 46 ∷ 48 ∷ 48 ∷ []

-- =A1,"x"
abbrev payload : List ℕ
payload = 61 ∷ 65 ∷ 49 ∷ 44 ∷ 34 ∷ 120 ∷ 34 ∷ []

writing : Unit {0}
unfolding is_safe_numeric drop_digits guard_text quote_text double_quotes escape_csv_field csv_line
writing = tt

defanged :
    escape_csv_field (some payload)
    ≡ 34 ∷ 39 ∷ 61 ∷ 65 ∷ 49 ∷ 44 ∷ 34 ∷ 34 ∷ 120 ∷ 34 ∷ 34 ∷ 34 ∷ []
unfolding writing
defanged = refl

summable : is_safe_numeric reversal ≡ true
unfolding writing
summable = refl

read_row-csv_line_example :
    read_row 3 (csv_line (some payload ∷ none ∷ some reversal ∷ []) ++ 13 ∷ 10 ∷ [])
    ≡ (map shown (some payload ∷ none ∷ some reversal ∷ []), 13 ∷ 10 ∷ [])
read_row-csv_line_example =
    read_row-csv_line (some payload) (none ∷ some reversal ∷ []) (13 ∷ 10 ∷ []) 3 (inl refl)
      (omega arith)

shown_safe_example :
    let field = (read_field (escape_csv_field (some payload) ++ 44 ∷ [])).0 in
    StartsNoFormula field ⊎ IsNumeral field
shown_safe_example = shown_safe (some payload) (44 ∷ []) (inl refl)
