-- ===== src/Csv/Laws.antt =====
-- What the writer writes is read back.
use content_hub.Base.{
  ℕ, zero, suc, ◌≤◌, ◌≡◌, refl, ◌∙◌, ap, ◌⊎◌, inl, inr, true, false, List, [], ◌∷◌, ◌++◌, none,
  some, arith, any, map, length, Bool-cases,
}
use mathlib.Core.List.{append_assoc}
use content_hub.Csv.{
  CsvValue, is_empty, drop_digits, is_fraction, is_safe_numeric, guard_text, needs_quoting,
  double_quotes, quote_text, escape_csv_field, csv_line,
}
use content_hub.Csv.Reader.{read_quoted, read_plain, read_field, read_row, after_comma}

-- What stands after a field: nothing, a comma or a line ending.
abbrev pub EndsField : List ℕ → Type 0
EndsField [] = Unit
EndsField (c ∷ rest) = (c ≡ 44) ⊎ (c ≡ 13) ⊎ (c ≡ 10)

read_quoted-double_quotes :
    (text rest : List ℕ)
    → EndsField rest
    → read_quoted false ((double_quotes text ++ 34 ∷ []) ++ rest) ≡ (text, rest)
unfolding double_quotes read_quoted
read_quoted-double_quotes [] [] e = refl
read_quoted-double_quotes [] (c ∷ rest) e = ground arith
read_quoted-double_quotes (x ∷ text) rest e = ground (arith, read_quoted-double_quotes text rest e)

read_plain_all :
    (text rest : List ℕ)
    → EndsField rest
    → any needs_quoting text ≡ false
    → read_plain (text ++ rest) ≡ (text, rest)
unfolding read_plain
read_plain_all [] [] e h = refl
read_plain_all [] (c ∷ rest) e h = ground arith
read_plain_all (x ∷ text) rest e h = ground (arith, read_plain_all text rest e)

read_field-plain :
    (text rest : List ℕ)
    → EndsField rest
    → any needs_quoting text ≡ false
    → read_field (text ++ rest) ≡ (text, rest)
unfolding read_field read_plain
read_field-plain [] [] e h = refl
read_field-plain [] (c ∷ rest) e h = ground arith
read_field-plain (x ∷ text) rest e h = ground (arith, read_plain_all text rest e)

-- A field is read back up to what ends it.
read_field-quote_text :
    (text rest : List ℕ) → EndsField rest → read_field (quote_text text ++ rest) ≡ (text, rest)
unfolding read_field quote_text
read_field-quote_text text rest e = elim (Bool-cases (any needs_quoting text)) [
  | inl quoted ↦ rw quoted (read_quoted-double_quotes text rest e)
  | inr plain ↦ rw plain (read_field-plain text rest e plain)
]

-- The text that a field is to show.
abbrev pub shown : CsvValue → List ℕ
shown none = []
shown (some text) = guard_text text

pub read_field-escape :
    (v : CsvValue) (rest : List ℕ)
    → EndsField rest
    → read_field (escape_csv_field v ++ rest) ≡ (shown v, rest)
unfolding escape_csv_field quote_text
read_field-escape none rest e = read_field-quote_text [] rest e
read_field-escape (some text) rest e = read_field-quote_text (guard_text text) rest e

-- What stands after a row: nothing or a line ending.
abbrev pub EndsRow : List ℕ → Type 0
EndsRow [] = Unit
EndsRow (c ∷ rest) = (c ≡ 13) ⊎ (c ≡ 10)

EndsRow-EndsField : (rest : List ℕ) → EndsRow rest → EndsField rest
EndsRow-EndsField [] e = tt
EndsRow-EndsField (c ∷ rest) e = inr e

after_comma_row : (rest : List ℕ) → EndsRow rest → after_comma rest ≡ none
after_comma_row [] e = refl
after_comma_row (c ∷ rest) e = ground arith

read_row_last :
    (fuel : ℕ) (text rest : List ℕ) {field : List ℕ}
    → read_field text ≡ (field, rest)
    → after_comma rest ≡ none
    → read_row (suc fuel) text ≡ (field ∷ [], rest)
unfolding read_row
read_row_last fuel text rest h e = ground arith

read_row_next :
    (fuel : ℕ) (text more : List ℕ) {field rest : List ℕ} {row : List (List ℕ)}
    → read_field text ≡ (field, 44 ∷ more)
    → read_row fuel more ≡ (row, rest)
    → read_row (suc fuel) text ≡ (field ∷ row, rest)
unfolding read_row
read_row_next fuel text more h e = ground arith

-- A row with at least one field is read back field by field, in order, up to the line ending: commas, quotes
-- and line breaks inside a field do not split it.
pub read_row-csv_line :
    (v : CsvValue) (vs : List CsvValue) (rest : List ℕ) (fuel : ℕ)
    → EndsRow rest
    → suc (length vs) ≤ fuel
    → read_row fuel (csv_line (v ∷ vs) ++ rest) ≡ (map shown (v ∷ vs), rest)
unfolding read_row csv_line
read_row-csv_line v vs rest zero e enough = absurd (omega arith)
read_row-csv_line v [] rest (suc fuel) e enough =
    read_row_last fuel _ rest (read_field-escape v rest (EndsRow-EndsField rest e))
      (after_comma_row rest e)
read_row-csv_line v (w ∷ vs) rest (suc fuel) e enough =
    read_row_next fuel _ (csv_line (w ∷ vs) ++ rest)
      (ap read_field (append_assoc (escape_csv_field v) (44 ∷ csv_line (w ∷ vs)) rest)
        ∙ read_field-escape v (44 ∷ csv_line (w ∷ vs) ++ rest) (inl refl))
      (read_row-csv_line w vs rest fuel e (omega arith))

drop_digits-quoting :
    (text : List ℕ) → any needs_quoting (drop_digits text) ≡ any needs_quoting text
unfolding drop_digits
drop_digits-quoting [] = refl
drop_digits-quoting (c ∷ cs) = ground (arith, drop_digits-quoting cs)

fraction_plain : (text : List ℕ) → is_fraction text ≡ true → any needs_quoting text ≡ false
fraction_plain [] h = refl
fraction_plain (c ∷ cs) h = ground (arith, drop_digits-quoting cs, empty_plain (drop_digits cs))
  where
    empty_plain : (xs : List ℕ) → is_empty xs ≡ true → any needs_quoting xs ≡ false
    empty_plain [] h = refl
    empty_plain (x ∷ xs) h = cc

number_plain : (text : List ℕ) → is_safe_numeric text ≡ true → any needs_quoting text ≡ false
unfolding is_safe_numeric
number_plain [] h = refl
number_plain (c ∷ cs) h = ground (
  arith,
  drop_digits-quoting cs,
  drop_digits-quoting (c ∷ cs),
  fraction_plain (drop_digits cs),
  fraction_plain (drop_digits (c ∷ cs)),
)

-- A plain number, a negative one too, is written as it is.
pub escape_number :
    (text : List ℕ) → is_safe_numeric text ≡ true → escape_csv_field (some text) ≡ text
unfolding escape_csv_field quote_text guard_text
escape_number text number = ground (arith, number_plain text number)
