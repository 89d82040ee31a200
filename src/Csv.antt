-- ===== src/Csv.antt =====
-- backend/src/common/utils/csv.util.ts: the writer of the report exports. A text is the list of its code
-- points; `String(value)` has been applied to numbers and Booleans.
pub mod Reader
pub mod Laws
pub mod Formula
mod Tests
use content_hub.Base.{
  ℕ, Bool, true, false, not, ◌&&◌, ◌||◌, List, [], ◌∷◌, ◌++◌, Option, none, some, ◌==◌, leb,
  if◌then◌else◌, any, map,
}

-- `CsvValue`: null and undefined, or a text.
abbrev pub CsvValue : Type 0
CsvValue = Option (List ℕ)

-- `FORMULA_PREFIXES` and `CONTROL_PREFIXES`: = + - @, tab and carriage return.
abbrev pub formula_prefixes : List ℕ
formula_prefixes = 61 ∷ 43 ∷ 45 ∷ 64 ∷ []

abbrev pub control_prefixes : List ℕ
control_prefixes = 9 ∷ 13 ∷ []

abbrev pub is_formulaish : List ℕ → Bool
is_formulaish [] = false
is_formulaish (first ∷ rest) =
    any (λ p. p == first) formula_prefixes || any (λ p. p == first) control_prefixes

abbrev pub is_digit : ℕ → Bool
is_digit c = leb 48 c && leb c 57

-- The rest after all leading digits.
unfoldable pub drop_digits : List ℕ → List ℕ
drop_digits [] = []
drop_digits (c ∷ cs) = if is_digit c then drop_digits cs else c ∷ cs

abbrev pub starts_with_digit : List ℕ → Bool
starts_with_digit [] = false
starts_with_digit (c ∷ cs) = is_digit c

abbrev pub is_empty : List ℕ → Bool
is_empty [] = true
is_empty (x ∷ xs) = false

abbrev pub is_fraction : List ℕ → Bool
is_fraction [] = true
is_fraction (c ∷ cs) = c == 46 && starts_with_digit cs && is_empty (drop_digits cs)

abbrev pub drop_sign : List ℕ → List ℕ
drop_sign [] = []
drop_sign (c ∷ cs) = if c == 45 then cs else c ∷ cs

-- `SAFE_NUMERIC.test(text)`
unfoldable pub is_safe_numeric : List ℕ → Bool
is_safe_numeric text =
    starts_with_digit (drop_sign text) && is_fraction (drop_digits (drop_sign text))

-- The text behind a single quote, where a spreadsheet would take it for a formula.
unfoldable pub guard_text : List ℕ → List ℕ
guard_text text = if is_formulaish text && not (is_safe_numeric text) then 39 ∷ text else text

-- /[",\r\n]/
abbrev pub needs_quoting : ℕ → Bool
needs_quoting c = c == 34 || c == 44 || c == 13 || c == 10

-- `text.replace(/"/g, '""')`
unfoldable pub double_quotes : List ℕ → List ℕ
double_quotes [] = []
double_quotes (c ∷ cs) = if c == 34 then 34 ∷ 34 ∷ double_quotes cs else c ∷ double_quotes cs

unfoldable pub quote_text : List ℕ → List ℕ
quote_text text = if any needs_quoting text then 34 ∷ double_quotes text ++ 34 ∷ [] else text

-- `escapeCsvField`
unfoldable pub escape_csv_field : CsvValue → List ℕ
escape_csv_field none = []
escape_csv_field (some text) = quote_text (guard_text text)

-- `row.map(escapeCsvField).join(',')`
unfoldable pub csv_line : List CsvValue → List ℕ
csv_line [] = []
csv_line (v ∷ []) = escape_csv_field v
csv_line (v ∷ w ∷ vs) = escape_csv_field v ++ 44 ∷ csv_line (w ∷ vs)

-- The lines, each with its line ending, as `lines.join('\r\n')` and the last ending give them.
unfoldable pub csv_lines : List (List CsvValue) → List ℕ
csv_lines [] = []
csv_lines (row ∷ rows) = csv_line row ++ 13 ∷ 10 ∷ csv_lines rows

-- `toCsv`
unfoldable pub to_csv : List CsvValue → List (List CsvValue) → List ℕ
to_csv headers rows = csv_lines (headers ∷ rows)
