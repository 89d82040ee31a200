-- ===== src/Csv/Reader.antt =====
-- A reader of CSV documents after RFC 4180, independent of the writer: a field that starts with a quote
-- ends at the next quote that is not doubled, any other field ends at a comma or at a line ending.
use content_hub.Base.{
  ℕ, zero, suc, Bool, true, false, ◌||◌, List, [], ◌∷◌, Option, none, some, ◌==◌, if◌then◌else◌,
}

abbrev pub cons_first : ℕ → List ℕ × List ℕ → List ℕ × List ℕ
cons_first c (field, rest) = (c ∷ field, rest)

-- The rest of a quoted field; the test says whether the last character was a quote that may end it.
unfoldable pub read_quoted : Bool → List ℕ → List ℕ × List ℕ
read_quoted pending [] = ([], [])
read_quoted false (c ∷ cs) =
    let ending = read_quoted true cs in
    let more = read_quoted false cs in if c == 34 then ending else cons_first c more
read_quoted true (c ∷ cs) =
    let more = read_quoted false cs in if c == 34 then cons_first 34 more else ([], c ∷ cs)

unfoldable pub read_plain : List ℕ → List ℕ × List ℕ
read_plain [] = ([], [])
read_plain (c ∷ cs) =
    let more = read_plain cs in
    if c == 44 || c == 13 || c == 10 then ([], c ∷ cs) else cons_first c more

unfoldable pub read_field : List ℕ → List ℕ × List ℕ
read_field [] = ([], [])
read_field (c ∷ cs) = if c == 34 then read_quoted false cs else read_plain (c ∷ cs)

abbrev pub cons_row : List ℕ → List (List ℕ) × List ℕ → List (List ℕ) × List ℕ
cons_row field (row, rest) = (field ∷ row, rest)

-- What follows a comma.
abbrev pub after_comma : List ℕ → Option (List ℕ)
after_comma [] = none
after_comma (c ∷ rest) = if c == 44 then some rest else none

-- One row, with what follows its last field; on fuel.
unfoldable pub read_row : ℕ → List ℕ → List (List ℕ) × List ℕ
read_row zero text = ([], text)
read_row (suc fuel) text = elim (after_comma (read_field text).1) [
  | none ↦ ((read_field text).0 ∷ [], (read_field text).1)
  | some rest ↦ cons_row (read_field text).0 (read_row fuel rest)
]
