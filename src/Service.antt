-- ===== src/Service.antt =====
-- The statements that the walks of the models run, and `readAll`, which reads every row of one as text.
-- The service is a value of the type `W`, which a statement may change. The package database/sql scans a
-- row into as many texts as the row has values.
pub mod Tables
use dbmeta.Common.{
  ℕ, Bool, true, false, ◌&&◌, not, Option, none, some, List, [], ◌∷◌, ◌++◌, ◌⊎◌, inl, inr, length,
  ◌==◌, if◌then◌else◌, Result, ok, err, panic, out_of_fuel, Error, foreign, wrapped,
}
use dbmeta.Common.Text.{Text, str, text_eq, contains}

-- The struct `result`: every row of one statement; none is a NULL.
pub record Answer : Type 0 where
  pub cols : List Text
  pub rows : List (List (Option Text))

-- A result set as the driver gives it: its column names or an error, for each row the values or the
-- errors of reading them as text, and the error that `rows.Err` reports at the end.
pub record Rows : Type 0 where
  pub columns : Error ⊎ List Text
  pub rows : List (List (Error ⊎ Option Text))
  pub err : Option Error

abbrev pub Service : Type 0 → Type 0
Service W = W → Text → (Error ⊎ Rows) × W

-- rows.Scan with a destination for each column
abbrev pub scan_values : List (Error ⊎ Option Text) → Error ⊎ List (Option Text)
scan_values [] = inr []
scan_values (inl e ∷ vals) = inl e
scan_values (inr v ∷ vals) = elim (scan_values vals) [ inl e ↦ inl e | inr out ↦ inr (v ∷ out) ]

unfoldable pub scan : ℕ → List (Error ⊎ Option Text) → Error ⊎ List (Option Text)
scan n vals =
    if length vals == n
    then scan_values vals
    else inl (foreign (str "sql: expected another number of destination arguments in Scan"))

abbrev pub in_query : Text → Text → Error → Error
in_query what query e = wrapped (what ++ (query ++ str ": ")) e

unfoldable pub read_rows :
    Text → ℕ → Option Error → List (List (Error ⊎ Option Text)) → Error ⊎ List (List (Option Text))
read_rows query n none [] = inr []
read_rows query n (some e) [] = inl (in_query (str "reading ") query e)
read_rows query n rows_err (r ∷ rows) = elim (scan n r) [
  | inl e ↦ inl (in_query (str "reading a row of ") query e)
  | inr vals ↦ elim (read_rows query n rows_err rows) [ inl e ↦ inl e | inr out ↦ inr (vals ∷ out) ]
]

unfoldable pub read_columns :
    Text → Error ⊎ List Text → Option Error → List (List (Error ⊎ Option Text)) → Error ⊎ Answer
read_columns query (inl e) rows_err rows = inl (in_query (str "reading the columns of ") query e)
read_columns query (inr cols) rows_err rows = elim (read_rows query (length cols) rows_err rows) [
  | inl e ↦ inl e
  | inr out ↦ inr (record { cols = cols; rows = out })
]

unfoldable pub read_answer : Text → Error ⊎ Rows → Error ⊎ Answer
unfolding read_columns
read_answer query (inl e) = inl (in_query (str "running ") query e)
read_answer query (inr rows) = read_columns query rows.columns rows.err rows.rows

module _ {W : Type 0} (query : Service W) where
  -- `readAll`
  unfoldable pub read_all : W → Text → (Error ⊎ Answer) × W
  read_all w stmt = let (rows, w') = query w stmt in (read_answer stmt rows, w')
