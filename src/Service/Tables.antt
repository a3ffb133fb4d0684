-- ===== src/Service/Tables.antt =====
-- What `readAll` returns is a table: each row has as many values as there are columns.
use dbmeta.Common.{
  ◌≡◌, ap, ℕ, Option, none, some, List, [], ◌∷◌, ◌⊎◌, inl, inr, length, All, Sum-cases, subst,
  arith, Error,
}
use dbmeta.Common.Text.{Text}
use dbmeta.Service.{
  Answer, Rows, scan_values, scan, read_rows, read_columns, read_answer, Service, read_all,
}

-- Every row has as many values as the answer has columns.
abbrev pub IsTable : Answer → Type 0
IsTable answer = All (λ r. length r ≡ length answer.cols) answer.rows

scan_values-length :
    (vals : List (Error ⊎ Option Text)) (out : List (Option Text))
    → scan_values vals ≡ inr out
    → length out ≡ length vals
scan_values-length [] out h = grind arith
scan_values-length (inl e ∷ vals) out h = cc
scan_values-length (inr v ∷ vals) out h =
    grind (arith, λ (r : List (Option Text)). scan_values-length vals r)

scan-length :
    (n : ℕ) (vals : List (Error ⊎ Option Text)) (out : List (Option Text))
    → scan n vals ≡ inr out
    → length out ≡ n
unfolding scan
scan-length n vals out h = ground (arith, scan_values-length vals out)

read_rows-All :
    (query : Text) (n : ℕ) (e : Option Error) (rows : List (List (Error ⊎ Option Text)))
    (out : List (List (Option Text)))
    → read_rows query n e rows ≡ inr out
    → All (λ r. length r ≡ n) out
unfolding read_rows
read_rows-All query n none [] [] h = tt
read_rows-All query n none [] (o ∷ out) h = cc
read_rows-All query n (some e) [] out h = cc
read_rows-All query n e (r ∷ rows) [] h = grind arith
read_rows-All query n e (r ∷ rows) (o ∷ out) h =
    grind (arith, scan-length n r o, read_rows-All query n e rows out)

-- An error, or a table.
abbrev GivesTable : Error ⊎ Answer → Type 0
GivesTable (inl e) = Unit
GivesTable (inr answer) = IsTable answer

read_columns-GivesTable :
    (stmt : Text) (cols : Error ⊎ List Text) (e : Option Error)
    (rows : List (List (Error ⊎ Option Text)))
    → GivesTable (read_columns stmt cols e rows)
unfolding read_columns
read_columns-GivesTable stmt (inl er) e rows = tt
read_columns-GivesTable stmt (inr cols) e rows =
    elim (Sum-cases (read_rows stmt (length cols) e rows)) [
      | inl (er, p) ↦ rw (read_columns, p) tt
      | inr (out, p) ↦ rw (read_columns, p) (read_rows-All stmt (length cols) e rows out p)
    ]

read_answer-GivesTable : (stmt : Text) (res : Error ⊎ Rows) → GivesTable (read_answer stmt res)
unfolding read_answer
read_answer-GivesTable stmt (inl e) = tt
read_answer-GivesTable stmt (inr rows) =
    read_columns-GivesTable stmt rows.columns rows.err rows.rows

pub read_all-IsTable :
    {W : Type 0} (query : Service W) (w w' : W) (stmt : Text) (answer : Answer)
    → read_all query w stmt ≡ (inr answer, w')
    → IsTable answer
unfolding read_all
read_all-IsTable query w w' stmt answer h =
    subst GivesTable (ap (λ p. p.0) h) (read_answer-GivesTable stmt (query w stmt).0)
