-- ===== src/Tablestore/Registered.antt =====
-- The walks that models/tablestore registers, composed of `walkTables` and of the readers.
use dbmeta.Common.{
  ◌≡◌, refl, ℕ, Bool, Option, List, [], ◌∷◌, ◌++◌, ◌⊎◌, inl, inr, length, All, if◌then◌else◌, arith,
  Result, ok, err, ◌>>=◌, Error, wrapped, Returns, >>=-Returns, Bool-cases, panic, out_of_fuel,
}
use dbmeta.Common.Text.{Text, str}
use dbmeta.Bind.{Args}
use dbmeta.Query.{Item}
use dbmeta.Like.{like}
use dbmeta.Service.{Answer, Service}
use dbmeta.Service.Tables.{IsTable}
use dbmeta.Tablestore.{
  Column, Index, IndexColumn, text, in_context, parse_int, descending, expression, columns, indexes,
  index_column_of, index_columns_loop, index_column_fields, index_columns,
}
use dbmeta.Tablestore.Walks.{arg, columns_walk, indexes_walk, index_columns_walk}
use dbmeta.Tablestore.Positions.{named, At, positions-At, cell-named}
use dbmeta.Tablestore.Readers.{Lacks, by_name, index_name, columns-named, indexes-first_of_each}
use dbmeta.Tablestore.Stream.{IsWalk, walk_tables-drive}

-- The value of a row of SHOW INDEX, read by the names of its columns. Only its number can be refused.
abbrev pub named_index_column : Text → List Text → List (Option Text) → Result IndexColumn
named_index_column table cols r =
    in_context
      (str "reading Seq_in_index of " ++ (index_name cols r ++ (str " in " ++ (table ++ str ": "))))
      (parse_int (by_name cols r (str "Seq_in_index")))
    >>= λ seq. ok (record {
      table = table;
      index = index_name cols r;
      name = text (named cols r (str "Column_name"));
      ordinal = seq;
      expression = expression (text (named cols r (str "Expression")));
      descending = descending (by_name cols r (str "Collation"));
    })

-- The values of the rows whose index matches the pattern, or the error of the first that has one.
abbrev pub named_index_columns :
    Text → Text → List Text → List (List (Option Text)) → Result (List IndexColumn)
named_index_columns table pattern cols [] = ok []
named_index_columns table pattern cols (r ∷ rows) =
    let rest = named_index_columns table pattern cols rows in
    if like pattern (index_name cols r)
    then (named_index_column table cols r >>= λ c. rest >>= λ cs. ok (c ∷ cs))
    else rest

index_column_of-named :
    (table : Text) (cols : List Text) (at : List ℕ) (r : List (Option Text))
    → At cols index_column_fields at
    → length r ≡ length cols
    → index_column_of table at r (index_name cols r) ≡ named_index_column table cols r
unfolding index_column_of
index_column_of-named table cols at r h l =
    let read = λ (k : ℕ) (n : Text). cell-named cols index_column_fields at r k n h l in
    rw
      (
        read 1 (str "Seq_in_index") refl,
        read 2 (str "Column_name") refl,
        read 3 (str "Collation") refl,
        read 4 (str "Expression") refl,
      )
      refl

index_columns_loop-named :
    (table pattern : Text) (cols : List Text) (at : List ℕ) (rows : List (List (Option Text)))
    → At cols index_column_fields at
    → All (λ r. length r ≡ length cols) rows
    → index_columns_loop table pattern at rows ≡ named_index_columns table pattern cols rows
unfolding index_columns_loop
index_columns_loop-named table pattern cols at [] h t = refl
index_columns_loop-named table pattern cols at (r ∷ rows) h (l, t) =
    rw
      (
        cell-named cols index_column_fields at r 0 (str "Key_name") h l refl,
        index_column_of-named table cols at r h l,
        index_columns_loop-named table pattern cols at rows h t,
      )
      refl

-- On an answer whose rows are as wide as its columns, `indexColumns` never indexes out of range. It
-- returns what the rows whose Key_name matches the pattern say, read by the names of their columns, or
-- the error of the first of them whose Seq_in_index is not a number; or it answers an error, and then
-- one of the five columns is not in the answer.
pub index_columns-named :
    (table pattern : Text) (answer : Answer)
    → IsTable answer
    → (index_columns table pattern answer
        ≡ named_index_columns table pattern answer.cols answer.rows)
      ⊎ ((e : Error) × (index_columns table pattern answer ≡ err e)
          × Lacks answer.cols index_column_fields)
unfolding index_columns
index_columns-named table pattern answer t = elim (positions-At answer.cols index_column_fields) [
  | inl (at, p, h) ↦
      inl (rw (p) (index_columns_loop-named table pattern answer.cols at answer.rows h t))
  | inr (e, p, lacks) ↦
      inr (wrapped (str "reading SHOW INDEX of " ++ (table ++ str ": ")) e, rw (p) refl, lacks)
]

columns-Returns :
    (table pattern : Text) (answer : Answer)
    → IsTable answer
    → Returns (λ _. Unit) (columns table pattern answer)
columns-Returns table pattern answer t = elim (columns-named table pattern answer t) [
  | inl e ↦ rw (e) tt
  | inr (_, e, _) ↦ rw (e) tt
]

indexes-Returns :
    (table pattern : Text) (answer : Answer)
    → IsTable answer
    → Returns (λ _. Unit) (indexes table pattern answer)
indexes-Returns table pattern answer t = elim (indexes-first_of_each table pattern answer t) [
  | inl e ↦ rw (e) tt
  | inr (_, e, _) ↦ rw (e) tt
]

in_context-Returns :
    {A : Type 0} (message : Text) (r : Result A)
    → Returns (λ _. Unit) r
    → Returns (λ _. Unit) (in_context message r)
in_context-Returns message (ok a) h = tt
in_context-Returns message (err e) h = tt
in_context-Returns message (panic m) h = h
in_context-Returns message out_of_fuel h = h

parse_int-Returns : (s : Text) → Returns (λ _. Unit) (parse_int s)
unfolding parse_int
parse_int-Returns [] = tt
parse_int-Returns (c ∷ s) = ground arith

named_index_column-Returns :
    (table : Text) (cols : List Text) (r : List (Option Text))
    → Returns (λ _. Unit) (named_index_column table cols r)
named_index_column-Returns table cols r =
    let seq = by_name cols r (str "Seq_in_index") in
    >>=-Returns (λ _. Unit) (λ _. Unit) _ _
      (in_context-Returns _ (parse_int seq) (parse_int-Returns seq)) λ _ _. tt

named_index_columns-Returns :
    (table pattern : Text) (cols : List Text) (rows : List (List (Option Text)))
    → Returns (λ _. Unit) (named_index_columns table pattern cols rows)
named_index_columns-Returns table pattern cols [] = tt
named_index_columns-Returns table pattern cols (r ∷ rows) =
    elim (Bool-cases (like pattern (index_name cols r))) [
      | inr e ↦ rw (e) (named_index_columns-Returns table pattern cols rows)
      | inl e ↦ rw (e) (
          >>=-Returns (λ _. Unit) (λ _. Unit) (named_index_column table cols r) _
            (named_index_column-Returns table cols r)
            λ c _.
              >>=-Returns (λ _. Unit) (λ _. Unit) (named_index_columns table pattern cols rows) _
                (named_index_columns-Returns table pattern cols rows) λ cs _. tt)
    ]

index_columns-Returns :
    (table pattern : Text) (answer : Answer)
    → IsTable answer
    → Returns (λ _. Unit) (index_columns table pattern answer)
index_columns-Returns table pattern answer t = elim (index_columns-named table pattern answer t) [
  | inl e ↦ rw (e) (named_index_columns-Returns table pattern answer.cols answer.rows)
  | inr (_, e, _) ↦ rw (e) tt
]

-- The walks of the columns, the indexes and the index columns never panic, whatever the service
-- answers. Each calls its body on items one after the other until the body stops: none if the schema
-- pattern does not match the empty text; the error of a list of the tables that cannot be read; else,
-- for each listed table that the parent pattern matches, in the order of the list, the values read
-- from the answer to its statement. A table is passed over only if its statement failed and a list
-- that was then read does not name it; any other error is an item, and the last one.
pub registered-IsWalk :
    {W S : Type 0} (query : Service W) (column : Column) (index : Index)
    (index_column : IndexColumn) (on_column : S → Item Column → S × Bool)
    (on_index : S → Item Index → S × Bool) (on_index_column : S → Item IndexColumn → S × Bool)
    (args : Args) (w : W)
    → IsWalk query column on_column
        (str "DESCRIBE")
        (λ table. columns table (arg args (str "name")))
        args
        w
        (columns_walk query column on_column args w)
      × IsWalk query index on_index
          (str "SHOW INDEX FROM")
          (λ table. indexes table (arg args (str "name")))
          args
          w
          (indexes_walk query index on_index args w)
      × IsWalk query index_column on_index_column
          (str "SHOW INDEX FROM")
          (λ table. index_columns table (arg args (str "name")))
          args
          w
          (index_columns_walk query index_column on_index_column args w)
unfolding columns_walk indexes_walk index_columns_walk
registered-IsWalk query column index index_column on_column on_index on_index_column args w = (
  walk_tables-drive query column on_column (str "DESCRIBE") _ args w
      (λ table. columns-Returns table (arg args (str "name"))),
  walk_tables-drive query index on_index (str "SHOW INDEX FROM") _ args w
      (λ table. indexes-Returns table (arg args (str "name"))),
  walk_tables-drive query index_column on_index_column (str "SHOW INDEX FROM") _ args w
      (λ table. index_columns-Returns table (arg args (str "name"))),
)
