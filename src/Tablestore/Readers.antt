-- ===== src/Tablestore/Readers.antt =====
-- `columns`, `indexes` and `indexColumns` of models/tablestore against the rows read by the names of
-- their columns: on a table no read is out of range, whatever the order of the columns is.
use dbmeta.Common.{
  ◌≡◌, refl, ℕ, suc, ◌+◌, Option, none, List, [], ◌∷◌, ◌++◌, ◌⊎◌, inl, inr, map, length, All, Any,
  if◌then◌else◌, arith, ok, err, Error, wrapped,
}
use dbmeta.Common.Text.{Text, str, text_eq}
use dbmeta.Like.{like}
use dbmeta.Service.{Answer}
use dbmeta.Service.Tables.{IsTable}
use dbmeta.Tablestore.{
  Column, Index, index_of, or_empty, text, column_of, columns_loop, column_fields, columns,
  index_of_row, indexes_loop, index_fields, indexes,
}
use dbmeta.Tablestore.Positions.{named, At, positions-At, cell-named}
use dbmeta.Tablestore.Sieve.{keep, first_of_each, without, without_nil, without_seen, without_more}

-- The answer has no column of one of the names.
abbrev pub Lacks : List Text → List Text → Type 0
Lacks cols names = Any (λ name. index_of name cols ≡ none) names

-- A value of a row, by the name of its column.
abbrev pub by_name : List Text → List (Option Text) → Text → Text
by_name cols r name = or_empty (named cols r name)

abbrev pub named_column : Text → List Text → ℕ → List (Option Text) → Column
named_column table cols i r = record {
  table = table;
  name = by_name cols r (str "Field");
  ordinal = i + 1;
  data_type = by_name cols r (str "Type");
  nullable = text_eq (by_name cols r (str "Null")) (str "YES");
  default = text (named cols r (str "Default"));
  primary_key = text_eq (by_name cols r (str "Key")) (str "PRI");
}

abbrev pub named_columns : Text → Text → List Text → ℕ → List (List (Option Text)) → List Column
named_columns table pattern cols i [] = []
named_columns table pattern cols i (r ∷ rows) =
    let rest = named_columns table pattern cols (suc i) rows in
    if like pattern (by_name cols r (str "Field")) then named_column table cols i r ∷ rest else rest

column_of-named :
    (table : Text) (cols : List Text) (at : List ℕ) (i : ℕ) (r : List (Option Text)) (name : Text)
    → At cols column_fields at
    → length r ≡ length cols
    → name ≡ by_name cols r (str "Field")
    → column_of table at i r name ≡ ok (named_column table cols i r)
unfolding column_of
column_of-named table cols at i r name h l e =
    let read = λ (k : ℕ) (n : Text). cell-named cols column_fields at r k n h l in
    rw
      (
        read 1 (str "Type") refl,
        read 2 (str "Null") refl,
        read 4 (str "Default") refl,
        read 3 (str "Key") refl,
        e,
      )
      refl

columns_loop-named :
    (table pattern : Text) (cols : List Text) (at : List ℕ) (i : ℕ)
    (rows : List (List (Option Text)))
    → At cols column_fields at
    → All (λ r. length r ≡ length cols) rows
    → columns_loop table pattern at i rows ≡ ok (named_columns table pattern cols i rows)
unfolding columns_loop
columns_loop-named table pattern cols at i [] h t = refl
columns_loop-named table pattern cols at i (r ∷ rows) h (l, t) =
    let e = cell-named cols column_fields at r 0 (str "Field") h l refl in
    rw (e) (
      ground (
        arith,
        columns_loop-named table pattern cols at (suc i) rows h t,
        column_of-named table cols at i r _ h l refl,
      ))

-- On an answer whose rows are as wide as its columns, `columns` never indexes out of range. It returns
-- the rows whose Field matches the pattern, each with its number from 1 and its values read by the
-- names of their columns, wherever these stand; or an error, and then one of the five columns is not
-- in the answer.
pub columns-named :
    (table pattern : Text) (answer : Answer)
    → IsTable answer
    → (columns table pattern answer ≡ ok (named_columns table pattern answer.cols 0 answer.rows))
      ⊎ ((e : Error) × (columns table pattern answer ≡ err e) × Lacks answer.cols column_fields)
unfolding columns
columns-named table pattern answer t = elim (positions-At answer.cols column_fields) [
  | inl (at, p, h) ↦
      inl (rw (p) (columns_loop-named table pattern answer.cols at 0 answer.rows h t))
  | inr (e, p, lacks) ↦
      inr (wrapped (str "reading DESCRIBE of " ++ (table ++ str ": ")) e, rw (p) refl, lacks)
]

abbrev pub index_name : List Text → List (Option Text) → Text
index_name cols r = by_name cols r (str "Key_name")

abbrev pub named_index : Text → List Text → List (Option Text) → Index
named_index table cols r = record {
  table = table;
  name = index_name cols r;
  type = by_name cols r (str "Index_type");
  unique = text_eq (by_name cols r (str "Non_unique")) (str "0");
  primary = text_eq (index_name cols r) (str "PRIMARY");
}

abbrev pub matching_rows : Text → List Text → List (List (Option Text)) → List (List (Option Text))
matching_rows pattern cols rows = keep (λ r. like pattern (index_name cols r)) rows

index_of_row-named :
    (table : Text) (cols : List Text) (at : List ℕ) (r : List (Option Text)) (name : Text)
    → At cols index_fields at
    → length r ≡ length cols
    → name ≡ index_name cols r
    → index_of_row table at r name ≡ ok (named_index table cols r)
unfolding index_of_row
index_of_row-named table cols at r name h l e =
    let read = λ (k : ℕ) (n : Text). cell-named cols index_fields at r k n h l in
    rw (read 2 (str "Index_type") refl, read 0 (str "Non_unique") refl, e) refl

indexes_loop-first_of_each :
    (table pattern : Text) (cols : List Text) (at : List ℕ) (seen : List Text)
    (rows : List (List (Option Text)))
    → At cols index_fields at
    → All (λ r. length r ≡ length cols) rows
    → indexes_loop table pattern at seen rows
      ≡ ok (
          map (named_index table cols) (
            without
              (index_name cols)
              seen
              (first_of_each (index_name cols) (matching_rows pattern cols rows))))
unfolding indexes_loop
indexes_loop-first_of_each table pattern cols at seen [] h t = refl
indexes_loop-first_of_each table pattern cols at seen (r ∷ rows) h (l, t) =
    let key = index_name cols in
    let others = first_of_each key (matching_rows pattern cols rows) in
    rw
      (
        cell-named cols index_fields at r 1 (str "Key_name") h l refl,
        index_of_row-named table cols at r _ h l refl,
      )
      (ground (
        arith,
        indexes_loop-first_of_each table pattern cols at seen rows h t,
        indexes_loop-first_of_each table pattern cols at (key r ∷ seen) rows h t,
        without_seen key seen (key r) others,
        without_more key seen (key r) others,
      ))

-- On an answer whose rows are as wide as its columns, `indexes` never indexes out of range. Of the
-- rows whose Key_name matches the pattern it takes the first one of each name, in their order, and
-- reads its values by the names of their columns; or it answers an error, and then one of the three
-- columns is not in the answer.
pub indexes-first_of_each :
    (table pattern : Text) (answer : Answer)
    → IsTable answer
    → (indexes table pattern answer
        ≡ ok (
            map (named_index table answer.cols) (
              first_of_each
                (index_name answer.cols)
                (matching_rows pattern answer.cols answer.rows))))
      ⊎ ((e : Error) × (indexes table pattern answer ≡ err e) × Lacks answer.cols index_fields)
unfolding indexes
indexes-first_of_each table pattern answer t = elim (positions-At answer.cols index_fields) [
  | inl (at, p, h) ↦ inl (
      rw
        (
          p,
          indexes_loop-first_of_each table pattern answer.cols at [] answer.rows h t,
          without_nil (index_name answer.cols) _,
        )
        refl)
  | inr (e, p, lacks) ↦
      inr (wrapped (str "reading SHOW INDEX of " ++ (table ++ str ": ")) e, rw (p) refl, lacks)
]
