-- ===== src/Tests/Tables.antt =====
-- models/tablestore: a service with three tables, of which one is dropped behind the list.
use dbmeta.Common.{
  ◌≡◌, refl, ℕ, suc, Bool, true, false, none, some, List, [], ◌∷◌, ◌++◌, ◌⊎◌, inl, inr,
  if◌then◌else◌, Result, ok, err, Error, foreign, ◌==◌, map,
}
use dbmeta.Common.Text.{Text, str, text_eq, contains, replace_all}
use dbmeta.Common.Int.{pos, negsuc}
use dbmeta.Common.Assoc
use dbmeta.Query.{Item}
use dbmeta.Like
use dbmeta.Password
use dbmeta.Service
use dbmeta.Service.{Answer, Rows, Service}
use dbmeta.Tablestore
use dbmeta.Tablestore.{
  Column, Index, IndexColumn, column_fields, index_fields, columns, indexes, index_columns,
  parse_int,
}
use dbmeta.Tablestore.Walks
use dbmeta.Tablestore.Walks.{arg, columns_walk, indexes_walk, index_columns_walk}
use dbmeta.Tablestore.Readers.{
  named_columns, matching_rows, named_index, index_name, Lacks, columns-named,
  indexes-first_of_each,
}
use dbmeta.Tablestore.Sieve.{first_of_each}
use dbmeta.Tablestore.Stream.{IsWalk}
use dbmeta.Tablestore.Registered.{registered-IsWalk}

abbrev describe_answer : Answer
describe_answer = record {
  cols = str "Field" ∷ str "Type" ∷ str "Null" ∷ str "Key" ∷ str "Default" ∷ str "Extra" ∷ [];
  rows =
      (some (str "pk")
        ∷ some (str "bigint(20)")
        ∷ some (str "NO")
        ∷ some (str "PRI")
        ∷ some []
        ∷ none
        ∷ [])
      ∷ (some (str "note")
          ∷ some (str "mediumtext")
          ∷ some (str "YES")
          ∷ some []
          ∷ none
          ∷ none
          ∷ [])
      ∷ [];
}

abbrev index_answer : Answer
index_answer = record {
  cols =
      str "Non_unique"
      ∷ str "Key_name"
      ∷ str "Seq_in_index"
      ∷ str "Column_name"
      ∷ str "Collation"
      ∷ str "Index_type"
      ∷ str "Expression"
      ∷ [];
  rows =
      (some (str "0")
        ∷ some (str "PRIMARY")
        ∷ some (str "1")
        ∷ some (str "pk")
        ∷ some (str "A")
        ∷ some []
        ∷ some (str "NULL")
        ∷ [])
      ∷ (some (str "1")
          ∷ some (str "by_note")
          ∷ some (str "1")
          ∷ some (str "note")
          ∷ some (str "A")
          ∷ some (str "GlobalIndex")
          ∷ some (str "NULL")
          ∷ [])
      ∷ (some (str "1")
          ∷ some (str "by_note")
          ∷ some (str "2")
          ∷ some (str "pk")
          ∷ some (str "A")
          ∷ some (str "GlobalIndex")
          ∷ some (str "NULL")
          ∷ [])
      ∷ [];
}

parse_int_least_test : parse_int (str "-9223372036854775808") ≡ ok (negsuc 9223372036854775807)
unfolding parse_int Tablestore.decimal
parse_int_least_test = refl

parse_int_range_test : parse_int (str "+9223372036854775808") ≡ err Tablestore.not_an_int
unfolding parse_int Tablestore.decimal
parse_int_range_test = refl

abbrev rows_of : Answer → Rows
rows_of answer = record {
  columns = inr answer.cols;
  rows = map (λ r. map inr r) answer.rows;
  err = none;
}

-- Of three tables, the second is gone from the second statement on, and the third refuses a DESCRIBE.
abbrev service : Service ℕ
service n stmt =
    if text_eq stmt (str "SHOW FULL TABLES")
    then (
      inr (
          rows_of (record {
            cols = str "Tables_in_x" ∷ [];
            rows =
                if n == 0
                then ((some (str "a") ∷ []) ∷ (some (str "b") ∷ []) ∷ (some (str "c") ∷ []) ∷ [])
                else ((some (str "a") ∷ []) ∷ (some (str "c") ∷ []) ∷ []);
          })),
      suc n,
    )
    else if text_eq stmt (str "DESCRIBE `a`")
    then (inr (rows_of describe_answer), suc n)
    else if text_eq stmt (str "SHOW INDEX FROM `a`")
    then (inr (rows_of index_answer), suc n)
    else (inl (foreign stmt), suc n)

abbrev no_column : Column
no_column = record {
  table = [];
  name = [];
  ordinal = 0;
  data_type = [];
  nullable = false;
  default = none;
  primary_key = false;
}

abbrev no_index : Index
no_index = record { table = []; name = []; type = []; unique = false; primary = false }

abbrev no_index_column : IndexColumn
no_index_column = record {
  table = [];
  index = [];
  name = none;
  ordinal = pos 0;
  expression = none;
  descending = none;
}

-- A body that keeps every item and goes on.
abbrev collect : {T : Type 0} → List (Item T) → Item T → List (Item T) × Bool
collect s item = (s ++ item ∷ [], true)

abbrev what : Item Column → Text × ℕ × Bool
what (c, none) = (c.name, c.ordinal, c.primary_key)
what (c, some e) = (str "error", 0, false)

abbrev outline : Result (List (Item Column)) → List (Text × ℕ × Bool)
outline (ok items) = map what items
outline _ = []

columns_walk_test :
    outline (columns_walk service no_column collect [] 0 [])
    ≡ (str "pk", 1, true) ∷ (str "note", 2, false) ∷ (str "error", 0, false) ∷ []
unfolding columns_walk Walks.walk_tables Walks.tables_loop Walks.yield_values Walks.vanished
    Walks.list_tables Service.read_all Service.read_answer Service.read_columns Service.read_rows
    Service.scan Walks.arg columns Tablestore.columns_loop Tablestore.column_of Tablestore.cell
    Tablestore.positions Tablestore.index_of Like.like text_eq contains Password.quote_identifier
    replace_all Assoc.get
columns_walk_test = refl

columns-named_example :
    (columns (str "a") [] describe_answer
      ≡ ok (named_columns (str "a") [] describe_answer.cols 0 describe_answer.rows))
    ⊎ ((e : Error) × (columns (str "a") [] describe_answer ≡ err e)
        × Lacks describe_answer.cols column_fields)
columns-named_example = columns-named (str "a") [] describe_answer (refl, (refl, tt))

indexes-first_of_each_example :
    (indexes (str "a") (str "%note") index_answer
      ≡ ok (
          map (named_index (str "a") index_answer.cols) (
            first_of_each
              (index_name index_answer.cols)
              (matching_rows (str "%note") index_answer.cols index_answer.rows))))
    ⊎ ((e : Error) × (indexes (str "a") (str "%note") index_answer ≡ err e)
        × Lacks index_answer.cols index_fields)
indexes-first_of_each_example =
    indexes-first_of_each (str "a") (str "%note") index_answer (refl, (refl, (refl, tt)))

-- A body that counts, and stops at the second item.
abbrev two : {T : Type 0} → ℕ → Item T → ℕ × Bool
two n item = (suc n, n == 0)

registered-IsWalk_example :
    IsWalk service no_column two
      (str "DESCRIBE")
      (λ table. columns table (arg [] (str "name")))
      []
      0
      (columns_walk service no_column two [] 0)
    × IsWalk service no_index two
        (str "SHOW INDEX FROM")
        (λ table. indexes table (arg [] (str "name")))
        []
        0
        (indexes_walk service no_index two [] 0)
    × IsWalk service no_index_column two
        (str "SHOW INDEX FROM")
        (λ table. index_columns table (arg [] (str "name")))
        []
        0
        (index_columns_walk service no_index_column two [] 0)
registered-IsWalk_example =
    registered-IsWalk service no_column no_index no_index_column two two two [] 0
