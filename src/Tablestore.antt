-- ===== src/Tablestore.antt =====
-- models/tablestore: the statements that its walks run and what is made of their answers. The service is
-- a value of type `W` that each statement changes, as a table can be dropped between two of them.
pub mod Walks
pub mod Positions
pub mod Sieve
pub mod Readers
pub mod Stream
pub mod Registered
use dbmeta.Common.{
  ℕ, zero, suc, ◌+◌, ◌-◌, ◌*◌, ◌^◌, Bool, true, false, ◌&&◌, ◌||◌, not, Option, none, some, List,
  [], ◌∷◌, ◌++◌, ◌⊎◌, inl, inr, length, get_elem?, is_empty, ltb, leb, ◌==◌, if◌then◌else◌, Result,
  ok, err, panic, out_of_fuel, ◌>>=◌, Error, foreign, wrapped,
}
use dbmeta.Common.Text.{Text, str, text_eq, join, is_ascii_digit, contains}
use dbmeta.Common.Int.{ℤ, pos, neg_ℤ}
use dbmeta.Common.Assoc
use dbmeta.Value.{Value, string}
use dbmeta.Bind.{Args}
use dbmeta.Like.{like}
use dbmeta.Service.{Answer}
use dbmeta.Password.{quote_identifier}

-- slices.Index
unfoldable pub index_of : Text → List Text → Option ℕ
unfolding text_eq
index_of name [] = none
index_of name (c ∷ cols) =
    if text_eq c name
    then some 0
    else elim (index_of name cols) [ none ↦ none | some i ↦ some (suc i) ]

abbrev pub no_column : Text → List Text → Error
no_column name cols = foreign (
    str "the statement returns no column "
    ++ (name ++ (str ", only [" ++ (join (str " ") cols ++ str "]"))))

-- `result.positions`
unfoldable pub positions : List Text → List Text → Result (List ℕ)
unfolding index_of
positions cols [] = ok []
positions cols (name ∷ names) =
    let rest = positions cols names in
    elim (index_of name cols) [
      | none ↦ err (no_column name cols)
      | some at ↦ rest >>= λ out. ok (at ∷ out)
    ]

-- r[at[k]]
unfoldable pub cell : List (Option Text) → List ℕ → ℕ → Result (Option Text)
cell r at k = elim (get_elem? at k) [
  | none ↦ panic (str "index out of range")
  | some i ↦ elim (get_elem? r i) [ none ↦ panic (str "index out of range") | some v ↦ ok v ]
]

-- The field V of a sql.Null.
abbrev pub or_empty : Option Text → Text
or_empty none = []
or_empty (some v) = v

-- `text`
abbrev pub text : Option Text → Option Text
text none = none
text (some []) = none
text (some (c ∷ v)) = some (c ∷ v)

-- fmt.Errorf with a context
abbrev pub in_context : {A : Type 0} → Text → Result A → Result A
in_context message (err e) = err (wrapped message e)
in_context message (ok a) = ok a
in_context message (panic m) = panic m
in_context message out_of_fuel = out_of_fuel

pub record Column : Type 0 where
  pub table : Text
  pub name : Text
  pub ordinal : ℕ
  pub data_type : Text
  pub nullable : Bool
  pub default : Option Text
  pub primary_key : Bool

pub record Index : Type 0 where
  pub table : Text
  pub name : Text
  pub type : Text
  pub unique : Bool
  pub primary : Bool

pub record IndexColumn : Type 0 where
  pub table : Text
  pub index : Text
  pub name : Option Text
  pub ordinal : ℤ
  pub expression : Option Text
  pub descending : Option Bool

-- One round of `columns`, for the row of the number `i` that is kept.
unfoldable pub column_of : Text → List ℕ → ℕ → List (Option Text) → Text → Result Column
column_of table at i r name = do
  data_type ← cell r at 1
  nullable ← cell r at 2
  default ← cell r at 4
  key ← cell r at 3
  ok (record {
    table = table;
    name = name;
    ordinal = i + 1;
    data_type = or_empty data_type;
    nullable = text_eq (or_empty nullable) (str "YES");
    default = text default;
    primary_key = text_eq (or_empty key) (str "PRI");
  })

unfoldable pub columns_loop :
    Text → Text → List ℕ → ℕ → List (List (Option Text)) → Result (List Column)
columns_loop table pattern at i [] = ok []
columns_loop table pattern at i (r ∷ rows) =
    let rest = columns_loop table pattern at (suc i) rows in
    cell r at 0 >>= λ name.
    if like pattern (or_empty name)
    then (column_of table at i r (or_empty name) >>= λ c. rest >>= λ cs. ok (c ∷ cs))
    else rest

abbrev pub column_fields : List Text
column_fields = str "Field" ∷ str "Type" ∷ str "Null" ∷ str "Key" ∷ str "Default" ∷ []

-- `columns`
unfoldable pub columns : Text → Text → Answer → Result (List Column)
columns table pattern res =
    in_context (str "reading DESCRIBE of " ++ (table ++ str ": "))
      (positions res.cols column_fields)
    >>= λ at. columns_loop table pattern at 0 res.rows

unfoldable pub index_of_row : Text → List ℕ → List (Option Text) → Text → Result Index
index_of_row table at r name = do
  type ← cell r at 2
  non_unique ← cell r at 0
  ok (record {
    table = table;
    name = name;
    type = or_empty type;
    unique = text_eq (or_empty non_unique) (str "0");
    primary = text_eq name (str "PRIMARY");
  })

-- The loop of `indexes`; `seen` lists the true keys of the map.
unfoldable pub indexes_loop :
    Text → Text → List ℕ → List Text → List (List (Option Text)) → Result (List Index)
indexes_loop table pattern at seen [] = ok []
indexes_loop table pattern at seen (r ∷ rows) = cell r at 1 >>= λ n.
    let name = or_empty n in
    let skipped = indexes_loop table pattern at seen rows in
    let rest = indexes_loop table pattern at (name ∷ seen) rows in
    if contains seen name || not (like pattern name)
    then skipped
    else (index_of_row table at r name >>= λ x. rest >>= λ xs. ok (x ∷ xs))

abbrev pub index_fields : List Text
index_fields = str "Non_unique" ∷ str "Key_name" ∷ str "Index_type" ∷ []

-- `indexes`
unfoldable pub indexes : Text → Text → Answer → Result (List Index)
indexes table pattern res =
    in_context (str "reading SHOW INDEX of " ++ (table ++ str ": "))
      (positions res.cols index_fields)
    >>= λ at. indexes_loop table pattern at [] res.rows

-- strconv.ParseInt(s, 10, 64). Its two errors, of the syntax and of the range, are one here.
abbrev pub not_an_int : Error
not_an_int = foreign (str "strconv.ParseInt")

unfoldable pub decimal : ℕ → Text → Option ℕ
decimal n [] = some n
decimal n (c ∷ s) =
    let rest = decimal (n * 10 + (c - b'0')) s in if is_ascii_digit c then rest else none

abbrev pub magnitude : Text → Option ℕ
magnitude s = if is_empty s then none else decimal 0 s

unfoldable pub parse_int : Text → Result ℤ
unfolding decimal
parse_int [] = err not_an_int
parse_int (c ∷ s) =
    if c == b'-'
    then elim (magnitude s) [
      | none ↦ err not_an_int
      | some n ↦ if leb n (2 ^ 63) then ok (neg_ℤ (pos n)) else err not_an_int
    ]
    else elim (magnitude (if c == b'+' then s else c ∷ s)) [
      | none ↦ err not_an_int
      | some n ↦ if ltb n (2 ^ 63) then ok (pos n) else err not_an_int
    ]

-- The switch over Collation.
abbrev pub descending : Text → Option Bool
descending collation =
    if text_eq collation (str "A")
    then some false
    else if text_eq collation (str "D")
    then some true
    else none

abbrev pub expression : Option Text → Option Text
expression e = if text_eq (or_empty e) (str "NULL") then none else e

unfoldable pub index_column_of : Text → List ℕ → List (Option Text) → Text → Result IndexColumn
index_column_of table at r index = do
  seq ← cell r at 1
  seq ←
      in_context (str "reading Seq_in_index of " ++ (index ++ (str " in " ++ (table ++ str ": "))))
        (parse_int (or_empty seq))
  name ← cell r at 2
  collation ← cell r at 3
  e ← cell r at 4
  ok (record {
    table = table;
    index = index;
    name = text name;
    ordinal = seq;
    expression = expression (text e);
    descending = descending (or_empty collation);
  })

unfoldable pub index_columns_loop :
    Text → Text → List ℕ → List (List (Option Text)) → Result (List IndexColumn)
index_columns_loop table pattern at [] = ok []
index_columns_loop table pattern at (r ∷ rows) =
    let rest = index_columns_loop table pattern at rows in
    cell r at 0 >>= λ index.
    if like pattern (or_empty index)
    then (index_column_of table at r (or_empty index) >>= λ c. rest >>= λ cs. ok (c ∷ cs))
    else rest

abbrev pub index_column_fields : List Text
index_column_fields =
    str "Key_name"
    ∷ str "Seq_in_index"
    ∷ str "Column_name"
    ∷ str "Collation"
    ∷ str "Expression"
    ∷ []

-- `indexColumns`
unfoldable pub index_columns : Text → Text → Answer → Result (List IndexColumn)
index_columns table pattern res =
    in_context (str "reading SHOW INDEX of " ++ (table ++ str ": "))
      (positions res.cols index_column_fields)
    >>= λ at. index_columns_loop table pattern at res.rows
