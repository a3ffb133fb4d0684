-- ===== src/Tablestore/Walks.antt =====
-- walk.go and relation.go of models/tablestore: `readAll`, `listTables`, `vanished`, `walkTables` and
-- the walks that are registered with it. The service is a value of the type `W`, which a statement may
-- change. The statements that a walk runs behind a `break` of its caller are not run.
use dbmeta.Common.{
  Bool, true, false, ◌&&◌, not, Option, none, some, List, [], ◌∷◌, ◌++◌, ◌⊎◌, inl, inr,
  if◌then◌else◌, Result, ok, err, panic, out_of_fuel, Error,
}
use dbmeta.Common.Text.{Text, str, text_eq, contains}
use dbmeta.Common.Assoc
use dbmeta.Value.{string}
use dbmeta.Bind.{Args}
use dbmeta.Query.{Item}
use dbmeta.Like.{like, list_has}
use dbmeta.Password.{quote_identifier}
use dbmeta.Service.{Answer, Service, read_all}
use dbmeta.Tablestore.{Column, Index, IndexColumn, columns, indexes, index_columns}

-- `quote`
abbrev pub quote : Text → Text
quote name = quote_identifier name (str "`") b'`'

-- The loop of `listTables`: the first value of each row, without the NULLs.
abbrev pub names_of : List (List (Option Text)) → List Text
names_of [] = []
names_of ((some name ∷ r) ∷ rows) = name ∷ names_of rows
names_of (_ ∷ rows) = names_of rows

module _ {W : Type 0} (query : Service W) where
  -- `listTables`
  unfoldable pub list_tables : W → (Error ⊎ List Text) × W
  list_tables w =
      let (res, w') = read_all query w (str "SHOW FULL TABLES") in
      (elim res [ inl e ↦ inl e | inr answer ↦ inr (names_of answer.rows) ], w')

  -- `vanished`
  unfoldable pub vanished : W → Text → Bool × W
  vanished w name =
      let (names, w') = list_tables w in
      (elim names [ inl e ↦ false | inr names ↦ not (contains names name) ], w')

-- The last loop of `walkTables`. It answers whether the walk goes on.
unfoldable pub yield_values : {S T : Type 0} → (S → Item T → S × Bool) → List T → S → S × Bool
yield_values yield [] s = (s, true)
yield_values yield (v ∷ vals) s =
    let (s', go) = yield s (v, none) in
    elim go [ true ↦ yield_values yield vals s' | false ↦ (s', false) ]

module _ {W S T : Type 0} (query : Service W) (zero_value : T) (yield : S → Item T → S × Bool) where
  -- The loop of `walkTables` over the names of the tables.
  unfoldable pub tables_loop :
      Text → (Text → Answer → Result (List T)) → Text → List Text → W → S → Result S
  unfolding yield_values
  tables_loop stmt read parent [] w s = ok s
  tables_loop stmt read parent (name ∷ names) w s = elim (like parent name) [
    | false ↦ tables_loop stmt read parent names w s
    | true ↦
        let (res, w') = read_all query w (stmt ++ (str " " ++ quote name)) in
        elim res [
          | inl e ↦
              let (gone, w'') = vanished query w' name in
              elim gone [
                | true ↦ tables_loop stmt read parent names w'' s
                | false ↦ ok (yield s (zero_value, some e)).0
              ]
          | inr answer ↦ elim (read name answer) [
            | err e ↦ ok (yield s (zero_value, some e)).0
            | panic m ↦ panic m
            | out_of_fuel ↦ out_of_fuel
            | ok vals ↦
                let (s', go) = yield_values yield vals s in
                elim go [ true ↦ tables_loop stmt read parent names w' s' | false ↦ ok s' ]
          ]
        ]
  ]

-- `arg`
unfoldable pub arg : Args → Text → Text
arg args name = elim (Assoc.get args name) [ some (string s) ↦ s | _ ↦ [] ]

module _ {W S T : Type 0} (query : Service W) (zero_value : T) (yield : S → Item T → S × Bool) where
  -- `walkTables`
  unfoldable pub walk_tables : Text → (Text → Answer → Result (List T)) → Args → W → S → Result S
  unfolding tables_loop
  walk_tables stmt read args w s = elim (like (arg args (str "schema")) []) [
    | false ↦ ok s
    | true ↦
        let (names, w') = list_tables query w in
        elim names [
          | inl e ↦ ok (yield s (zero_value, some e)).0
          | inr names ↦
              tables_loop query zero_value yield stmt read (arg args (str "parent")) names w' s
        ]
  ]

-- The walks of the three kinds that `registerWalks` registers.
unfoldable pub columns_walk :
    {W S : Type 0} → Service W → Column → (S → Item Column → S × Bool) → Args → W → S → Result S
unfolding walk_tables columns arg
columns_walk query zero_value yield args =
    walk_tables query zero_value yield (str "DESCRIBE")
      (λ table. columns table (arg args (str "name"))) args

unfoldable pub indexes_walk :
    {W S : Type 0} → Service W → Index → (S → Item Index → S × Bool) → Args → W → S → Result S
unfolding walk_tables indexes arg
indexes_walk query zero_value yield args =
    walk_tables query zero_value yield (str "SHOW INDEX FROM")
      (λ table. indexes table (arg args (str "name"))) args

unfoldable pub index_columns_walk :
    {W S : Type 0}
    → Service W
    → IndexColumn
    → (S → Item IndexColumn → S × Bool)
    → Args
    → W
    → S
    → Result S
unfolding walk_tables index_columns arg
index_columns_walk query zero_value yield args =
    walk_tables query zero_value yield (str "SHOW INDEX FROM")
      (λ table. index_columns table (arg args (str "name"))) args

-- `tableType`, over `strings.ToLower`
unfoldable pub table_type : (Text → Text) → Text → Text
table_type to_lower s = if text_eq s (str "BASE TABLE") then str "table" else to_lower s

-- `Scan` and `Keep` of the binding of the tables: the name and the type of a row, and whether it is
-- kept. The schema of a table is always empty.
unfoldable pub keep_table : Text × Text → Args → Bool
unfolding arg list_has
keep_table (name, type) args =
    like (arg args (str "schema")) []
    && like (arg args (str "name")) name
    && list_has (arg args (str "types")) type
