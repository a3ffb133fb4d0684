-- ===== src/Impala/Walks.antt =====
-- The walks of models/impala/catalog.go, each as its iterator on the body `yield`.
use dbmeta.Common.{
  ℕ, suc, ◌+◌, Bool, ◌&&◌, not, Option, none, some, List, [], ◌∷◌, ◌++◌, map, get_elem?, is_empty,
  if◌then◌else◌, Result, ok, err, panic, out_of_fuel,
}
use dbmeta.Common.Text.{Text, str}
use dbmeta.Common.Cut.{cut, cut_suffix}
use dbmeta.Bind.{Args}
use dbmeta.Query.{Item}
use dbmeta.Like.{like, list_has}
use dbmeta.Service.{Service}
use dbmeta.Impala.{
  Database, Relation, Table, arg, quote, at, read_all, filled, databases, relations, describe,
}
use dbmeta.Walk.{Walk, answer, then_ask, ◌>>=◌, skip, for_each, emit, or_fail, yield_all}

pub record Column : Type 0 where
  pub schema : Text
  pub table : Text
  pub name : Text
  pub ordinal : ℕ
  pub data_type : Text
  pub comment : Option Text

pub record View : Type 0 where
  pub schema : Text
  pub name : Text
  pub definition : Option Text

pub record Function : Type 0 where
  pub schema : Text
  pub name : Text
  pub kind : Text
  pub id : Text
  pub result_type : Text
  pub arg_types : Text
  pub language : Text

pub record Setting : Type 0 where
  pub name : Text
  pub value : Option Text
  pub context : Text

abbrev pub full_name : Relation → Text
full_name r = quote r.schema ++ (str "." ++ quote r.name)

-- rows[0][0], when there is a row
abbrev pub definition_of : List (List Text) → Result (Option Text)
definition_of [] = ok none
definition_of ([] ∷ rows) = panic (str "index out of range")
definition_of ((v ∷ r) ∷ rows) = ok (some v)

-- strings.Cut(f[1], "(") and strings.TrimSuffix(rest, ")")
abbrev pub cut_signature : Text → Text × Text
cut_signature s = elim (cut s (str "(")) [
  | none ↦ (s, [])
  | some (name, rest) ↦ (name, elim (cut_suffix rest (str ")")) [ none ↦ rest | some r ↦ r ])
]

module _ {W S : Type 0} where
  -- The rows of one DESCRIBE, from the number `i` on
  unfoldable pub columns_loop :
      Column
      → (S → Item Column → S × Bool)
      → Args
      → Relation
      → ℕ
      → List (List Text)
      → Walk W S (Unit {0})
  unfolding or_fail emit
  columns_loop zero_value yield args r i [] = skip
  columns_loop zero_value yield args r i (c ∷ rows) =
      let rest = columns_loop zero_value yield args r (suc i) rows in
      or_fail yield zero_value (answer (at c 0)) >>= λ name.
      if like (arg args (str "name")) name
      then (or_fail yield zero_value (answer (at c 1)) >>= λ data_type.
          emit yield zero_value (record {
            schema = r.schema;
            table = r.name;
            name = name;
            ordinal = i + 1;
            data_type = data_type;
            comment = filled (get_elem? c 2);
          })
          >>= λ _. rest)
      else rest

  unfoldable pub function_row :
      (ℕ → ℕ)
      → Function
      → (S → Item Function → S × Bool)
      → Args
      → Text
      → Text
      → List Text
      → Walk W S (Unit {0})
  unfolding emit
  function_row to_lower zero_value yield args schema kind (result ∷ id ∷ binary ∷ _) =
      let (name, types) = cut_signature id in
      if like (arg args (str "name")) name
      then emit yield zero_value (record {
        schema = schema;
        name = name;
        kind = kind;
        id = id;
        result_type = result;
        arg_types = types;
        language = map to_lower binary;
      })
      else skip
  function_row to_lower zero_value yield args schema kind _ = skip

module _ {W S : Type 0} (query : Service W) where
  -- The walk of the databases. That of the schemas has the same rows.
  unfoldable pub databases_walk :
      Database → (S → Item Database → S × Bool) → Args → Walk W S (Unit {0})
  unfolding databases yield_all
  databases_walk zero_value yield args =
      yield_all yield zero_value (databases query args (str "name"))

  unfoldable pub tables_walk :
      (ℕ → ℕ) → Table → (S → Item Table → S × Bool) → Args → Walk W S (Unit {0})
  unfolding or_fail for_each emit relations describe list_has arg
  tables_walk to_lower zero_value yield args =
      or_fail yield zero_value (relations query args (str "name"))
      >>= for_each λ r. or_fail yield zero_value (describe to_lower query r) >>= λ v.
          if not (is_empty (arg args (str "types")))
            && not (list_has (arg args (str "types")) v.type)
          then skip
          else emit yield zero_value v

  unfoldable pub columns_walk : Column → (S → Item Column → S × Bool) → Args → Walk W S (Unit {0})
  unfolding or_fail for_each relations columns_loop
  columns_walk zero_value yield args =
      or_fail yield zero_value (relations query args (str "parent"))
      >>= for_each λ r.
        or_fail yield zero_value (read_all query (str "DESCRIBE " ++ full_name r)) >>= λ rows.
        columns_loop zero_value yield args r 0 rows

  unfoldable pub views_walk : View → (S → Item View → S × Bool) → Args → Walk W S (Unit {0})
  unfolding or_fail for_each emit relations
  views_walk zero_value yield args =
      or_fail yield zero_value (relations query args (str "name"))
      >>= for_each λ r.
        if not r.view
        then skip
        else or_fail yield zero_value (read_all query (str "SHOW CREATE VIEW " ++ full_name r))
          >>= λ rows. or_fail yield zero_value (answer (definition_of rows)) >>= λ definition.
              emit yield zero_value
                (record { schema = r.schema; name = r.name; definition = definition })

  unfoldable pub functions_walk :
      (ℕ → ℕ) → Function → (S → Item Function → S × Bool) → Text → Text → Args → Walk W S (Unit {0})
  unfolding or_fail for_each databases function_row
  functions_walk to_lower zero_value yield show kind args =
      or_fail yield zero_value (databases query args (str "schema"))
      >>= for_each λ d.
        or_fail yield zero_value (read_all query (show ++ quote d.name))
        >>= for_each (function_row to_lower zero_value yield args d.name kind)

-- The loop of the walk of the settings. The name is read in front of the test of the length.
unfoldable pub settings_loop : (ℕ → ℕ) → Args → List (List Text) → Result (List Setting)
settings_loop to_lower args [] = ok []
settings_loop to_lower args ([] ∷ rows) = panic (str "index out of range")
settings_loop to_lower args ((name ∷ value ∷ context ∷ _) ∷ rows) =
    elim (settings_loop to_lower args rows) [
      | ok rest ↦
          if like (arg args (str "name")) (map to_lower name)
          then ok (
              record {
                name = map to_lower name;
                value = filled (some value);
                context = map to_lower context;
              }
              ∷ rest)
          else ok rest
      | err e ↦ err e
      | panic m ↦ panic m
      | out_of_fuel ↦ out_of_fuel
    ]
settings_loop to_lower args (_ ∷ rows) = settings_loop to_lower args rows

unfoldable pub settings_walk :
    {W S : Type 0}
    → Service W
    → (ℕ → ℕ)
    → Setting
    → (S → Item Setting → S × Bool)
    → Args
    → Walk W S (Unit {0})
unfolding yield_all settings_loop
settings_walk query to_lower zero_value yield args =
    yield_all yield zero_value
      (then_ask (read_all query (str "SET ALL")) λ rows. answer (settings_loop to_lower args rows))
