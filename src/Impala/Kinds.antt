-- ===== src/Impala/Kinds.antt =====
-- The walks of models/impala by the kind of what they yield, and the values that a caller may be shown.
use dbmeta.Common.{ℕ, Bool, none, some}
use dbmeta.Common.Text.{Text, str}
use dbmeta.Bind.{Args}
use dbmeta.Query.{Item}
use dbmeta.Service.{Service}
use dbmeta.Impala.{Database, Table}
use dbmeta.Impala.Walks.{
  Column, View, Function, databases_walk, tables_walk, columns_walk, views_walk, functions_walk,
}
use dbmeta.Impala.Visible.{IsVisible}
use dbmeta.Walk.{Walk}

-- The kinds whose walks are modelled and that are of a database.
pub data Kind : Type 0 where
  databases_kind tables_kind columns_kind views_kind functions_kind aggregates_kind : Kind

abbrev pub Value : Kind → Type 0
Value databases_kind = Database
Value tables_kind = Table
Value columns_kind = Column
Value views_kind = View
Value functions_kind = Function
Value aggregates_kind = Function

-- The database that a value is of, and the argument that holds the pattern for it.
abbrev pub database_of : (k : Kind) → Value k → Text
database_of databases_kind v = v.name
database_of tables_kind v = v.schema
database_of columns_kind v = v.schema
database_of views_kind v = v.schema
database_of functions_kind v = v.schema
database_of aggregates_kind v = v.schema

abbrev pub pattern_param : Kind → Text
pattern_param databases_kind = str "name"
pattern_param _ = str "schema"

module _ {W S : Type 0} (query : Service W) (to_lower : ℕ → ℕ) where
  abbrev pub walk_kind :
      (k : Kind) → Value k → (S → Item (Value k) → S × Bool) → Args → Walk W S (Unit {0})
  walk_kind databases_kind = databases_walk query
  walk_kind tables_kind = tables_walk query to_lower
  walk_kind columns_kind = columns_walk query
  walk_kind views_kind = views_walk query
  walk_kind functions_kind = λ zero_value yield.
      functions_walk query to_lower zero_value yield (str "SHOW FUNCTIONS IN ") (str "func")
  walk_kind aggregates_kind = λ zero_value yield.
      functions_walk query to_lower zero_value yield (str "SHOW AGGREGATE FUNCTIONS IN ")
        (str "agg")

-- An error, or a value of a visible database.
abbrev pub ShowsVisible : (k : Kind) → Args → Item (Value k) → Type 0
ShowsVisible k args (v, none) = IsVisible args (pattern_param k) (database_of k v)
ShowsVisible k args (v, some e) = Unit
