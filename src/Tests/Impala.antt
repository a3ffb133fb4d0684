-- ===== src/Tests/Impala.antt =====
-- models/impala: a service with the built in database and one other.
use dbmeta.Common.{
  ◌≡◌, refl, ℕ, suc, Bool, true, none, some, List, [], ◌∷◌, ◌++◌, All, arith, ◌⊎◌, inl, inr, map,
  if◌then◌else◌, Error, foreign,
}
use dbmeta.Common.Text.{Text, str, text_eq}
use dbmeta.Common.Assoc
use dbmeta.Value.{bool}
use dbmeta.Bind.{Args}
use dbmeta.Query.{Item}
use dbmeta.Service.{Rows, Service}
use dbmeta.Impala.{Relation, Table, describe}
use dbmeta.Impala.Walks.{Function, Column, functions_walk}
use dbmeta.Impala.Kinds.{columns_kind, ShowsVisible, walk_kind}
use dbmeta.Impala.Shown.{walk_kind-Kept}
use dbmeta.Impala.Visible.{IsWide}
use dbmeta.Walk.{Outcome, going, returned}
use dbmeta.Walk.Holds.{Kept}
use dbmeta.Impala
use dbmeta.Impala.Visible
use dbmeta.Service
use dbmeta.Like
use dbmeta.Password
use dbmeta.Common.Cut

abbrev rows_of : List (List Text) → Error ⊎ Rows
rows_of rows = inr (record {
  columns = inr (map (λ _. []) (first rows));
  rows = map (λ r. map (λ v. inr (some v)) r) rows;
  err = none;
})
  where
    first : List (List Text) → List Text
    first [] = []
    first (r ∷ _) = r

abbrev two_databases : List (List Text)
two_databases = (str "_impala_builtins" ∷ str "System database" ∷ []) ∷ (str "shop" ∷ [] ∷ []) ∷ []

abbrev service : Service ℕ
service n stmt =
    if text_eq stmt (str "SHOW DATABASES")
    then (rows_of two_databases, suc n)
    else if text_eq stmt (str "SHOW FUNCTIONS IN `_impala_builtins`")
    then (rows_of ((str "STRING" ∷ str "upper(STRING)" ∷ str "BUILTIN" ∷ []) ∷ []), suc n)
    else if text_eq stmt (str "SHOW FUNCTIONS IN `shop`")
    then (rows_of ((str "INT" ∷ str "tax(INT, INT)" ∷ str "JAVA" ∷ []) ∷ []), suc n)
    else (inl (foreign stmt), suc n)

abbrev lower : ℕ → ℕ
lower c = c

abbrev no_function : Function
no_function = record {
  schema = [];
  name = [];
  kind = [];
  id = [];
  result_type = [];
  arg_types = [];
  language = [];
}

abbrev collect : List (Text × Text) → Item Function → List (Text × Text) × Bool
collect s (v, none) = (s ++ (v.schema, v.arg_types) ∷ [], true)
collect s (v, some e) = (s ++ (str "error", []) ∷ [], true)

abbrev state : Outcome ℕ (List (Text × Text)) (Unit {0}) → List (Text × Text)
state (going a w s) = s
state (returned s) = s
state _ = []

abbrev run : Args → List (Text × Text)
run args = state (
    functions_walk service lower no_function collect (str "SHOW FUNCTIONS IN ") (str "func") args 0
      [])

functions_walk_hidden_test : run [] ≡ (str "shop", str "INT, INT") ∷ []
unfolding functions_walk Impala.read_all Service.read_all Service.read_answer text_eq
    Service.read_rows Service.scan Impala.databases_loop Impala.at Assoc.get Like.like Impala.arg
    Password.quote_identifier Cut.cut Cut.cut_suffix
functions_walk_hidden_test = refl

functions_walk_system_test :
    run ((str "with_system", bool true) ∷ [])
    ≡ (str "_impala_builtins", str "STRING") ∷ (str "shop", str "INT, INT") ∷ []
unfolding functions_walk Impala.read_all Service.read_all Service.read_answer text_eq
    Service.read_rows Service.scan Impala.databases_loop Impala.at Assoc.get Like.like Impala.arg
    Password.quote_identifier Cut.cut Cut.cut_suffix
functions_walk_system_test = refl

-- A service that answers every statement alike.
abbrev same : Service ℕ
same n stmt = (rows_of two_databases, suc n)

same-IsWide : IsWide same
unfolding Impala.Visible.width Impala.read_all Service.read_all Service.read_answer
    Service.read_columns Service.read_rows Service.scan
same-IsWide stmt w = (ground arith, (ground arith, tt))

abbrev no_column : Column
no_column = record {
  schema = [];
  table = [];
  name = [];
  ordinal = 0;
  data_type = [];
  comment = none;
}

abbrev keep_all : List (Item Column) → Item Column → List (Item Column) × Bool
keep_all s item = (item ∷ s, true)

walk_kind-Kept_example :
    Kept
      (All (ShowsVisible columns_kind []))
      (λ _. Unit {0})
      (walk_kind same lower columns_kind no_column keep_all [] 0 [])
walk_kind-Kept_example =
    walk_kind-Kept columns_kind same lower no_column keep_all []
      (All (ShowsVisible columns_kind [])) 0 [] same-IsWide (λ s item v i. (v, i)) tt
