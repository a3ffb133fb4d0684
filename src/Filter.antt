-- ===== src/Filter.antt =====
-- filter.go: `Args`, its map, `InList` and `TypesParam`.
use dbmeta.Common.{Bool, true, List, [], ◌∷◌, ◌++◌, is_empty, if◌then◌else◌}
use dbmeta.Common.Text.{Text, str}
use dbmeta.Common.Assoc
use dbmeta.Common.Assoc.{Map}
use dbmeta.Value.{string, strings, bool}
use dbmeta.Bind.{Param, Args}

-- The struct `Args`.
pub record FilterArgs : Type 0 where
  pub catalog : Text
  pub schema : Text
  pub parent : Text
  pub name : Text
  pub parent_schema : Text
  pub partition_schema : Text
  pub types : List Text
  pub access_method : Text
  pub server : Text
  pub database : Text
  pub with_system : Bool
  pub with_indexes : Bool
  pub with_implicit : Bool
  pub with_table_info : Bool

-- The literal map of the string fields, by the name of the parameter.
unfoldable pub text_fields : FilterArgs → List (Text × Text)
text_fields a =
    (str "catalog", a.catalog)
    ∷ (str "schema", a.schema)
    ∷ (str "parent", a.parent)
    ∷ (str "name", a.name)
    ∷ (str "parent_schema", a.parent_schema)
    ∷ (str "partition_schema", a.partition_schema)
    ∷ (str "access_method", a.access_method)
    ∷ (str "server", a.server)
    ∷ (str "database", a.database)
    ∷ []

-- The loop over it: a field that is not empty is set.
unfoldable pub set_texts : Args → List (Text × Text) → Args
unfolding Assoc.put
set_texts m [] = m
set_texts m ((name, v) ∷ rest) =
    set_texts (if is_empty v then m else Assoc.put m name (string v)) rest

unfoldable pub set_flag : Text → Bool → Args → Args
unfolding Assoc.put
set_flag name b m = if b then Assoc.put m name (bool true) else m

unfoldable pub set_list : Text → List Text → Args → Args
unfolding Assoc.put
set_list name list m = if is_empty list then m else Assoc.put m name (strings list)

-- `Args.Map`
unfoldable pub args_map : FilterArgs → Args
unfolding set_texts set_flag set_list text_fields
args_map a = set_flag (str "with_table_info") a.with_table_info (
    set_flag (str "with_implicit") a.with_implicit (
      set_flag (str "indexes") a.with_indexes (
        set_flag (str "with_system") a.with_system
          (set_list (str "types") a.types (set_texts [] (text_fields a))))))

-- `InList`
unfoldable pub in_list : Text → Text → Text
in_list list item =
    str "(',' || " ++ (list ++ (str " || ',') LIKE ('%,' || " ++ (item ++ str " || ',%')")))

-- `TypesParam`
unfoldable pub types_param : Param
types_param = record {
  name = str "types";
  desc =
      str
        "the types to list, as Table.Type spells them, such as table and view, and empty for every type";
  default = string [];
}
