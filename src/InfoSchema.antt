-- ===== src/InfoSchema.antt =====
-- models/informationschema/informationschema.go: the features and the clauses in which databases differ
-- from the SQL standard, and the list of the schemas that a query hides.
pub mod Schemas
pub mod Catalogs
pub mod Objects
pub mod Details
pub mod Builds
pub mod Registers
pub mod Needs
pub mod Supported
use dbmeta.Common.{
  ℕ, Bool, true, false, Option, none, some, List, [], ◌∷◌, ◌++◌, map, is_empty, if◌then◌else◌,
  Error, ◌⊎◌,
}
use dbmeta.Common.Text.{Text, str, join, replace_all}
use dbmeta.Common.Assoc
use dbmeta.Common.Assoc.{Map}
use dbmeta.Value.{string, bool}
use dbmeta.Version.{VersionSet}
use dbmeta.Bind.{Param}
use dbmeta.Filter.{in_list}

-- A feature and a clause are the texts of the constants of the code.
abbrev pub Features : Type 0
Features = Map Bool

-- `Standard`
abbrev pub standard : Features
standard =
    (str "functions", true)
    ∷ (str "sequences", true)
    ∷ (str "constraints", true)
    ∷ (str "check_constraints", true)
    ∷ (str "table_privileges", true)
    ∷ (str "column_privileges", true)
    ∷ (str "usage_privileges", true)
    ∷ (str "views", true)
    ∷ (str "parameters", true)
    ∷ (str "indexes", false)
    ∷ []

abbrev pub set_all : Features → List Text → Bool → Features
set_all f [] b = f
set_all f (name ∷ names) b = set_all (Assoc.put f name b) names b

-- `Features.With`, on a copy, as every value here is
unfoldable pub with_features : Features → List Text → Features
with_features f names = set_all f names true

-- `Features.Without`
unfoldable pub without_features : Features → List Text → Features
without_features f names = set_all f names false

abbrev pub or_false : Option Bool → Bool
or_false none = false
or_false (some b) = b

-- `Features.Has`
unfoldable pub has_feature : Features → Text → Bool
has_feature f name = or_false (Assoc.get f name)

-- `standardClauses`
unfoldable pub standard_clauses : Map Text
unfolding in_list
standard_clauses =
    (str "columns.data_type", str "c.data_type")
    ∷ (
      str "columns.size",
      str "COALESCE(c.character_maximum_length, c.numeric_precision, c.datetime_precision, 0)",
    )
    ∷ (str "columns.scale", str "COALESCE(c.numeric_scale, 0)")
    ∷ (str "columns.radix", str "COALESCE(c.numeric_precision_radix, 10)")
    ∷ (str "constraints.deferrable", str "t.is_deferrable")
    ∷ (str "constraints.deferred", str "t.initially_deferred")
    ∷ (str "privileges.grantor", str "p.grantor")
    ∷ (str "current_schema", str "CURRENT_SCHEMA")
    ∷ (str "current_user", str "CURRENT_USER")
    ∷ (str "session_user", str "SESSION_USER")
    ∷ (str "tables.type_in", in_list (str "@types") (str "LOWER(t.table_type)"))
    ∷ (str "columns.collation", str "c.collation_name")
    ∷ (
      str "columns.primary_key",
      str "EXISTS (SELECT 1 FROM information_schema.key_column_usage k"
          ++ (str " JOIN information_schema.table_constraints tc"
              ++ (str " ON tc.constraint_catalog = k.constraint_catalog"
                  ++ (str " AND tc.constraint_schema = k.constraint_schema"
                      ++ (str " AND tc.constraint_name = k.constraint_name"
                          ++ (str " WHERE tc.constraint_type = 'PRIMARY KEY'"
                              ++ (str
                                    " AND k.table_schema = c.table_schema AND k.table_name = c.table_name"
                                  ++ str " AND k.column_name = c.column_name)")))))),
    )
    ∷ []

-- The features are none when the map is nil.
pub record Profile : Type 0 where
  pub placeholder : ℕ → Text
  pub features : Option Features
  pub clauses : Map Text
  pub hidden_schemas : List Text
  pub version_query : Text
  pub version_columns : ℕ
  pub parse_version : Option (List Text → Error ⊎ VersionSet)

abbrev or_empty : Option Text → Text
or_empty none = []
or_empty (some t) = t

abbrev clause_or : Text → Option Text → Text
clause_or other none = other
clause_or other (some t) = t

-- `Profile.clause`
unfoldable pub clause : Profile → Text → Text
unfolding standard_clauses
clause p name = clause_or (or_empty (Assoc.get standard_clauses name)) (Assoc.get p.clauses name)

abbrev features_of : Option Features → Features
features_of none = standard
features_of (some f) = f

-- `Profile.has`
unfoldable pub has : Profile → Text → Bool
unfolding has_feature
has p name = has_feature (features_of p.features) name

abbrev pub schemas_or_default : List Text → List Text
schemas_or_default [] = str "information_schema" ∷ []
schemas_or_default (s ∷ schemas) = s ∷ schemas

abbrev pub sql_quote : ℕ
sql_quote = 39

abbrev pub quoted_schema : Text → Text
quoted_schema name = str "'" ++ (replace_all name sql_quote (str "''") ++ str "'")

-- `Profile.systemSchemas`
unfoldable pub system_schemas : Profile → Text
unfolding join
system_schemas p = join (str ", ") (map quoted_schema (schemas_or_default p.hidden_schemas))

-- `nameSystem`
abbrev pub name_system : Text → List Param
name_system kind =
    record {
      name = str "name";
      desc = kind ++ (str " name pattern, empty for every " ++ kind);
      default = string [];
    }
    ∷ record {
      name = str "with_system";
      desc = str "include the system schemas";
      default = bool false;
    }
    ∷ []

abbrev schema_param : Param
schema_param = record {
  name = str "schema";
  desc = str "schema name pattern, empty for every schema";
  default = string [];
}

-- `schemaNameSystem`
abbrev pub schema_name_system : Text → List Param
schema_name_system kind = schema_param ∷ name_system kind

-- `schemaParentOf`
abbrev pub schema_parent_of : Text → Text → List Param
schema_parent_of parent kind =
    schema_param
    ∷ record {
      name = str "parent";
      desc = parent ++ (str " name pattern, empty for every " ++ parent);
      default = string [];
    }
    ∷ name_system kind

-- `schemaParentName`
abbrev pub schema_parent_name : Text → List Param
schema_parent_name kind = schema_parent_of (str "table") kind
