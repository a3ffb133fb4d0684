-- ===== src/InfoSchema/Catalogs.antt =====
-- The bindings of informationschema.go for schemas and the objects in them. The row scanner is a parameter.
use dbmeta.Common.{none, List, [], ◌∷◌, ◌++◌, map}
use dbmeta.Common.Text.{Text, str}
use dbmeta.Fragment.{Choice, Field, fields, no_version}
use dbmeta.Bind.{Param}
use dbmeta.Filter.{types_param}
use dbmeta.Query.{Binding, Item}
use dbmeta.InfoSchema.{
  Profile, clause, system_schemas, name_system, schema_name_system, schema_parent_name,
}

abbrev pub line : Text → Choice
line q = record { min = no_version; key = []; query = q } ∷ []

abbrev pub field : Text → Text → Field
field name desc = record { name = name; desc = desc; min = no_version; key = []; also = [] }

-- A binding of a statement of fixed lines.
abbrev pub binding :
    {Row T : Type 0} → List Text → List Field → List Param → (Row → Item T) → Binding Row T
binding lines fs params scan = record {
  stmt = map line lines;
  variants = [];
  fields = fs;
  params = params;
  derived = [];
  scan = scan;
  keep = none;
  walk = none;
}

-- `schemas`
unfoldable pub schemas : {Row T : Type 0} → Profile → (Row → Item T) → Binding Row T
schemas p scan =
    binding
      (str "SELECT s.catalog_name AS \"catalog\""
        ∷ str ", s.schema_name AS \"name\""
        ∷ str ", s.schema_owner AS \"owner\""
        ∷ str ", NULL AS \"comment\""
        ∷ str "FROM information_schema.schemata s"
        ∷ (str "WHERE (@with_system OR s.schema_name NOT IN (" ++ (system_schemas p ++ (str "))")))
        ∷ str "AND (@name = '' OR s.schema_name LIKE @name)"
        ∷ str "ORDER BY 1, 2"
        ∷ [])
      (fields (str "catalog" ∷ str "name" ∷ str "owner" ∷ str "comment" ∷ []))
      (name_system (str "schema")) scan

-- `tables`
unfoldable pub tables : {Row T : Type 0} → Profile → (Row → Item T) → Binding Row T
tables p scan =
    binding
      (str "SELECT t.table_catalog AS \"catalog\""
        ∷ str ", t.table_schema AS \"schema\""
        ∷ str ", t.table_name AS \"name\""
        ∷ str ", LOWER(t.table_type) AS \"type\""
        ∷ str ", NULL AS \"comment\""
        ∷ str "FROM information_schema.tables t"
        ∷ (str "WHERE (@with_system OR t.table_schema NOT IN (" ++ (system_schemas p ++ (str "))")))
        ∷ str "AND (@schema = '' OR t.table_schema LIKE @schema)"
        ∷ str "AND (@name = '' OR t.table_name LIKE @name)"
        ∷ (str "AND (@types = '' OR " ++ (clause p (str "tables.type_in") ++ (str ")")))
        ∷ str "ORDER BY 2, 3"
        ∷ [])
      (fields (str "catalog" ∷ str "schema" ∷ str "name" ∷ str "type" ∷ str "comment" ∷ []))
      (schema_name_system (str "table") ++ types_param ∷ []) scan

-- `columns`
unfoldable pub columns : {Row T : Type 0} → Profile → (Row → Item T) → Binding Row T
columns p scan =
    binding
      (str "SELECT c.table_catalog AS \"catalog\""
        ∷ str ", c.table_schema AS \"schema\""
        ∷ str ", c.table_name AS \"table\""
        ∷ str ", c.column_name AS \"name\""
        ∷ str ", c.ordinal_position AS \"ordinal\""
        ∷ (str ", " ++ (clause p (str "columns.data_type") ++ (str " AS \"data_type\"")))
        ∷ str ", CASE WHEN c.is_nullable = 'YES' THEN true ELSE false END AS \"nullable\""
        ∷ str ", c.column_default AS \"default\""
        ∷ (str ", " ++ (clause p (str "columns.primary_key") ++ (str " AS \"primary_key\"")))
        ∷ str ", NULL AS \"identity\""
        ∷ str ", NULL AS \"generated\""
        ∷ str ", NULL AS \"comment\""
        ∷ (str ", " ++ (clause p (str "columns.collation") ++ (str " AS \"collation\"")))
        ∷ str "FROM information_schema.columns c"
        ∷ (str "WHERE (@with_system OR c.table_schema NOT IN (" ++ (system_schemas p ++ (str "))")))
        ∷ str "AND (@schema = '' OR c.table_schema LIKE @schema)"
        ∷ str "AND (@parent = '' OR c.table_name LIKE @parent)"
        ∷ str "AND (@name = '' OR c.column_name LIKE @name)"
        ∷ str "ORDER BY 2, 3, 5"
        ∷ [])
      (fields (
        str "catalog"
        ∷ str "schema"
        ∷ str "table"
        ∷ str "name"
        ∷ str "ordinal"
        ∷ str "data_type"
        ∷ str "nullable"
        ∷ str "default"
        ∷ str "primary_key"
        ∷ str "identity"
        ∷ str "generated"
        ∷ str "comment"
        ∷ str "collation"
        ∷ []))
      (schema_parent_name (str "column")) scan
