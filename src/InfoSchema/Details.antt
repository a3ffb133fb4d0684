-- ===== src/InfoSchema/Details.antt =====
-- The bindings of informationschema.go for the parts of objects, views and the session. The row scanner is a
-- parameter.
use dbmeta.Common.{[], ◌∷◌, ◌++◌}
use dbmeta.Common.Text.{str}
use dbmeta.Fragment.{fields}
use dbmeta.Query.{Binding, Item}
use dbmeta.InfoSchema.{
  Profile, clause, system_schemas, schema_name_system, schema_parent_name, schema_parent_of,
}
use dbmeta.InfoSchema.Catalogs.{field, binding}

-- `constraintColumns`
unfoldable pub constraint_columns : {Row T : Type 0} → Profile → (Row → Item T) → Binding Row T
constraint_columns p scan =
    binding
      (str "SELECT k.constraint_catalog AS \"catalog\""
        ∷ str ", k.table_schema AS \"schema\""
        ∷ str ", k.table_name AS \"table\""
        ∷ str ", k.constraint_name AS \"constraint\""
        ∷ str ", k.column_name AS \"name\""
        ∷ str ", k.ordinal_position AS \"ordinal\""
        ∷ str ", r.unique_constraint_catalog AS \"foreign_catalog\""
        ∷ str ", r.unique_constraint_schema AS \"foreign_schema\""
        ∷ str ", fk.table_name AS \"foreign_table\""
        ∷ str ", fk.column_name AS \"foreign_name\""
        ∷ str "FROM information_schema.key_column_usage k"
        ∷ (str "LEFT JOIN information_schema.referential_constraints r"
            ++ (str " ON r.constraint_catalog = k.constraint_catalog"
                ++ (str " AND r.constraint_schema = k.constraint_schema"
                    ++ (str " AND r.constraint_name = k.constraint_name"))))
        ∷ (str "LEFT JOIN information_schema.key_column_usage fk"
            ++ (str " ON fk.constraint_catalog = r.unique_constraint_catalog"
                ++ (str " AND fk.constraint_schema = r.unique_constraint_schema"
                    ++ (str " AND fk.constraint_name = r.unique_constraint_name"
                        ++ (str " AND fk.ordinal_position = k.position_in_unique_constraint")))))
        ∷ (str "WHERE (@with_system OR k.table_schema NOT IN (" ++ (system_schemas p ++ (str "))")))
        ∷ str "AND (@schema = '' OR k.table_schema LIKE @schema)"
        ∷ str "AND (@parent = '' OR k.table_name LIKE @parent)"
        ∷ str "AND (@name = '' OR k.constraint_name LIKE @name)"
        ∷ str "ORDER BY 2, 3, 4, 6"
        ∷ [])
      (fields (
        str "catalog"
        ∷ str "schema"
        ∷ str "table"
        ∷ str "constraint"
        ∷ str "name"
        ∷ str "ordinal"
        ∷ str "foreign_catalog"
        ∷ str "foreign_schema"
        ∷ str "foreign_table"
        ∷ str "foreign_name"
        ∷ []))
      (schema_parent_name (str "constraint")) scan

-- `routineParameters`
unfoldable pub routine_parameters : {Row T : Type 0} → Profile → (Row → Item T) → Binding Row T
routine_parameters p scan =
    binding
      (str "SELECT p.specific_catalog AS \"catalog\""
        ∷ str ", p.specific_schema AS \"schema\""
        ∷ str ", p.specific_name AS \"routine\""
        ∷ str ", p.specific_name AS \"routine_id\""
        ∷ str ", p.parameter_name AS \"name\""
        ∷ str ", p.ordinal_position AS \"ordinal\""
        ∷ (str ", CASE WHEN p.ordinal_position = 0 THEN 'return'"
            ++ (str " ELSE LOWER(COALESCE(p.parameter_mode, 'IN')) END AS \"mode\""))
        ∷ str ", p.dtd_identifier AS \"data_type\""
        ∷ str ", NULL AS \"default\""
        ∷ str "FROM information_schema.parameters p"
        ∷ (str "WHERE (@with_system OR p.specific_schema NOT IN ("
            ++ (system_schemas p ++ (str "))")))
        ∷ str "AND (@schema = '' OR p.specific_schema LIKE @schema)"
        ∷ str "AND (@parent = '' OR p.specific_name LIKE @parent)"
        ∷ str "AND (@name = '' OR COALESCE(p.parameter_name, '') LIKE @name)"
        ∷ str "ORDER BY 2, 3, 6"
        ∷ [])
      (field (str "catalog") ([])
        ∷ field (str "schema") ([])
        ∷ field (str "routine") ([])
        ∷ field (str "routine_id") (
            str
              "the specific name, which the standard defines so that an overloaded routine can be told apart")
        ∷ field (str "name") ([])
        ∷ field (str "ordinal") ([])
        ∷ field (str "mode") ([])
        ∷ field (str "data_type") ([])
        ∷ field (str "default") (str "always absent: the standard records no parameter default")
        ∷ [])
      (schema_parent_of (str "routine") (str "parameter")) scan

-- `views`
unfoldable pub views : {Row T : Type 0} → Profile → (Row → Item T) → Binding Row T
views p scan =
    binding
      (str "SELECT v.table_catalog AS \"catalog\""
        ∷ str ", v.table_schema AS \"schema\""
        ∷ str ", v.table_name AS \"name\""
        ∷ str ", v.view_definition AS \"definition\""
        ∷ str ", LOWER(v.check_option) AS \"check_option\""
        ∷ str ", v.is_updatable = 'YES' AS \"updatable\""
        ∷ str ", NULL AS \"insertable\""
        ∷ str ", NULL AS \"comment\""
        ∷ str "FROM information_schema.views v"
        ∷ (str "WHERE (@with_system OR v.table_schema NOT IN (" ++ (system_schemas p ++ (str "))")))
        ∷ str "AND (@schema = '' OR v.table_schema LIKE @schema)"
        ∷ str "AND (@name = '' OR v.table_name LIKE @name)"
        ∷ str "ORDER BY 2, 3"
        ∷ [])
      (field (str "catalog") ([])
        ∷ field (str "schema") ([])
        ∷ field (str "name") ([])
        ∷ field (str "definition") (
            str
              "the statement the view selects. The standard allows a server to return an empty string where the caller has no right to read it")
        ∷ field (str "check_option") ([])
        ∷ field (str "updatable") ([])
        ∷ field (str "insertable") (str "always absent: the standard has no such column")
        ∷ field (str "comment") (str "always absent: the standard has no comment on a view")
        ∷ [])
      (schema_name_system (str "view")) scan

-- `currentUser`
unfoldable pub current_user : {Row T : Type 0} → Profile → (Row → Item T) → Binding Row T
current_user p scan =
    binding
      ((str "SELECT " ++ (clause p (str "current_user") ++ (str " AS \"name\"")))
        ∷ (str ", " ++ (clause p (str "session_user") ++ (str " AS \"session\"")))
        ∷ [])
      (field (str "name") (str "the effective user")
        ∷ field (str "session") (str "the user the connection authenticated as")
        ∷ [])
      ([]) scan

-- `currentSchema`
unfoldable pub current_schema : {Row T : Type 0} → Profile → (Row → Item T) → Binding Row T
current_schema p scan =
    binding
      (str "SELECT s.catalog_name AS \"catalog\""
        ∷ str ", s.schema_name AS \"name\""
        ∷ str ", s.schema_owner AS \"owner\""
        ∷ str ", NULL AS \"comment\""
        ∷ str "FROM information_schema.schemata s"
        ∷ (str "WHERE s.schema_name = " ++ (clause p (str "current_schema")))
        ∷ [])
      (field (str "catalog") ([])
        ∷ field (str "name") (str "the schema an unqualified name resolves in")
        ∷ field (str "owner") ([])
        ∷ field (str "comment") (str "always absent: the standard has no comment on a schema")
        ∷ [])
      ([]) scan
