-- ===== src/InfoSchema/Objects.antt =====
-- The bindings of informationschema.go for constraints, sequences, routines and privileges. The row scanner
-- is a parameter.
use dbmeta.Common.{[], ◌∷◌, ◌++◌, if◌then◌else◌}
use dbmeta.Common.Text.{Text, str}
use dbmeta.Fragment.{fields}
use dbmeta.Query.{Binding, Item}
use dbmeta.InfoSchema.{Profile, clause, has, system_schemas, schema_name_system, schema_parent_name}
use dbmeta.InfoSchema.Catalogs.{field, binding}

-- The join of the check constraints, for a database that has their view.
abbrev check_join : Text
check_join =
    str "LEFT JOIN information_schema.check_constraints k"
    ++ (str " ON k.constraint_catalog = t.constraint_catalog"
        ++ (str " AND k.constraint_schema = t.constraint_schema"
            ++ (str " AND k.constraint_name = t.constraint_name")))

-- `constraints`
unfoldable pub constraints : {Row T : Type 0} → Profile → (Row → Item T) → Binding Row T
constraints p scan =
    let checks = has p (str "check_constraints") in
    let definition = if checks then str "k.check_clause" else str "NULL" in
    let join_checks = if checks then check_join else [] in
    binding
      (str "SELECT t.table_schema AS \"schema\""
        ∷ str ", t.table_name AS \"table\""
        ∷ str ", t.constraint_name AS \"name\""
        ∷ str ", LOWER(t.constraint_type) AS \"type\""
        ∷ (str ", " ++ (definition ++ (str " AS \"definition\"")))
        ∷ (str ", CASE WHEN "
            ++ (clause p (str "constraints.deferrable")
                ++ (str " = 'YES' THEN true ELSE false END AS \"deferrable\"")))
        ∷ (str ", CASE WHEN "
            ++ (clause p (str "constraints.deferred")
                ++ (str " = 'YES' THEN true ELSE false END AS \"deferred\"")))
        ∷ str ", NULL AS \"comment\""
        ∷ str "FROM information_schema.table_constraints t"
        ∷ join_checks
        ∷ (str "WHERE (@with_system OR t.table_schema NOT IN (" ++ (system_schemas p ++ (str "))")))
        ∷ str "AND (@schema = '' OR t.table_schema LIKE @schema)"
        ∷ str "AND (@parent = '' OR t.table_name LIKE @parent)"
        ∷ str "AND (@name = '' OR t.constraint_name LIKE @name)"
        ∷ str "ORDER BY 1, 2, 3"
        ∷ [])
      (fields (
        str "schema"
        ∷ str "table"
        ∷ str "name"
        ∷ str "type"
        ∷ str "definition"
        ∷ str "deferrable"
        ∷ str "deferred"
        ∷ str "comment"
        ∷ []))
      (schema_parent_name (str "constraint")) scan

-- `sequences`
unfoldable pub sequences : {Row T : Type 0} → Profile → (Row → Item T) → Binding Row T
sequences p scan =
    binding
      (str "SELECT s.sequence_schema AS \"schema\""
        ∷ str ", s.sequence_name AS \"name\""
        ∷ str ", s.data_type AS \"data_type\""
        ∷ str ", CAST(s.start_value AS BIGINT) AS \"start\""
        ∷ str ", CAST(s.minimum_value AS BIGINT) AS \"minimum\""
        ∷ str ", CAST(s.maximum_value AS BIGINT) AS \"maximum\""
        ∷ str ", CAST(s.increment AS BIGINT) AS \"increment\""
        ∷ str ", CASE WHEN s.cycle_option = 'YES' THEN true ELSE false END AS \"cycles\""
        ∷ str ", '' AS \"owned_by\""
        ∷ str ", NULL AS \"comment\""
        ∷ str "FROM information_schema.sequences s"
        ∷ (str "WHERE (@with_system OR s.sequence_schema NOT IN ("
            ++ (system_schemas p ++ (str "))")))
        ∷ str "AND (@schema = '' OR s.sequence_schema LIKE @schema)"
        ∷ str "AND (@name = '' OR s.sequence_name LIKE @name)"
        ∷ str "ORDER BY 1, 2"
        ∷ [])
      (fields (
        str "schema"
        ∷ str "name"
        ∷ str "data_type"
        ∷ str "start"
        ∷ str "minimum"
        ∷ str "maximum"
        ∷ str "increment"
        ∷ str "cycles"
        ∷ str "owned_by"
        ∷ str "comment"
        ∷ []))
      (schema_name_system (str "sequence")) scan

-- `functions`
unfoldable pub functions : {Row T : Type 0} → Profile → (Row → Item T) → Binding Row T
functions p scan =
    binding
      (str "SELECT r.specific_catalog AS \"catalog\""
        ∷ str ", r.routine_schema AS \"schema\""
        ∷ str ", r.routine_name AS \"name\""
        ∷ str ", r.specific_name AS \"id\""
        ∷ str ", LOWER(r.routine_type) AS \"kind\""
        ∷ str ", r.data_type AS \"result_type\""
        ∷ str ", NULL AS \"arg_types\""
        ∷ str ", '' AS \"volatility\""
        ∷ str ", '' AS \"parallel\""
        ∷ str ", NULL AS \"owner\""
        ∷ str ", LOWER(r.security_type) AS \"security\""
        ∷ str ", NULL AS \"access\""
        ∷ str ", r.external_language AS \"language\""
        ∷ str ", r.routine_definition AS \"source\""
        ∷ str ", NULL AS \"comment\""
        ∷ str ", NULL AS \"definition\""
        ∷ str "FROM information_schema.routines r"
        ∷ (str "WHERE (@with_system OR r.routine_schema NOT IN ("
            ++ (system_schemas p ++ (str "))")))
        ∷ str "AND (@schema = '' OR r.routine_schema LIKE @schema)"
        ∷ str "AND (@name = '' OR r.routine_name LIKE @name)"
        ∷ str "ORDER BY 2, 3"
        ∷ [])
      (field (str "catalog") ([])
        ∷ field (str "schema") ([])
        ∷ field (str "name") ([])
        ∷ field (str "id") ([])
        ∷ field (str "kind") ([])
        ∷ field (str "result_type") ([])
        ∷ field (str "arg_types") ([])
        ∷ field (str "volatility") ([])
        ∷ field (str "parallel") ([])
        ∷ field (str "owner") ([])
        ∷ field (str "security") ([])
        ∷ field (str "access") ([])
        ∷ field (str "language") ([])
        ∷ field (str "source") ([])
        ∷ field (str "comment") ([])
        ∷ field (str "definition") (
            str
              "always absent: the standard keeps the body, which is source, and no CREATE statement")
        ∷ [])
      (schema_name_system (str "routine")) scan

-- `privileges`
unfoldable pub privileges : {Row T : Type 0} → Profile → (Row → Item T) → Binding Row T
privileges p scan =
    binding
      (str "SELECT p.table_schema AS \"schema\""
        ∷ str ", p.table_name AS \"name\""
        ∷ str ", 'table' AS \"type\""
        ∷ (str ", p.grantee || '=' || p.privilege_type || '/' || "
            ++ (clause p (str "privileges.grantor") ++ (str " AS \"access\"")))
        ∷ str ", NULL AS \"column_access\""
        ∷ str ", NULL AS \"policies\""
        ∷ str "FROM information_schema.table_privileges p"
        ∷ (str "WHERE (@with_system OR p.table_schema NOT IN (" ++ (system_schemas p ++ (str "))")))
        ∷ str "AND (@schema = '' OR p.table_schema LIKE @schema)"
        ∷ str "AND (@name = '' OR p.table_name LIKE @name)"
        ∷ str "ORDER BY 1, 2"
        ∷ [])
      (fields (
        str "schema"
        ∷ str "name"
        ∷ str "type"
        ∷ str "access"
        ∷ str "column_access"
        ∷ str "policies"
        ∷ []))
      (schema_name_system (str "table")) scan
