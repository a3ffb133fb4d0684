-- ===== src/Classify/Tags.antt =====
-- classify_tags.go: the tables, each a list of its keys; every value is true.
mod Postgres
use dbmeta.Common.{List, [], ◌∷◌, ◌++◌}
use dbmeta.Common.Text.{Text, str}
use dbmeta.Classify.Tags.Postgres.{alter_tags, create_tags, drop_tags, other_tags}

-- `queryMap`
abbrev pub query_tags : List Text
query_tags =
    str "WITH"
    ∷ str "PRAGMA"
    ∷ str "EXPLAIN"
    ∷ str "DESCRIBE"
    ∷ str "DESC"
    ∷ str "FETCH"
    ∷ str "SELECT"
    ∷ str "SHOW"
    ∷ str "ADMIN SHOW"
    ∷ str "VALUES"
    ∷ str "LIST"
    ∷ str "EXEC"
    ∷ str "TABLE"
    ∷ str "CALL"
    ∷ str "FROM"
    ∷ str "PIVOT"
    ∷ str "SUMMARIZE"
    ∷ str "UNPIVOT"
    ∷ []

-- the keys of `execMap` before and after those of postgresql
abbrev first_tags : List Text
first_tags =
    str "ALTER KEYSPACE"
    ∷ str "CREATE KEYSPACE"
    ∷ str "DROP KEYSPACE"
    ∷ str "BEGIN BATCH"
    ∷ str "APPLY BATCH"
    ∷ str "CREATE LOGIN"
    ∷ str "CREATE PROCEDURE"
    ∷ str "DROP LOGIN"
    ∷ str "DROP PROCEDURE"
    ∷ str "BEGIN TRANSACTION"
    ∷ []

abbrev oracle_tags : List Text
oracle_tags =
    str "ADMINISTER KEY MANAGEMENT"
    ∷ str "ALTER ANALYTIC VIEW"
    ∷ str "ALTER ATTRIBUTE DIMENSION"
    ∷ str "ALTER AUDIT POLICY"
    ∷ str "ALTER CLUSTER"
    ∷ str "ALTER DATABASE DICTIONARY"
    ∷ str "ALTER DATABASE LINK"
    ∷ str "ALTER DIMENSION"
    ∷ str "ALTER DISKGROUP"
    ∷ str "ALTER FLASHBACK ARCHIVE"
    ∷ str "ALTER HIERARCHY"
    ∷ str "ALTER INMEMORY JOIN GROUP"
    ∷ str "ALTER JAVA"
    ∷ str "ALTER LIBRARY"
    ∷ str "ALTER LOCKDOWN PROFILE"
    ∷ str "ALTER MATERIALIZED VIEW LOG"
    ∷ str "ALTER MATERIALIZED ZONEMAP"
    ∷ str "ALTER PACKAGE"
    ∷ str "ALTER PLUGGABLE DATABASE"
    ∷ str "ALTER PROCEDURE"
    ∷ str "ALTER PROFILE"
    ∷ str "ALTER RESOURCE COST"
    ∷ str "ALTER ROLLBACK SEGMENT"
    ∷ str "ALTER SESSION"
    ∷ str "ALTER SYNONYM"
    ∷ str "ALTER TABLESPACE SET"
    ∷ str "ASSOCIATE STATISTICS"
    ∷ []

-- `execMap`
abbrev pub exec_tags : List Text
exec_tags =
    first_tags ++ (alter_tags ++ (create_tags ++ (drop_tags ++ (other_tags ++ oracle_tags))))

-- `createIgnore`
abbrev pub create_ignore : List Text
create_ignore =
    str "DEFAULT"
    ∷ str "GLOBAL"
    ∷ str "LOCAL"
    ∷ str "OR"
    ∷ str "PROCEDURAL"
    ∷ str "RECURSIVE"
    ∷ str "REPLACE"
    ∷ str "TEMPORARY"
    ∷ str "TEMP"
    ∷ str "TRUSTED"
    ∷ str "UNIQUE"
    ∷ str "UNLOGGED"
    ∷ []
