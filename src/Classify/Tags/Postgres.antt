-- ===== src/Classify/Tags/Postgres.antt =====
-- classify_tags.go: the keys of `execMap` under its heading for postgresql, in four runs.
use dbmeta.Common.{List, [], ◌∷◌}
use dbmeta.Common.Text.{Text, str}

abbrev pub alter_tags : List Text
alter_tags =
    str "ABORT"
    ∷ str "ALTER AGGREGATE"
    ∷ str "ALTER COLLATION"
    ∷ str "ALTER CONVERSION"
    ∷ str "ALTER DATABASE"
    ∷ str "ALTER DEFAULT PRIVILEGES"
    ∷ str "ALTER DOMAIN"
    ∷ str "ALTER EVENT TRIGGER"
    ∷ str "ALTER EXTENSION"
    ∷ str "ALTER FOREIGN DATA WRAPPER"
    ∷ str "ALTER FOREIGN TABLE"
    ∷ str "ALTER FUNCTION"
    ∷ str "ALTER GROUP"
    ∷ str "ALTER INDEX"
    ∷ str "ALTER LANGUAGE"
    ∷ str "ALTER LARGE OBJECT"
    ∷ str "ALTER MATERIALIZED VIEW"
    ∷ str "ALTER OPERATOR CLASS"
    ∷ str "ALTER OPERATOR FAMILY"
    ∷ str "ALTER OPERATOR"
    ∷ str "ALTER POLICY"
    ∷ str "ALTER ROLE"
    ∷ str "ALTER RULE"
    ∷ str "ALTER SCHEMA"
    ∷ str "ALTER SEQUENCE"
    ∷ str "ALTER SERVER"
    ∷ str "ALTER SYSTEM"
    ∷ str "ALTER TABLESPACE"
    ∷ str "ALTER TABLE"
    ∷ str "ALTER TEXT SEARCH CONFIGURATION"
    ∷ str "ALTER TEXT SEARCH DICTIONARY"
    ∷ str "ALTER TEXT SEARCH PARSER"
    ∷ str "ALTER TEXT SEARCH TEMPLATE"
    ∷ str "ALTER TRIGGER"
    ∷ str "ALTER TYPE"
    ∷ str "ALTER USER MAPPING"
    ∷ str "ALTER USER"
    ∷ str "ALTER VIEW"
    ∷ str "ANALYZE"
    ∷ str "BEGIN"
    ∷ str "CHECKPOINT"
    ∷ str "CLOSE"
    ∷ str "CLUSTER"
    ∷ str "COMMENT"
    ∷ str "COMMIT PREPARED"
    ∷ str "COMMIT"
    ∷ str "COPY"
    ∷ []

abbrev pub create_tags : List Text
create_tags =
    str "CREATE ACCESS METHOD"
    ∷ str "CREATE AGGREGATE"
    ∷ str "CREATE CAST"
    ∷ str "CREATE COLLATION"
    ∷ str "CREATE CONVERSION"
    ∷ str "CREATE DATABASE"
    ∷ str "CREATE DOMAIN"
    ∷ str "CREATE EVENT TRIGGER"
    ∷ str "CREATE EXTENSION"
    ∷ str "CREATE FOREIGN DATA WRAPPER"
    ∷ str "CREATE FOREIGN TABLE"
    ∷ str "CREATE FUNCTION"
    ∷ str "CREATE GROUP"
    ∷ str "CREATE INDEX"
    ∷ str "CREATE LANGUAGE"
    ∷ str "CREATE MATERIALIZED VIEW"
    ∷ str "CREATE OPERATOR CLASS"
    ∷ str "CREATE OPERATOR FAMILY"
    ∷ str "CREATE OPERATOR"
    ∷ str "CREATE POLICY"
    ∷ str "CREATE ROLE"
    ∷ str "CREATE RULE"
    ∷ str "CREATE SCHEMA"
    ∷ str "CREATE SEQUENCE"
    ∷ str "CREATE SERVER"
    ∷ str "CREATE STATISTICS"
    ∷ str "CREATE SUBSCRIPTION"
    ∷ str "CREATE TABLE AS"
    ∷ str "CREATE TABLESPACE"
    ∷ str "CREATE TABLE"
    ∷ str "CREATE TEXT SEARCH CONFIGURATION"
    ∷ str "CREATE TEXT SEARCH DICTIONARY"
    ∷ str "CREATE TEXT SEARCH PARSER"
    ∷ str "CREATE TEXT SEARCH TEMPLATE"
    ∷ str "CREATE TRANSFORM"
    ∷ str "CREATE TRIGGER"
    ∷ str "CREATE TYPE"
    ∷ str "CREATE USER MAPPING"
    ∷ str "CREATE USER"
    ∷ str "CREATE VIEW"
    ∷ []

abbrev pub drop_tags : List Text
drop_tags =
    str "DEALLOCATE ALL"
    ∷ str "DEALLOCATE"
    ∷ str "DECLARE"
    ∷ str "DELETE"
    ∷ str "DISCARD"
    ∷ str "DO"
    ∷ str "DROP ACCESS METHOD"
    ∷ str "DROP AGGREGATE"
    ∷ str "DROP CAST"
    ∷ str "DROP COLLATION"
    ∷ str "DROP CONVERSION"
    ∷ str "DROP DATABASE"
    ∷ str "DROP DOMAIN"
    ∷ str "DROP EVENT TRIGGER"
    ∷ str "DROP EXTENSION"
    ∷ str "DROP FOREIGN DATA WRAPPER"
    ∷ str "DROP FOREIGN TABLE"
    ∷ str "DROP FUNCTION"
    ∷ str "DROP GROUP"
    ∷ str "DROP INDEX"
    ∷ str "DROP LANGUAGE"
    ∷ str "DROP MATERIALIZED VIEW"
    ∷ str "DROP OPERATOR CLASS"
    ∷ str "DROP OPERATOR FAMILY"
    ∷ str "DROP OPERATOR"
    ∷ str "DROP OWNED"
    ∷ str "DROP POLICY"
    ∷ str "DROP PUBLICATION"
    ∷ str "DROP ROLE"
    ∷ str "DROP RULE"
    ∷ str "DROP SCHEMA"
    ∷ str "DROP SEQUENCE"
    ∷ str "DROP SERVER"
    ∷ str "DROP STATISTICS"
    ∷ str "DROP SUBSCRIPTION"
    ∷ str "DROP TABLESPACE"
    ∷ str "DROP TABLE"
    ∷ str "DROP TEXT SEARCH CONFIGURATION"
    ∷ str "DROP TEXT SEARCH DICTIONARY"
    ∷ str "DROP TEXT SEARCH PARSER"
    ∷ str "DROP TEXT SEARCH TEMPLATE"
    ∷ str "DROP TRANSFORM"
    ∷ str "DROP TRIGGER"
    ∷ str "DROP TYPE"
    ∷ str "DROP USER MAPPING"
    ∷ str "DROP USER"
    ∷ str "DROP VIEW"
    ∷ []

abbrev pub other_tags : List Text
other_tags =
    str "END"
    ∷ str "EXECUTE"
    ∷ str "GRANT"
    ∷ str "IMPORT FOREIGN SCHEMA"
    ∷ str "INSERT"
    ∷ str "LISTEN"
    ∷ str "LOAD"
    ∷ str "LOCK"
    ∷ str "MOVE"
    ∷ str "NOTIFY"
    ∷ str "PREPARE TRANSACTION"
    ∷ str "PREPARE"
    ∷ str "REASSIGN OWNED"
    ∷ str "REFRESH MATERIALIZED VIEW"
    ∷ str "REINDEX"
    ∷ str "RELEASE"
    ∷ str "RESET"
    ∷ str "REVOKE"
    ∷ str "ROLLBACK PREPARED"
    ∷ str "ROLLBACK TO SAVEPOINT"
    ∷ str "ROLLBACK"
    ∷ str "SAVEPOINT"
    ∷ str "SECURITY LABEL"
    ∷ str "SELECT INTO"
    ∷ str "SET CONSTRAINTS"
    ∷ str "SET ROLE"
    ∷ str "SET SESSION AUTHORIZATION"
    ∷ str "SET TRANSACTION"
    ∷ str "SET"
    ∷ str "START TRANSACTION"
    ∷ str "TRUNCATE"
    ∷ str "UNLISTEN"
    ∷ str "UPDATE"
    ∷ str "VACUUM"
    ∷ []
