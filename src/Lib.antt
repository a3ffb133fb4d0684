-- ===== src/Lib.antt =====
-- A model of dbmeta, a library that reads the metadata of many databases, and the theorems about it.
--
-- The program. A model package registers an `Info` for its dialect and, for each kind of object, a
-- `Binding`: a statement in versioned pieces, its parameters and a row scanner. A caller reads the
-- version of its server (`Dialect.Version`), makes a `Meta`, and asks a `Query`: `Support` says whether
-- the server can answer, `Build` resolves the pieces against the version and binds the arguments, and
-- `All` runs the statement and yields the rows.
--
-- The files, and the code of the repository that each is about:
--   Common      shared names; the errors of error.go, strings, maps and integers of Go
--   Version     version.go: Version, ParseVersion, ParseVersionNum, Compare, String, VersionSet
--   Fragment    query.go: Gate, Fragment, Choice.Resolve, Stmt.Build, Field
--   Value       the values of type any, driver arguments, sql.ColumnType
--   Info        dialect.go and its neighbours: Info and the data types that it names
--   Dialect     dialect.go, password.go: the registry, Version, New, Open, Meta; Facts: facts.go
--   Bind        query.go and walk.go: Param, bind, withKnown, withDefaults
--   Filter      filter.go: Args and its map
--   Query       query.go: Binding, Register, Share, Support, lookup, Build
--   Iterate     query.go: All, Each, First
--   Like        walk.go: Like, LikeFold, ListHas
--   Password    password.go: Quoting, ChangePassword, QuoteLiteral, QuoteIdentifier
--   Names       align.go and binary.go: RightAligned, BinaryNames, FormatBinary
--   Syntax      syntax.go: FoldIdentifier, Pattern
--   Classify    classify.go and classify_tags.go: the lexer, the tables, Classify
--   Models      models/*: parseVersion of 44 models, changePassword of twelve, parseQuoting of three; FollowUp
--               (the second statement of models/cassandra)
--   InfoSchema  models/informationschema/informationschema.go: profiles, Catalogs, Objects and Details (the
--               bindings), Builds (their statements), Registers, Needs, Supported (Register)
--   Service     the readAll of the models that walk over several statements; Tables: its rows
--   Walk        iterators as programs over a service and the state of the caller; Holds: what they keep
--   Impala      models/impala/walk.go, and describe of catalog.go; Walks and Kinds (the registered walks),
--               Visible and Shown (which databases they show)
--   Tablestore  models/tablestore: the readers of DESCRIBE and SHOW INDEX; Walks (listTables, walkTables);
--               Positions, Sieve, Readers, Stream and Registered (their proofs)
--   Fixture     models/*/fixture/fixture.go: resolve and the builders of steps
--   Container   container/*.go: Servers, Releases (the lists of servers), Lookup (ClientFor), Clients and
--               Commands (client.go), Secrets and Exposed (where a password goes), Shell (http.go,
--               HealthCmd)
--   Tests       runs on concrete inputs
--
-- How code becomes definitions. A Go string is the list of its code points; the code cuts strings at
-- ASCII bytes only, which UTF-8 keeps apart from the bytes of other code points. A map is an association
-- list, and nothing depends on the order of its keys. The package variables that `init` functions fill
-- are values passed to the functions. An error is a value of `Result`, and so is a panic. A nil function
-- of `Info` is `none`. A database is a record of functions, so a statement has one answer while a
-- function runs. An iterator is a function of its loop body, which works on a state and says whether it
-- goes on. In the walks of a model over several statements the service is a value that each statement
-- may change, so two statements of the same text may have different answers.
--
-- Fuel. `ParseVersion` and `bind` loop on fuel one more than the length of their text, and every round
-- but the last eats a code point; `Like` calls itself on fuel one more than the length of the pattern,
-- and every call or round eats a code point of the pattern. The lexer of `Classify` has fuel for as
-- many rounds as its text has code points, and `returnsRows` for as many as there are tokens. The
-- results below hold for that fuel, so it suffices.
--
-- Parsed texts. JSON, regular expressions and the case rules of Unicode are parameters of the models'
-- parsers that use them.
--
-- Not modelled: locks, the closing of rows, the texts of the statements that the other models register,
-- the row scanners, the column statistics of Impala, the walks of InfluxQL, OpenSearch and Elasticsearch,
-- the tables of the packages container and hosted, the package all, and the tests.
pub mod Common
pub mod Version
pub mod Fragment
pub mod Value
pub mod Info
pub mod Dialect
pub mod Bind
pub mod Classify
pub mod Query
pub mod Filter
pub mod Iterate
pub mod Like
mod Tests
pub mod Password
pub mod Names
pub mod Syntax
pub mod Models
pub mod Service
pub mod Walk
pub mod Impala
pub mod Tablestore
pub mod InfoSchema
pub mod Fixture
pub mod Container
