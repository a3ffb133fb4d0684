-- ===== src/Container/Commands.antt =====
-- client.go: the native clients, which say how each takes the parts of a connection. The writing of a
-- URL, of a query and of a query value by `net/url` are parameters.
use dbmeta.Common.{Bool, true, false, Option, none, some, List, [], ◌∷◌, ◌++◌}
use dbmeta.Common.Text.{Text, str, text_eq}
use dbmeta.Common.Cut.{cut}
use dbmeta.Common.Assoc.{Map}
use dbmeta.Version.{format_uint}
use dbmeta.Container.Clients.{Connection, Client, native, opt, with_env, host_port, query_get}

-- The host and the port, under two flags.
abbrev address : Text → Text → Connection → List Text
address host port c = host ∷ c.host ∷ port ∷ format_uint c.port ∷ []

-- A query parameter, or what is taken without one.
abbrev or_else : Text → Text → Text
or_else [] other = other
or_else (v ∷ value) other = v ∷ value

-- The two parts of strings.Cut at a slash, the second empty without one.
abbrev halves_of : Text → Option (Text × Text) → Text × Text
halves_of s none = (s, [])
halves_of s (some parts) = parts

abbrev pub halves : Text → Text × Text
halves s = halves_of s (cut s (str "/"))

-- `psqlClient`
unfoldable pub psql : Text → Client
psql sslmode = native (str "psql") λ c. (
  address (str "--host") (str "--port") c
      ++ (opt (str "--username") c.user ++ opt (str "--dbname") c.database),
  with_env (str "PGPASSWORD") c.password
      ++ with_env (str "PGSSLMODE") (or_else (query_get c.query (str "sslmode")) sslmode),
)

abbrev tls_mode : Bool → List Text
tls_mode true = str "--ssl-mode=REQUIRED" ∷ []
tls_mode false = []

-- `mysqlClient`
unfoldable pub mysql : Text → Bool → Client
mysql command tls = native command λ c. (
  (str "--protocol" ∷ str "tcp" ∷ address (str "--host") (str "--port") c)
      ++ (opt (str "--user") c.user ++ (opt (str "--database") c.database ++ tls_mode tls)),
  with_env (str "MYSQL_PWD") c.password,
)

unfoldable pub sqlcmd : Client
sqlcmd = native (str "sqlcmd") λ c. (
  (str "-S" ∷ (c.host ++ (str "," ++ format_uint c.port)) ∷ str "-C" ∷ [])
      ++ (opt (str "-U") c.user
          ++ opt (str "-d") (or_else c.database (query_get c.query (str "database")))),
  with_env (str "SQLCMDPASSWORD") c.password,
)

-- The password in the connect string of SQL*Plus, between double quotes.
abbrev slash_password : Text → Text
slash_password [] = []
slash_password (p ∷ password) = str "/\"" ++ ((p ∷ password) ++ str "\"")

unfoldable pub sqlplus : Client
sqlplus = native (str "sqlplus") λ c. (
  (c.user
        ++ (slash_password c.password
            ++ (str "@//" ++ (host_port c.host c.port ++ (str "/" ++ c.database)))))
      ∷ [],
  [],
)

unfoldable pub clickhouse : Client
clickhouse = native (str "clickhouse-client") λ c. (
  (str "--host" ∷ c.host ∷ str "--port" ∷ format_uint c.first ∷ [])
      ++ (opt (str "--user") c.user ++ opt (str "--database") c.database),
  with_env (str "CLICKHOUSE_PASSWORD") c.password,
)

unfoldable pub cqlsh : Client
cqlsh = native (str "cqlsh") λ c. (
  (c.host ∷ format_uint c.port ∷ [])
      ++ (opt (str "--username") c.user ++ opt (str "--password") c.password),
  [],
)

-- The query of the address, where the source of the login is given.
abbrev auth_source : (Text → Text) → Text → Text
auth_source query_escape [] = []
auth_source query_escape (a ∷ source) = str "?authSource=" ++ query_escape (a ∷ source)

unfoldable pub mongosh : (Text → Text) → Client
mongosh query_escape = native (str "mongosh") λ c. (
  (str "mongodb://"
          ++ (host_port c.host c.port
              ++ (str "/"
                  ++ (c.database
                      ++ auth_source query_escape (query_get c.query (str "authSource"))))))
        ∷ opt (str "--username") c.user
      ++ opt (str "--password") c.password,
  [],
)

unfoldable pub trino : Text → Client
trino command = native command λ c. (
  (str "--server" ∷ (str "http://" ++ host_port c.host c.port) ∷ [])
      ++ (opt (str "--user") c.user
          ++ (opt (str "--catalog") (halves c.database).0
              ++ opt (str "--schema") (halves c.database).1)),
  [],
)

unfoldable pub firebird : Client
firebird = native (str "isql-fb") λ c. (
  (c.host ++ (str "/" ++ (format_uint c.port ++ (str ":/" ++ c.database)))) ∷ [],
  with_env (str "ISC_USER") c.user ++ with_env (str "ISC_PASSWORD") c.password,
)

unfoldable pub hdbsql : Client
hdbsql = native (str "hdbsql") λ c. (
  (str "-n" ∷ host_port c.host c.port ∷ []) ++ (opt (str "-u") c.user ++ opt (str "-p") c.password),
  [],
)

unfoldable pub beeline : Client
beeline = native (str "beeline") λ c. (
  (str "-u" ∷ (str "jdbc:hive2://" ++ (host_port c.host c.port ++ (str "/" ++ c.database))) ∷ [])
      ++ opt (str "-n") c.user,
  [],
)

unfoldable pub vsql : Client
vsql = native (str "vsql") λ c. (
  address (str "-h") (str "-p") c ++ (opt (str "-U") c.user ++ opt (str "-d") c.database),
  with_env (str "VSQL_PASSWORD") c.password,
)

unfoldable pub surreal : Client
surreal = native (str "surreal") λ c. (
  (str "sql" ∷ str "--endpoint" ∷ (str "ws://" ++ host_port c.host c.port) ∷ str "--pretty" ∷ [])
      ++ (opt (str "--namespace") (halves c.database).0
          ++ opt (str "--database") (halves c.database).1),
  with_env (str "SURREAL_USER") c.user ++ with_env (str "SURREAL_PASS") c.password,
)

unfoldable pub arangosh : Client
arangosh = native (str "arangosh") λ c. (
  (str "--server.endpoint" ∷ (str "tcp://" ++ host_port c.host c.port) ∷ [])
      ++ (opt (str "--server.username") c.user
          ++ (opt (str "--server.password") c.password
              ++ opt (str "--server.database") c.database)),
  [],
)

unfoldable pub influx : Client
influx = native (str "influx") λ c. (
  address (str "-host") (str "-port") c ++ opt (str "-database") c.database,
  with_env (str "INFLUX_USERNAME") c.user ++ with_env (str "INFLUX_PASSWORD") c.password,
)

abbrev colon_password : Text → Text
colon_password [] = []
colon_password (p ∷ password) = str ":" ++ (p ∷ password)

abbrev rqlite_login : Text → Text → List Text
rqlite_login [] password = []
rqlite_login (u ∷ user) password = str "-u" ∷ ((u ∷ user) ++ colon_password password) ∷ []

unfoldable pub rqlite : Client
rqlite =
    native (str "rqlite")
      λ c. (address (str "-H") (str "-p") c ++ rqlite_login c.user c.password, [])

unfoldable pub cbq : Client
cbq = native (str "cbq") λ c. (
  (str "-e" ∷ (str "http://" ++ host_port c.host c.port) ∷ [])
      ++ (opt (str "-u") c.user ++ opt (str "-p") c.password),
  [],
)

unfoldable pub ksql : Client
ksql = native (str "ksql") λ c. (
  opt (str "-u") c.user
      ++ (opt (str "-p") c.password ++ (str "http://" ++ host_port c.host c.port) ∷ []),
  [],
)

abbrev no_certificate : Bool → List Text
no_certificate true = str "-jdbcparam" ∷ str "validateservercertificate=0" ∷ []
no_certificate false = []

unfoldable pub exaplus : Client
exaplus = native (str "exaplus") λ c. (
  (str "-c" ∷ host_port c.host c.port ∷ [])
      ++ (opt (str "-u") c.user
          ++ (opt (str "-p") c.password
              ++ no_certificate
                  (text_eq (query_get c.query (str "validateservercertificate")) (str "false")))),
  [],
)

unfoldable pub impala : Client
impala =
    native (str "impala-shell")
      λ c. (str "--impalad" ∷ host_port c.host c.port ∷ str "--protocol" ∷ str "hs2" ∷ [], [])

-- A url.URL, whose user is none without a name.
pub record Url : Type 0 where
  pub scheme : Text
  pub user : Option (Text × Text)
  pub host : Text
  pub path : Text
  pub raw_query : Text

abbrev login : Text → Text → Option (Text × Text)
login [] password = none
login (u ∷ user) password = some (u ∷ user, password)

abbrev pub url_of : Text → Text → Connection → Url
url_of scheme raw_query c = record {
  scheme = scheme;
  user = login c.user c.password;
  host = host_port c.host c.port;
  path = str "/" ++ c.database;
  raw_query = raw_query;
}

unfoldable pub cockroach : (Url → Text) → (Map (List Text) → Text) → Client
cockroach write encode = native (str "cockroach") λ c. (
  str "sql" ∷ [],
  with_env (str "COCKROACH_URL") (write (url_of (str "postgresql") (encode c.query) c)),
)

unfoldable pub bendsql : (Url → Text) → Client
bendsql write = native (str "bendsql") λ c.
    ([], with_env (str "BENDSQL_DSN") (write (url_of (str "databend") (str "sslmode=disable") c)))

abbrev sqlline_args : Bool → Text → Text → List Text
sqlline_args false at user = at ∷ []
sqlline_args true at user =
    str "-u"
    ∷ (str "jdbc:avatica:remote:url=" ++ (at ++ str ";serialization=protobuf"))
    ∷ opt (str "-n") user

unfoldable pub sqlline : Text → Bool → Client
sqlline command jdbc =
    native command λ c. (sqlline_args jdbc (str "http://" ++ host_port c.host c.port) c.user, [])

unfoldable pub spanner_cli : Client
spanner_cli = native (str "spanner-cli") λ c.
    let project = halves c.database in
    let rest = halves project.1 in
    (
      opt (str "-p") project.0 ++ (opt (str "-i") rest.0 ++ opt (str "-d") rest.1),
      with_env (str "SPANNER_EMULATOR_HOST") (host_port c.host c.first),
    )
