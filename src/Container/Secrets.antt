-- ===== src/Container/Secrets.antt =====
-- client.go: where the password of a connection stands in the call of a native client.
use dbmeta.Common.{
  ◌≡◌, refl, ℕ, true, false, Option, none, some, List, [], ◌∷◌, ◌++◌, In, first, later,
}
use dbmeta.Common.Text.{Text, str}
use dbmeta.Common.Assoc.{Map}
use dbmeta.Container.Clients.{Connection, Client, with_env, call}
use dbmeta.Container.Commands
use dbmeta.Container.Commands.{Url, url_of}

-- The clients that read a password from the environment, or take none.
pub data Quiet : Type 0 where
  psql psql_tls mysql mariadb mysql_tls sqlcmd clickhouse trino presto firebird beeline : Quiet
  vsql surreal influx impala cockroach bendsql sqlline sqlline_thin spanner_cli : Quiet

abbrev pub with_password : Connection → Text → Connection
with_password c p = record c { password = p }

module _ (write : Url → Text) (encode : Map (List Text) → Text) where
  abbrev pub quiet_client : Quiet → Client
  quiet_client psql = Commands.psql []
  quiet_client psql_tls = Commands.psql (str "require")
  quiet_client mysql = Commands.mysql (str "mysql") false
  quiet_client mariadb = Commands.mysql (str "mariadb") false
  quiet_client mysql_tls = Commands.mysql (str "mysql") true
  quiet_client sqlcmd = Commands.sqlcmd
  quiet_client clickhouse = Commands.clickhouse
  quiet_client trino = Commands.trino (str "trino")
  quiet_client presto = Commands.trino (str "presto-cli")
  quiet_client firebird = Commands.firebird
  quiet_client beeline = Commands.beeline
  quiet_client vsql = Commands.vsql
  quiet_client surreal = Commands.surreal
  quiet_client influx = Commands.influx
  quiet_client impala = Commands.impala
  quiet_client cockroach = Commands.cockroach write encode
  quiet_client bendsql = Commands.bendsql write
  quiet_client sqlline = Commands.sqlline (str "sqlline") true
  quiet_client sqlline_thin = Commands.sqlline (str "sqlline-thin.py") false
  quiet_client spanner_cli = Commands.spanner_cli

-- The variable from which a client reads the password; cockroach and bendsql read a whole URL.
abbrev pub password_variable : Quiet → Option Text
password_variable psql = some (str "PGPASSWORD")
password_variable psql_tls = some (str "PGPASSWORD")
password_variable mysql = some (str "MYSQL_PWD")
password_variable mariadb = some (str "MYSQL_PWD")
password_variable mysql_tls = some (str "MYSQL_PWD")
password_variable sqlcmd = some (str "SQLCMDPASSWORD")
password_variable clickhouse = some (str "CLICKHOUSE_PASSWORD")
password_variable firebird = some (str "ISC_PASSWORD")
password_variable vsql = some (str "VSQL_PASSWORD")
password_variable surreal = some (str "SURREAL_PASS")
password_variable influx = some (str "INFLUX_PASSWORD")
password_variable trino = none
password_variable presto = none
password_variable beeline = none
password_variable impala = none
password_variable cockroach = none
password_variable bendsql = none
password_variable sqlline = none
password_variable sqlline_thin = none
password_variable spanner_cli = none

-- How a client finds the password that its arguments do not hold.
pub data HandedOver (password : Text) (env : List Text) : Option Text → Type 0 where
  elsewhere : HandedOver password env none
  by_variable :
      {name : Text} → In (name ++ (str "=" ++ password)) env → HandedOver password env (some name)

module _ (write : Url → Text) (encode : Map (List Text) → Text) where
  quiet_args :
      (k : Quiet) (c : Connection) (p : Text)
      → (call (quiet_client write encode k) (with_password c p)).args
        ≡ (call (quiet_client write encode k) c).args
  unfolding call Commands.psql Commands.mysql Commands.sqlcmd Commands.clickhouse Commands.trino
      Commands.firebird Commands.beeline Commands.vsql Commands.surreal Commands.influx
      Commands.impala Commands.cockroach Commands.bendsql Commands.sqlline Commands.spanner_cli
  quiet_args psql c p = refl
  quiet_args psql_tls c p = refl
  quiet_args mysql c p = refl
  quiet_args mariadb c p = refl
  quiet_args mysql_tls c p = refl
  quiet_args sqlcmd c p = refl
  quiet_args clickhouse c p = refl
  quiet_args trino c p = refl
  quiet_args presto c p = refl
  quiet_args firebird c p = refl
  quiet_args beeline c p = refl
  quiet_args vsql c p = refl
  quiet_args surreal c p = refl
  quiet_args influx c p = refl
  quiet_args impala c p = refl
  quiet_args cockroach c p = refl
  quiet_args bendsql c p = refl
  quiet_args sqlline c p = refl
  quiet_args sqlline_thin c p = refl
  quiet_args spanner_cli c p = refl

  behind_env : (name user a : Text) → In a (with_env name user ++ a ∷ [])
  behind_env name [] a = first
  behind_env name (u ∷ user) a = later first

  quiet_env :
      (k : Quiet) (c : Connection) (p : ℕ) (ps : Text)
      → HandedOver
          (p ∷ ps)
          (call (quiet_client write encode k) (with_password c (p ∷ ps))).env
          (password_variable k)
  unfolding call Commands.psql Commands.mysql Commands.sqlcmd Commands.clickhouse Commands.trino
      Commands.firebird Commands.beeline Commands.vsql Commands.surreal Commands.influx
      Commands.impala Commands.cockroach Commands.bendsql Commands.sqlline Commands.spanner_cli
  quiet_env psql c p ps = by_variable first
  quiet_env psql_tls c p ps = by_variable first
  quiet_env mysql c p ps = by_variable first
  quiet_env mariadb c p ps = by_variable first
  quiet_env mysql_tls c p ps = by_variable first
  quiet_env sqlcmd c p ps = by_variable first
  quiet_env clickhouse c p ps = by_variable first
  quiet_env vsql c p ps = by_variable first
  quiet_env firebird c p ps = by_variable (behind_env (str "ISC_USER") c.user _)
  quiet_env surreal c p ps = by_variable (behind_env (str "SURREAL_USER") c.user _)
  quiet_env influx c p ps = by_variable (behind_env (str "INFLUX_USERNAME") c.user _)
  quiet_env trino c p ps = elsewhere
  quiet_env presto c p ps = elsewhere
  quiet_env beeline c p ps = elsewhere
  quiet_env impala c p ps = elsewhere
  quiet_env cockroach c p ps = elsewhere
  quiet_env bendsql c p ps = elsewhere
  quiet_env sqlline c p ps = elsewhere
  quiet_env sqlline_thin c p ps = elsewhere
  quiet_env spanner_cli c p ps = elsewhere

  -- The arguments of a client that reads the password from the environment, or takes none, are the
  -- same whatever the password is, so nothing of it is in them. Where the client has a variable for a
  -- password, the call sets it to one that is not empty.
  pub quiet_client-HandedOver :
      (k : Quiet) (c : Connection) (p : ℕ) (ps : Text)
      → ((call (quiet_client write encode k) (with_password c (p ∷ ps))).args
          ≡ (call (quiet_client write encode k) c).args)
        × HandedOver
            (p ∷ ps)
            (call (quiet_client write encode k) (with_password c (p ∷ ps))).env
            (password_variable k)
  quiet_client-HandedOver k c p ps = (quiet_args k c (p ∷ ps), quiet_env k c p ps)
