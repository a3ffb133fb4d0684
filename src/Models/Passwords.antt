-- ===== src/Models/Passwords.antt =====
-- The statements with which the models change a password, and the session state that mysql, postgres
-- and vertica read. `unicode.ToUpper` and the equality of strings.EqualFold are parameters.
pub mod Template
pub mod Places
pub mod Reads
pub mod OracleName
pub mod Oracle
use dbmeta.Common.{
  ℕ, Bool, true, false, not, Option, none, some, List, [], ◌∷◌, ◌++◌, map, ◌⊎◌, inl, inr, is_empty,
  if◌then◌else◌, Error, quoting_unknown, invalid_password,
}
use dbmeta.Common.Text.{Text, str, trim_space, cut_prefix, contains_rune, replace_all}
use dbmeta.Common.Cut.{contains_text, cut_last, cut_suffix}
use dbmeta.Info.{PasswordChange, Quoting}
use dbmeta.Password.{quote_literal, quote_identifier, backslash, no_quoting}

abbrev pub Writer : Type 0
Writer = PasswordChange → Quoting → Error ⊎ Text

abbrev pub double_quote : ℕ
double_quote = 34

abbrev pub backtick : ℕ
backtick = 96

-- dbmeta.QuoteIdentifier(name, `"`, `"`)
unfoldable pub quoted_name : Text → Text
quoted_name name = quote_identifier name (double_quote ∷ []) double_quote

-- A Quoting that says that a backslash escapes.
abbrev pub backslashes : Quoting
backslashes = record { backslash_escapes = some true }

-- !q.BackslashEscapes.Valid is refused.
abbrev pub if_read : Option Bool → Text → Error ⊎ Text
if_read none stmt = inl quoting_unknown
if_read (some _) stmt = inr stmt

-- A part that is written when there is an old password.
abbrev pub with_old : Text → Text → Text
with_old old part = if is_empty old then [] else part

unfoldable pub cassandra : Writer
cassandra c q = inr (
    str "ALTER ROLE "
    ++ (quoted_name c.user ++ (str " WITH PASSWORD = " ++ quote_literal c.password no_quoting)))

-- `quoteName`
unfoldable pub clickhouse_name : Text → Text
unfolding replace_all
clickhouse_name name =
    backtick
    ∷ (replace_all (replace_all name backtick (backtick ∷ backtick ∷ [])) backslash
          (backslash ∷ backslash ∷ [])
        ++ backtick ∷ [])

unfoldable pub clickhouse : Writer
clickhouse c q = inr (
    str "ALTER USER "
    ++ (clickhouse_name c.user ++ (str " IDENTIFIED BY " ++ quote_literal c.password backslashes)))

unfoldable pub cratedb : Writer
cratedb c q = if_read q.backslash_escapes (
    str "ALTER USER "
    ++ (quoted_name c.user ++ (str " SET (password = " ++ (quote_literal c.password q ++ str ")"))))

unfoldable pub databend : Writer
databend c q = inr (
    str "ALTER USER "
    ++ (quote_literal c.user backslashes
        ++ (str " IDENTIFIED BY " ++ quote_literal c.password backslashes)))

unfoldable pub exasol : Writer
exasol c q = inr (
    str "ALTER USER "
    ++ (quoted_name c.user
        ++ (str " IDENTIFIED BY "
            ++ (quoted_name c.password ++ with_old c.old (str " REPLACE " ++ quoted_name c.old)))))

-- The account of a user: a host stands behind the last at sign.
unfoldable pub mysql_account : Option (Text × Text) → Text → Quoting → Text
mysql_account none user q = quote_literal user q
mysql_account (some (name, host)) user q = quote_literal name q ++ (str "@" ++ quote_literal host q)

unfoldable pub mysql : Writer
mysql c q = if_read q.backslash_escapes (
    str "ALTER USER "
    ++ (mysql_account (cut_last c.user (str "@")) c.user q
        ++ (str " IDENTIFIED BY " ++ quote_literal c.password q)))

unfoldable pub postgres : Writer
postgres c q =
    if_read q.backslash_escapes (
      str "ALTER USER " ++ (quoted_name c.user ++ (str " PASSWORD " ++ quote_literal c.password q)))

unfoldable pub redshift : Writer
redshift c q = inr (
    str "ALTER USER "
    ++ (quoted_name c.user ++ (str " PASSWORD " ++ quote_literal c.password backslashes)))

unfoldable pub snowflake : Writer
snowflake c q = inr (
    str "ALTER USER "
    ++ (quoted_name c.user ++ (str " SET PASSWORD = " ++ quote_literal c.password backslashes)))

unfoldable pub sqlserver : Writer
sqlserver c q = inr (
    str "ALTER LOGIN "
    ++ (quote_identifier c.user (str "[") b']'
        ++ (str " WITH PASSWORD = N"
            ++ (quote_literal c.password q
                ++ with_old c.old (str " OLD_PASSWORD = N" ++ quote_literal c.old q)))))

unfoldable pub vertica : Writer
vertica c q = if_read q.backslash_escapes (
    str "ALTER USER "
    ++ (quoted_name c.user
        ++ (str " IDENTIFIED BY "
            ++ (quote_literal c.password q
                ++ with_old c.old (str " REPLACE " ++ quote_literal c.old q)))))

-- `oracleQuoted`
unfoldable pub oracle_quoted : Text → Error ⊎ Text
unfolding contains_rune
oracle_quoted s =
    if contains_rune s double_quote
    then inl invalid_password
    else inr (double_quote ∷ (s ++ double_quote ∷ []))

-- The user that a name means: as it is written between double quotes, and else in upper case. none is a
-- name that starts with a double quote and is not between two, or has nothing between them.
unfoldable pub oracle_name : (ℕ → ℕ) → Text → Option Text
unfolding cut_suffix cut_prefix
oracle_name to_upper name = elim (cut_prefix name (str "\"")) [
  | none ↦ some (map to_upper name)
  | some inner ↦ elim (cut_suffix inner (str "\"")) [
    | none ↦ none
    | some inner' ↦ if is_empty inner' then none else some inner'
  ]
]

abbrev pub then_text : Error ⊎ Text → (Text → Error ⊎ Text) → Error ⊎ Text
then_text (inl e) next = inl e
then_text (inr s) next = next s

-- `oracleUser`
unfoldable pub oracle_user : (ℕ → ℕ) → Text → Error ⊎ Text
oracle_user to_upper name = elim (oracle_name to_upper name) [
  | none ↦ inl invalid_password
  | some user ↦ oracle_quoted user
]

unfoldable pub oracle_replace : Text → Text → Error ⊎ Text
oracle_replace stmt [] = inr stmt
oracle_replace stmt (o ∷ old) =
    then_text (oracle_quoted (o ∷ old)) λ quoted. inr (stmt ++ (str " REPLACE " ++ quoted))

unfoldable pub oracle : (ℕ → ℕ) → Writer
oracle to_upper c q = then_text (oracle_user to_upper c.user) λ user.
    then_text (oracle_quoted c.password) λ password.
      oracle_replace (str "ALTER USER " ++ (user ++ (str " IDENTIFIED BY " ++ password))) c.old

abbrev pub escaping : Bool → Quoting
escaping b = record { backslash_escapes = some b }

-- `parseQuoting` of mysql, postgres and vertica
unfoldable pub mysql_quoting : (ℕ → ℕ) → List Text → Error ⊎ Quoting
mysql_quoting to_upper [] = inl quoting_unknown
mysql_quoting to_upper (mode ∷ _) =
    inr (escaping (not (contains_text (map to_upper mode) (str "NO_BACKSLASH_ESCAPES"))))

unfoldable pub postgres_quoting : (Text → Text → Bool) → List Text → Error ⊎ Quoting
postgres_quoting equal_fold [] = inl quoting_unknown
postgres_quoting equal_fold (col ∷ _) =
    inr (escaping (not (equal_fold (trim_space col) (str "on"))))

unfoldable pub vertica_quoting : (Text → Text → Bool) → List Text → Error ⊎ Quoting
vertica_quoting equal_fold (_ ∷ col ∷ []) =
    inr (escaping (not (equal_fold (trim_space col) (str "on"))))
vertica_quoting equal_fold _ = inl quoting_unknown
