-- ===== src/Models/Passwords/Places.antt =====
-- The places of the values in the password statements of the models, and how the models quote them.
use dbmeta.Common.{
  ◌≡◌, refl, sym, ◌∙◌, Bool, true, false, Option, none, some, List, [], ◌∷◌, ◌++◌, append-nil,
}
use dbmeta.Common.Text.{Text, str}
use dbmeta.Common.Cut.{cut_last}
use dbmeta.Info.{PasswordChange, Quoting}
use dbmeta.Password.{quote, escapes, quote_literal, quote_identifier}
use dbmeta.Password.Quotes.{body, quote_literal-body, quote_identifier-body}
use dbmeta.Models.Passwords
use dbmeta.Models.Passwords.{
  Writer, double_quote, backtick, backslashes, quoted_name, clickhouse_name, if_read, with_old,
  mysql_account,
}
use dbmeta.Models.Passwords.Template.{Slot, fixed, value}

abbrev pub name_slot : Slot
name_slot = value false (double_quote ∷ []) double_quote

abbrev pub literal_slot : Bool → Slot
literal_slot esc = value esc (quote ∷ []) quote

pub literal_lem :
    (s : Text) (q : Quoting)
    → quote_literal s q ≡ quote ∷ (body (escapes q.backslash_escapes) quote s ++ quote ∷ [])
literal_lem s q = sym (append-nil (quote_literal s q)) ∙ quote_literal-body s [] q

pub name_lem :
    (s : Text) → quoted_name s ≡ double_quote ∷ (body false double_quote s ++ double_quote ∷ [])
unfolding quoted_name
name_lem s =
    sym (append-nil (quote_identifier s (double_quote ∷ []) double_quote))
    ∙ quote_identifier-body s (double_quote ∷ []) [] double_quote

pub backtick_lem :
    (s : Text) → clickhouse_name s ≡ backtick ∷ (body true backtick s ++ backtick ∷ [])
unfolding clickhouse_name body
backtick_lem s = refl

pub bracket_lem :
    (s : Text) → quote_identifier s (str "[") b']' ≡ b'[' ∷ (body false b']' s ++ b']' ∷ [])
bracket_lem s =
    sym (append-nil (quote_identifier s (str "[") b']')) ∙ quote_identifier-body s (str "[") [] b']'

abbrev server_literal : Slot
server_literal = literal_slot true

-- The models that write such a statement, but for oracle.
pub data Model : Type 0 where
  cassandra clickhouse cratedb databend exasol mysql postgres redshift snowflake sqlserver : Model
  vertica : Model

abbrev pub writer : Model → Writer
writer cassandra = Passwords.cassandra
writer clickhouse = Passwords.clickhouse
writer cratedb = Passwords.cratedb
writer databend = Passwords.databend
writer exasol = Passwords.exasol
writer mysql = Passwords.mysql
writer postgres = Passwords.postgres
writer redshift = Passwords.redshift
writer snowflake = Passwords.snowflake
writer sqlserver = Passwords.sqlserver
writer vertica = Passwords.vertica

-- `if old, then these`
abbrev pub old_slots : Text → List Slot → List Slot
old_slots [] slots = []
old_slots (_ ∷ _) slots = slots

abbrev pub old_value : Text → List Text
old_value [] = []
old_value (o ∷ old) = (o ∷ old) ∷ []

abbrev pub account_slots : Slot → Option (Text × Text) → List Slot → List Slot
account_slots literal none slots = literal ∷ slots
account_slots literal (some _) slots = literal ∷ fixed (str "@") ∷ literal ∷ slots

abbrev pub account_values : Option (Text × Text) → Text → List Text → List Text
account_values none user values = user ∷ values
account_values (some (name, host)) user values = name ∷ host ∷ values

-- A quoting state that fits the product: in SQL Server a backslash never escapes, and its model, which
-- takes the state of the caller, must not be told that it does.
abbrev pub Fitting : Model → Quoting → Type 0
Fitting sqlserver q = escapes q.backslash_escapes ≡ false
Fitting _ q = Unit

-- The statement of each product, with the places of the user, the password and the old password.
abbrev pub slots : Model → PasswordChange → Bool → List Slot
slots cassandra c esc =
    fixed (str "ALTER ROLE ")
    ∷ name_slot
    ∷ fixed (str " WITH PASSWORD = ")
    ∷ literal_slot false
    ∷ []
slots clickhouse c esc =
    fixed (str "ALTER USER ")
    ∷ value true (backtick ∷ []) backtick
    ∷ fixed (str " IDENTIFIED BY ")
    ∷ literal_slot true
    ∷ []
slots cratedb c esc =
    fixed (str "ALTER USER ")
    ∷ name_slot
    ∷ fixed (str " SET (password = ")
    ∷ literal_slot esc
    ∷ fixed (str ")")
    ∷ []
slots databend c esc =
    fixed (str "ALTER USER ")
    ∷ literal_slot true
    ∷ fixed (str " IDENTIFIED BY ")
    ∷ literal_slot true
    ∷ []
slots exasol c esc =
    fixed (str "ALTER USER ")
    ∷ name_slot
    ∷ fixed (str " IDENTIFIED BY ")
    ∷ name_slot
    ∷ old_slots c.old (fixed (str " REPLACE ") ∷ name_slot ∷ [])
slots mysql c esc =
    fixed (str "ALTER USER ")
    ∷ account_slots (literal_slot esc) (cut_last c.user (str "@"))
        (fixed (str " IDENTIFIED BY ") ∷ literal_slot esc ∷ [])
slots postgres c esc =
    fixed (str "ALTER USER ") ∷ name_slot ∷ fixed (str " PASSWORD ") ∷ literal_slot esc ∷ []
slots redshift c esc =
    fixed (str "ALTER USER ") ∷ name_slot ∷ fixed (str " PASSWORD ") ∷ literal_slot true ∷ []
slots snowflake c esc =
    fixed (str "ALTER USER ") ∷ name_slot ∷ fixed (str " SET PASSWORD = ") ∷ literal_slot true ∷ []
slots sqlserver c esc =
    fixed (str "ALTER LOGIN ")
    ∷ value false (str "[") b']'
    ∷ fixed (str " WITH PASSWORD = N")
    ∷ literal_slot false
    ∷ old_slots c.old (fixed (str " OLD_PASSWORD = N") ∷ literal_slot false ∷ [])
slots vertica c esc =
    fixed (str "ALTER USER ")
    ∷ name_slot
    ∷ fixed (str " IDENTIFIED BY ")
    ∷ literal_slot esc
    ∷ old_slots c.old (fixed (str " REPLACE ") ∷ literal_slot esc ∷ [])

abbrev pub values : Model → PasswordChange → List Text
values exasol c = c.user ∷ c.password ∷ old_value c.old
values sqlserver c = c.user ∷ c.password ∷ old_value c.old
values vertica c = c.user ∷ c.password ∷ old_value c.old
values mysql c = account_values (cut_last c.user (str "@")) c.user (c.password ∷ [])
values _ c = c.user ∷ c.password ∷ []

-- Whether a model refuses a change without the session state.
abbrev pub needs_state : Model → Bool
needs_state cratedb = true
needs_state mysql = true
needs_state postgres = true
needs_state vertica = true
needs_state _ = false
