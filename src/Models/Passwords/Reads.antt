-- ===== src/Models/Passwords/Reads.antt =====
-- The password statements of the models, read as the server reads them.
use dbmeta.Common.{
  ◌≡◌, ◌≢◌, sym, ap, subst, ◌∙◌, ◌⊎◌, inl, inr, Bool, true, false, Option, none, some, [], ◌∷◌,
  ◌++◌, append_assoc, arith, if◌then◌else◌, Bool-cases, Option-cases, Error, quoting_unknown,
}
use dbmeta.Common.Text.{Text, str}
use dbmeta.Common.Cut.{cut_last}
use dbmeta.Info.{PasswordChange, Quoting}
use dbmeta.Password.{escapes, quote_literal, quote_identifier}
use dbmeta.Models.Passwords
use dbmeta.Models.Passwords.{
  Writer, double_quote, backtick, backslashes, quoted_name, clickhouse_name, if_read, with_old,
  mysql_account,
}
use dbmeta.Models.Passwords.Template.{fixed, value, fill, Fits, read_slots, read_slots-fill}
use dbmeta.Models.Passwords.Places.{
  literal_lem, name_lem, backtick_lem, bracket_lem, name_slot, literal_slot, Model, cassandra,
  clickhouse, cratedb, databend, exasol, mysql, postgres, redshift, snowflake, sqlserver, vertica,
  writer, old_slots, old_value, account_slots, account_values, slots, values, needs_state, Fitting,
}

ruleset quoting = (literal_lem, name_lem, backtick_lem, bracket_lem, append_assoc)

slots-Fits : (m : Model) (c : PasswordChange) (esc : Bool) → Fits (slots m c esc) (values m c)
unfolding fill
slots-Fits cassandra c esc = ground arith
slots-Fits clickhouse c esc = ground arith
slots-Fits cratedb c esc = ground arith
slots-Fits databend c esc = ground arith
slots-Fits exasol c esc = ground arith
slots-Fits mysql c esc = ground arith
slots-Fits postgres c esc = ground arith
slots-Fits redshift c esc = ground arith
slots-Fits snowflake c esc = ground arith
slots-Fits sqlserver c esc = ground arith
slots-Fits vertica c esc = ground arith

-- The statement of a model before its test of the session state.
abbrev statement : Model → PasswordChange → Bool → Text
statement m c esc = fill (slots m c esc) (values m c)

exasol_old :
    (user password old : Text)
    → str "ALTER USER "
        ++ (quoted_name user
            ++ (str " IDENTIFIED BY "
                ++ (quoted_name password ++ with_old old (str " REPLACE " ++ quoted_name old))))
      ≡ fill
          (fixed (str "ALTER USER ")
            ∷ name_slot
            ∷ fixed (str " IDENTIFIED BY ")
            ∷ name_slot
            ∷ old_slots old (fixed (str " REPLACE ") ∷ name_slot ∷ []))
          (user ∷ password ∷ old_value old)
unfolding fill
exasol_old user password [] = simp quoting
exasol_old user password (o ∷ old) = simp quoting

sqlserver_old :
    (user password old : Text) (q : Quoting)
    → escapes q.backslash_escapes ≡ false
    → str "ALTER LOGIN "
        ++ (quote_identifier user (str "[") b']'
            ++ (str " WITH PASSWORD = N"
                ++ (quote_literal password q
                    ++ with_old old (str " OLD_PASSWORD = N" ++ quote_literal old q))))
      ≡ fill
          (fixed (str "ALTER LOGIN ")
            ∷ value false (str "[") b']'
            ∷ fixed (str " WITH PASSWORD = N")
            ∷ literal_slot false
            ∷ old_slots old (fixed (str " OLD_PASSWORD = N") ∷ literal_slot false ∷ []))
          (user ∷ password ∷ old_value old)
unfolding fill
sqlserver_old user password [] q h = simp (quoting, h)
sqlserver_old user password (o ∷ old) q h = simp (quoting, h)

vertica_old :
    (user password old : Text) (q : Quoting)
    → str "ALTER USER "
        ++ (quoted_name user
            ++ (str " IDENTIFIED BY "
                ++ (quote_literal password q
                    ++ with_old old (str " REPLACE " ++ quote_literal old q))))
      ≡ fill
          (fixed (str "ALTER USER ")
            ∷ name_slot
            ∷ fixed (str " IDENTIFIED BY ")
            ∷ literal_slot (escapes q.backslash_escapes)
            ∷ old_slots old
                (fixed (str " REPLACE ") ∷ literal_slot (escapes q.backslash_escapes) ∷ []))
          (user ∷ password ∷ old_value old)
unfolding fill
vertica_old user password [] q = simp quoting
vertica_old user password (o ∷ old) q = simp quoting

mysql_any :
    (found : Option (Text × Text)) (user password : Text) (q : Quoting)
    → str "ALTER USER "
        ++ (mysql_account found user q ++ (str " IDENTIFIED BY " ++ quote_literal password q))
      ≡ fill
          (fixed (str "ALTER USER ")
            ∷ account_slots
                (literal_slot (escapes q.backslash_escapes))
                found
                (fixed (str " IDENTIFIED BY ") ∷ literal_slot (escapes q.backslash_escapes) ∷ []))
          (account_values found user (password ∷ []))
unfolding fill mysql_account
mysql_any none user password q = simp quoting
mysql_any (some (name, host)) user password q = simp quoting

-- What a model answers, by its statement.
abbrev answer : Model → Quoting → Text → Error ⊎ Text
answer m q stmt = if needs_state m then if_read q.backslash_escapes stmt else inr stmt

writer-statement :
    (m : Model) (c : PasswordChange) (q : Quoting)
    → Fitting m q
    → writer m c q ≡ answer m q (statement m c (escapes q.backslash_escapes))
unfolding fill Passwords.cassandra Passwords.clickhouse Passwords.cratedb Passwords.databend
    Passwords.exasol Passwords.mysql Passwords.postgres Passwords.redshift Passwords.snowflake
    Passwords.sqlserver Passwords.vertica
writer-statement cassandra c q h = simp quoting
writer-statement clickhouse c q h = simp quoting
writer-statement cratedb c q h = simp quoting
writer-statement databend c q h = simp quoting
writer-statement exasol c q h = ap inr (exasol_old c.user c.password c.old)
writer-statement mysql c q h =
    ap (if_read q.backslash_escapes) (mysql_any (cut_last c.user (str "@")) c.user c.password q)
writer-statement postgres c q h = simp quoting
writer-statement redshift c q h = simp quoting
writer-statement snowflake c q h = simp quoting
writer-statement sqlserver c q h = ap inr (sqlserver_old c.user c.password c.old q h)
writer-statement vertica c q h =
    ap (if_read q.backslash_escapes) (vertica_old c.user c.password c.old q)

-- What a model may answer to a change.
pub data Written (m : Model) (c : PasswordChange) (q : Quoting) : Error ⊎ Text → Type 0 where
  unread : needs_state m ≡ true → q.backslash_escapes ≡ none → Written m c q (inl quoting_unknown)
  written :
      (stmt : Text)
      → (needs_state m ≡ false) ⊎ (q.backslash_escapes ≢ none)
      → read_slots (slots m c (escapes q.backslash_escapes)) stmt ≡ some (values m c)
      → Written m c q (inr stmt)

answer-Written :
    (m : Model) (c : PasswordChange) (q : Quoting)
    → Written m c q (answer m q (statement m c (escapes q.backslash_escapes)))
answer-Written m c q = elim (Bool-cases (needs_state m)) [
  | inl n ↦ elim (Option-cases q.backslash_escapes) [
    | inl e ↦ subst (Written m c q) (sym (unread_answer n e)) (unread n e)
    | inr (b, e) ↦
        subst (Written m c q) (sym (read_answer n b e)) (written _ (inr λ none_read. cc) readable)
  ]
  | inr n ↦ subst (Written m c q) (sym (plain_answer n)) (written _ (inl n) readable)
]
  where
    stmt : Text
    stmt = statement m c (escapes q.backslash_escapes)

    readable : read_slots (slots m c (escapes q.backslash_escapes)) stmt ≡ some (values m c)
    readable = read_slots-fill _ _ (slots-Fits m c (escapes q.backslash_escapes))

    unread_answer :
        needs_state m ≡ true → q.backslash_escapes ≡ none → answer m q stmt ≡ inl quoting_unknown
    unread_answer n e =
        ap (λ b. if b then if_read q.backslash_escapes stmt else inr stmt) n
        ∙ ap (λ o. if_read o stmt) e

    read_answer :
        needs_state m ≡ true
        → (b : Bool) → q.backslash_escapes ≡ some b
        → answer m q stmt ≡ inr stmt
    read_answer n b e =
        ap (λ b. if b then if_read q.backslash_escapes stmt else inr stmt) n
        ∙ ap (λ o. if_read o stmt) e

    plain_answer : needs_state m ≡ false → answer m q stmt ≡ inr stmt
    plain_answer n = ap (λ b. if b then if_read q.backslash_escapes stmt else inr stmt) n

-- A model that has to know whether a backslash escapes refuses a change without that state, and every
-- other change becomes a statement. Whatever the user, the password and the old password hold, the
-- server that reads the statement finds the fixed words of its product, and in the quoted places exactly
-- those texts (mysql splits a user at its last at sign into a name and a host): no text ends its quotes.
-- The server must read backslashes as the quoting state says where the model asks for that state, and
-- otherwise reads them as the product always does; the one of those models that takes the state of the
-- caller, that of SQL Server, must not be told that a backslash escapes.
pub writer-Written :
    (m : Model) (c : PasswordChange) (q : Quoting) → Fitting m q → Written m c q (writer m c q)
writer-Written m c q h =
    subst (Written m c q) (sym (writer-statement m c q h)) (answer-Written m c q)
