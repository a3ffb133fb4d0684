-- ===== src/Models/Passwords/Oracle.antt =====
-- The password statement of password.go of the oracle model.
use dbmeta.Common.{
  ℕ, ◌≡◌, ◌⊎◌, inl, inr, false, none, some, List, [], ◌∷◌, ◌++◌, Error, invalid_password,
}
use dbmeta.Common.Text.{Text, str, contains_rune}
use dbmeta.Password.Quotes.{body}
use dbmeta.Models.Passwords.{double_quote}
use dbmeta.Models.Passwords.Template.{Slot, fixed, read_slots}
use dbmeta.Models.Passwords.OracleName.{Means}
use dbmeta.Models.Passwords.Places.{name_slot, old_slots, old_value}

-- No double quote stands in the text.
abbrev pub Plain : Text → Type 0
Plain s = contains_rune s double_quote ≡ false

abbrev pub oracle_slots : Text → List Slot
oracle_slots old =
    fixed (str "ALTER USER ")
    ∷ name_slot
    ∷ fixed (str " IDENTIFIED BY ")
    ∷ name_slot
    ∷ old_slots old (fixed (str " REPLACE ") ∷ name_slot ∷ [])

-- What the model may answer.
pub data OracleWritten (to_upper : ℕ → ℕ) (name password old : Text) : Error ⊎ Text → Type 0 where
  no_name :
      Means to_upper name none → OracleWritten to_upper name password old (inl invalid_password)
  unquotable :
      (user : Text)
      → Means to_upper name (some user)
      → ¬ (Plain user × Plain password × Plain old)
      → OracleWritten to_upper name password old (inl invalid_password)
  written :
      (user stmt : Text)
      → Means to_upper name (some user)
      → read_slots (oracle_slots old) stmt ≡ some (user ∷ password ∷ old_value old)
      → OracleWritten to_upper name password old (inr stmt)

-- The statement without the old password, and with it.
abbrev short : Text → Text → Text
short user password =
    str "ALTER USER "
    ++ ((double_quote ∷ (body false double_quote user ++ double_quote ∷ []))
        ++ (str " IDENTIFIED BY "
            ++ (double_quote ∷ (body false double_quote password ++ double_quote ∷ []))))
