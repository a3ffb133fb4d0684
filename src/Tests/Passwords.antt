-- ===== src/Tests/Passwords.antt =====
-- The quoting of password.go on concrete inputs.
use dbmeta.Common.{◌≡◌, refl, true, some, [], ◌∷◌, ◌++◌, ok, ◌⊎◌, inr, Error}
use dbmeta.Common.Text.{Text, str, text_eq}
use dbmeta.Info.{no_info, PasswordChange, Quoting}
use dbmeta.Dialect.{Infos}
use dbmeta.Password.{quote_literal, quote_identifier, change_password}
use dbmeta.Password.Quotes.{read_literal, read_literal-quote_literal}
use dbmeta.Password.Change.{Changed, change_password-Changed}

abbrev escaping : Quoting
escaping = record { backslash_escapes = some true }

quotes : quote_literal (str "it's \\") escaping ≡ str "'it''s \\\\'"
unfolding quote_literal
quotes = refl

read_literal-quote_literal_example :
    read_literal true (quote_literal (str "it's \\") escaping ++ str ";")
    ≡ some (str "it's \\", str ";")
read_literal-quote_literal_example =
    read_literal-quote_literal (str "it's \\") (str ";") escaping refl

abbrev writer : PasswordChange → Quoting → Error ⊎ Text
writer c q = inr (str "ALTER USER " ++ quote_identifier c.user (str "\"") 34)

abbrev infos : Infos
infos = (str "pg", record no_info { change_password = some writer }) ∷ []

abbrev change : PasswordChange
change = record { user = str "ann"; password = str "secret"; old = [] }

writes : change_password infos (str "pg") change escaping ≡ ok (str "ALTER USER \"ann\"")
unfolding change_password text_eq quote_identifier
writes = refl

change_password-Changed_example :
    Changed infos (str "pg") change escaping (change_password infos (str "pg") change escaping)
change_password-Changed_example = change_password-Changed infos (str "pg") change escaping
