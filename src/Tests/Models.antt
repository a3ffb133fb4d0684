-- ===== src/Tests/Models.antt =====
-- The parsers of versions and the password statements of the models on concrete inputs.
use dbmeta.Common.{ℕ, ◌≡◌, refl, true, false, some, List, [], ◌∷◌, inr}
use dbmeta.Common.Text.{Text, str, trim_space}
use dbmeta.Common.Cut.{contains_text}
use dbmeta.Info.{PasswordChange, Quoting}
use dbmeta.Version.{VersionSet, parse_version, v_of}
use dbmeta.Fragment.{met}
use dbmeta.Password.{quote_literal, quote_identifier}
use dbmeta.Models.Releases.{with_raw}
use dbmeta.Models.Claims.{mysql, rqlite, libsql, is_maria}
use dbmeta.Models.Checks.{GivesKnown}
use dbmeta.Models.Known.{checked_parser, checked_parser-IsChecked, drill}
use dbmeta.Models.Products.{HasProduct, rqlite-met, mysql-HasProduct}
use dbmeta.Models.Passwords
use dbmeta.Models.Passwords.Places.{sqlserver, writer}
use dbmeta.Models.Passwords.Reads.{Written, writer-Written}

abbrev banner : List Text
banner = str "1.21.2" ∷ []

checked_parser-IsChecked_example : GivesKnown (checked_parser drill banner)
checked_parser-IsChecked_example = checked_parser-IsChecked drill banner

rqlite-met_example :
    ((set : VersionSet) × (rqlite (str "unknown" ∷ []) ≡ inr set)
      × (met (record { min = v_of (3 ∷ []); key = [] }) set ≡ true))
    × ((set : VersionSet) × (libsql (str "unknown" ∷ []) ≡ inr set)
        × (met (record { min = v_of (3 ∷ []); key = [] }) set ≡ true))
unfolding parse_version
rqlite-met_example = rqlite-met (str "unknown") [] (v_of (3 ∷ [])) refl

abbrev lower : ℕ → ℕ
lower c = c

mysql-HasProduct_example :
    (set : VersionSet) × (mysql lower (str "11.8.2-mariadb" ∷ []) ≡ inr set)
    × HasProduct
        (is_maria lower (with_raw (str "11.8.2-mariadb")))
        (with_raw (str "11.8.2-mariadb"))
        set
unfolding trim_space
mysql-HasProduct_example = mysql-HasProduct lower (str "11.8.2-mariadb") []

maria : is_maria lower (with_raw (str "11.8.2-mariadb")) ≡ true
unfolding contains_text parse_version
maria = refl

abbrev change : PasswordChange
change = record { user = str "o'hara"; password = str "it's"; old = [] }

abbrev no_escapes : Quoting
no_escapes = record { backslash_escapes = some false }

writer-Written_example : Written sqlserver change no_escapes (writer sqlserver change no_escapes)
writer-Written_example = writer-Written sqlserver change no_escapes refl

altered : Passwords.postgres change no_escapes ≡ inr (str "ALTER USER \"o'hara\" PASSWORD 'it''s'")
unfolding Passwords.postgres Passwords.quoted_name quote_literal quote_identifier
altered = refl
