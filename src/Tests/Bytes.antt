-- ===== src/Tests/Bytes.antt =====
-- `FormatBinary` of binary.go on concrete bytes.
use dbmeta.Common.{◌≡◌, refl, true, some, [], ◌∷◌, arith}
use dbmeta.Common.Text.{str, text_eq}
use dbmeta.Value.{ColumnType}
use dbmeta.Info.{no_info}
use dbmeta.Dialect.{Infos}
use dbmeta.Names.{format_binary}
use dbmeta.Names.Hex.{read_binary, read_binary-format_binary}

abbrev infos : Infos
infos = (str "pg", record no_info { is_binary = some (λ _. true) }) ∷ []

abbrev column : ColumnType
column = record { database_type_name = str "BYTEA" }

writes_hex : format_binary infos (str "pg") column (1 ∷ 171 ∷ []) ≡ some (str "\\x01ab")
unfolding format_binary text_eq
writes_hex = refl

read_binary-format_binary_example : read_binary (str "\\x01ab") ≡ 1 ∷ 171 ∷ []
read_binary-format_binary_example =
    read_binary-format_binary infos (str "pg") column (1 ∷ 171 ∷ []) (str "\\x01ab") (omega arith)
      writes_hex
