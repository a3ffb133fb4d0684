-- ===== src/Dialect/Facts.antt =====
-- facts.go, and what syntax.go and align.go read off the `Info` of a dialect.
use dbmeta.Common.{ℕ, Bool, false, not, Option, none, some, [], ◌∷◌, is_empty, if◌then◌else◌}
use dbmeta.Common.Text.{Text, str}
use dbmeta.Common.Assoc
use dbmeta.Common.Assoc.{Map}
use dbmeta.Value.{ColumnType}
use dbmeta.Info.{Info, Syntax, Align, align_none}
use dbmeta.Dialect.{Dialect, Infos, info_of, csvq, dynamodb, pinot}

-- A row of the table `unmodeled`.
pub record UnmodeledInfo : Type 0 where
  pub product : Text
  pub placeholder : Option (ℕ → Text)

-- `questionMark`
unfoldable pub question_mark : ℕ → Text
question_mark _ = str "?"

unfoldable pub unmodeled : Map UnmodeledInfo
unfolding question_mark
unmodeled =
    (csvq, record { product = []; placeholder = some question_mark })
    ∷ (dynamodb, record { product = str "Amazon DynamoDB"; placeholder = none })
    ∷ (pinot, record { product = str "Apache Pinot"; placeholder = none })
    ∷ []

abbrev pub info_placeholder : Option Info → Option (ℕ → Text)
info_placeholder none = none
info_placeholder (some info) = info.placeholder

abbrev pub row_placeholder : Option UnmodeledInfo → Option (ℕ → Text)
row_placeholder none = none
row_placeholder (some row) = row.placeholder

-- `Dialect.Placeholder`
unfoldable pub placeholder : Infos → Dialect → ℕ → Option Text
placeholder infos d n = elim (info_placeholder (info_of infos d)) [
  | some write ↦ some (write n)
  | none ↦ elim (row_placeholder (Assoc.get unmodeled d)) [
    | some write ↦ some (write n)
    | none ↦ none
  ]
]

abbrev pub info_product : Option Info → Text
info_product none = []
info_product (some info) = info.product

abbrev pub row_product : Option UnmodeledInfo → Text
row_product none = []
row_product (some row) = row.product

-- `Dialect.Product`
unfoldable pub product : Infos → Dialect → Option Text
product infos d =
    let known = info_product (info_of infos d) in
    let row = row_product (Assoc.get unmodeled d) in
    if not (is_empty known) then some known else if not (is_empty row) then some row else none

-- `Dialect.EveryStatementIsAQuery`, `Dialect.WritesNeedAutocommit` and `Dialect.ScanTypes`
unfoldable pub every_statement_is_a_query : Infos → Dialect → Bool
every_statement_is_a_query infos d = elim (info_of infos d) [
  | none ↦ false
  | some info ↦ info.every_statement_is_a_query
]

unfoldable pub writes_need_autocommit : Infos → Dialect → Bool
writes_need_autocommit infos d = elim (info_of infos d) [
  | none ↦ false
  | some info ↦ info.writes_need_autocommit
]

unfoldable pub scan_types : Infos → Dialect → Bool
scan_types infos d = elim (info_of infos d) [ none ↦ false | some info ↦ info.scan_types ]

-- `Dialect.Syntax`
unfoldable pub syntax : Infos → Dialect → Option Syntax
syntax infos d = elim (info_of infos d) [ none ↦ none | some info ↦ some info.syntax ]

-- `Dialect.ColumnAlign`
unfoldable pub column_align : Infos → Dialect → ColumnType → Align × Bool
column_align infos d ct = elim (info_of infos d) [
  | none ↦ (align_none, false)
  | some info ↦ elim info.column_align [ none ↦ (align_none, false) | some align ↦ align ct ]
]
