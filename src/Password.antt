-- ===== src/Password.antt =====
-- password.go: reading the quoting state, `ChangePassword`, and the quoting of literals and
-- identifiers. The proofs are in the module below this one.
pub mod Quotes
pub mod Change
use dbmeta.Common.{
  ℕ, Bool, true, false, ◌||◌, Option, none, some, List, [], ◌∷◌, ◌++◌, is_empty, if◌then◌else◌,
  Result, ok, err, ◌>>=◌, wrapped, model_not_built, not_supported, missing_param, invalid_password,
}
use dbmeta.Common.Text.{Text, str, replace_all, contains_rune}
use dbmeta.Info.{Info, PasswordChange, Quoting}
use dbmeta.Dialect.{Dialect, Infos, info_of, lift, Database, read_row}

abbrev pub quote : ℕ
quote = 39

abbrev pub backslash : ℕ
backslash = 92

-- `Dialect.QuotingQuery`
unfoldable pub quoting_query : Infos → Dialect → Option (Text × ℕ)
quoting_query infos d = elim (info_of infos d) [
  | none ↦ none
  | some info ↦
      if is_empty info.quoting_query then none else some (info.quoting_query, info.quoting_columns)
]

abbrev pub no_quoting : Quoting
no_quoting = record { backslash_escapes = none }

-- `Dialect.ParseQuoting`
unfoldable pub parse_quoting : Infos → Dialect → List Text → Result Quoting
parse_quoting infos d cols = elim (info_of infos d) [
  | none ↦ err model_not_built
  | some info ↦ elim info.parse_quoting [ none ↦ ok no_quoting | some parse ↦ lift (parse cols) ]
]

unfoldable pub quoting_with :
    {Row : Type 0} → Database Row → Infos → Dialect → Option (Text × ℕ) → Result Quoting
unfolding read_row parse_quoting
quoting_with db infos d none = elim (info_of infos d) [
  | none ↦ err model_not_built
  | some _ ↦ ok no_quoting
]
quoting_with db infos d (some (query, n)) =
    read_row db d query n >>= λ cols. parse_quoting infos d cols

-- `Dialect.Quoting`
unfoldable pub quoting : {Row : Type 0} → Database Row → Infos → Dialect → Result Quoting
unfolding quoting_with quoting_query
quoting db infos d = quoting_with db infos d (quoting_query infos d)

-- One of the three texts of a change holds a NUL.
unfoldable pub holds_nul : PasswordChange → Bool
unfolding contains_rune
holds_nul c = contains_rune c.user 0 || contains_rune c.password 0 || contains_rune c.old 0

-- `Dialect.ChangePassword`
unfoldable pub change_password : Infos → Dialect → PasswordChange → Quoting → Result Text
unfolding holds_nul info_of
change_password infos d c q = elim (info_of infos d) [
  | none ↦ err model_not_built
  | some info ↦ elim info.change_password [
    | none ↦ err not_supported
    | some write ↦
        if is_empty c.user
        then err (wrapped (str "changing a password: ") missing_param)
        else if holds_nul c
        then err invalid_password
        else lift (write c q)
  ]
]

abbrev pub escapes : Option Bool → Bool
escapes none = false
escapes (some b) = b

-- `QuoteLiteral`
unfoldable pub quote_literal : Text → Quoting → Text
unfolding replace_all
quote_literal s q =
    let doubled = replace_all s quote (quote ∷ quote ∷ []) in
    let body =
      if escapes q.backslash_escapes
      then replace_all doubled backslash (backslash ∷ backslash ∷ [])
      else doubled in
    quote ∷ (body ++ quote ∷ [])

-- `QuoteIdentifier`, for a closer of one character, as each caller passes it
unfoldable pub quote_identifier : Text → Text → ℕ → Text
unfolding replace_all
quote_identifier name opener closer =
    opener ++ (replace_all name closer (closer ∷ closer ∷ []) ++ closer ∷ [])
