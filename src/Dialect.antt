-- ===== src/Dialect.antt =====
-- dialect.go and the reading of session state in password.go: the registry of models, what
-- a dialect answers from it, and `Meta`. The registry is the map `infos`, passed as a value; a
-- database is the record `Database`.
pub mod Facts
use dbmeta.Common.{
  ℕ, Bool, false, ◌&&◌, not, Option, none, some, List, [], ◌∷◌, ◌++◌, map, ◌⊎◌, inl, inr, is_empty,
  if◌then◌else◌, Result, ok, err, panic, out_of_fuel, ◌>>=◌, Error, wrapped, no_rows,
  model_not_built,
}
use dbmeta.Common.Text.{Text, str, text_eq}
use dbmeta.Common.Assoc
use dbmeta.Common.Assoc.{Map}
use dbmeta.Value.{Bound, ColumnType}
use dbmeta.Version
use dbmeta.Version.{VersionSet, no_versions}
use dbmeta.Info.{Info, Syntax, Align, align_none}

-- `Dialect` is a string; these are the values of it that the package names in code.
abbrev pub Dialect : Type 0
Dialect = Text

abbrev pub csvq : Dialect
csvq = str "csvq"

abbrev pub dynamodb : Dialect
dynamodb = str "dynamodb"

abbrev pub pinot : Dialect
pinot = str "pinot"

abbrev pub Infos : Type 0
Infos = Map Info

-- a value or an error of a function that a model gives
abbrev pub lift : {A : Type 0} → Error ⊎ A → Result A
lift (inl e) = err e
lift (inr a) = ok a

-- `RegisterDialect`
unfoldable pub register_dialect : Infos → Dialect → Info → Result Infos
unfolding Assoc.has Assoc.put
register_dialect infos d info =
    if Assoc.has infos d
    then panic (str "dbmeta: dialect registered twice: " ++ d)
    else ok (Assoc.put infos d info)

-- `Dialects`
unfoldable pub dialects : Infos → List Dialect
unfolding Assoc.keys
dialects infos = Assoc.keys infos

-- `Dialect.Info`: none when no model was built
unfoldable pub info_of : Infos → Dialect → Option Info
unfolding Assoc.get
info_of infos d = Assoc.get infos d

-- `Dialect.Embedded`
unfoldable pub embedded : Infos → Dialect → Bool
unfolding info_of
embedded infos d = elim (info_of infos d) [ none ↦ false | some info ↦ info.embedded ]

-- `Dialect.VersionQuery`
unfoldable pub version_query : Infos → Dialect → Option (Text × ℕ)
version_query infos d = elim (info_of infos d) [
  | none ↦ none
  | some info ↦
      if is_empty info.version_query then none else some (info.version_query, info.version_columns)
]

abbrev pub unknown_set : VersionSet
unknown_set = record { versions = []; display = str "unknown" }

-- `Dialect.ParseVersion`
unfoldable pub parse_version : Infos → Dialect → List Text → Result VersionSet
parse_version infos d cols = elim (info_of infos d) [
  | none ↦ err model_not_built
  | some info ↦ elim info.parse_version [ none ↦ ok unknown_set | some parse ↦ lift (parse cols) ]
]

abbrev nonempty_query : Text × ℕ → Option (Text × ℕ)
nonempty_query (query, cols) = if is_empty query then none else some (query, cols)

-- `Dialect.FollowUpQuery`
unfoldable pub follow_up_query : Infos → Dialect → VersionSet → Option (Text × ℕ)
follow_up_query infos d s = elim (info_of infos d) [
  | none ↦ none
  | some info ↦ elim info.follow_up_query [ none ↦ none | some follow ↦ nonempty_query (follow s) ]
]

-- `Dialect.ParseFollowUp`
unfoldable pub parse_follow_up : Infos → Dialect → VersionSet → List Text → Result VersionSet
parse_follow_up infos d s cols = elim (info_of infos d) [
  | none ↦ err model_not_built
  | some info ↦ elim info.parse_follow_up [ none ↦ ok s | some parse ↦ lift (parse s cols) ]
]

-- `*sql.Rows`: the rows that Next goes through, what Err says once so many rows are read, and what
-- Close says.
pub record Rows (Row : Type 0) : Type 0 where
  pub rows : List Row
  pub err_after : ℕ → Option Error
  pub close_err : Option Error

-- A `Queryer` and its context: the answer to a statement, the scan of a row into so many nullable
-- strings, and `ctx.Err()`.
pub record Database (Row : Type 0) : Type 0 where
  pub query : Text → List Bound → Error ⊎ Rows Row
  pub scan_text : Row → ℕ → Error ⊎ List (Option Text)
  pub ctx_err : Option Error

abbrev pub reading_from : Dialect → Error → Error
reading_from d e = wrapped (str "reading from " ++ (d ++ str ": ")) e

-- a NULL is flattened to the empty string
abbrev pub flatten : Option Text → Text
flatten none = []
flatten (some s) = s

module _ {Row : Type 0} (db : Database Row) where
  -- After the scan of the first row: Err, then Close.
  unfoldable pub finish_row : Dialect → Rows Row → List (Option Text) → Result (List Text)
  finish_row d rows cols = elim (rows.err_after 1) [
    | some e ↦ err (reading_from d e)
    | none ↦ elim rows.close_err [ some e ↦ err (reading_from d e) | none ↦ ok (map flatten cols) ]
  ]

  unfoldable pub first_row : Dialect → ℕ → Rows Row → List Row → Result (List Text)
  unfolding finish_row
  first_row d n rows [] = elim (rows.err_after 0) [
    | some e ↦ err (reading_from d e)
    | none ↦ err (reading_from d no_rows)
  ]
  first_row d n rows (row ∷ _) = elim (db.scan_text row n) [
    | inl e ↦ err (reading_from d e)
    | inr cols ↦ finish_row d rows cols
  ]

  -- `readRow`
  unfoldable pub read_row : Dialect → Text → ℕ → Result (List Text)
  unfolding first_row
  read_row d query n = elim (db.query query []) [
    | inl e ↦ err (reading_from d e)
    | inr rows ↦ first_row d n rows rows.rows
  ]

  -- A follow-up that the server refuses leaves the set as it is, unless the context was canceled.
  unfoldable pub follow_up : Infos → Dialect → VersionSet → Result (List Text) → Result VersionSet
  follow_up infos d s (ok cols) = parse_follow_up infos d s cols
  follow_up infos d s (err e) = elim db.ctx_err [
    | some stop ↦ err (reading_from d stop)
    | none ↦ ok s
  ]
  follow_up infos d s (panic m) = panic m
  follow_up infos d s out_of_fuel = out_of_fuel

  unfoldable pub refine : Infos → Dialect → VersionSet → Option (Text × ℕ) → Result VersionSet
  unfolding follow_up
  refine infos d s none = ok s
  refine infos d s (some (query, n)) = follow_up infos d s (read_row d query n)

  unfoldable pub version_with : Infos → Dialect → Option (Text × ℕ) → Result VersionSet
  unfolding refine
  version_with infos d none = elim (info_of infos d) [
    | none ↦ err model_not_built
    | some _ ↦ ok unknown_set
  ]
  version_with infos d (some (query, n)) = do
    cols ← read_row d query n
    s ← parse_version infos d cols
    refine infos d s (follow_up_query infos d s)

  -- `Dialect.Version`
  unfoldable pub version : Infos → Dialect → Result VersionSet
  unfolding version_with
  version infos d = version_with infos d (version_query infos d)

pub record Meta : Type 0 where
  pub dialect : Dialect
  pub versions : VersionSet

-- `New`
unfoldable pub new : Infos → Dialect → VersionSet → Result Meta
new infos d versions = elim (info_of infos d) [
  | none ↦ err model_not_built
  | some _ ↦ ok (record { dialect = d; versions = versions })
]

abbrev pub reading_version : Dialect → Error → Error
reading_version d e = wrapped (str "reading the version of " ++ (d ++ str ": ")) e

unfoldable pub open_with : Infos → Dialect → Result VersionSet → Result Meta
unfolding new
open_with infos d (ok versions) = new infos d versions
open_with infos d (err e) = err (reading_version d e)
open_with infos d (panic m) = panic m
open_with infos d out_of_fuel = out_of_fuel

-- `Open`
unfoldable pub open_meta : {Row : Type 0} → Database Row → Infos → Dialect → Result Meta
unfolding open_with
open_meta db infos d = open_with infos d (version db infos d)

-- `Meta.String`
unfoldable pub meta_string : Meta → Text
unfolding text_eq Version.set_string
meta_string m =
    let s = Version.set_string m.versions in
    if not (is_empty s) && not (text_eq s (str "unknown")) then s else m.dialect
