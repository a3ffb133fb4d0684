-- ===== src/Models/Claims.antt =====
-- `parseVersion` of the models whose server names its own release and a release of another product
-- that it claims to be, or the product that it is, and of those that take any text.
use dbmeta.Common.{
  ℕ, Bool, true, false, ◌||◌, none, some, List, [], ◌∷◌, ◌++◌, map, inl, inr, if◌then◌else◌,
  invalid_version,
}
use dbmeta.Common.Text.{Text, str, trim_space, cut_prefix, has_prefix}
use dbmeta.Common.Cut.{cut, cut_last, before, contains_text}
use dbmeta.Version.{
  Version, VersionSet, no_versions, set_version, parse_version, is_zero, unknown_version,
}
use dbmeta.Models.Releases.{Parsed, only_column, first_column, not_empty, one_version, with_raw}

-- len(cols) < 2
abbrev pub two_columns : (Text → Text → Parsed) → List Text → Parsed
two_columns read [] = inl invalid_version
two_columns read (_ ∷ []) = inl invalid_version
two_columns read (a ∷ b ∷ _) = read a b

-- The version that is claimed, under the empty key, and the own one under its key.
abbrev pub two_versions : Text → Version → Version → Text → VersionSet
two_versions key claimed own display = set_version (one_version claimed display) key own

-- What the products that claim to be PostgreSQL record.
abbrev pub claims_postgres : Text → Text → Text → Text → Parsed
claims_postgres key product release claimed = inr (
    two_versions key (with_raw claimed) (with_raw release)
      (product ++ (release ++ (str ", which claims PostgreSQL " ++ claimed))))

unfoldable pub cockroachdb : List Text → Parsed
cockroachdb = two_columns λ col col'.
    let banner = trim_space col in
    let claimed = trim_space col' in
    if has_prefix banner (str "CockroachDB")
    then (elim (cut banner (str " v")) as (λ _. Parsed) [
      | none ↦ inl invalid_version
      | some (_, rest) ↦
          claims_postgres (str "cockroachdb") (str "CockroachDB ") (before rest (str " ")) claimed
    ])
    else inl invalid_version

unfoldable pub cratedb : List Text → Parsed
cratedb = two_columns λ col col'.
    let claimed = trim_space col' in
    elim (cut_prefix (trim_space col) (str "CrateDB ")) [
      | none ↦ inl invalid_version
      | some rest ↦ claims_postgres (str "cratedb") (str "CrateDB ") (before rest (str " ")) claimed
    ]

-- What the products that claim to be MySQL record, when both versions are known.
abbrev pub claims_mysql : Text → Text → Text → Text → Parsed
claims_mysql key product claimed own =
    let my = with_raw claimed in
    let release = with_raw own in
    if my.unknown || release.unknown
    then inl invalid_version
    else inr (
        set_version
          (set_version
            (one_version my (product ++ (own ++ (str ", which claims MySQL " ++ claimed))))
            (str "mysql") my)
          key release)

unfoldable pub singlestore : List Text → Parsed
singlestore =
    two_columns λ col col'.
      claims_mysql (str "memsql") (str "SingleStore ") (trim_space col) (trim_space col')

unfoldable pub tidb : List Text → Parsed
tidb = first_column λ col. elim (cut (trim_space col) (str "-TiDB-v")) [
  | none ↦ inl invalid_version
  | some (claimed, own) ↦ claims_mysql (str "tidb") (str "TiDB ") claimed (before own (str "-"))
]

unfoldable pub vitess : List Text → Parsed
vitess = two_columns λ col col'. elim (cut (trim_space col) (str "-Vitess")) [
  | none ↦ inl invalid_version
  | some (claimed, _) ↦ elim (cut_prefix (trim_space col') (str "Version: ")) [
    | none ↦ inl invalid_version
    | some own ↦ claims_mysql (str "vitess") (str "Vitess ") claimed (before own (str " "))
  ]
]

abbrev pub product_name : Bool → Text
product_name true = str "MariaDB"
product_name false = str "MySQL"

abbrev pub product_key : Bool → Text
product_key true = str "mariadb"
product_key false = str "mysql"

-- Whether the suffix names MariaDB, in any case.
abbrev pub is_maria : (ℕ → ℕ) → Version → Bool
is_maria to_lower v = contains_text (map to_lower v.suffix) (str "mariadb")

unfoldable pub mysql : (ℕ → ℕ) → List Text → Parsed
mysql to_lower = first_column λ col.
    let raw = trim_space col in
    let v = with_raw raw in
    let maria = is_maria to_lower v in
    inr (two_versions (product_key maria) v v (product_name maria ++ (str " " ++ raw)))

-- `IsMariaDB`
unfoldable pub is_mariadb : VersionSet → Bool
unfolding dbmeta.Version.has
is_mariadb versions = dbmeta.Version.has versions (str "mariadb")

-- The models that record whatever the text says.
abbrev pub any_release : Text → Text → Parsed
any_release product col = inr (one_version (parse_version col) (product ++ col))

unfoldable pub clickhouse : List Text → Parsed
clickhouse = only_column (any_release (str "ClickHouse "))

unfoldable pub firebird : List Text → Parsed
firebird = only_column (any_release (str "Firebird "))

unfoldable pub hana : List Text → Parsed
hana = only_column (any_release (str "SAP HANA "))

unfoldable pub presto : List Text → Parsed
presto = only_column (any_release (str "Presto "))

unfoldable pub trino : List Text → Parsed
trino = only_column (any_release (str "Trino "))

unfoldable pub ydb : List Text → Parsed
ydb = only_column (any_release (str "YDB "))

unfoldable pub exasol : List Text → Parsed
exasol = only_column (not_empty (any_release (str "Exasol ")))

unfoldable pub hive : List Text → Parsed
hive =
    only_column
      λ col. inr (one_version (parse_version (before col (str " "))) (str "Apache Hive " ++ col))

unfoldable pub vertica : List Text → Parsed
vertica = only_column λ col. elim (cut_last col (str " v")) [
  | none ↦ inl invalid_version
  | some (_, release) ↦ inr (one_version (parse_version release) col)
]

abbrev pub any_trimmed : Text → Text → Parsed
any_trimmed product col =
    let raw = trim_space col in inr (one_version (with_raw raw) (product ++ raw))

unfoldable pub duckdb : List Text → Parsed
duckdb = first_column (any_trimmed (str "DuckDB "))

unfoldable pub sqlite3 : List Text → Parsed
sqlite3 = first_column (any_trimmed (str "SQLite "))

unfoldable pub spanner : List Text → Parsed
spanner = only_column (any_trimmed (str "Spanner optimizer "))

unfoldable pub rqlite : List Text → Parsed
rqlite = first_column λ col.
    let raw = trim_space col in
    if is_zero (parse_version raw)
    then inl invalid_version
    else inr (one_version (with_raw raw) (str "rqlite, which runs SQLite " ++ raw))

unfoldable pub libsql : List Text → Parsed
libsql = first_column λ col.
    let raw = trim_space col in
    if is_zero (parse_version raw)
    then inl invalid_version
    else inr (
        two_versions (str "libsql") (with_raw raw) unknown_version
          (str "libSQL, which runs SQLite " ++ raw))

-- The suffix up to its first parenthesis.
abbrev pub cut_suffix_at_paren : Version → Version
cut_suffix_at_paren v = elim (cut v.suffix (str "(")) [
  | none ↦ v
  | some (suffix, _) ↦ record v { suffix = trim_space suffix }
]

unfoldable pub postgres : List Text → Parsed
postgres = first_column λ col.
    let raw = trim_space col in
    inr (one_version (cut_suffix_at_paren (with_raw raw)) (str "PostgreSQL " ++ raw))
