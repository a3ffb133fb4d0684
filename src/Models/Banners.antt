-- ===== src/Models/Banners.antt =====
-- `parseVersion` of the models that read a banner of several parts. JSON and regular expressions are
-- parameters: `SystemRow` is what the text holds under the keys that are asked for.
use dbmeta.Common.{
  Bool, ◌||◌, Option, none, some, List, [], ◌∷◌, ◌++◌, inl, inr, is_empty, if◌then◌else◌,
  invalid_version, wrapped,
}
use dbmeta.Common.Text.{Text, str, trim_space, join}
use dbmeta.Common.Cut.{cut_last, before}
use dbmeta.Version.{no_versions, set_version, parse_version, unknown_version}
use dbmeta.Models.Releases.{Parsed, only_column, first_column, one_version, with_raw}

abbrev named_release : Text → Text → Parsed
named_release raw name =
    if is_empty raw
    then inl invalid_version
    else inr (one_version (with_raw raw) (name ++ (str " " ++ raw)))

abbrev oracle_banner : Text → Option (Text × Text) → Parsed
oracle_banner banner none = named_release [] banner
oracle_banner banner (some (name, after)) =
    named_release (before (trim_space after) (str " ")) (trim_space name)

unfoldable pub oracle : List Text → Parsed
oracle = first_column λ col.
    let banner = trim_space col in
    if is_empty banner
    then inl invalid_version
    else oracle_banner banner (cut_last banner (str "Release "))

-- `productName`
unfoldable pub sqlserver_product : Text → Text
sqlserver_product banner = trim_space (before (trim_space banner) (str " - "))

abbrev non_empty : List Text → List Text
non_empty [] = []
non_empty (p ∷ parts) = if is_empty p then non_empty parts else p ∷ non_empty parts

unfoldable pub sqlserver_display : Text → Text → Text → Text → Text → Text
sqlserver_display name raw level update edition =
    let product = if is_empty name then str "Microsoft SQL Server" else name in
    let full_level = if is_empty update then level else level ++ (str "-" ++ update) in
    join (str ", ") ((product ++ (str " " ++ raw)) ∷ non_empty (full_level ∷ edition ∷ []))

unfoldable pub sqlserver : List Text → Parsed
sqlserver (banner ∷ version ∷ level ∷ update ∷ edition ∷ _) =
    let raw = trim_space version in
    if is_empty raw
    then inl invalid_version
    else inr (
        one_version (with_raw raw) (
          sqlserver_display (sqlserver_product banner) raw (trim_space level) (trim_space update)
            (trim_space edition)))
sqlserver _ = inl invalid_version

-- The texts of a row of system.local, empty where the key is missing or holds no text, and whether the
-- row has the key "supported_features".
pub record SystemRow : Type 0 where
  pub release : Text
  pub cql : Text
  pub protocol : Text
  pub has_features : Bool

unfoldable pub cassandra_row : SystemRow → Parsed
cassandra_row row =
    if is_empty row.release || is_empty row.cql || is_empty row.protocol
    then inl invalid_version
    else (let rest =
          row.release ++ (str ", CQL " ++ (row.cql ++ (str ", Protocol v" ++ row.protocol))) in
        let set =
          set_version
            (set_version (one_version (parse_version row.release) (str "Cassandra " ++ rest))
              (str "cql") (parse_version row.cql))
            (str "protocol") (parse_version row.protocol) in
        inr (
          if row.has_features
          then record (set_version set (str "scylla") unknown_version) {
            display = str "ScyllaDB, compatible with Cassandra " ++ rest;
          }
          else set))

-- `unmarshal` is json.Unmarshal of a column.
unfoldable pub cassandra : (Text → Option SystemRow) → List Text → Parsed
cassandra unmarshal = only_column λ col. elim (unmarshal col) [
  | none ↦ inl (wrapped (str "reading system.local: ") invalid_version)
  | some row ↦ cassandra_row row
]

-- The build of a text and the sprint of a build, as the two regular expressions find them.
unfoldable pub maxcompute_build : (Text → Option Text) → Text → Parsed
maxcompute_build sprint build =
    let display = str "MaxCompute " ++ build in
    inr (elim (sprint build) [
      | none ↦ record no_versions { display = display }
      | some number ↦ one_version (record (parse_version number) { raw = build }) display
    ])

unfoldable pub maxcompute : (Text → Option Text) → (Text → Option Text) → List Text → Parsed
maxcompute build_name sprint = only_column λ col. elim (build_name col) [
  | none ↦ inl (wrapped (str "maxcompute: ") invalid_version)
  | some build ↦ maxcompute_build sprint build
]
