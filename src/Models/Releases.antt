-- ===== src/Models/Releases.antt =====
-- `parseVersion` of the models whose server names one release. `unicode.ToLower` and JSON and regular
-- expressions are parameters.
use dbmeta.Common.{
  ◌||◌, Option, none, some, List, [], ◌∷◌, ◌++◌, ◌⊎◌, inl, inr, is_empty, if◌then◌else◌, Error,
  invalid_version, wrapped,
}
use dbmeta.Common.Text.{Text, str, trim_space, trim_prefix}
use dbmeta.Common.Cut.{cut, before}
use dbmeta.Version.{Version, VersionSet, no_versions, set_version, parse_version}

abbrev pub Parsed : Type 0
Parsed = Error ⊎ VersionSet

-- len(cols) != 1
abbrev pub only_column : (Text → Parsed) → List Text → Parsed
only_column read [] = inl invalid_version
only_column read (col ∷ []) = read col
only_column read (_ ∷ _ ∷ _) = inl invalid_version

-- len(cols) < 1
abbrev pub first_column : (Text → Parsed) → List Text → Parsed
first_column read [] = inl invalid_version
first_column read (col ∷ _) = read col

-- cols[0] == "" is refused
abbrev pub not_empty : (Text → Parsed) → Text → Parsed
not_empty read col = if is_empty col then inl invalid_version else read col

-- A set of one version, under the empty key.
abbrev pub one_version : Version → Text → VersionSet
one_version v display = set_version (record no_versions { display = display }) [] v

abbrev pub with_raw : Text → Version
with_raw release = record (parse_version release) { raw = release }

-- A version that is not known is refused.
abbrev pub if_known : Version → VersionSet → Parsed
if_known v set = if v.unknown then inl invalid_version else inr set

-- What most models do with the text of a release.
abbrev pub read_release : Text → Text → Parsed
read_release product release =
    let v = with_raw release in if_known v (one_version v (product ++ release))

-- The same, with the column as it stands in the line for a person.
abbrev pub read_trimmed : Text → Text → Parsed
read_trimmed product col =
    let v = parse_version (trim_space col) in if_known v (one_version v (product ++ col))

-- The same, of the text between two separators.
abbrev pub read_between : Text → Option (Text × Text) → (Text → Text) → Parsed
read_between product none end = inl invalid_version
read_between product (some (_, rest)) end = read_release product (end rest)

-- The shapes of these parsers, by the words for a person and the text of the release.
unfoldable pub trimmed_only : Text → List Text → Parsed
trimmed_only product = only_column (not_empty (read_trimmed product))

unfoldable pub release_only : Text → List Text → Parsed
release_only product = only_column (not_empty λ col. read_release product (trim_space col))

unfoldable pub release_first : Text → (Text → Text) → List Text → Parsed
release_first product release = first_column λ col. read_release product (release col)

-- A refusal that names the model.
abbrev pub in_model : Text → Parsed → Parsed
in_model name (inl e) = inl (wrapped name e)
in_model name (inr set) = inr set

unfoldable pub release_in_model : Text → Text → List Text → Parsed
release_in_model name product =
    first_column λ col. in_model name (read_release product (trim_space col))

unfoldable pub release_between : Text → Text → (Text → Text) → List Text → Parsed
release_between product sep end = first_column λ col. read_between product (cut col sep) end

unfoldable pub arangodb : List Text → Parsed
arangodb = trimmed_only (str "ArangoDB ")

unfoldable pub couchbase : List Text → Parsed
couchbase = trimmed_only (str "Couchbase ")

unfoldable pub avatica : List Text → Parsed
avatica = release_only (str "Avatica, HSQLDB ")

unfoldable pub drill : List Text → Parsed
drill = release_only (str "Apache Drill ")

unfoldable pub druid : List Text → Parsed
druid = release_only (str "Apache Druid ")

unfoldable pub solr : List Text → Parsed
solr = only_column λ col. not_empty (read_release (str "Apache Solr ")) (trim_space col)

unfoldable pub elasticsearch : List Text → Parsed
elasticsearch = release_first (str "Elasticsearch ") trim_space

unfoldable pub opensearch : List Text → Parsed
opensearch = release_first (str "OpenSearch ") trim_space

unfoldable pub snowflake : List Text → Parsed
snowflake = release_first (str "Snowflake ") trim_space

unfoldable pub influxql : List Text → Parsed
influxql = release_first (str "InfluxDB ") λ col. trim_prefix (trim_space col) (str "v")

unfoldable pub databricks : List Text → Parsed
databricks = release_in_model (str "databricks: ") (str "Databricks ")

unfoldable pub tablestore : List Text → Parsed
tablestore = release_in_model (str "tablestore: ") (str "Tablestore SQL ")

unfoldable pub databend : List Text → Parsed
databend =
    release_between (str "Databend ") (str "Databend Query v")
      λ rest. before (before rest (str "-")) (str "(")

unfoldable pub impala : List Text → Parsed
impala =
    release_between (str "Apache Impala ") (str "impalad version ")
      λ rest. before (before rest (str "-")) (str " ")

unfoldable pub influxdb : List Text → Parsed
influxdb =
    release_between (str "InfluxDB 3, which runs Apache DataFusion ") (str "DataFusion ")
      λ rest. trim_space (before rest (str ","))

unfoldable pub questdb : List Text → Parsed
questdb =
    release_between (str "QuestDB ") (str "QuestDB ") λ rest. trim_space (before rest (str ","))

unfoldable pub redshift : List Text → Parsed
redshift = release_between (str "Amazon Redshift ") (str "Redshift ") trim_space

-- The text is tested too, before its version is.
unfoldable pub surrealdb : List Text → Parsed
surrealdb = only_column λ col.
    let text = trim_prefix (trim_space col) (str "surrealdb-") in
    let v = parse_version text in
    if is_empty text || v.unknown
    then inl invalid_version
    else inr (one_version v (str "SurrealDB " ++ text))

-- Two columns, of which the second is the edition.
unfoldable pub neo4j : List Text → Parsed
neo4j (release ∷ edition ∷ []) =
    not_empty
      (λ col.
        let v = parse_version (trim_space col) in
        if_known v (one_version v (trim_space (str "Neo4j " ++ (col ++ (str " " ++ edition))))))
      release
neo4j _ = inl invalid_version
