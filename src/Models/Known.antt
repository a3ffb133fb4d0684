-- ===== src/Models/Known.antt =====
-- What the version parsers of the models give.
use dbmeta.Common.{
  ◌≡◌, refl, ap, ◌∙◌, inl, Bool, true, false, ◌||◌, Option, none, some, List, [], ◌∷◌, ◌++◌,
  is_empty, invalid_version,
}
use dbmeta.Common.Text.{Text, str, trim_space, trim_prefix, cut_prefix}
use dbmeta.Common.Cut.{cut, before}
use dbmeta.Version.{parse_version}
use dbmeta.Models.Releases
use dbmeta.Models.Claims
use dbmeta.Models.Claims.{two_columns, claims_mysql}
use dbmeta.Models.Releases.{
  Parsed, only_column, first_column, not_empty, one_version, with_raw, if_known, read_release,
  read_trimmed, read_between, in_model, trimmed_only, release_only, release_first, release_in_model,
  release_between,
}
use dbmeta.Models.Checks.{
  GivesKnown, get-one_version, refused_or, if_known-Known, read_release-Known, read_between-Known,
  in_model-Known, IsChecked, only_column-IsChecked, first_column-IsChecked, two_columns-IsChecked,
  not_empty-Known, claims_mysql-Known,
}

-- The models whose parser tests that the version is known.
pub data Checked : Type 0 where
  arangodb couchbase avatica drill druid solr elasticsearch opensearch : Checked
  snowflake influxql databricks tablestore databend impala influxdb questdb : Checked
  redshift surrealdb neo4j singlestore tidb vitess : Checked

abbrev pub checked_parser : Checked → List Text → Parsed
checked_parser arangodb = Releases.arangodb
checked_parser couchbase = Releases.couchbase
checked_parser avatica = Releases.avatica
checked_parser drill = Releases.drill
checked_parser druid = Releases.druid
checked_parser solr = Releases.solr
checked_parser elasticsearch = Releases.elasticsearch
checked_parser opensearch = Releases.opensearch
checked_parser snowflake = Releases.snowflake
checked_parser influxql = Releases.influxql
checked_parser databricks = Releases.databricks
checked_parser tablestore = Releases.tablestore
checked_parser databend = Releases.databend
checked_parser impala = Releases.impala
checked_parser influxdb = Releases.influxdb
checked_parser questdb = Releases.questdb
checked_parser redshift = Releases.redshift
checked_parser surrealdb = Releases.surrealdb
checked_parser neo4j = Releases.neo4j
checked_parser singlestore = Claims.singlestore
checked_parser tidb = Claims.tidb
checked_parser vitess = Claims.vitess

trimmed-Known : (product col : Text) → GivesKnown (read_trimmed product col)
trimmed-Known product col = if_known-Known (parse_version (trim_space col)) (product ++ col)

surrealdb-IsChecked : IsChecked Releases.surrealdb
unfolding Releases.surrealdb
surrealdb-IsChecked = only_column-IsChecked _ λ col.
    let text = trim_prefix (trim_space col) (str "surrealdb-") in
    refused_or (is_empty text || (parse_version text).unknown) _ λ e.
      ap (λ u. u.unknown) (get-one_version (parse_version text) _)
      ∙ second_false (is_empty text) (parse_version text).unknown e
  where
    second_false : (a b : Bool) → (a || b) ≡ false → b ≡ false
    second_false false b e = e
    second_false true b e = cc

neo4j-IsChecked : IsChecked Releases.neo4j
unfolding Releases.neo4j
neo4j-IsChecked [] = refl
neo4j-IsChecked (_ ∷ []) = refl
neo4j-IsChecked ([] ∷ edition ∷ []) = refl
neo4j-IsChecked ((c ∷ release) ∷ edition ∷ []) =
    if_known-Known (parse_version (trim_space (c ∷ release)))
      (trim_space (str "Neo4j " ++ ((c ∷ release) ++ (str " " ++ edition))))
neo4j-IsChecked (_ ∷ _ ∷ _ ∷ _) = refl

tidb-IsChecked : IsChecked Claims.tidb
unfolding Claims.tidb
tidb-IsChecked = first_column-IsChecked _ λ col. go (cut (trim_space col) (str "-TiDB-v"))
  where
    go :
        (found : Option (Text × Text))
        → GivesKnown (elim found as (λ _. Parsed) [
          | none ↦ inl invalid_version
          | some (claimed, own) ↦
              claims_mysql (str "tidb") (str "TiDB ") claimed (before own (str "-"))
        ])
    go none = refl
    go (some (claimed, own)) =
        claims_mysql-Known (str "tidb") (str "TiDB ") claimed (before own (str "-")) refl

vitess-IsChecked : IsChecked Claims.vitess
unfolding Claims.vitess
vitess-IsChecked =
    two_columns-IsChecked _
      λ a b. go (cut (trim_space a) (str "-Vitess")) (cut_prefix (trim_space b) (str "Version: "))
  where
    go :
        (found : Option (Text × Text)) (own : Option Text)
        → GivesKnown (elim found as (λ _. Parsed) [
          | none ↦ inl invalid_version
          | some (claimed, _) ↦ elim own as (λ _. Parsed) [
            | none ↦ inl invalid_version
            | some own ↦ claims_mysql (str "vitess") (str "Vitess ") claimed (before own (str " "))
          ]
        ])
    go none own = refl
    go (some _) none = refl
    go (some (claimed, _)) (some own) =
        claims_mysql-Known (str "vitess") (str "Vitess ") claimed (before own (str " ")) refl

trimmed_only-IsChecked : (product : Text) → IsChecked (trimmed_only product)
unfolding trimmed_only
trimmed_only-IsChecked product =
    only_column-IsChecked (not_empty (read_trimmed product))
      λ col. not_empty-Known (read_trimmed product) col (trimmed-Known product col)

release_only-IsChecked : (product : Text) → IsChecked (release_only product)
unfolding release_only
release_only-IsChecked product =
    only_column-IsChecked (not_empty λ col. read_release product (trim_space col)) λ col.
      not_empty-Known (λ c. read_release product (trim_space c)) col
        (read_release-Known product (trim_space col))

release_first-IsChecked :
    (product : Text) (release : Text → Text) → IsChecked (release_first product release)
unfolding release_first
release_first-IsChecked product release =
    first_column-IsChecked (λ col. read_release product (release col))
      λ col. read_release-Known product (release col)

release_in_model-IsChecked : (name product : Text) → IsChecked (release_in_model name product)
unfolding release_in_model
release_in_model-IsChecked name product =
    first_column-IsChecked (λ col. in_model name (read_release product (trim_space col)))
      λ col. in_model-Known name _ (read_release-Known product (trim_space col))

release_between-IsChecked :
    (product sep : Text) (end : Text → Text) → IsChecked (release_between product sep end)
unfolding release_between
release_between-IsChecked product sep end =
    first_column-IsChecked (λ col. read_between product (cut col sep) end)
      λ col. read_between-Known product (cut col sep) end

solr-IsChecked : IsChecked Releases.solr
unfolding Releases.solr
solr-IsChecked =
    only_column-IsChecked (λ col. not_empty (read_release (str "Apache Solr ")) (trim_space col))
      λ col.
        not_empty-Known (read_release (str "Apache Solr ")) (trim_space col)
          (read_release-Known (str "Apache Solr ") (trim_space col))

singlestore-IsChecked : IsChecked Claims.singlestore
unfolding Claims.singlestore
singlestore-IsChecked =
    two_columns-IsChecked
      (λ a b. claims_mysql (str "memsql") (str "SingleStore ") (trim_space a) (trim_space b))
      λ a b.
        claims_mysql-Known (str "memsql") (str "SingleStore ") (trim_space a) (trim_space b) refl

-- Each of these models refuses the answer of its version query by ErrInvalidVersion, perhaps under a
-- context, or gives a set whose main version is known.
pub checked_parser-IsChecked : (m : Checked) → IsChecked (checked_parser m)
unfolding Releases.arangodb Releases.couchbase Releases.avatica Releases.drill Releases.druid
    Releases.elasticsearch Releases.opensearch Releases.snowflake Releases.influxql
    Releases.databricks Releases.tablestore Releases.databend Releases.impala Releases.influxdb
    Releases.questdb Releases.redshift
checked_parser-IsChecked arangodb = trimmed_only-IsChecked _
checked_parser-IsChecked couchbase = trimmed_only-IsChecked _
checked_parser-IsChecked avatica = release_only-IsChecked _
checked_parser-IsChecked drill = release_only-IsChecked _
checked_parser-IsChecked druid = release_only-IsChecked _
checked_parser-IsChecked solr = solr-IsChecked
checked_parser-IsChecked elasticsearch = release_first-IsChecked _ _
checked_parser-IsChecked opensearch = release_first-IsChecked _ _
checked_parser-IsChecked snowflake = release_first-IsChecked _ _
checked_parser-IsChecked influxql = release_first-IsChecked _ _
checked_parser-IsChecked databricks = release_in_model-IsChecked _ _
checked_parser-IsChecked tablestore = release_in_model-IsChecked _ _
checked_parser-IsChecked databend = release_between-IsChecked _ _ _
checked_parser-IsChecked impala = release_between-IsChecked _ _ _
checked_parser-IsChecked influxdb = release_between-IsChecked _ _ _
checked_parser-IsChecked questdb = release_between-IsChecked _ _ _
checked_parser-IsChecked redshift = release_between-IsChecked _ _ _
checked_parser-IsChecked surrealdb = surrealdb-IsChecked
checked_parser-IsChecked neo4j = neo4j-IsChecked
checked_parser-IsChecked singlestore = singlestore-IsChecked
checked_parser-IsChecked tidb = tidb-IsChecked
checked_parser-IsChecked vitess = vitess-IsChecked
