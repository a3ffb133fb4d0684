-- ===== src/Tests/FollowUps.antt =====
-- A ScyllaDB server, read with two statements.
use dbmeta.Common.{
  ◌≡◌, refl, ℕ, true, Option, none, some, List, [], ◌∷◌, inr, if◌then◌else◌, Result, ok,
}
use dbmeta.Common.Text.{Text, str, text_eq}
use dbmeta.Version
use dbmeta.Version.{VersionSet}
use dbmeta.Dialect
use dbmeta.Dialect.{Database, Infos, version}
use dbmeta.Models.Banners
use dbmeta.Models.Banners.{SystemRow}
use dbmeta.Models.FollowUp
use dbmeta.Models.FollowUp.{cassandra_info, local_query, Reads, version-Reads}

abbrev system_row : Text → Option SystemRow
system_row col =
    some
      (record { release = str "3.0.8"; cql = str "3.3.1"; protocol = str "4"; has_features = true })

abbrev scylla_server : Database Text
scylla_server = record {
  query = λ stmt _. inr (record {
    rows = (if text_eq stmt local_query then str "{}" else str "2026.3.1") ∷ [];
    err_after = λ _. none;
    close_err = none;
  });
  scan_text = λ row n. inr (some row ∷ []);
  ctx_err = none;
}

abbrev infos : Infos
infos = (str "cassandra", cassandra_info system_row) ∷ []

abbrev releases : Result VersionSet → List (List ℕ)
releases (ok s) =
    (Version.get s []).parts
    ∷ (Version.get s (str "cql")).parts
    ∷ (Version.get s (str "scylla")).parts
    ∷ []
releases _ = []

version_test :
    releases (version scylla_server infos (str "cassandra"))
    ≡ (3 ∷ 0 ∷ 8 ∷ []) ∷ (3 ∷ 3 ∷ 1 ∷ []) ∷ (2026 ∷ 3 ∷ 1 ∷ []) ∷ []
unfolding version Dialect.version_query Dialect.info_of text_eq Dialect.read_row
    Dialect.parse_version Banners.cassandra Banners.cassandra_row Dialect.follow_up_query
    FollowUp.cassandra_follow_up Version.set_version Dialect.parse_follow_up
    FollowUp.cassandra_release Version.get
version_test = refl

version-Reads_example :
    Reads scylla_server (str "cassandra") system_row (version scylla_server infos (str "cassandra"))
unfolding text_eq
version-Reads_example =
    version-Reads scylla_server infos (str "cassandra") system_row (unfold Dialect.info_of in refl)
