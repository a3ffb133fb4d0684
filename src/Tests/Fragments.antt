-- ===== src/Tests/Fragments.antt =====
-- Gates, choices and statements of query.go on concrete versions.
use dbmeta.Common.{
  ◌≡◌, refl, ok, err, not_supported, version_too_old, ambiguous_fragment, List, [], ◌∷◌, In,
}
use dbmeta.Common.Text.{Text, str, text_eq}
use dbmeta.Version
use dbmeta.Version.{at_least, Version, VersionSet, v_of, no_versions, set_version}
use dbmeta.Fragment.{Fragment, resolve, build, no_version}
use dbmeta.Fragment.Resolve.{resolve-Outcome}
use dbmeta.Fragment.Rules.{Outcome}
use dbmeta.Fragment.Build.{Built, build-Built}

abbrev plain_one : Fragment
plain_one = record { min = no_version; key = []; query = str "SELECT 1" }

abbrev newer_one : Fragment
newer_one = record { min = v_of (12 ∷ []); key = []; query = str "SELECT 2" }

abbrev maria_one : Fragment
maria_one = record { min = v_of (10 ∷ 3 ∷ []); key = str "mariadb"; query = str "SELECT 3" }

abbrev mysql_one : Fragment
mysql_one = record { min = v_of (8 ∷ []); key = str "mysql"; query = str "SELECT 4" }

abbrev server : List (Text × Version) → VersionSet
server versions = record { versions = versions; display = [] }

abbrev pg_11 : VersionSet
pg_11 = server (([], v_of (11 ∷ [])) ∷ [])

abbrev maria_11 : VersionSet
maria_11 = server (([], v_of (11 ∷ [])) ∷ (str "mariadb", v_of (11 ∷ [])) ∷ [])

below_the_min : resolve (plain_one ∷ newer_one ∷ []) pg_11 ≡ ok (str "SELECT 1")
unfolding resolve v_of at_least Version.get Version.has text_eq
below_the_min = refl

newest_wins : resolve (plain_one ∷ newer_one ∷ []) no_versions ≡ ok (str "SELECT 2")
unfolding resolve v_of at_least Version.get Version.has text_eq
newest_wins = refl

product_wins : resolve (maria_one ∷ plain_one ∷ []) maria_11 ≡ ok (str "SELECT 3")
unfolding resolve v_of at_least Version.get Version.has text_eq
product_wins = refl

wrong_product : resolve (maria_one ∷ mysql_one ∷ []) pg_11 ≡ err not_supported
unfolding resolve v_of at_least Version.get Version.has text_eq
wrong_product = refl

too_old : resolve (newer_one ∷ []) pg_11 ≡ err version_too_old
unfolding resolve v_of at_least Version.get Version.has text_eq
too_old = refl

two_keys :
    resolve
      (maria_one ∷ mysql_one ∷ [])
      (server ((str "mariadb", v_of (11 ∷ [])) ∷ (str "mysql", v_of (9 ∷ [])) ∷ []))
    ≡ err ambiguous_fragment
unfolding resolve v_of at_least Version.get Version.has text_eq
two_keys = refl

joins_pieces :
    build
      ((plain_one ∷ []) ∷ (record plain_one { query = str " \t" } ∷ []) ∷ (plain_one ∷ []) ∷ [])
      pg_11
    ≡ ok (str "SELECT 1\nSELECT 1")
unfolding build v_of at_least Version.get Version.has text_eq
joins_pieces = refl

resolve-Outcome_example :
    Outcome maria_11
      (λ f. In f (maria_one ∷ plain_one ∷ []))
      (maria_one ∷ plain_one ∷ [])
      (resolve (maria_one ∷ plain_one ∷ []) maria_11)
resolve-Outcome_example = resolve-Outcome (maria_one ∷ plain_one ∷ []) maria_11

build-Built_example : Built pg_11 ((plain_one ∷ []) ∷ []) (build ((plain_one ∷ []) ∷ []) pg_11)
build-Built_example = build-Built ((plain_one ∷ []) ∷ []) pg_11
