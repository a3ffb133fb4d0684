-- ===== src/Models/Products.antt =====
-- The product keys that the parsers of mysql.go and of the products that share its model record, and
-- the test of the version in rqlite.go and libsql.go.
use dbmeta.Common.{
  ℕ, ◌≡◌, refl, ap, ◌∙◌, inr, Bool, true, false, not, Option, none, some, List, [], ◌∷◌, ◌++◌,
  arith,
}
use dbmeta.Common.Text.{Text, str, text_eq, trim_space}
use dbmeta.Common.Assoc
use dbmeta.Version
use dbmeta.Version.{
  Version, VersionSet, set_version, parse_version, parse_loop, finish_version, is_zero, has,
  unknown_version,
}
use dbmeta.Fragment.{met}
use dbmeta.Models.Releases.{one_version, with_raw}
use dbmeta.Models.Claims.{
  mysql, is_mariadb, is_maria, product_key, two_versions, rqlite, libsql, product_name,
}

finish-not_zero : (s : Text) (r : Option (List ℕ × Text)) → is_zero (finish_version s r) ≡ false
unfolding finish_version is_zero
finish-not_zero s none = refl
finish-not_zero s (some ([], rest)) = ground arith
finish-not_zero s (some (n ∷ parts, rest)) = refl

-- `ParseVersion` never gives the zero Version: without a component it is marked unknown.
parse_version-not_zero : (s : Text) → is_zero (parse_version s) ≡ false
unfolding parse_version
parse_version-not_zero s = finish-not_zero s _

-- Both parsers take every text, and record a version without components for one that is no version.
rqlite-accepts :
    (col : Text) (more : List Text)
    → (rqlite (col ∷ more)
        ≡ inr (
            one_version
              (with_raw (trim_space col))
              (str "rqlite, which runs SQLite " ++ trim_space col)))
      × (libsql (col ∷ more)
          ≡ inr (
              two_versions
                (str "libsql")
                (with_raw (trim_space col))
                unknown_version
                (str "libSQL, which runs SQLite " ++ trim_space col)))
unfolding rqlite libsql
rqlite-accepts col more = (
  rw (parse_version-not_zero (trim_space col)) refl,
  rw (parse_version-not_zero (trim_space col)) refl,
)

unknown-at_least : (v min : Version) → v.unknown ≡ true → Version.at_least v min ≡ true
unfolding Version.at_least Version.compare
unknown-at_least v min h = ground (arith, h)

main_gate :
    (set : VersionSet) (v min : Version)
    → Version.get set [] ≡ v
    → v.unknown ≡ true
    → met (record { min = min; key = [] }) set ≡ true
unfolding met
main_gate set v min e h = ap (λ u. Version.at_least u min) e ∙ unknown-at_least v min h

-- rqlite and libSQL do not refuse a text of the version query that starts with no release number:
-- they give a set all the same, under which every gate on the main version is met, whatever its
-- minimum.
pub rqlite-met :
    (col : Text) (more : List Text) (min : Version)
    → (parse_version (trim_space col)).unknown ≡ true
    → ((set : VersionSet) × (rqlite (col ∷ more) ≡ inr set)
        × (met (record { min = min; key = [] }) set ≡ true))
      × ((set : VersionSet) × (libsql (col ∷ more) ≡ inr set)
          × (met (record { min = min; key = [] }) set ≡ true))
unfolding Version.get set_version Assoc.get Assoc.put text_eq
rqlite-met col more min h = (
  (_, (rqlite-accepts col more).0, main_gate _ (with_raw (trim_space col)) min refl h),
  (_, (rqlite-accepts col more).1, main_gate _ (with_raw (trim_space col)) min refl h),
)

-- What `mysql` records for a server that is MariaDB or is not.
product_set : Bool → Version → Text → VersionSet
product_set maria v raw =
    two_versions (product_key maria) v v (product_name maria ++ (str " " ++ raw))

has-product :
    (maria : Bool) (v : Version) (raw : Text)
    → (has (product_set maria v raw) (product_key maria) ≡ true)
      × (has (product_set maria v raw) (product_key (not maria)) ≡ false)
      × (Version.get (product_set maria v raw) (product_key maria) ≡ v)
      × (Version.get (product_set maria v raw) [] ≡ v)
unfolding product_set has Version.get set_version Assoc.get Assoc.put Assoc.has text_eq
has-product true v raw = (refl, refl, refl, refl)
has-product false v raw = (refl, refl, refl, refl)

other_gate :
    (maria : Bool) (set : VersionSet) (min : Version)
    → has set (product_key (not maria)) ≡ false
    → met (record { min = min; key = product_key (not maria) }) set ≡ false
unfolding met
other_gate true set min h = rw h refl
other_gate false set min h = rw h refl

-- The set of a server with the version `v` that is MariaDB or is not.
pub record HasProduct (maria : Bool) (v : Version) (set : VersionSet) : Type 0 where
  pub product : is_mariadb set ≡ maria
  pub own_key : has set (product_key maria) ≡ true
  pub own_version : Version.get set (product_key maria) ≡ v
  pub main_version : Version.get set [] ≡ v
  pub other_gates :
      (min : Version) → met (record { min = min; key = product_key (not maria) }) set ≡ false

is_mariadb-product_set :
    (maria : Bool) (v : Version) (raw : Text) → is_mariadb (product_set maria v raw) ≡ maria
unfolding is_mariadb
is_mariadb-product_set true v raw = (has-product true v raw).0
is_mariadb-product_set false v raw = (has-product false v raw).1

-- A MySQL or MariaDB server is recorded under the empty key and the key of its own product, with one
-- version, and not under the key of the other product: a gate on the other product is met at no release.
-- It is MariaDB exactly when the suffix of its version names MariaDB in any case.
pub mysql-HasProduct :
    (to_lower : ℕ → ℕ) (col : Text) (more : List Text)
    → (set : VersionSet) × (mysql to_lower (col ∷ more) ≡ inr set)
      × HasProduct (is_maria to_lower (with_raw (trim_space col))) (with_raw (trim_space col)) set
unfolding mysql product_set
mysql-HasProduct to_lower col more =
    let v = with_raw (trim_space col) in
    let maria = is_maria to_lower v in
    let facts = has-product maria v (trim_space col) in
    (
      product_set maria v (trim_space col),
      refl,
      record {
        product = is_mariadb-product_set maria v (trim_space col);
        own_key = facts.0;
        own_version = facts.2;
        main_version = facts.3;
        other_gates = λ min. other_gate maria (product_set maria v (trim_space col)) min facts.1;
      },
    )
