-- ===== src/Tests/Versions.antt =====
-- version.go on concrete versions.
use dbmeta.Common.{◌≡◌, ◌↔◌, ◌⊎◌, refl, false, true, [], ◌∷◌, arith}
use dbmeta.Common.Text.{str, trim_space, text_eq}
use dbmeta.Common.Int.{pos, negsuc, neg_ℤ}
use dbmeta.Version.{
  Version, v_of, parse_version, compare, at_least, string, version_keys, set_version, no_versions,
}
use dbmeta.Version.Order.{compare-release_order, release_order, compare_anti, at_least_iff, IsAsNew}
use dbmeta.Version.Parse.{parse_version-IsValid, IsUint32}
use dbmeta.Version.RoundTrip.{parse_version-string}
use dbmeta.Common.{All}

parses_mariadb : (parse_version (str "11.4.2-MariaDB")).parts ≡ 11 ∷ 4 ∷ 2 ∷ []
unfolding parse_version
parses_mariadb = refl

parses_duckdb : (parse_version (str " v1.3.1 ")).parts ≡ 1 ∷ 3 ∷ 1 ∷ []
unfolding parse_version
parses_duckdb = refl

unknown_ydb : (parse_version (str "<unknown>")).unknown ≡ true
unfolding parse_version
unknown_ydb = refl

writes_suffix : string (parse_version (str "11.4.2-MariaDB")) ≡ str "11.4.2-MariaDB"
unfolding parse_version string
writes_suffix = refl

-- A component that is no uint32 ends the loop.
too_large : (parse_version (str "1.4294967296")).parts ≡ 1 ∷ []
unfolding parse_version
too_large = refl

compare_pads : compare (v_of (16 ∷ 2 ∷ [])) (v_of (16 ∷ 2 ∷ 0 ∷ [])) ≡ pos 0
unfolding compare v_of
compare_pads = refl

compare_older : compare (v_of (9 ∷ 6 ∷ [])) (v_of (10 ∷ [])) ≡ negsuc 0
unfolding compare v_of
compare_older = refl

keys_sorted :
    version_keys
      (set_version (set_version no_versions (str "protocol") (v_of [])) (str "cql") (v_of []))
    ≡ str "cql" ∷ str "protocol" ∷ []
unfolding version_keys set_version text_eq
keys_sorted = refl

abbrev v16 : Version
v16 = record { raw = []; parts = 16 ∷ 2 ∷ []; suffix = []; unknown = false }

abbrev v16_0 : Version
v16_0 = record { raw = []; parts = 16 ∷ 2 ∷ 0 ∷ []; suffix = []; unknown = false }

abbrev v17 : Version
v17 = record { raw = []; parts = 17 ∷ []; suffix = []; unknown = false }

compare-release_order_example : compare v16 v17 ≡ release_order v16 v17
compare-release_order_example = compare-release_order v16 v17

compare_anti_example : compare v17 v16 ≡ neg_ℤ (compare v16 v17)
compare_anti_example = compare_anti v16 v17

parse_version-IsValid_example :
    ((parse_version (str "8.0.36")).raw ≡ str "8.0.36")
    × All IsUint32 (parse_version (str "8.0.36")).parts
    × (((parse_version (str "8.0.36")).unknown ≡ true)
        ↔ ((parse_version (str "8.0.36")).parts ≡ []))
parse_version-IsValid_example = parse_version-IsValid (str "8.0.36")

abbrev maria : Version
maria = record { raw = []; parts = 11 ∷ 4 ∷ []; suffix = str "MariaDB"; unknown = false }

parse_version-string_example : parse_version (string maria) ≡ record maria { raw = string maria }
parse_version-string_example =
    parse_version-string [] 11 (4 ∷ []) (str "MariaDB") (omega arith)
      (refl, (b'B', str "MariaD", refl, unfold trim_space in refl))

at_least_iff_example :
    (at_least v17 v16_0 ≡ true)
    ↔ ((v17.unknown ≡ true) ⊎ ((v16_0.unknown ≡ false) × IsAsNew v17.parts v16_0.parts))
at_least_iff_example = at_least_iff v17 v16_0
