-- ===== src/Version/Num.antt =====
-- `ParseVersionNum` of version.go: the integers that PostgreSQL reports.
use dbmeta.Common.{
  ℕ, ◌+◌, ◌*◌, ◌/◌, ◌%◌, ◌^◌, ◌≤◌, ◌<◌, ◌≡◌, true, List, [], ◌∷◌, arith, ltb, if◌then◌else◌,
}
use dbmeta.Common.Int.{pos, neg_part}
use dbmeta.Version.{parse_version_num, v_of, at_least}
use dbmeta.Version.Order.{padded, compare-release_order}

-- A release since 10 is packed as major * 10000 + minor, with a minor below 10000 and a major below
-- 2 ^ 32, and both numbers come back; a release before 10 is packed as major * 10000 + minor * 100 +
-- patch, with minor and patch below 100, and all three come back.
pub parse_version_num-packed :
    (major minor patch : ℕ)
    → minor < 10000
    → patch < 100
    → (10 ≤ major
        → major < 2 ^ 32
        → parse_version_num (pos (major * 10000 + minor)) ≡ v_of (major ∷ minor ∷ []))
      × (major < 10
          → minor < 100
          → parse_version_num (pos (major * 10000 + (minor * 100 + patch)))
            ≡ v_of (major ∷ minor ∷ patch ∷ []))
unfolding parse_version_num
parse_version_num-packed major minor patch hm hp = (λ h k. ground arith, λ h k. ground arith)

abbrev digits_before_10 : ℕ → List ℕ
digits_before_10 n = n / 10000 ∷ (n % 10000 / 100) ∷ (n % 100) ∷ []

abbrev digits_since_10 : ℕ → List ℕ
digits_since_10 n = n / 10000 ∷ (n % 10000) ∷ []

-- What the encoding packs, with the conversions to uint32 gone.
num_parts :
    (n : ℕ)
    → n < 2 ^ 32 * 10000
    → parse_version_num (pos n)
      ≡ v_of (if ltb n 100000 then digits_before_10 n else digits_since_10 n)
unfolding parse_version_num
num_parts n h = ground arith

both_before : (m n : ℕ) → m ≤ n → neg_part (padded (digits_before_10 n) (digits_before_10 m)) ≡ 0
unfolding padded
both_before m n h = ground arith

across :
    (m n : ℕ)
    → m < 100000
    → 100000 ≤ n
    → neg_part (padded (digits_since_10 n) (digits_before_10 m)) ≡ 0
unfolding padded
across m n h k = ground arith

both_since : (m n : ℕ) → m ≤ n → neg_part (padded (digits_since_10 n) (digits_since_10 m)) ≡ 0
unfolding padded
both_since m n h = ground arith

-- Of two numbers that are not negative and below 2 ^ 32 * 10000, the greater one is never an older
-- version, also across the change of the encoding at 100000.
pub parse_version_num_mono :
    (m n : ℕ)
    → m ≤ n
    → n < 2 ^ 32 * 10000
    → at_least (parse_version_num (pos n)) (parse_version_num (pos m)) ≡ true
unfolding at_least v_of
parse_version_num_mono m n h k =
    rw
      (
        num_parts n k,
        num_parts m (omega arith),
        compare-release_order
            (v_of (if ltb n 100000 then digits_before_10 n else digits_since_10 n))
            (v_of (if ltb m 100000 then digits_before_10 m else digits_since_10 m)),
      )
      (ground (arith, both_before m n, across m n, both_since m n))
