-- ===== src/Version/Order.antt =====
-- `Version.Compare` and `Version.AtLeast` of version.go.
use dbmeta.Common.{
  ℕ, zero, suc, ◌≤◌, max, ◌<◌, ◌≡◌, refl, sym, ap, ◌∙◌, ◌↔◌, ◌⊎◌, inl, inr, Bool-cases, true, false,
  List, [], ◌∷◌, length, arith, ◌==◌, if◌then◌else◌,
}
use dbmeta.Common.Int.{ℤ, pos, negsuc, neg_part, sub_ℕ, neg_ℤ}
use dbmeta.Version.{Version, part, compare_parts, compare, at_least}

-- The comparison with the shorter list padded by zeros, by recursion on both lists.
unfoldable pub padded : List ℕ → List ℕ → ℤ
padded [] [] = pos 0
padded [] (b ∷ w) = if b == 0 then padded [] w else sub_ℕ 0 b
padded (a ∷ v) [] = if a == 0 then padded v [] else sub_ℕ a 0
padded (a ∷ v) (b ∷ w) = if a == b then padded v w else sub_ℕ a b

abbrev rest_of : List ℕ → List ℕ
rest_of [] = []
rest_of (_ ∷ v) = v

compare_parts_shift :
    (n i : ℕ) (v w : List ℕ)
    → compare_parts n (suc i) v w ≡ compare_parts n i (rest_of v) (rest_of w)
unfolding compare_parts
compare_parts_shift zero i v w = refl
compare_parts_shift (suc n) i [] [] = ground (arith, compare_parts_shift n (suc i) [] [])
compare_parts_shift (suc n) i [] (b ∷ w) = ground (arith, compare_parts_shift n (suc i) [] (b ∷ w))
compare_parts_shift (suc n) i (a ∷ v) [] = ground (arith, compare_parts_shift n (suc i) (a ∷ v) [])
compare_parts_shift (suc n) i (a ∷ v) (b ∷ w) =
    ground (arith, compare_parts_shift n (suc i) (a ∷ v) (b ∷ w))

-- With a round for each component the loop is the comparison by recursion.
compare_parts-padded :
    (n : ℕ) (v w : List ℕ) → length v ≤ n → length w ≤ n → compare_parts n 0 v w ≡ padded v w
unfolding compare_parts padded
compare_parts-padded zero [] [] _ _ = refl
compare_parts-padded zero (_ ∷ _) w h _ = absurd (omega arith)
compare_parts-padded zero v (_ ∷ _) _ h = absurd (omega arith)
compare_parts-padded (suc n) [] [] h k =
    ground (arith, compare_parts_shift n 0 [] [], compare_parts-padded n [] [])
compare_parts-padded (suc n) [] (b ∷ w) h k =
    ground (arith, compare_parts_shift n 0 [] (b ∷ w), compare_parts-padded n [] w)
compare_parts-padded (suc n) (a ∷ v) [] h k =
    ground (arith, compare_parts_shift n 0 (a ∷ v) [], compare_parts-padded n v [])
compare_parts-padded (suc n) (a ∷ v) (b ∷ w) h k =
    ground (arith, compare_parts_shift n 0 (a ∷ v) (b ∷ w), compare_parts-padded n v w)

-- The order by recursion, with an unknown version above every known one.
abbrev pub release_order : Version → Version → ℤ
release_order v w =
    if v.unknown
    then (if w.unknown then pos 0 else pos 1)
    else (if w.unknown then negsuc 0 else padded v.parts w.parts)

-- `Compare` is the comparison of the two component lists by recursion, the shorter one padded by
-- zeros, with an unknown version equal to itself and above every known one.
pub compare-release_order : (v w : Version) → compare v w ≡ release_order v w
unfolding compare
compare-release_order v w = ground (
  arith,
  compare_parts-padded (max (length v.parts) (length w.parts)) v.parts w.parts (omega arith)
      (omega arith),
)

padded_anti : (v w : List ℕ) → padded w v ≡ neg_ℤ (padded v w)
unfolding padded
padded_anti [] [] = ground arith
padded_anti [] (b ∷ w) = ground (arith, padded_anti [] w)
padded_anti (a ∷ v) [] = ground (arith, padded_anti v [])
padded_anti (a ∷ v) (b ∷ w) = ground (arith, padded_anti v w)

-- Swapping the two versions negates the result of `Compare`.
pub compare_anti : (v w : Version) → compare w v ≡ neg_ℤ (compare v w)
compare_anti v w =
    ground
      (arith, compare-release_order v w, compare-release_order w v, padded_anti v.parts w.parts)

same-padded : (v w : List ℕ) → ((i : ℕ) → part v i ≡ part w i) → padded v w ≡ pos 0
unfolding padded
same-padded [] [] h = refl
same-padded [] (b ∷ w) h = ground (arith, h 0, same-padded [] w (λ i. h (suc i)))
same-padded (a ∷ v) [] h = ground (arith, h 0, same-padded v [] (λ i. h (suc i)))
same-padded (a ∷ v) (b ∷ w) h = ground (arith, h 0, same-padded v w (λ i. h (suc i)))

padded_trans :
    (u v w : List ℕ)
    → neg_part (padded u v) ≡ 0
    → neg_part (padded v w) ≡ 0
    → neg_part (padded u w) ≡ 0
unfolding padded
padded_trans [] [] [] h k = refl
padded_trans [] [] (c ∷ w) h k = k
padded_trans [] (b ∷ v) [] h k = refl
padded_trans [] (b ∷ v) (c ∷ w) h k = ground (arith, padded_trans [] v w)
padded_trans (a ∷ u) [] [] h k = h
padded_trans (a ∷ u) [] (c ∷ w) h k = ground (arith, padded_trans u [] w)
padded_trans (a ∷ u) (b ∷ v) [] h k = ground (arith, padded_trans u v [])
padded_trans (a ∷ u) (b ∷ v) (c ∷ w) h k = ground (arith, padded_trans u v w)

-- `AtLeast` is transitive, unknown versions included.
pub at_least_trans :
    (u v w : Version) → at_least u v ≡ true → at_least v w ≡ true → at_least u w ≡ true
unfolding at_least
at_least_trans u v w h k = ground (
  arith,
  compare-release_order u v,
  compare-release_order v w,
  compare-release_order u w,
  padded_trans u.parts v.parts w.parts,
)

-- Of two versions one is at least the other, and both are exactly when `Compare` gives zero.
pub at_least_total :
    (v w : Version)
    → ((at_least v w ≡ true) ⊎ (at_least w v ≡ true))
      × (((at_least v w ≡ true) × (at_least w v ≡ true)) ↔ (compare v w ≡ pos 0))
unfolding at_least
at_least_total v w = (
  ground (arith, compare_anti v w),
  (λ h. ground (arith, compare_anti v w), λ h. ground (arith, compare_anti v w)),
)

-- The first component in which two lists differ is greater in the first list, or there is none; a
-- component that is missing is zero.
pub data IsAsNew (v w : List ℕ) : Type 0 where
  same : ((i : ℕ) → part v i ≡ part w i) → IsAsNew v w
  newer : (i : ℕ) → ((j : ℕ) → j < i → part v j ≡ part w j) → part w i < part v i → IsAsNew v w

part_rest : (v : List ℕ) (i : ℕ) → part v (suc i) ≡ part (rest_of v) i
part_rest [] i = refl
part_rest (a ∷ v) i = refl

behind_same : (v w : List ℕ) → part v 0 ≡ part w 0 → IsAsNew (rest_of v) (rest_of w) → IsAsNew v w
behind_same v w e (same h) = same all
  where
    all : (i : ℕ) → part v i ≡ part w i
    all zero = e
    all (suc i) = part_rest v i ∙ h i ∙ sym (part_rest w i)
behind_same v w e (newer i agree more) =
    newer (suc i) all (ground (arith, part_rest v i, part_rest w i))
  where
    all : (j : ℕ) → j < suc i → part v j ≡ part w j
    all zero l = e
    all (suc j) l = part_rest v j ∙ agree j (omega (arith, l)) ∙ sym (part_rest w j)

padded-IsAsNew : (v w : List ℕ) → neg_part (padded v w) ≡ 0 → IsAsNew v w
unfolding padded
padded-IsAsNew [] [] h = same λ i. refl
padded-IsAsNew [] (b ∷ w) h = elim (Bool-cases (b == 0)) [
  | inl e ↦ behind_same [] (b ∷ w) (ground arith) (padded-IsAsNew [] w (ground arith))
  | inr e ↦ absurd (ground arith)
]
padded-IsAsNew (a ∷ v) [] h = elim (Bool-cases (a == 0)) [
  | inl e ↦ behind_same (a ∷ v) [] (ground arith) (padded-IsAsNew v [] (ground arith))
  | inr e ↦ newer 0 (λ j l. absurd (omega (arith, l))) (ground arith)
]
padded-IsAsNew (a ∷ v) (b ∷ w) h = elim (Bool-cases (a == b)) [
  | inl e ↦ behind_same (a ∷ v) (b ∷ w) (ground arith) (padded-IsAsNew v w (ground arith))
  | inr e ↦ newer 0 (λ j l. absurd (omega (arith, l))) (ground arith)
]

newer-padded :
    (i : ℕ) (v w : List ℕ)
    → ((j : ℕ) → j < i → part v j ≡ part w j)
    → part w i < part v i
    → neg_part (padded v w) ≡ 0
unfolding padded
newer-padded i [] [] agree more = refl
newer-padded zero [] (b ∷ w) agree more = absurd (omega (arith, more))
newer-padded zero (a ∷ v) [] agree more = ground arith
newer-padded zero (a ∷ v) (b ∷ w) agree more = ground arith
newer-padded (suc i) [] (b ∷ w) agree more = absurd (omega (arith, more))
newer-padded (suc i) (a ∷ v) [] agree more = ground (
  arith,
  agree 0 (omega arith),
  newer-padded i v [] (λ j l. agree (suc j) (omega (arith, l))) more,
)
newer-padded (suc i) (a ∷ v) (b ∷ w) agree more = ground (
  arith,
  agree 0 (omega arith),
  newer-padded i v w (λ j l. agree (suc j) (omega (arith, l))) more,
)

IsAsNew-padded : (v w : List ℕ) → IsAsNew v w → neg_part (padded v w) ≡ 0
IsAsNew-padded v w (same h) = ap neg_part (same-padded v w h)
IsAsNew-padded v w (newer i agree more) = newer-padded i v w agree more

-- `AtLeast` is true exactly when the version is unknown, or the other is known and either all
-- their components are the same or the first component in which they differ is greater in the version
-- than in the other. A component that is missing counts as zero.
pub at_least_iff :
    (v w : Version)
    → (at_least v w ≡ true) ↔ ((v.unknown ≡ true) ⊎ ((w.unknown ≡ false) × IsAsNew v.parts w.parts))
unfolding at_least
at_least_iff v w = (to, from)
  where
    to : at_least v w ≡ true → (v.unknown ≡ true) ⊎ ((w.unknown ≡ false) × IsAsNew v.parts w.parts)
    to h = elim (Bool-cases v.unknown) [
      | inl e ↦ inl e
      | inr e ↦ inr (
        ground (arith, compare-release_order v w),
        padded-IsAsNew v.parts w.parts (ground (arith, compare-release_order v w)),
      )
    ]

    from :
        (v.unknown ≡ true) ⊎ ((w.unknown ≡ false) × IsAsNew v.parts w.parts) → at_least v w ≡ true
    from (inl e) = ground (arith, compare-release_order v w)
    from (inr (k, n)) = ground (arith, compare-release_order v w, IsAsNew-padded v.parts w.parts n)
