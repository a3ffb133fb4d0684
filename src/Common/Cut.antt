-- ===== src/Common/Cut.antt =====
-- The functions of the package strings that cut a text at a separator of one code point or more.
use Prim.Native.Nat.{ℕ}
use mathlib.Core.Bool.{Bool, true, false}
use mathlib.Core.Option.{Option, none, some}
use mathlib.Core.List.{[], ◌∷◌, reverse}
use dbmeta.Common.Text.{Text, cut_prefix}

abbrev pub add_before : ℕ → Option (Text × Text) → Option (Text × Text)
add_before c none = none
add_before c (some (before, after)) = some (c ∷ before, after)

-- strings.Cut; none when the separator is not there
unfoldable pub cut : Text → Text → Option (Text × Text)
unfolding cut_prefix
cut [] sep = none
cut (c ∷ s) sep = elim (cut_prefix (c ∷ s) sep) [
  | some after ↦ some ([], after)
  | none ↦ add_before c (cut s sep)
]

-- strings.CutLast and strings.LastIndex
unfoldable pub cut_last : Text → Text → Option (Text × Text)
unfolding cut_prefix
cut_last [] sep = none
cut_last (c ∷ s) sep =
    let here : Option (Text × Text) = elim (cut_prefix (c ∷ s) sep) [
      | none ↦ none
      | some after ↦ some ([], after)
    ] in
    elim (cut_last s sep) [ some (before, after) ↦ some (c ∷ before, after) | none ↦ here ]

-- The first result of strings.Cut
unfoldable pub before : Text → Text → Text
unfolding cut
before s sep = elim (cut s sep) [ none ↦ s | some (found, _) ↦ found ]

-- strings.Contains
unfoldable pub contains_text : Text → Text → Bool
unfolding cut
contains_text s sep = elim (cut s sep) [ none ↦ false | some _ ↦ true ]

-- strings.CutSuffix
unfoldable pub cut_suffix : Text → Text → Option Text
unfolding cut_prefix
cut_suffix s end = elim (cut_prefix (reverse s) (reverse end)) [
  | none ↦ none
  | some rest ↦ some (reverse rest)
]
