-- ===== src/Common/Contains.antt =====
-- Laws of strings.Contains and strings.ReplaceAll on the texts of Text.antt.
use Prim.Native.Nat.{ℕ, zero, suc, ◌-◌}
use mathlib.Core.Path.{◌≡◌, refl, ◌∙◌}
use mathlib.Core.Bool.{Bool, true, false, ◌||◌}
use mathlib.Core.Option.{Option, none, some}
use mathlib.Core.List.{[], ◌∷◌, ◌++◌}
use native.Mathlib.Omega.{arith}
use dbmeta.Common.Tests.{Bool-cases}
use mathlib.Core.Logic.{inl, inr}
use dbmeta.Common.Lists.{length}
use dbmeta.Common.Text.{Text, str, has_prefix, cut_prefix, replace_from, contains_rune}
use dbmeta.Common.Cut.{cut, contains_text}

abbrev is_found : {A : Type 0} → Option A → Bool
is_found none = false
is_found (some _) = true

found_prefix : (s p : Text) → is_found (cut_prefix s p) ≡ has_prefix s p
unfolding cut_prefix has_prefix
found_prefix s [] = refl
found_prefix [] (_ ∷ _) = refl
found_prefix (a ∷ s) (b ∷ p) = ground (arith, found_prefix s p)

-- strings.Contains looks at each place of the text.
pub contains_text-cons :
    (c : ℕ) (s p : Text) → contains_text (c ∷ s) p ≡ (has_prefix (c ∷ s) p || contains_text s p)
unfolding contains_text cut
contains_text-cons c s p = ground (arith, found_prefix (c ∷ s) p)

prefix_append : (p s : Text) → has_prefix (p ++ s) p ≡ true
unfolding has_prefix
prefix_append [] s = refl
prefix_append (a ∷ p) s = ground (arith, prefix_append p s)

-- A text contains each text that stands in it.
pub contains_text-between :
    (a : Text) (c : ℕ) (p b : Text) → contains_text (a ++ ((c ∷ p) ++ b)) (c ∷ p) ≡ true
contains_text-between [] c p b =
    contains_text-cons c (p ++ b) (c ∷ p) ∙ ground (arith, prefix_append (c ∷ p) b)
contains_text-between (x ∷ a) c p b =
    contains_text-cons x (a ++ ((c ∷ p) ++ b)) (c ∷ p)
    ∙ ground (arith, contains_text-between a c p b)

abbrev mask_byte : ℕ
mask_byte = b'x'

-- The text that stands for a secret.
abbrev mask : Text
mask = str "xxxxx"

-- What starts a text with its secrets masked, and has no x, starts the text too.
replace_from-prefix :
    (s p old : Text)
    → contains_rune p mask_byte ≡ false
    → has_prefix (replace_from zero s old mask) p ≡ true
    → has_prefix s p ≡ true
unfolding replace_from has_prefix contains_rune
replace_from-prefix s [] old no_x h = refl
replace_from-prefix [] (d ∷ p) old no_x h = cc
replace_from-prefix (c ∷ s) (d ∷ p) old no_x h = ground (arith, replace_from-prefix s p old)

front_masked :
    (k : ℕ) (old r : Text)
    → contains_rune (k ∷ old) mask_byte ≡ false
    → contains_text r (k ∷ old) ≡ false
    → contains_text (mask_byte ∷ r) (k ∷ old) ≡ false
unfolding has_prefix contains_rune
front_masked k old r no_x h = contains_text-cons mask_byte r (k ∷ old) ∙ ground arith

none_inside : (k : ℕ) (old : Text) → contains_text [] (k ∷ old) ≡ false
unfolding contains_text cut
none_inside k old = refl

-- The same, at a place where no secret starts.
kept_place :
    (c k : ℕ) (s old : Text)
    → contains_rune (k ∷ old) mask_byte ≡ false
    → has_prefix (c ∷ s) (k ∷ old) ≡ false
    → contains_text (replace_from zero s (k ∷ old) mask) (k ∷ old) ≡ false
    → contains_text (c ∷ replace_from zero s (k ∷ old) mask) (k ∷ old) ≡ false
unfolding has_prefix contains_rune
kept_place c k s old no_x h rest =
    contains_text-cons c (replace_from zero s (k ∷ old) mask) (k ∷ old)
    ∙ ground (arith, replace_from-prefix s old (k ∷ old))

-- A text with every occurrence of a secret masked does not contain it, when the secret has no x.
pub replace_from-masked :
    (n : ℕ) (s : Text) (k : ℕ) (old : Text)
    → contains_rune (k ∷ old) mask_byte ≡ false
    → contains_text (replace_from n s (k ∷ old) mask) (k ∷ old) ≡ false
unfolding replace_from
replace_from-masked n [] k old no_x = none_inside k old
replace_from-masked (suc n) (c ∷ s) k old no_x = replace_from-masked n s k old no_x
replace_from-masked zero (c ∷ s) k old no_x = elim (Bool-cases (has_prefix (c ∷ s) (k ∷ old))) [
  | inl e ↦
      let front = front_masked k old in
      let behind = replace_from-masked (length (k ∷ old) - 1) s k old no_x in
      rw e (front _ no_x (front _ no_x (front _ no_x (front _ no_x (front _ no_x behind)))))
  | inr e ↦ rw e (kept_place c k s old no_x e (replace_from-masked zero s k old no_x))
]
