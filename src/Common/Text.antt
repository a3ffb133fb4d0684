-- ===== src/Common/Text.antt =====
-- A Go string, as the list of its code points. The program tests and cuts strings at ASCII bytes
-- only, and no ASCII byte stands inside a longer UTF-8 sequence; where it counts bytes, the model
-- counts them with `byte_length`. The functions here are those of the package strings that the
-- program calls.
use Prim.Native.Nat.{ℕ, zero, suc, ◌+◌, ◌-◌}
use Prim.Native.Char.{code}
use Prim.Native.String.{String}
use mathlib.Core.Path.{◌≡◌, refl}
use mathlib.Core.Logic.{◌↔◌}
use mathlib.Core.Bool.{Bool, true, false, ◌&&◌, ◌||◌}
use mathlib.Core.Option.{Option, none, some}
use mathlib.Core.List.{List, [], ◌∷◌, ◌++◌, reverse}
use native.Mathlib.Omega.{arith}
use dbmeta.Common.Lists.{length}
use dbmeta.Common.Tests.{ltb, leb, ◌==◌, if◌then◌else◌}

abbrev pub Text : Type 0
Text = List ℕ

-- A literal of the source.
abbrev pub str : String → Text
str String.[] = []
str (String.◌∷◌ c s) = code c ∷ str s

unfoldable pub text_eq : Text → Text → Bool
text_eq [] [] = true
text_eq [] (_ ∷ _) = false
text_eq (_ ∷ _) [] = false
text_eq (a ∷ s) (b ∷ t) = a == b && text_eq s t

pub text_eq_refl : (s : Text) → text_eq s s ≡ true
unfolding text_eq
text_eq_refl [] = refl
text_eq_refl (a ∷ s) = ground (arith, text_eq_refl s)

text_eq_sound : (s t : Text) → text_eq s t ≡ true → s ≡ t
unfolding text_eq
text_eq_sound [] [] h = refl
text_eq_sound [] (_ ∷ _) h = cc
text_eq_sound (_ ∷ _) [] h = cc
text_eq_sound (a ∷ s) (b ∷ t) h = ground (arith, text_eq_sound s t)

pub text_eq_iff : (s t : Text) → (text_eq s t ≡ true) ↔ (s ≡ t)
text_eq_iff s t = (text_eq_sound s t, λ e. ground (arith, text_eq_refl s))

-- strings.HasPrefix
unfoldable pub has_prefix : Text → Text → Bool
has_prefix s [] = true
has_prefix [] (_ ∷ _) = false
has_prefix (a ∷ s) (b ∷ t) = a == b && has_prefix s t

-- strings.CutPrefix, and strings.TrimPrefix by it
unfoldable pub cut_prefix : Text → Text → Option Text
cut_prefix s [] = some s
cut_prefix [] (_ ∷ _) = none
cut_prefix (a ∷ s) (b ∷ t) = if a == b then cut_prefix s t else none

unfoldable pub trim_prefix : Text → Text → Text
unfolding cut_prefix
trim_prefix s p = elim (cut_prefix s p) [ none ↦ s | some t ↦ t ]

-- strings.Join
unfoldable pub join : Text → List Text → Text
join sep [] = []
join sep (s ∷ []) = s
join sep (s ∷ t ∷ rest) = s ++ (sep ++ join sep (t ∷ rest))

-- strings.TrimLeft with a set of bytes, given as a test
unfoldable pub trim_left : (ℕ → Bool) → Text → Text
trim_left p [] = []
trim_left p (c ∷ s) = if p c then trim_left p s else c ∷ s

-- strings.TrimRight
unfoldable pub trim_right : (ℕ → Bool) → Text → Text
unfolding trim_left
trim_right p s = reverse (trim_left p (reverse s))

-- unicode.IsSpace
unfoldable pub is_space : ℕ → Bool
is_space c =
    (leb 9 c && leb c 13)
    || c == 32
    || c == 0x85
    || c == 0xA0
    || c == 0x1680
    || (leb 0x2000 c && leb c 0x200A)
    || c == 0x2028
    || c == 0x2029
    || c == 0x202F
    || c == 0x205F
    || c == 0x3000

-- strings.TrimSpace
unfoldable pub trim_space : Text → Text
unfolding trim_left trim_right is_space
trim_space s = trim_right is_space (trim_left is_space s)

-- strings.ReplaceAll of one code point by a text
unfoldable pub replace_all : Text → ℕ → Text → Text
replace_all [] c t = []
replace_all (x ∷ s) c t = if x == c then t ++ replace_all s c t else x ∷ replace_all s c t

-- strings.ReplaceAll of a text that is not empty by another. The number is that of the code points that
-- are left of an occurrence.
unfoldable pub replace_from : ℕ → Text → Text → Text → Text
replace_from n [] old new = []
replace_from (suc n) (x ∷ s) old new = replace_from n s old new
replace_from zero (x ∷ s) old new =
    let found = new ++ replace_from (length old - 1) s old new in
    let kept = x ∷ replace_from 0 s old new in if has_prefix (x ∷ s) old then found else kept

unfoldable pub replace_text : Text → Text → Text → Text
unfolding replace_from
replace_text s old new = replace_from 0 s old new

-- strings.ContainsRune
unfoldable pub contains_rune : Text → ℕ → Bool
contains_rune [] c = false
contains_rune (x ∷ s) c = x == c || contains_rune s c

-- slices.Contains over strings, and membership in a `map[string]bool` that lists its true keys
unfoldable pub contains : List Text → Text → Bool
contains [] w = false
contains (x ∷ xs) w = text_eq x w || contains xs w

-- The bytes that UTF-8 takes for a code point, and for a text: `len` of a Go string.
unfoldable pub rune_len : ℕ → ℕ
rune_len c = if ltb c 0x80 then 1 else if ltb c 0x800 then 2 else if ltb c 0x10000 then 3 else 4

unfoldable pub byte_length : Text → ℕ
unfolding rune_len
byte_length [] = 0
byte_length (c ∷ s) = rune_len c + byte_length s

-- A decimal digit of ASCII.
abbrev pub is_ascii_digit : ℕ → Bool
is_ascii_digit c = leb b'0' c && leb c b'9'
