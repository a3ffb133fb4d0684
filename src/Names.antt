-- ===== src/Names.antt =====
-- align.go and binary.go: how a client shows a column, by the type name that a driver reports. The
-- case folding of Unicode (`unicode.ToUpper`, and the equality of strings.EqualFold) is a parameter.
pub mod Hex
use dbmeta.Common.{
  ℕ, ◌+◌, ◌-◌, ◌/◌, ◌%◌, Bool, true, false, ◌&&◌, Option, none, some, List, [], ◌∷◌, ◌++◌, map,
  length, take, drop, ltb, is_empty, ◌==◌, if◌then◌else◌,
}
use dbmeta.Common.Text.{Text, str, trim_space, contains}
use dbmeta.Value.{ColumnType}
use dbmeta.Info.{Info, Align, align_none, align_left, align_right}
use dbmeta.Dialect.{Dialect, Infos, info_of}

-- strings.Cut(s, "("), its first result
unfoldable pub before_paren : Text → Text
before_paren [] = []
before_paren (c ∷ s) = if c == b'(' then [] else c ∷ before_paren s

-- `Align.String`
unfoldable pub align_string : Align → Text
align_string align_left = str "left"
align_string align_right = str "right"
align_string align_none = str "none"

-- The name in upper case and without its size.
unfoldable pub bare_name : (ℕ → ℕ) → Text → Text
unfolding before_paren trim_space
bare_name to_upper name = trim_space (before_paren (map to_upper name))

-- `AlignName`
unfoldable pub align_name : (ℕ → ℕ) → List Text → Text → Align × Bool
unfolding bare_name contains
align_name to_upper names name =
    if is_empty name
    then (align_none, false)
    else if contains (map (map to_upper) names) (bare_name to_upper name)
    then (align_right, true)
    else (align_left, true)

-- `RightAligned`
unfoldable pub right_aligned : (ℕ → ℕ) → List Text → ColumnType → Align × Bool
unfolding align_name
right_aligned to_upper names ct = align_name to_upper names ct.database_type_name

unfoldable pub any_equal_fold : (Text → Text → Bool) → Text → List Text → Bool
any_equal_fold equal_fold name [] = false
any_equal_fold equal_fold name (n ∷ names) =
    if equal_fold name n then true else any_equal_fold equal_fold name names

-- `hasName`
unfoldable pub has_name : (ℕ → ℕ) → (Text → Text → Bool) → Text → List Text → Bool
unfolding bare_name any_equal_fold
has_name to_upper equal_fold name names = any_equal_fold equal_fold (bare_name to_upper name) names

-- `BinaryNames`
unfoldable pub binary_names : (ℕ → ℕ) → (Text → Text → Bool) → List Text → ColumnType → Bool
unfolding has_name
binary_names to_upper equal_fold names ct = has_name to_upper equal_fold ct.database_type_name names

-- hex.EncodeToString: two lower case digits for each byte
abbrev pub hex_digit : ℕ → ℕ
hex_digit n = if ltb n 10 then b'0' + n else b'a' + (n - 10)

unfoldable pub hex : List ℕ → Text
hex [] = []
hex (b ∷ bytes) = hex_digit (b / 16) ∷ hex_digit (b % 16) ∷ hex bytes

-- h[from:to]
abbrev pub slice : ℕ → ℕ → Text → Text
slice from to h = take (to - from) (drop from h)

-- The text of a GUID: groups of 8, 4, 4, 4 and the other digits.
unfoldable pub guid_text : Text → Text
guid_text h =
    slice 0 8 h
    ++ (str "-"
        ++ (slice 8 12 h
            ++ (str "-"
                ++ (slice 12 16 h ++ (str "-" ++ (slice 16 20 h ++ (str "-" ++ drop 20 h)))))))

-- `\x`
abbrev pub hex_prefix : Text
hex_prefix = 92 ∷ b'x' ∷ []

abbrev pub holds : Option (ColumnType → Bool) → ColumnType → Bool
holds none ct = false
holds (some test) ct = test ct

-- `Dialect.FormatBinary` at the Info of the dialect
unfoldable pub binary_text : Option Info → ColumnType → List ℕ → Option Text
binary_text none ct b = none
binary_text (some info) ct b =
    if holds info.is_binary ct
    then (if length b == 16 && holds info.is_guid ct
        then some (guid_text (hex b))
        else some (hex_prefix ++ hex b))
    else none

-- `Dialect.FormatBinary`
unfoldable pub format_binary : Infos → Dialect → ColumnType → List ℕ → Option Text
unfolding binary_text info_of hex guid_text
format_binary infos d ct b = binary_text (info_of infos d) ct b
