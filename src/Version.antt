-- ===== src/Version.antt =====
-- version.go: `Version`, its parser, its order and its text, and `VersionSet`. The proofs are in the
-- modules below this one. A `uint32` is a number below 2 ^ 32.
pub mod Order
pub mod Num
pub mod Parse
pub mod Dotted
pub mod RoundTrip
use mathlib.Core.List.{reverse}
use dbmeta.Common.{
  ℕ, zero, suc, ◌+◌, ◌*◌, ◌-◌, ◌/◌, ◌%◌, ◌^◌, max, Bool, true, false, ◌&&◌, ◌||◌, not, Option, none,
  some, List, [], ◌∷◌, ◌++◌, map, length, get_or, is_empty, ltb, leb, ◌==◌, if◌then◌else◌,
}
use dbmeta.Common.Text.{
  Text, str, text_eq, trim_prefix, join, trim_left, trim_right, trim_space, is_ascii_digit,
}
use dbmeta.Common.Int.{ℤ, pos, negsuc, sub_ℕ, leb_ℤ, ltb_ℤ, pos_part}
use dbmeta.Common.Assoc
use dbmeta.Common.Assoc.{Map}

pub record Version : Type 0 where
  pub raw : Text
  pub parts : List ℕ
  pub suffix : Text
  pub unknown : Bool

unfoldable pub v_of : List ℕ → Version
v_of parts = record { raw = []; parts = parts; suffix = []; unknown = false }

abbrev pub unknown_version : Version
unknown_version = record { raw = []; parts = []; suffix = []; unknown = true }

-- the component at i, or zero when the list is shorter
abbrev pub part : List ℕ → ℕ → ℕ
part parts i = get_or parts i 0

-- the digits at the start of a text, and what follows them
unfoldable pub span_digits : Text → Text × Text
span_digits [] = ([], [])
span_digits (c ∷ s) =
    let rest = span_digits s in if is_ascii_digit c then (c ∷ rest.0, rest.1) else ([], c ∷ s)

-- the number that decimal digits spell behind `n`
unfoldable pub digits_value : ℕ → Text → ℕ
digits_value n [] = n
digits_value n (c ∷ s) = digits_value (n * 10 + (c - b'0')) s

-- strconv.ParseUint(s, 10, 32) of one or more digits: out of range is the only error
unfoldable pub parse_uint32 : Text → Option ℕ
unfolding digits_value
parse_uint32 s = let n = digits_value 0 s in if ltb n (2 ^ 32) then some n else none

-- What follows a component: a dot goes on with the next one.
unfoldable pub after_component :
    (List ℕ → Text → Option (List ℕ × Text)) → List ℕ → Text → Option (List ℕ × Text)
after_component next parts [] = some (parts, [])
after_component next parts (c ∷ rest) =
    if c == b'.' then next parts rest else some (parts, c ∷ rest)

-- One round, at the digits in front of `rest`. A number that is no uint32 ends the loop and stays
-- in the rest.
unfoldable pub component :
    (List ℕ → Text → Option (List ℕ × Text)) → List ℕ → Text → Text × Text → Option (List ℕ × Text)
unfolding after_component parse_uint32
component next parts rest ([], after) = some (parts, rest)
component next parts rest (d ∷ ds, after) = elim (parse_uint32 (d ∷ ds)) [
  | none ↦ some (parts, rest)
  | some n ↦ after_component next (parts ++ n ∷ []) after
]

-- The loop of `ParseVersion` on fuel: the components read so far and the text that is left. `none`
-- means that the fuel ran out.
unfoldable pub parse_loop : ℕ → List ℕ → Text → Option (List ℕ × Text)
unfolding component span_digits
parse_loop zero parts rest = none
parse_loop (suc f) parts rest = component (parse_loop f) parts rest (span_digits rest)

-- the cut set "-_ "
abbrev pub is_separator : ℕ → Bool
is_separator c = c == b'-' || c == b'_' || c == 32

unfoldable pub finish_version : Text → Option (List ℕ × Text) → Version
unfolding trim_space trim_left
finish_version s none = unknown_version
finish_version s (some (parts, rest)) = record {
  raw = s;
  parts = parts;
  suffix = trim_left is_separator (trim_space rest);
  unknown = is_empty parts;
}

-- Each round but the last eats a byte, so the length is fuel enough.
unfoldable pub parse_version : Text → Version
unfolding finish_version parse_loop trim_space trim_prefix
parse_version s =
    let rest = trim_prefix (trim_space s) (str "v") in
    finish_version s (parse_loop (suc (length rest)) [] rest)

-- uint32(n) of a Go int that is not negative
abbrev pub uint32 : ℕ → ℕ
uint32 n = n % 2 ^ 32

unfoldable pub parse_version_num : ℤ → Version
unfolding v_of
parse_version_num (negsuc n) = unknown_version
parse_version_num (pos num) =
    if ltb num 100000
    then v_of (uint32 (num / 10000) ∷ uint32 (num % 10000 / 100) ∷ uint32 (num % 100) ∷ [])
    else v_of (uint32 (num / 10000) ∷ uint32 (num % 10000) ∷ [])

-- The loop of `Compare`: the rounds left and the index.
unfoldable pub compare_parts : ℕ → ℕ → List ℕ → List ℕ → ℤ
compare_parts zero i v w = pos 0
compare_parts (suc n) i v w =
    let rest = compare_parts n (suc i) v w in
    if part v i == part w i then rest else sub_ℕ (part v i) (part w i)

unfoldable pub compare : Version → Version → ℤ
unfolding compare_parts
compare v ver =
    if v.unknown && ver.unknown
    then pos 0
    else if v.unknown
    then pos 1
    else if ver.unknown
    then negsuc 0
    else compare_parts (max (length v.parts) (length ver.parts)) 0 v.parts ver.parts

unfoldable pub at_least : Version → Version → Bool
unfolding compare
at_least v ver = leb_ℤ (pos 0) (compare v ver)

unfoldable pub is_zero : Version → Bool
is_zero v = is_empty v.parts && is_empty v.suffix && is_empty v.raw && not v.unknown

-- strconv.FormatUint(n, 10): the digits of `n` in front of `out`, on fuel that exceeds `n`
unfoldable pub decimal : ℕ → ℕ → Text → Text
decimal zero n out = out
decimal (suc f) n out =
    let more = decimal f (n / 10) ((b'0' + n % 10) ∷ out) in
    if ltb n 10 then (b'0' + n) ∷ out else more

unfoldable pub format_uint : ℕ → Text
unfolding decimal
format_uint n = decimal (suc n) n []

unfoldable pub string : Version → Text
unfolding format_uint join
string v =
    if v.unknown
    then str "unknown"
    else let out = join (str ".") (map format_uint v.parts) in
      if is_empty v.suffix then out else out ++ (str "-" ++ v.suffix)

pub record VersionSet : Type 0 where
  pub versions : Map Version
  pub display : Text

abbrev pub no_versions : VersionSet
no_versions = record { versions = []; display = [] }

-- the keys under which a version set, or a gate, names a version
unfoldable pub set_version : VersionSet → Text → Version → VersionSet
unfolding Assoc.put
set_version s key ver = record s { versions = Assoc.put s.versions key ver }

unfoldable pub has : VersionSet → Text → Bool
unfolding Assoc.has
has s key = Assoc.has s.versions key

-- the order of strings, byte by byte
unfoldable pub text_leb : Text → Text → Bool
text_leb [] t = true
text_leb (a ∷ s) [] = false
text_leb (a ∷ s) (b ∷ t) = if a == b then text_leb s t else ltb a b

-- slices.Sort
unfoldable pub insert_key : Text → List Text → List Text
unfolding text_leb
insert_key k [] = k ∷ []
insert_key k (j ∷ rest) = if text_leb k j then k ∷ j ∷ rest else j ∷ insert_key k rest

unfoldable pub sort_keys : List Text → List Text
unfolding insert_key
sort_keys [] = []
sort_keys (k ∷ rest) = insert_key k (sort_keys rest)

unfoldable pub version_keys : VersionSet → List Text
unfolding sort_keys Assoc.keys
version_keys s = sort_keys (Assoc.keys s.versions)

abbrev pub version_or_unknown : Option Version → Version
version_or_unknown none = unknown_version
version_or_unknown (some ver) = ver

unfoldable pub get : VersionSet → Text → Version
unfolding Assoc.get
get s key = version_or_unknown (Assoc.get s.versions key)

unfoldable pub main : VersionSet → Version
unfolding get
main s = get s (str "")

unfoldable pub set_string : VersionSet → Text
unfolding main string
set_string s = if is_empty s.display then string (main s) else s.display
