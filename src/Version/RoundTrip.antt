-- ===== src/Version/RoundTrip.antt =====
-- `ParseVersion` and `Version.String` of version.go, one after the other.
use dbmeta.Common.{
  ℕ, suc, ◌^◌, ◌≤◌, ◌<◌, ◌≡◌, refl, ap, sym, ◌∙◌, false, some, List, [], ◌∷◌, ◌++◌, append_assoc,
  append-nil, length, length-append, All, arith, if◌then◌else◌, is_empty,
}
use dbmeta.Common.Text.{Text, str, trim_space, trim_prefix, trim_left, is_space}
use dbmeta.Version.{
  Version, parse_loop, parse_version, finish_version, format_uint, string, is_separator,
}
use dbmeta.Version.Parse.{IsUint32, IsDigit}
use dbmeta.Version.Dotted.{
  dotted, join-dotted, StopsVersion, parse_loop-dotted, trim_space-solid, digit-not-space, numbers,
  first-IsDigit, last_number,
}

trim_prefix-digit : (c : ℕ) (s : Text) → IsDigit c → trim_prefix (c ∷ s) (str "v") ≡ c ∷ s
unfolding trim_prefix
trim_prefix-digit c s h = ground arith

length-dotted : (parts : List ℕ) → length parts ≤ length (dotted parts)
length-dotted [] = omega arith
length-dotted (m ∷ parts) =
    omega (arith, length-dotted parts, length-append (format_uint m) (dotted parts))

length-numbers :
    (n : ℕ) (parts : List ℕ) (rest : Text) → length parts ≤ length (numbers n parts rest)
length-numbers n parts rest = omega (
  arith,
  length-dotted parts,
  length-append (dotted parts) rest,
  length-append (format_uint n) (dotted parts ++ rest),
)

parse_version_lem :
    (s : Text)
    → parse_version s
      ≡ finish_version s (
          parse_loop
            (suc (length (trim_prefix (trim_space s) (str "v"))))
            []
            (trim_prefix (trim_space s) (str "v")))
unfolding parse_version
parse_version_lem s = refl

-- What is parsed is what stands between the spaces.
parse_version-solid :
    (s : Text) (n : ℕ) (parts : List ℕ) (rest : Text)
    → s ≡ numbers n parts rest
    → n < 2 ^ 32
    → All IsUint32 parts
    → StopsVersion rest
    → trim_space s ≡ s
    → parse_version s ≡ finish_version s (some (n ∷ parts, rest))
parse_version-solid s n parts rest same h k r trimmed =
    let (c, front, e, digit) = first-IsDigit n (dotted parts ++ rest) in
    let kept : trim_prefix s (str "v") ≡ numbers n parts rest =
      ap (λ t. trim_prefix t (str "v")) (same ∙ e) ∙ trim_prefix-digit c front digit ∙ sym e in
    parse_version_lem s
    ∙ ap (λ t. finish_version s (parse_loop (suc (length t)) [] t))
        (ap (λ t. trim_prefix t (str "v")) trimmed ∙ kept)
    ∙ ap (finish_version s) (
        parse_loop-dotted (suc (length (numbers n parts rest))) [] n parts rest
          (omega (arith, length-numbers n parts rest)) h k r)

-- A suffix that `ParseVersion` leaves whole: it starts with no separator and ends with no space.
abbrev pub IsSuffix : Text → Type 0
IsSuffix [] = Unit
IsSuffix (a ∷ s) =
    (is_separator a ≡ false)
    × ((b : ℕ) × (back : Text) × (a ∷ s ≡ back ++ b ∷ []) × (is_space b ≡ false))

string-numbers :
    (raw suffix : Text) (n : ℕ) (parts : List ℕ)
    → string (record { raw = raw; parts = n ∷ parts; suffix = suffix; unknown = false }) ≡ (
        if is_empty suffix
        then format_uint n ++ dotted parts
        else (format_uint n ++ dotted parts) ++ (b'-' ∷ suffix))
unfolding string
string-numbers raw suffix n parts = rw (join-dotted n parts) refl

-- The text of a version starts and ends with a code point that is no space.
string_trimmed :
    (n : ℕ) (parts : List ℕ) (rest : Text) (b : ℕ) (back : Text)
    → numbers n parts rest ≡ back ++ b ∷ []
    → is_space b ≡ false
    → trim_space (numbers n parts rest) ≡ numbers n parts rest
string_trimmed n parts rest b back e h =
    let (c, front, e', digit) = first-IsDigit n (dotted parts ++ rest) in
    trim_space-solid (numbers n parts rest) c b front back e' e (digit-not-space c digit) h

-- The suffix comes back without the dash in front of it.
suffix_back :
    (a : ℕ) (s : Text)
    → IsSuffix (a ∷ s)
    → trim_left is_separator (trim_space (b'-' ∷ a ∷ s)) ≡ a ∷ s
suffix_back a s (first, (b, back, e, last)) =
    ap (trim_left is_separator) (
      trim_space-solid (b'-' ∷ a ∷ s) b'-' b (a ∷ s) (b'-' ∷ back) refl (ap (λ t. b'-' ∷ t) e) dash
        last)
    ∙ skip
  where
    dash : is_space b'-' ≡ false
    dash = unfold is_space in refl

    skip : trim_left is_separator (b'-' ∷ a ∷ s) ≡ a ∷ s
    skip = unfold trim_left in rw first

-- `ParseVersion` reads back what `String` writes for a known version with at least one component, all
-- of them uint32 values, and a suffix that starts with no separator and ends with no space: the same
-- components, the same suffix, and not Unknown.
pub parse_version-string :
    (raw : Text) (n : ℕ) (parts : List ℕ) (suffix : Text)
    → All IsUint32 (n ∷ parts)
    → IsSuffix suffix
    → let v : Version = record { raw = raw; parts = n ∷ parts; suffix = suffix; unknown = false } in
      parse_version (string v) ≡ record v { raw = string v }
unfolding finish_version trim_left trim_space
parse_version-string raw n parts [] h k =
    let (b, back, e, digit) = last_number n parts in
    let same : string (record { raw = raw; parts = n ∷ parts; suffix = []; unknown = false })
        ≡ numbers n parts [] =
      string-numbers raw [] n parts
      ∙ ap (λ t. format_uint n ++ t) (sym (append-nil (dotted parts))) in
    parse_version-solid _ n parts [] same h.0 h.1 tt (
      ap trim_space same
      ∙ string_trimmed n parts [] b back
          (ap (λ t. format_uint n ++ t) (append-nil (dotted parts)) ∙ e) (digit-not-space b digit)
      ∙ sym same)
parse_version-string raw n parts (a ∷ s) h (first, (b, back, e, last)) =
    let v : Version = record { raw = raw; parts = n ∷ parts; suffix = a ∷ s; unknown = false } in
    let front : Text = format_uint n ++ (dotted parts ++ (b'-' ∷ back)) in
    let same : string v ≡ numbers n parts (b'-' ∷ a ∷ s) =
      string-numbers raw (a ∷ s) n parts
      ∙ append_assoc (format_uint n) (dotted parts) (b'-' ∷ a ∷ s) in
    let ends : numbers n parts (b'-' ∷ a ∷ s) ≡ front ++ b ∷ [] =
      ap (λ t. format_uint n ++ (dotted parts ++ (b'-' ∷ t))) e
      ∙ ap (λ t. format_uint n ++ t) (sym (append_assoc (dotted parts) (b'-' ∷ back) (b ∷ [])))
      ∙ sym (append_assoc (format_uint n) (dotted parts ++ (b'-' ∷ back)) (b ∷ [])) in
    parse_version-solid _ n parts (b'-' ∷ a ∷ s) same h.0 h.1 (refl, refl)
      (ap trim_space same ∙ string_trimmed n parts (b'-' ∷ a ∷ s) b front ends last ∙ sym same)
    ∙ ap (λ t. record v { raw = string v; suffix = t })
        (suffix_back a s (first, (b, back, e, last)))
