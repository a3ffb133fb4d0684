-- ===== src/Version/Parse.antt =====
-- The loop of `ParseVersion` in version.go.
use dbmeta.Common.{
  All-append, ℕ, zero, suc, ◌+◌, ◌/◌, ◌%◌, ◌^◌, ◌≤◌, ◌<◌, ◌≡◌, ◌↔◌, inl, inr, refl, true, false,
  Option, none, some, List, [], ◌∷◌, ◌++◌, length, All, arith, ◌==◌, Bool-cases,
}
use dbmeta.Common.Text.{Text, str, is_ascii_digit, trim_space, trim_prefix}
use dbmeta.Version.{
  span_digits, digits_value, parse_uint32, after_component, component, parse_loop, parse_version,
  finish_version, decimal, format_uint,
}

abbrev pub IsDigit : ℕ → Type 0
IsDigit c = (b'0' ≤ c) × (c ≤ b'9')

-- A text that does not go on with a digit.
abbrev pub StopsDigits : Text → Type 0
StopsDigits [] = Unit
StopsDigits (c ∷ s) = is_ascii_digit c ≡ false

pub span_digits-append :
    (ds rest : Text) → All IsDigit ds → StopsDigits rest → span_digits (ds ++ rest) ≡ (ds, rest)
unfolding span_digits
span_digits-append [] [] h k = refl
span_digits-append [] (c ∷ rest) h k = ground arith
span_digits-append (d ∷ ds) rest h k = ground (arith, span_digits-append ds rest)

span_digits-length : (s : Text) → length (span_digits s).0 + length (span_digits s).1 ≡ length s
unfolding span_digits
span_digits-length [] = refl
span_digits-length (c ∷ s) = ground (arith, span_digits-length s)

-- The decimal digits of a number are digits, at least one, and spell the number.
decimal-digits : (f n : ℕ) (out : Text) → All IsDigit out → All IsDigit (decimal f n out)
unfolding decimal
decimal-digits zero n out h = h
decimal-digits (suc f) n out h = ground (arith, decimal-digits f (n / 10) ((b'0' + n % 10) ∷ out))

decimal-value :
    (f n : ℕ) (out : Text) → n < f → digits_value 0 (decimal f n out) ≡ digits_value n out
unfolding decimal digits_value
decimal-value zero n out h = absurd (omega arith)
decimal-value (suc f) n out h = ground (arith, decimal-value f (n / 10) ((b'0' + n % 10) ∷ out))

decimal-length : (f n : ℕ) (out : Text) → n < f → length out < length (decimal f n out)
unfolding decimal
decimal-length zero n out h = absurd (omega arith)
decimal-length (suc f) n out h = ground (arith, decimal-length f (n / 10) ((b'0' + n % 10) ∷ out))

pub format_uint-digits : (n : ℕ) → All IsDigit (format_uint n)
unfolding format_uint
format_uint-digits n = decimal-digits (suc n) n [] tt

pub format_uint-pos : (n : ℕ) → 0 < length (format_uint n)
unfolding format_uint
format_uint-pos n = decimal-length (suc n) n [] (omega arith)

pub parse_uint32-format_uint : (n : ℕ) → n < 2 ^ 32 → parse_uint32 (format_uint n) ≡ some n
unfolding format_uint parse_uint32
parse_uint32-format_uint n h = ground (arith, decimal-value (suc n) n [] (omega arith))

abbrev pub IsUint32 : ℕ → Type 0
IsUint32 n = n < 2 ^ 32

-- The loop came to its end, and the components are uint32 values.
abbrev Done : Option (List ℕ × Text) → Type 0
Done none = ⊥
Done (some (parts, rest)) = All IsUint32 parts

parse_uint32-IsUint32 : (s : Text) (n : ℕ) → parse_uint32 s ≡ some n → IsUint32 n
unfolding parse_uint32
parse_uint32-IsUint32 s n h = ground arith

after_component-Done :
    (next : List ℕ → Text → Option (List ℕ × Text)) (parts : List ℕ) (after : Text)
    → All IsUint32 parts
    → ((rest : Text) → length rest ≤ length after → Done (next parts rest))
    → Done (after_component next parts after)
unfolding after_component
after_component-Done next parts [] h k = h
after_component-Done next parts (c ∷ rest) h k = elim (Bool-cases (c == b'.')) [
  | inl e ↦ rw e (k rest (omega arith))
  | inr e ↦ rw e h
]

one_more :
    (parts : List ℕ) (ds after : Text) (o : Option ℕ)
    (next : List ℕ → Text → Option (List ℕ × Text)) (rest : Text)
    → All IsUint32 parts
    → ((n : ℕ) → o ≡ some n → IsUint32 n)
    → ((more : List ℕ) (r : Text)
        → length r ≤ length after
        → All IsUint32 more
        → Done (next more r))
    → Done (elim o [
      | none ↦ some (parts, rest)
      | some n ↦ after_component next (parts ++ n ∷ []) after
    ])
one_more parts ds after none next rest h fits k = h
one_more parts ds after (some n) next rest h fits k =
    let grown = All-append IsUint32 parts (n ∷ []) h (fits n refl, tt) in
    after_component-Done next (parts ++ n ∷ []) after grown λ r shorter. k _ r shorter grown

component-Done :
    (next : List ℕ → Text → Option (List ℕ × Text)) (parts : List ℕ) (rest ds after : Text)
    → All IsUint32 parts
    → length ds + length after ≡ length rest
    → ((more : List ℕ) (r : Text) → length r < length rest → All IsUint32 more → Done (next more r))
    → Done (component next parts rest (ds, after))
unfolding component
component-Done next parts rest [] after h e k = h
component-Done next parts rest (d ∷ ds) after h e k =
    one_more parts ds after (parse_uint32 (d ∷ ds)) next rest h (parse_uint32-IsUint32 (d ∷ ds))
      λ more r shorter. k more r (omega arith)

parse_loop-Done :
    (f : ℕ) (parts : List ℕ) (rest : Text)
    → length rest < f
    → All IsUint32 parts
    → Done (parse_loop f parts rest)
unfolding parse_loop
parse_loop-Done zero parts rest h k = absurd (omega arith)
parse_loop-Done (suc f) parts rest h k =
    component-Done (parse_loop f) parts rest (span_digits rest).0 (span_digits rest).1 k
      (span_digits-length rest) λ more r shorter all. parse_loop-Done f more r (omega arith) all

finished :
    (s : Text) (o : Option (List ℕ × Text))
    → Done o
    → ((finish_version s o).raw ≡ s)
      × All IsUint32 (finish_version s o).parts
      × (((finish_version s o).unknown ≡ true) ↔ ((finish_version s o).parts ≡ []))
unfolding finish_version
finished s none h = absurd h
finished s (some ([], rest)) h = (refl, h, (λ _. refl, λ _. refl))
finished s (some (n ∷ parts, rest)) h = (refl, h, (λ e. cc, λ e. cc))

-- `ParseVersion` ends on every text, records the text, reads components that fit a uint32, and says
-- Unknown exactly when it read none.
pub parse_version-IsValid :
    (s : Text)
    → ((parse_version s).raw ≡ s)
      × All IsUint32 (parse_version s).parts
      × (((parse_version s).unknown ≡ true) ↔ ((parse_version s).parts ≡ []))
unfolding parse_version
parse_version-IsValid s =
    let rest = trim_prefix (trim_space s) (str "v") in
    finished s (parse_loop (suc (length rest)) [] rest)
      (parse_loop-Done (suc (length rest)) [] rest (omega arith) tt)
