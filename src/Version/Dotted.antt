-- ===== src/Version/Dotted.antt =====
-- Dotted texts and the digits that `ParseVersion` of version.go reads from them.
use mathlib.Core.List.{reverse, reverse-reverse, reverse-append}
use dbmeta.Common.{
  ℕ, zero, suc, ◌^◌, ◌<◌, ◌≡◌, refl, ap, sym, ◌∙◌, Bool, false, Option, some, List, [], ◌∷◌, ◌++◌,
  map, append_assoc, append-nil, length, All, arith, ◌==◌,
}
use dbmeta.Common.Text.{
  Text, str, join, is_ascii_digit, trim_space, trim_left, trim_right, is_space,
}
use dbmeta.Version.{span_digits, after_component, component, parse_loop, parse_uint32, format_uint}
use dbmeta.Version.Parse.{
  IsUint32, IsDigit, span_digits-append, format_uint-digits, format_uint-pos,
  parse_uint32-format_uint,
}

-- The components after the first, each behind its dot.
abbrev pub dotted : List ℕ → Text
dotted [] = []
dotted (n ∷ parts) = b'.' ∷ (format_uint n ++ dotted parts)

pub join-dotted :
    (n : ℕ) (parts : List ℕ)
    → join (str ".") (map format_uint (n ∷ parts)) ≡ format_uint n ++ dotted parts
unfolding join
join-dotted n [] = sym (append-nil (format_uint n))
join-dotted n (m ∷ parts) = ap (λ t. format_uint n ++ (b'.' ∷ t)) (join-dotted m parts)

-- What may follow the components: nothing, or a text that starts with neither a digit nor a dot.
abbrev pub StopsVersion : Text → Type 0
StopsVersion [] = Unit
StopsVersion (c ∷ s) = (is_ascii_digit c ≡ false) × ((c == b'.') ≡ false)

component-format_uint :
    (next : List ℕ → Text → Option (List ℕ × Text)) (parts : List ℕ) (rest : Text) (n : ℕ)
    (after : Text)
    → n < 2 ^ 32
    → component next parts rest (format_uint n, after)
      ≡ after_component next (parts ++ n ∷ []) after
unfolding component
component-format_uint next parts rest n after h =
    go (format_uint n) (format_uint-pos n) (parse_uint32-format_uint n h)
  where
    go :
        (ds : Text)
        → 0 < length ds
        → parse_uint32 ds ≡ some n
        → component next parts rest (ds, after) ≡ after_component next (parts ++ n ∷ []) after
    go [] p e = absurd (omega arith)
    go (d ∷ ds) p e = rw (e, component)

span-format_uint :
    (n : ℕ) (parts : List ℕ) (rest : Text)
    → StopsVersion rest
    → span_digits (format_uint n ++ (dotted parts ++ rest)) ≡ (format_uint n, dotted parts ++ rest)
span-format_uint n [] [] h = span_digits-append (format_uint n) [] (format_uint-digits n) tt
span-format_uint n [] (c ∷ rest) h =
    span_digits-append (format_uint n) (c ∷ rest) (format_uint-digits n) h.0
span-format_uint n (m ∷ parts) rest h =
    span_digits-append (format_uint n) _ (format_uint-digits n) refl

pub parse_loop-dotted :
    (f : ℕ) (acc : List ℕ) (n : ℕ) (parts : List ℕ) (rest : Text)
    → length parts < f
    → n < 2 ^ 32
    → All IsUint32 parts
    → StopsVersion rest
    → parse_loop f acc (format_uint n ++ (dotted parts ++ rest)) ≡ some (acc ++ n ∷ parts, rest)
unfolding parse_loop after_component
parse_loop-dotted zero acc n parts rest h hn hp hr = absurd (omega arith)
parse_loop-dotted (suc f) acc n [] [] h hn hp hr =
    rw (span-format_uint n [] [] hr) (component-format_uint (parse_loop f) acc _ n [] hn)
parse_loop-dotted (suc f) acc n [] (c ∷ rest) h hn hp hr =
    rw (span-format_uint n [] (c ∷ rest) hr)
      (component-format_uint (parse_loop f) acc _ n (c ∷ rest) hn ∙ rw hr.1 refl)
parse_loop-dotted (suc f) acc n (m ∷ parts) rest h hn hp hr =
    rw (span-format_uint n (m ∷ parts) rest hr) (
      component-format_uint (parse_loop f) acc _ n (dotted (m ∷ parts) ++ rest) hn
      ∙ (rw (append_assoc (format_uint m) (dotted parts) rest) (
          parse_loop-dotted f (acc ++ n ∷ []) m parts rest (omega arith) hp.0 hp.1 hr
          ∙ rw (append_assoc acc (n ∷ []) (m ∷ parts)) refl)))

-- A text of which no code point at either end is a space is what TrimSpace returns.
trim_left_none : (p : ℕ → Bool) (c : ℕ) (s : Text) → p c ≡ false → trim_left p (c ∷ s) ≡ c ∷ s
unfolding trim_left
trim_left_none p c s h = rw h

pub trim_space-solid :
    (s : Text) (a b : ℕ) (front back : Text)
    → s ≡ a ∷ front
    → s ≡ back ++ b ∷ []
    → is_space a ≡ false
    → is_space b ≡ false
    → trim_space s ≡ s
unfolding trim_space trim_right
trim_space-solid s a b front back h k ha hb =
    ap (λ t. reverse (trim_left is_space (reverse t)))
      (ap (trim_left is_space) h ∙ trim_left_none is_space a front ha ∙ sym h)
    ∙ ap (λ t. reverse (trim_left is_space t)) (ap reverse k ∙ reverse-append back (b ∷ []))
    ∙ ap reverse (trim_left_none is_space b (reverse back) hb)
    ∙ ap reverse (sym (ap reverse k ∙ reverse-append back (b ∷ [])))
    ∙ reverse-reverse s

-- The last code point of a text of digits.
last-IsDigit :
    (s : Text)
    → 0 < length s
    → All IsDigit s
    → (b : ℕ) × (back : Text) × (s ≡ back ++ b ∷ []) × IsDigit b
last-IsDigit [] h d = absurd (omega arith)
last-IsDigit (c ∷ []) h d = (c, [], refl, d.0)
last-IsDigit (c ∷ e ∷ s) h d =
    let (b, back, eq, digit) = last-IsDigit (e ∷ s) (omega arith) d.1 in
    (b, c ∷ back, ap (λ t. c ∷ t) eq, digit)

pub digit-not-space : (c : ℕ) → IsDigit c → is_space c ≡ false
unfolding is_space
digit-not-space c h = ground arith

-- The text of the components, with what follows them.
abbrev pub numbers : ℕ → List ℕ → Text → Text
numbers n parts rest = format_uint n ++ (dotted parts ++ rest)

pub first-IsDigit :
    (n : ℕ) (more : Text)
    → (c : ℕ) × (front : Text) × (format_uint n ++ more ≡ c ∷ front) × IsDigit c
first-IsDigit n more = go (format_uint n) (format_uint-pos n) (format_uint-digits n)
  where
    go :
        (s : Text)
        → 0 < length s
        → All IsDigit s
        → (c : ℕ) × (front : Text) × (s ++ more ≡ c ∷ front) × IsDigit c
    go [] h d = absurd (omega arith)
    go (c ∷ s) h d = (c, s ++ more, refl, d.0)

pub last_number :
    (n : ℕ) (parts : List ℕ)
    → (b : ℕ) × (back : Text) × (format_uint n ++ dotted parts ≡ back ++ b ∷ []) × IsDigit b
last_number n [] =
    let (b, back, e, d) = last-IsDigit (format_uint n) (format_uint-pos n) (format_uint-digits n) in
    (b, back, append-nil (format_uint n) ∙ e, d)
last_number n (m ∷ parts) =
    let (b, back, e, d) = last_number m parts in
    (
      b,
      format_uint n ++ (b'.' ∷ back),
      ap (λ t. format_uint n ++ (b'.' ∷ t)) e
          ∙ sym (append_assoc (format_uint n) (b'.' ∷ back) (b ∷ [])),
      d,
    )
