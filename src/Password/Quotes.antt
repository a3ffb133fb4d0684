-- ===== src/Password/Quotes.antt =====
-- `QuoteLiteral` and `QuoteIdentifier` of password.go, with a reader of quoted text
-- as a server has one.
use dbmeta.Common.{
  refl, ℕ, ◌≡◌, ap, ◌∙◌, inl, inr, Bool, true, false, ◌&&◌, Option, none, some, [], ◌∷◌, ◌++◌,
  append_assoc, arith, ◌==◌, ==_refl, if◌then◌else◌, Bool-cases,
}
use dbmeta.Common.Text.{Text, replace_all}
use dbmeta.Info.{Quoting}
use dbmeta.Password.{quote, backslash, escapes, quote_literal, quote_identifier}

-- What a reader has just seen inside a quoted text.
pub data Mode : Type 0 where
  plain closing escaping : Mode

abbrev pub cons_read : ℕ → Option (Text × Text) → Option (Text × Text)
cons_read c none = none
cons_read c (some (s, rest)) = some (c ∷ s, rest)

-- The text up to the closer, a doubled closer standing for one, and what follows; `esc` says that a
-- backslash makes the next code point its own.
pub read_quoted : Bool → ℕ → Mode → Text → Option (Text × Text)
read_quoted esc q plain [] = none
read_quoted esc q plain (c ∷ s) = elim (c == q) [
  | true ↦ read_quoted esc q closing s
  | false ↦ elim (esc && c == backslash) [
    | true ↦ read_quoted esc q escaping s
    | false ↦ cons_read c (read_quoted esc q plain s)
  ]
]
read_quoted esc q closing [] = some ([], [])
read_quoted esc q closing (c ∷ s) = elim (c == q) [
  | true ↦ cons_read q (read_quoted esc q plain s)
  | false ↦ some ([], c ∷ s)
]
read_quoted esc q escaping [] = none
read_quoted esc q escaping (c ∷ s) = cons_read c (read_quoted esc q plain s)

-- A string literal of the server, from its opening quote.
abbrev pub read_literal : Bool → Text → Option (Text × Text)
read_literal esc [] = none
read_literal esc (c ∷ s) = if c == quote then read_quoted esc quote plain s else none

-- What follows a quoted text does not start with its closer.
abbrev pub StartsOther : ℕ → Text → Type 0
StartsOther q [] = Unit
StartsOther q (c ∷ rest) = (c == q) ≡ false

closed :
    (esc : Bool) (q : ℕ) (rest : Text)
    → StartsOther q rest
    → read_quoted esc q plain (q ∷ rest) ≡ some ([], rest)
unfolding read_quoted
closed esc q [] h = ground (arith, ==_refl q)
closed esc q (c ∷ rest) h = ground (arith, ==_refl q)

-- A text without its quotes: the closer is doubled, and a backslash where it escapes.
unfoldable pub body : Bool → ℕ → Text → Text
unfolding replace_all
body true q s = replace_all (replace_all s q (q ∷ q ∷ [])) backslash (backslash ∷ backslash ∷ [])
body false q s = replace_all s q (q ∷ q ∷ [])

-- It is read back, whatever it holds.
pub read-body :
    (esc : Bool) (q : ℕ) (s rest : Text)
    → (esc && q == backslash) ≡ false
    → StartsOther q rest
    → read_quoted esc q plain (body esc q s ++ q ∷ rest) ≡ some (s, rest)
unfolding read_quoted replace_all body
read-body false q [] rest n h = closed false q rest h
read-body true q [] rest n h = closed true q rest h
read-body false q (c ∷ s) rest n h = elim (Bool-cases (c == q)) [
  | inl e ↦ ground (arith, read-body false q s rest n h, ==_refl q)
  | inr e ↦ ground (arith, read-body false q s rest n h)
]
read-body true q (c ∷ s) rest n h = elim (Bool-cases (c == q)) [
  | inl e ↦ ground (arith, read-body true q s rest n h, ==_refl q)
  | inr e ↦ elim (Bool-cases (c == backslash)) [
    | inl b ↦ ground (arith, read-body true q s rest n h)
    | inr b ↦ ground (arith, read-body true q s rest n h)
  ]
]

-- The two ways to quote, in front of a text.
pub quote_literal-body :
    (s rest : Text) (q : Quoting)
    → quote_literal s q ++ rest
      ≡ quote ∷ (body (escapes q.backslash_escapes) quote s ++ quote ∷ rest)
unfolding quote_literal body
quote_literal-body s rest q = go (escapes q.backslash_escapes)
  where
    go :
        (esc : Bool)
        → (quote
              ∷ ((if esc
                    then replace_all
                        (replace_all s quote (quote ∷ quote ∷ []))
                        backslash
                        (backslash ∷ backslash ∷ [])
                    else replace_all s quote (quote ∷ quote ∷ []))
                  ++ quote ∷ []))
            ++ rest
          ≡ quote ∷ (body esc quote s ++ quote ∷ rest)
    go true = ap (λ t. quote ∷ t) (append_assoc (body true quote s) (quote ∷ []) rest)
    go false = ap (λ t. quote ∷ t) (append_assoc (body false quote s) (quote ∷ []) rest)

pub quote_identifier-body :
    (name opener rest : Text) (closer : ℕ)
    → quote_identifier name opener closer ++ rest
      ≡ opener ++ (body false closer name ++ closer ∷ rest)
unfolding quote_identifier body
quote_identifier-body name opener rest closer =
    append_assoc opener (body false closer name ++ closer ∷ []) rest
    ∙ ap (λ t. opener ++ t) (append_assoc (body false closer name) (closer ∷ []) rest)

-- For every text, whatever it holds, a server that reads the literal as the quoting state says (a
-- backslash escapes, or it does not) takes exactly that text out of it and stops behind it, provided
-- that no quote follows the literal. An unread state counts as no escaping.
pub read_literal-quote_literal :
    (s rest : Text) (q : Quoting)
    → StartsOther quote rest
    → read_literal (escapes q.backslash_escapes) (quote_literal s q ++ rest) ≡ some (s, rest)
read_literal-quote_literal s rest q h =
    let esc = escapes q.backslash_escapes in
    ap (read_literal esc) (quote_literal-body s rest q) ∙ read-body esc quote s rest (safe esc) h
  where
    safe : (esc : Bool) → (esc && quote == backslash) ≡ false
    safe true = refl
    safe false = refl

-- A product that reads a quoted name takes exactly the name out of it and stops behind it, provided
-- that the closer does not follow: whatever the opener is, behind it the reader finds the name.
pub read_quoted-quote_identifier :
    (name opener rest : Text) (closer : ℕ)
    → StartsOther closer rest
    → (body : Text) × (quote_identifier name opener closer ++ rest ≡ opener ++ body)
      × (read_quoted false closer plain body ≡ some (name, rest))
read_quoted-quote_identifier name opener rest closer h =
    (_, quote_identifier-body name opener rest closer, read-body false closer name rest refl h)
