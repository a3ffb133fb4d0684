-- ===== src/Models/Passwords/Template.antt =====
-- A statement with quoted values in fixed places, and its reading by a server.
use dbmeta.Common.{
  ℕ, ◌≡◌, refl, Bool, false, ◌&&◌, Option, none, some, List, [], ◌∷◌, ◌++◌, ◌==◌, ==_refl, is_empty,
  if◌then◌else◌,
}
use dbmeta.Common.Text.{Text, cut_prefix}
use dbmeta.Password.{backslash}
use dbmeta.Password.Quotes.{plain, read_quoted, body, read-body, StartsOther}

-- A fixed text, or the place of a value: whether a backslash escapes in it, what opens it and what
-- closes it.
pub data Slot : Type 0 where
  fixed : Text → Slot
  value : Bool → Text → ℕ → Slot

-- The statement of a list of slots with the values in order.
unfoldable pub fill : List Slot → List Text → Text
fill [] values = []
fill (fixed t ∷ slots) values = t ++ fill slots values
fill (value esc opener q ∷ slots) [] = []
fill (value esc opener q ∷ slots) (v ∷ values) = opener ++ (body esc q v ++ q ∷ fill slots values)

abbrev pub add_value : Text → Option (List Text) → Option (List Text)
add_value v none = none
add_value v (some values) = some (v ∷ values)

abbrev pub then_cut : Option Text → (Text → Option (List Text)) → Option (List Text)
then_cut none next = none
then_cut (some s) next = next s

abbrev pub then_read : Option (Text × Text) → (Text → Option (List Text)) → Option (List Text)
then_read none next = none
then_read (some (v, rest)) next = add_value v (next rest)

-- A server that reads the statement: every fixed text has to stand there, and each value is read up to
-- its closing quote.
unfoldable pub read_slots : List Slot → Text → Option (List Text)
unfolding cut_prefix
read_slots [] s = if is_empty s then some [] else none
read_slots (fixed t ∷ slots) s = then_cut (cut_prefix s t) (read_slots slots)
read_slots (value esc opener q ∷ slots) s =
    then_cut (cut_prefix s opener)
      λ rest. then_read (read_quoted esc q plain rest) (read_slots slots)

-- The slots take as many values, no closer is a backslash that escapes, and what follows a value starts with another
-- code point than its closer.
abbrev pub Fits : List Slot → List Text → Type 0
Fits [] [] = Unit
Fits [] (_ ∷ _) = ⊥
Fits (fixed t ∷ slots) values = Fits slots values
Fits (value esc opener q ∷ slots) [] = ⊥
Fits (value esc opener q ∷ slots) (v ∷ values) =
    ((esc && q == backslash) ≡ false) × StartsOther q (fill slots values) × Fits slots values

pub cut_prefix-append : (t s : Text) → cut_prefix (t ++ s) t ≡ some s
unfolding cut_prefix
cut_prefix-append [] s = cut_nil s
  where
    cut_nil : (s : Text) → cut_prefix s [] ≡ some s
    cut_nil [] = refl
    cut_nil (_ ∷ _) = refl
cut_prefix-append (c ∷ t) s = rw (==_refl c) (cut_prefix-append t s)

-- Every statement is read back to its values.
pub read_slots-fill :
    (slots : List Slot) (values : List Text)
    → Fits slots values
    → read_slots slots (fill slots values) ≡ some values
unfolding read_slots fill
read_slots-fill [] [] h = refl
read_slots-fill [] (v ∷ values) h = elim h [ ]
read_slots-fill (value esc opener q ∷ slots) [] h = elim h [ ]
read_slots-fill (fixed t ∷ slots) values h =
    rw (cut_prefix-append t (fill slots values)) (read_slots-fill slots values h)
read_slots-fill (value esc opener q ∷ slots) (v ∷ values) (n, other, h) =
    rw
      (
        cut_prefix-append opener (body esc q v ++ q ∷ fill slots values),
        read-body esc q v (fill slots values) n other,
        read_slots-fill slots values h,
      )
      refl
