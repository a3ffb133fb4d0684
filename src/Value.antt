-- ===== src/Value.antt =====
-- The Go values that cross the API: an argument of a query (`any`), a value handed to a driver, and
-- what the program asks of a result column (`*sql.ColumnType`).
use dbmeta.Common.{◌≡◌, refl, false≢true, ℕ, Bool, true, false, List}
use dbmeta.Common.Text.{Text}
use dbmeta.Common.Int.{ℤ}

-- `opaque` stands for a value of any other type, which the program passes on as it is.
pub data Value : Type 0 where
  nil : Value
  string : Text → Value
  bool : Bool → Value
  strings : List Text → Value
  int : ℤ → Value
  opaque : ℕ → Value

abbrev pub is_nil : Value → Bool
is_nil nil = true
is_nil _ = false

-- v.(bool), with false for any other type
abbrev pub as_bool : Value → Bool
as_bool (bool b) = b
as_bool _ = false

pub as_bool-true : (v : Value) → as_bool v ≡ true → v ≡ bool true
as_bool-true (bool true) e = refl
as_bool-true (bool false) e = absurd (false≢true e)
as_bool-true nil e = absurd (false≢true e)
as_bool-true (string _) e = absurd (false≢true e)
as_bool-true (strings _) e = absurd (false≢true e)
as_bool-true (int _) e = absurd (false≢true e)
as_bool-true (opaque _) e = absurd (false≢true e)

-- A value at its position, or under a name (`sql.Named`).
pub data Bound : Type 0 where
  plain : Value → Bound
  named : Text → Value → Bound

pub record ColumnType : Type 0 where
  pub database_type_name : Text
