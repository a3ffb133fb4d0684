-- ===== src/Models/Checks.antt =====
-- When a parser of versions gives only versions that are known.
use dbmeta.Common.{
  ◌≡◌, refl, sym, ap, ◌∙◌, inl, inr, Bool, true, false, false≢true, ◌||◌, Option, none, some, List,
  [], ◌∷◌, ◌++◌, is_empty, if◌then◌else◌, Error, invalid_version, wrapped,
}
use dbmeta.Common.Text.{Text, str, text_eq}
use dbmeta.Common.Assoc
use dbmeta.Common.Assoc.{get-put}
use dbmeta.Version
use dbmeta.Version.{Version, VersionSet, set_version, parse_version, no_versions}
use dbmeta.Models.Claims.{two_columns, claims_mysql}
use dbmeta.Models.Releases.{
  Parsed, only_column, first_column, not_empty, one_version, with_raw, if_known, read_release,
  read_between, in_model,
}

-- The error under its contexts.
abbrev pub cause : Error → Error
cause (wrapped _ e) = cause e
cause e = e

-- A refusal is ErrInvalidVersion, and a set has a known version of the server.
abbrev pub GivesKnown : Parsed → Type 0
GivesKnown (inl e) = cause e ≡ invalid_version
GivesKnown (inr set) = (Version.get set []).unknown ≡ false

pub get-one_version : (v : Version) (display : Text) → Version.get (one_version v display) [] ≡ v
unfolding Version.get set_version Assoc.get Assoc.put text_eq
get-one_version v display = refl

pub refused_or :
    (b : Bool) (set : VersionSet)
    → (b ≡ false → (Version.get set []).unknown ≡ false)
    → GivesKnown (if b then inl invalid_version else inr set)
refused_or true set h = refl
refused_or false set h = h refl

pub if_known-Known :
    (v : Version) (display : Text) → GivesKnown (if_known v (one_version v display))
if_known-Known v display =
    refused_or v.unknown _ λ e. ap (λ u. u.unknown) (get-one_version v display) ∙ e

pub read_release-Known : (product release : Text) → GivesKnown (read_release product release)
read_release-Known product release = if_known-Known (with_raw release) (product ++ release)

pub read_between-Known :
    (product : Text) (found : Option (Text × Text)) (end : Text → Text)
    → GivesKnown (read_between product found end)
read_between-Known product none end = refl
read_between-Known product (some (_, rest)) end = read_release-Known product (end rest)

pub in_model-Known : (name : Text) (r : Parsed) → GivesKnown r → GivesKnown (in_model name r)
in_model-Known name (inl e) h = h
in_model-Known name (inr set) h = h

-- A parser that gives such a set or refuses, whatever columns it is given.
abbrev pub IsChecked : (List Text → Parsed) → Type 0
IsChecked parser = (cols : List Text) → GivesKnown (parser cols)

pub only_column-IsChecked :
    (read : Text → Parsed) → ((col : Text) → GivesKnown (read col)) → IsChecked (only_column read)
only_column-IsChecked read h [] = refl
only_column-IsChecked read h (col ∷ []) = h col
only_column-IsChecked read h (_ ∷ _ ∷ _) = refl

pub first_column-IsChecked :
    (read : Text → Parsed) → ((col : Text) → GivesKnown (read col)) → IsChecked (first_column read)
first_column-IsChecked read h [] = refl
first_column-IsChecked read h (col ∷ _) = h col

pub two_columns-IsChecked :
    (read : Text → Text → Parsed)
    → ((a b : Text) → GivesKnown (read a b))
    → IsChecked (two_columns read)
two_columns-IsChecked read h [] = refl
two_columns-IsChecked read h (_ ∷ []) = refl
two_columns-IsChecked read h (a ∷ b ∷ _) = h a b

pub not_empty-Known :
    (read : Text → Parsed) (col : Text) → GivesKnown (read col) → GivesKnown (not_empty read col)
not_empty-Known read [] h = refl
not_empty-Known read (_ ∷ _) h = h

-- The releases of a product that claims to be MySQL.
get-claims_mysql :
    (my release : Version) (key display : Text)
    → is_empty key ≡ false
    → Version.get
        (set_version (set_version (one_version my display) (str "mysql") my) key release)
        []
      ≡ my
unfolding Version.get set_version Assoc.get Assoc.put text_eq
get-claims_mysql my release [] display h = absurd (false≢true (sym h))
get-claims_mysql my release (c ∷ key) display h = refl

pub claims_mysql-Known :
    (key product claimed own : Text)
    → is_empty key ≡ false
    → GivesKnown (claims_mysql key product claimed own)
claims_mysql-Known key product claimed own h = refused_or _ _ λ e.
    ap (λ u. u.unknown) (get-claims_mysql (with_raw claimed) (with_raw own) key _ h)
    ∙ first_false (with_raw claimed).unknown (with_raw own).unknown e
  where
    first_false : (a b : Bool) → (a || b) ≡ false → a ≡ false
    first_false false b e = refl
    first_false true b e = e
