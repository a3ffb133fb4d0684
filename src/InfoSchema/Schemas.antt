-- ===== src/InfoSchema/Schemas.antt =====
-- What a server reads of the list of hidden schemas that `systemSchemas` writes.
use dbmeta.Common.{◌≡◌, refl, ap, ◌∙◌, false, some, List, [], ◌∷◌, ◌++◌, map, append_assoc}
use dbmeta.Common.Text.{Text, str, join, replace_all}
use dbmeta.Password.Quotes.{body}
use dbmeta.Models.Passwords.Template.{Slot, fixed, value, fill, read_slots, Fits, read_slots-fill}
use dbmeta.InfoSchema.{Profile, quoted_schema, schemas_or_default, system_schemas}

-- The places of a list of literals: a value between single quotes, without escapes, for each name.
abbrev pub places : List Text → List Slot
places [] = []
places (name ∷ []) = value false (str "'") 39 ∷ []
places (name ∷ next ∷ names) = value false (str "'") 39 ∷ fixed (str ", ") ∷ places (next ∷ names)

places-Fits : (names : List Text) → Fits (places names) names
unfolding fill
places-Fits [] = tt
places-Fits (name ∷ []) = (refl, tt, tt)
places-Fits (name ∷ next ∷ names) = (refl, refl, places-Fits (next ∷ names))

filled : (names : List Text) → join (str ", ") (map quoted_schema names) ≡ fill (places names) names
unfolding join fill body
filled [] = refl
filled (name ∷ []) = refl
filled (name ∷ next ∷ names) =
    ap (λ t. quoted_schema name ++ (str ", " ++ t)) (filled (next ∷ names))
    ∙ ap (λ t. 39 ∷ t) (append_assoc (replace_all name 39 (str "''")) (39 ∷ []) _)

-- A server reads the list that `systemSchemas` writes as the names of the hidden schemas, in order, each as
-- one literal, whatever quotes they hold: those of the profile, and information_schema alone for a profile
-- with none. Backslashes must not escape in its literals.
pub system_schemas-names :
    (p : Profile)
    → read_slots (places (schemas_or_default p.hidden_schemas)) (system_schemas p)
      ≡ some (schemas_or_default p.hidden_schemas)
unfolding system_schemas
system_schemas-names p =
    ap (read_slots (places (schemas_or_default p.hidden_schemas)))
      (filled (schemas_or_default p.hidden_schemas))
    ∙ read_slots-fill _ _ (places-Fits (schemas_or_default p.hidden_schemas))
