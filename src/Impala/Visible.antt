-- ===== src/Impala/Visible.antt =====
-- The walks of models/impala show the databases that they are asked for, and no other.
use dbmeta.Common.{
  ◌≡◌, ◌≢◌, refl, sym, ap, ◌∙◌, ◌⊎◌, Bool, true, false, false≢true, Option, none, some, List, [],
  ◌∷◌, ◌++◌, All, inl, inr, Bool-cases, Option-cases, arith, Returns, >>=-Returns, length, ◌<◌, ◌≤◌,
  if◌then◌else◌, ℕ, suc, zero,
}
use dbmeta.Common.Text.{Text, str, text_eq, text_eq_iff, trim_space, has_prefix}
use dbmeta.Common.Cut.{cut_suffix}
use dbmeta.Bind.{Args}
use dbmeta.Common.Assoc
use dbmeta.Value.{Value, nil, string, bool, strings, int, opaque, as_bool, as_bool-true}
use dbmeta.Like.{like}
use dbmeta.Like.Relation.{Matches}
use dbmeta.Like.Matching.{like_iff}
use dbmeta.Service.{Service}
use dbmeta.Impala.{
  Database, Relation, Table, arg, system, quote, at, read_all, is_listed, databases_loop,
  first_values, relations_loop, databases, relations_in, relations, describe, undescribed,
  described, describe_loop, with_storage,
}
use dbmeta.Walk.{answer}
use dbmeta.Walk.Holds.{Gives, then_ask-Gives, gather-Gives}

-- What an argument asks of a name: a text that is not empty is a pattern, and nothing else asks anything.
abbrev pub IsAsked : Option Value → Text → Type 0
IsAsked (some (string pattern)) name = (pattern ≡ []) ⊎ Matches pattern name
IsAsked _ name = Unit

-- The name matches the pattern in the argument, and is the database of the built in functions only if
-- the caller asked for it.
abbrev pub IsVisible : Args → Text → Text → Type 0
IsVisible args param name =
    IsAsked (Assoc.get args param) name
    × ((name ≢ str "_impala_builtins") ⊎ (Assoc.get args (str "with_system") ≡ some (bool true)))

arg-string :
    (args : Args) (param s : Text) → Assoc.get args param ≡ some (string s) → arg args param ≡ s
unfolding arg
arg-string args param s e = rw (arg, e) refl

like-IsAsked :
    (args : Args) (param name : Text)
    → like (arg args param) name ≡ true
    → (v : Option Value) → Assoc.get args param ≡ v
    → IsAsked v name
like-IsAsked args param name h none e = tt
like-IsAsked args param name h (some (string s)) e =
    (like_iff s name).0 (sym (ap (λ t. like t name) (arg-string args param s e)) ∙ h)
like-IsAsked args param name h (some nil) e = tt
like-IsAsked args param name h (some (bool _)) e = tt
like-IsAsked args param name h (some (strings _)) e = tt
like-IsAsked args param name h (some (int _)) e = tt
like-IsAsked args param name h (some (opaque _)) e = tt

abbrev is_on : Option Value → Bool
is_on (some v) = as_bool v
is_on none = false

system-is_on : (args : Args) → system args ≡ is_on (Assoc.get args (str "with_system"))
unfolding system
system-is_on args = ground arith

is_on-true : (v : Option Value) → is_on v ≡ true → v ≡ some (bool true)
is_on-true none e = absurd (false≢true e)
is_on-true (some v) e = ap some (as_bool-true v e)

is_listed-IsVisible :
    (args : Args) (param name : Text) → is_listed args param name ≡ true → IsVisible args param name
unfolding is_listed
is_listed-IsVisible args param name e = (
  like-IsAsked args param name (ground arith) (Assoc.get args param) refl,
  elim (Bool-cases (text_eq name (str "_impala_builtins"))) [
    | inr n ↦ inl λ same. false≢true (sym n ∙ (text_eq_iff name _).1 same)
    | inl t ↦
        inr
          (is_on-true (Assoc.get args (str "with_system")) (sym (system-is_on args) ∙ ground arith))
  ],
)

-- How many values the walks read from the front of a row of the answer to a statement: two from a row of
-- DESCRIBE, else one.
unfoldable pub width : Text → ℕ
unfolding has_prefix
width stmt = if has_prefix stmt (str "DESCRIBE ") then 2 else 1

abbrev pub AreWide : ℕ → List (List Text) → Type 0
AreWide n rows = All (λ r. n ≤ length r) rows

-- Every row of an answer has the values that the walks read.
abbrev pub IsWide : {W : Type 0} → Service W → Type 0
IsWide query =
    (stmt : Text) (w : _) → Returns (λ rows. AreWide (width stmt) rows) (read_all query stmt w).0

pub at-Returns : (r : List Text) (i : ℕ) → i < length r → Returns (λ _. Unit) (at r i)
unfolding at
at-Returns [] i h = omega (arith, h)
at-Returns (v ∷ r) zero h = tt
at-Returns (v ∷ r) (suc i) h = at-Returns r i (omega (arith, h))

databases_loop-IsVisible :
    (args : Args) (param : Text) (rows : List (List Text))
    → AreWide 1 rows
    → Returns (All (λ d. IsVisible args param d.name)) (databases_loop args param rows)
unfolding databases_loop
databases_loop-IsVisible args param [] wide = tt
databases_loop-IsVisible args param (r ∷ rows) (long, wide) =
    let P = λ (ds : List Database). All (λ d. IsVisible args param d.name) ds in
    let rest = databases_loop-IsVisible args param rows wide in
    >>=-Returns (λ _. Unit) P (at r 0) _ (at-Returns r 0 long)
      λ name _. elim (Bool-cases (is_listed args param name)) [
        | inl e ↦ rw (e) (
            >>=-Returns P P (databases_loop args param rows) _ rest
              λ ds h. (is_listed-IsVisible args param name e, h))
        | inr e ↦ rw (e) rest
      ]

-- A table of a visible database.
abbrev pub OfVisible : Args → Relation → Type 0
OfVisible args r = IsVisible args (str "schema") r.schema

first_values-Returns :
    (rows : List (List Text)) → AreWide 1 rows → Returns (λ _. Unit) (first_values rows)
unfolding first_values
first_values-Returns [] wide = tt
first_values-Returns (r ∷ rows) (long, wide) =
    >>=-Returns (λ _. Unit) (λ _. Unit) (at r 0) _ (at-Returns r 0 long)
      λ v _.
        >>=-Returns (λ _. Unit) (λ _. Unit) (first_values rows) _ (first_values-Returns rows wide)
          λ _ _. tt

relations_loop-OfVisible :
    (args : Args) (param schema : Text) (views : List Text) (rows : List (List Text))
    → IsVisible args (str "schema") schema
    → AreWide 1 rows
    → Returns (All (OfVisible args)) (relations_loop args param schema views rows)
unfolding relations_loop
relations_loop-OfVisible args param schema views [] v wide = tt
relations_loop-OfVisible args param schema views (r ∷ rows) v (long, wide) =
    let P = λ (rs : List Relation). All (OfVisible args) rs in
    let rest = relations_loop-OfVisible args param schema views rows v wide in
    >>=-Returns (λ _. Unit) P (at r 0) _ (at-Returns r 0 long)
      λ name _. elim (Bool-cases (like (arg args param) name)) [
        | inl e ↦
            rw (e)
              (>>=-Returns P P (relations_loop args param schema views rows) _ rest λ rs h. (v, h))
        | inr e ↦ rw (e) rest
      ]

described-schema :
    (to_lower : ℕ → ℕ) (label value third : Text) (state : Table × Text)
    → (described to_lower label value third state).0.schema ≡ state.0.schema
unfolding described
described-schema to_lower label value third (v, format) = ground arith

describe_loop-schema :
    (to_lower : ℕ → ℕ) (rows : List (List Text)) (state : Table × Text)
    → (describe_loop to_lower rows state).0.schema ≡ state.0.schema
unfolding describe_loop
describe_loop-schema to_lower [] state = refl
describe_loop-schema to_lower ((label ∷ value ∷ third ∷ _) ∷ rows) state =
    describe_loop-schema to_lower rows _
    ∙ described-schema to_lower (trim_space label) (trim_space value) third state
describe_loop-schema to_lower ([] ∷ rows) state = describe_loop-schema to_lower rows state
describe_loop-schema to_lower ((_ ∷ []) ∷ rows) state = describe_loop-schema to_lower rows state
describe_loop-schema to_lower ((_ ∷ _ ∷ []) ∷ rows) state = describe_loop-schema to_lower rows state

with_storage-schema : (state : Table × Text) → (with_storage state).schema ≡ state.0.schema
unfolding with_storage
with_storage-schema (v, format) = elim (Option-cases (cut_suffix v.type (str "view"))) [
  | inl e ↦ rw (with_storage, e) refl
  | inr (_, e) ↦ rw (with_storage, e) refl
]

module _ {W : Type 0} (query : Service W) (wide : IsWide query) where
  pub databases-IsVisible :
      (args : Args) (param : Text)
      → Gives (All (λ d. IsVisible args param d.name)) (databases query args param)
  unfolding databases width
  databases-IsVisible args param =
      then_ask-Gives (AreWide 1) _ (read_all query (str "SHOW DATABASES")) _
        (wide (str "SHOW DATABASES")) λ rows h w. databases_loop-IsVisible args param rows h

  relations_in-OfVisible :
      (args : Args) (param : Text) (d : Database)
      → IsVisible args (str "schema") d.name
      → Gives (All (OfVisible args)) (relations_in query args param d)
  unfolding relations_in width
  relations_in-OfVisible args param d v =
      let P = λ (rs : List Relation). All (OfVisible args) rs in
      then_ask-Gives (AreWide 1) P (read_all query (str "SHOW VIEWS IN " ++ quote d.name)) _
        (wide (str "SHOW VIEWS IN " ++ quote d.name))
        λ rows h.
          then_ask-Gives (λ _. Unit) P (answer (first_values rows)) _
            (λ w. first_values-Returns rows h)
            λ views _.
              then_ask-Gives (AreWide 1) P (read_all query (str "SHOW TABLES IN " ++ quote d.name))
                _ (wide (str "SHOW TABLES IN " ++ quote d.name))
                λ tables k w. relations_loop-OfVisible args param d.name views tables v k

  pub relations-OfVisible :
      (args : Args) (param : Text) → Gives (All (OfVisible args)) (relations query args param)
  unfolding relations
  relations-OfVisible args param =
      then_ask-Gives (All (λ d. IsVisible args (str "schema") d.name)) (All (OfVisible args))
        (databases query args (str "schema")) _ (databases-IsVisible args (str "schema"))
        λ dbs h.
          gather-Gives (λ d. IsVisible args (str "schema") d.name) (OfVisible args)
            (relations_in query args param) dbs h (relations_in-OfVisible args param)

  pub describe-schema :
      (to_lower : ℕ → ℕ) (r : Relation)
      → Gives (λ v. v.schema ≡ r.schema) (describe to_lower query r)
  unfolding describe
  describe-schema to_lower r =
      let stmt = str "DESCRIBE FORMATTED " ++ (quote r.schema ++ (str "." ++ quote r.name)) in
      then_ask-Gives (AreWide (width stmt)) _ (read_all query stmt) _ (wide stmt) λ rows _ w.
        with_storage-schema (describe_loop to_lower rows (undescribed r, []))
        ∙ describe_loop-schema to_lower rows (undescribed r, [])
