-- ===== src/InfoSchema/Builds.antt =====
-- The statements of informationschema.go on the servers that they are run on.
use dbmeta.Common.{
  ◌≡◌, refl, sym, ◌∙◌, ap, ℕ, Bool, false, List, [], ◌∷◌, ◌++◌, map, is_empty, Bool-cases, inl, inr,
  ok,
}
use mathlib.Core.List.{reverse, reverse-append}
use dbmeta.Common.Text.{Text, str, join, trim_left, trim_right}
use dbmeta.Version
use dbmeta.Version.{VersionSet, at_least}
use dbmeta.Fragment.{
  Choice, Stmt, resolve, is_blank, keep_part, build_parts, join_parts, build, no_version,
}
use dbmeta.Fragment.Build.{kept}
use dbmeta.Fixture.Steps.{one_alternative, at_least-no_version}
use dbmeta.Query.{Binding, Item}
use dbmeta.InfoSchema.{Profile, clause}
use dbmeta.InfoSchema.Catalogs.{line, schemas, tables, columns}
use dbmeta.InfoSchema.Objects.{constraints, sequences, functions, privileges}
use dbmeta.InfoSchema.Details.{
  constraint_columns, routine_parameters, views, current_user, current_schema,
}

pub data Kind : Type 0 where
  schemas_kind tables_kind columns_kind constraints_kind sequences_kind functions_kind : Kind
  privileges_kind constraint_columns_kind routine_parameters_kind views_kind : Kind
  current_schema_kind current_user_kind : Kind

-- The binding that a kind has from a profile.
abbrev pub binding_of : {Row T : Type 0} → Kind → Profile → (Row → Item T) → Binding Row T
binding_of schemas_kind = schemas
binding_of tables_kind = tables
binding_of columns_kind = columns
binding_of constraints_kind = constraints
binding_of sequences_kind = sequences
binding_of functions_kind = functions
binding_of privileges_kind = privileges
binding_of constraint_columns_kind = constraint_columns
binding_of routine_parameters_kind = routine_parameters
binding_of views_kind = views
binding_of current_schema_kind = current_schema
binding_of current_user_kind = current_user

resolve-line : (q : Text) (versions : VersionSet) → resolve (line q) versions ≡ ok q
resolve-line q versions =
    rw (one_alternative versions no_version q, at_least-no_version (Version.get versions [])) refl

build_parts-lines :
    (ls : List Text) (versions : VersionSet) → build_parts (map line ls) versions ≡ ok (kept ls)
unfolding build_parts
build_parts-lines [] versions = refl
build_parts-lines (q ∷ ls) versions =
    rw (resolve-line q versions, build_parts-lines ls versions) refl

not_empty : (xs : Text) (c : ℕ) → is_empty (xs ++ c ∷ []) ≡ false
not_empty [] c = refl
not_empty (x ∷ xs) c = refl

reversed : (xs : Text) (c : ℕ) → is_empty (reverse (xs ++ c ∷ [])) ≡ false
reversed xs c = ap is_empty (reverse-append xs (c ∷ []))

trimmed :
    (p : ℕ → Bool) (xs : Text) (c : ℕ)
    → p c ≡ false
    → is_empty (reverse (trim_left p (xs ++ c ∷ []))) ≡ false
unfolding trim_left
trimmed p [] c h = rw (trim_left, h) refl
trimmed p (x ∷ xs) c h = elim (Bool-cases (p x)) [
  | inl e ↦ rw (trim_left, e) (trimmed p xs c h)
  | inr e ↦ rw (trim_left, e) (reversed (x ∷ xs) c)
]

-- A text that starts with no blank is not empty behind the removal of the blanks at its end.
trim_right-first :
    (p : ℕ → Bool) (c : ℕ) (s : Text) → p c ≡ false → is_empty (trim_right p (c ∷ s)) ≡ false
unfolding trim_right
trim_right-first p c s h =
    ap (λ t. is_empty (reverse (trim_left p t))) (reverse-append (c ∷ []) s)
    ∙ trimmed p (reverse s) c h

-- The text of the first alternative of each piece.
abbrev query_of : Choice → Text
query_of [] = []
query_of (f ∷ _) = f.query

abbrev first_query : Stmt → Text
first_query [] = []
first_query (c ∷ _) = query_of c

-- The lines of a statement of fixed lines.
abbrev pub text_of : Stmt → Text
text_of st = join (10 ∷ []) (kept (map query_of st))

-- A statement of fixed lines, of which the first is not blank, is the same text on every server.
build-line :
    (st : Stmt) (versions : VersionSet)
    → map line (map query_of st) ≡ st
    → is_empty (trim_right is_blank (first_query st)) ≡ false
    → build st versions ≡ ok (text_of st)
unfolding build join_parts keep_part trim_right trim_left
build-line [] versions e h = cc
build-line (c ∷ st) versions e h =
    ap (λ t. build t versions) (sym e)
    ∙ rw
        (
          resolve-line (query_of c) versions,
          build_parts-lines (map query_of st) versions,
          keep_part,
          h,
        )
        refl

-- The statement of each kind is one text, the same on every server: no piece of it is refused for the
-- release or the product of the server, and it is never empty.
pub build-Fixed :
    {Row T : Type 0} (k : Kind) (p : Profile) (scan : Row → Item T)
    → (text : Text) × ((versions : VersionSet)
        → build (binding_of k p scan).stmt versions ≡ ok text)
unfolding schemas tables columns constraints sequences functions privileges constraint_columns
    routine_parameters views current_schema current_user trim_right trim_left
build-Fixed schemas_kind p scan =
    (text_of (schemas p scan).stmt, λ v. build-line (schemas p scan).stmt v refl refl)
build-Fixed tables_kind p scan =
    (text_of (tables p scan).stmt, λ v. build-line (tables p scan).stmt v refl refl)
build-Fixed columns_kind p scan =
    (text_of (columns p scan).stmt, λ v. build-line (columns p scan).stmt v refl refl)
build-Fixed constraints_kind p scan =
    (text_of (constraints p scan).stmt, λ v. build-line (constraints p scan).stmt v refl refl)
build-Fixed sequences_kind p scan =
    (text_of (sequences p scan).stmt, λ v. build-line (sequences p scan).stmt v refl refl)
build-Fixed functions_kind p scan =
    (text_of (functions p scan).stmt, λ v. build-line (functions p scan).stmt v refl refl)
build-Fixed privileges_kind p scan =
    (text_of (privileges p scan).stmt, λ v. build-line (privileges p scan).stmt v refl refl)
build-Fixed constraint_columns_kind p scan = (
  text_of (constraint_columns p scan).stmt,
  λ v. build-line (constraint_columns p scan).stmt v refl refl,
)
build-Fixed routine_parameters_kind p scan = (
  text_of (routine_parameters p scan).stmt,
  λ v. build-line (routine_parameters p scan).stmt v refl refl,
)
build-Fixed views_kind p scan =
    (text_of (views p scan).stmt, λ v. build-line (views p scan).stmt v refl refl)
build-Fixed current_schema_kind p scan =
    (text_of (current_schema p scan).stmt, λ v. build-line (current_schema p scan).stmt v refl refl)
build-Fixed current_user_kind p scan = (
  text_of (current_user p scan).stmt,
  λ v. build-line (current_user p scan).stmt v refl (
      trim_right-first is_blank b'S'
        (str "ELECT " ++ (clause p (str "current_user") ++ str " AS \"name\"")) refl),
)
