-- ===== src/InfoSchema/Needs.antt =====
-- The features that the kinds of rows need in a profile of informationschema.go.
use dbmeta.Common.{
  ◌≡◌, ◌≢◌, refl, sym, ap, ◌∙◌, subst, Bool, true, false, false≢true, Option, none, some,
  if◌then◌else◌,
}
use dbmeta.Common.Text.{Text, str}
use dbmeta.Common.Assoc
use dbmeta.Common.Assoc.{Map, get-put}
use dbmeta.Query.{Support, supported, unsupported}
use dbmeta.InfoSchema.{Profile, Features, standard, features_of, or_false, has, has_feature}
use dbmeta.InfoSchema.Builds.{
  Kind, schemas_kind, tables_kind, columns_kind, constraints_kind, sequences_kind, functions_kind,
  privileges_kind, constraint_columns_kind, routine_parameters_kind, views_kind,
  current_schema_kind, current_user_kind,
}
use dbmeta.InfoSchema.Registers.{is_registered}

-- The feature that a kind of row needs.
pub data Needs : Kind → Text → Type 0 where
  constraints_need : Needs constraints_kind (str "constraints")
  sequences_need : Needs sequences_kind (str "sequences")
  functions_need : Needs functions_kind (str "functions")
  privileges_need : Needs privileges_kind (str "table_privileges")
  constraint_columns_need : Needs constraint_columns_kind (str "constraints")
  routine_parameters_need : Needs routine_parameters_kind (str "parameters")
  views_need : Needs views_kind (str "views")

-- The kinds that need none.
pub data NeedsNone : Kind → Type 0 where
  schemas_free : NeedsNone schemas_kind
  tables_free : NeedsNone tables_kind
  columns_free : NeedsNone columns_kind
  current_schema_free : NeedsNone current_schema_kind
  current_user_free : NeedsNone current_user_kind

-- The features of a profile: those it names, or else the standard ones.
abbrev pub offered : Option Features → Features
offered none = standard
offered (some f) = f

-- What a query of a kind answers on a profile.
pub data Answer (p : Profile) (k : Kind) : Support → Type 0 where
  free : NeedsNone k → Answer p k supported
  met : (f : Text) → Needs k f → Assoc.get (offered p.features) f ≡ some true → Answer p k supported
  unmet :
      (f : Text) → Needs k f → Assoc.get (offered p.features) f ≢ some true → Answer p k unsupported

features_of_lem : (o : Option Features) → features_of o ≡ offered o
features_of_lem none = refl
features_of_lem (some f) = refl

has-offered : (p : Profile) (f : Text) → has p f ≡ or_false (Assoc.get (offered p.features) f)
unfolding has has_feature
has-offered p f = ap (λ fs. or_false (Assoc.get fs f)) (features_of_lem p.features)

abbrev pub answer_for : Bool → Support
answer_for b = if b then supported else unsupported

of_feature :
    (p : Profile) (k : Kind) (f : Text)
    → Needs k f
    → (v : Option Bool) → Assoc.get (offered p.features) f ≡ v
    → Answer p k (answer_for (or_false v))
of_feature p k f n none e = unmet f n λ t. cc
of_feature p k f n (some true) e = met f n e
of_feature p k f n (some false) e = unmet f n λ t. false≢true (ap or_false (sym e ∙ t))

needing :
    (p : Profile) (k : Kind) (f : Text)
    → Needs k f
    → is_registered p k ≡ has p f
    → Answer p k (answer_for (is_registered p k))
needing p k f n e =
    subst (λ b. Answer p k (answer_for b)) (sym (e ∙ has-offered p f))
      (of_feature p k f n (Assoc.get (offered p.features) f) refl)

pub is_registered-Answer : (p : Profile) (k : Kind) → Answer p k (answer_for (is_registered p k))
unfolding is_registered
is_registered-Answer p schemas_kind = free schemas_free
is_registered-Answer p tables_kind = free tables_free
is_registered-Answer p columns_kind = free columns_free
is_registered-Answer p constraints_kind = needing p _ _ constraints_need refl
is_registered-Answer p sequences_kind = needing p _ _ sequences_need refl
is_registered-Answer p functions_kind = needing p _ _ functions_need refl
is_registered-Answer p privileges_kind = needing p _ _ privileges_need refl
is_registered-Answer p constraint_columns_kind = needing p _ _ constraint_columns_need refl
is_registered-Answer p routine_parameters_kind = needing p _ _ routine_parameters_need refl
is_registered-Answer p views_kind = needing p _ _ views_need refl
is_registered-Answer p current_schema_kind = free current_schema_free
is_registered-Answer p current_user_kind = free current_user_free
