-- ===== src/InfoSchema/Registers.antt =====
-- `Register` of informationschema.go: the dialect and the kinds that a profile has.
use dbmeta.Common.{
  ℕ, Bool, true, false, Option, none, some, List, [], ◌∷◌, ◌==◌, if◌then◌else◌, Result, ok, ◌>>=◌,
}
use dbmeta.Common.Text.{Text, str}
use dbmeta.Info.{Info, no_info, no_syntax}
use dbmeta.Dialect.{Infos, Dialect, register_dialect}
use dbmeta.Query.{Query, Item, register}
use dbmeta.InfoSchema.{Profile, has}
use dbmeta.InfoSchema.Builds.{
  Kind, schemas_kind, tables_kind, columns_kind, constraints_kind, sequences_kind, functions_kind,
  privileges_kind, constraint_columns_kind, routine_parameters_kind, views_kind,
  current_schema_kind, current_user_kind, binding_of,
}

-- The feature that a profile must have for a kind; none for the kinds that are always registered.
abbrev pub feature_of : Kind → Option Text
feature_of constraints_kind = some (str "constraints")
feature_of sequences_kind = some (str "sequences")
feature_of functions_kind = some (str "functions")
feature_of privileges_kind = some (str "table_privileges")
feature_of constraint_columns_kind = some (str "constraints")
feature_of routine_parameters_kind = some (str "parameters")
feature_of views_kind = some (str "views")
feature_of _ = none

unfoldable pub is_registered : Profile → Kind → Bool
unfolding has
is_registered p k = elim (feature_of k) [ none ↦ true | some f ↦ has p f ]

-- The kinds, in the order of the calls.
abbrev pub kinds : List Kind
kinds =
    schemas_kind ∷ tables_kind ∷ columns_kind ∷ constraints_kind ∷ sequences_kind ∷ functions_kind
    ∷ privileges_kind ∷ constraint_columns_kind ∷ routine_parameters_kind ∷ views_kind
    ∷ current_schema_kind ∷ current_user_kind ∷ []

abbrev pub number : Kind → ℕ
number schemas_kind = 0
number tables_kind = 1
number columns_kind = 2
number constraints_kind = 3
number sequences_kind = 4
number functions_kind = 5
number privileges_kind = 6
number constraint_columns_kind = 7
number routine_parameters_kind = 8
number views_kind = 9
number current_schema_kind = 10
number current_user_kind = 11

abbrev pub info_of_profile : Profile → Info
info_of_profile p = record no_info {
  syntax = record no_syntax { dash_comments = true };
  placeholder = some p.placeholder;
  version_query = p.version_query;
  version_columns = p.version_columns;
  parse_version = p.parse_version;
}

module _ {Row T : Type 0} where
  -- The query of each kind, with that of one kind replaced.
  abbrev pub put_query : (Kind → Query Row T) → Kind → Query Row T → Kind → Query Row T
  put_query qs k q other = if number k == number other then q else qs other

  unfoldable pub register_kinds :
      Dialect
      → Profile
      → (Row → Item T)
      → List Kind
      → (Kind → Query Row T)
      → Result (Kind → Query Row T)
  unfolding is_registered
  register_kinds d p scan [] qs = ok qs
  register_kinds d p scan (k ∷ ks) qs = elim (is_registered p k) [
    | false ↦ register_kinds d p scan ks qs
    | true ↦ register (qs k) d (binding_of k p scan) >>= λ q.
        register_kinds d p scan ks (put_query qs k q)
  ]

  -- `Register`
  unfoldable pub register_profile :
      Infos
      → (Kind → Query Row T)
      → Dialect
      → Profile
      → (Row → Item T)
      → Result (Infos × (Kind → Query Row T))
  unfolding register_kinds
  register_profile infos qs d p scan = register_dialect infos d (info_of_profile p) >>= λ infos'.
      register_kinds d p scan kinds qs >>= λ qs'. ok (infos', qs')
