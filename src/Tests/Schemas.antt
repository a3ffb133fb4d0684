-- ===== src/Tests/Schemas.antt =====
-- The profiles of the standard's information_schema on concrete inputs.
use dbmeta.Common.{ℕ, ◌≡◌, refl, true, false, none, some, [], ◌∷◌, ok}
use dbmeta.Common.Text.{Text, str, text_eq, join, replace_all, trim_right}
use dbmeta.Common.Assoc
use dbmeta.Version
use dbmeta.Version.{format_uint, no_versions}
use dbmeta.Fragment.{
  build, resolve, resolve_loop, met, reachable, consider, prefer, chosen, build_parts, keep_part,
  join_parts,
}
use dbmeta.Models.Passwords.Template.{read_slots}
use dbmeta.InfoSchema.{
  Profile, standard, with_features, without_features, has_feature, has, clause, system_schemas,
  standard_clauses,
}
use dbmeta.InfoSchema.Details.{current_user}
use dbmeta.Version.{VersionSet}
use dbmeta.Dialect.{Infos}
use dbmeta.Query.{Query, Item, binding}
use dbmeta.InfoSchema.Builds.{Kind}
use dbmeta.InfoSchema.Registers.{register_profile}
use dbmeta.InfoSchema.Supported.{Answers, register_profile-Answers}
use dbmeta.InfoSchema.Schemas.{places, system_schemas-names}

abbrev profile : Profile
profile = record {
  placeholder = format_uint;
  features = some (without_features standard (str "sequences" ∷ []));
  clauses = (str "current_schema", str "DATABASE()") ∷ [];
  hidden_schemas = str "sys" ∷ str "o'hara" ∷ [];
  version_query = [];
  version_columns = 0;
  parse_version = none;
}

system_schemas-names_example :
    read_slots (places (str "sys" ∷ str "o'hara" ∷ [])) (system_schemas profile)
    ≡ some (str "sys" ∷ str "o'hara" ∷ [])
system_schemas-names_example = system_schemas-names profile

lists : system_schemas profile ≡ str "'sys', 'o''hara'"
unfolding system_schemas join replace_all
lists = refl

lacks_sequences : has profile (str "sequences") ≡ false
unfolding has without_features Assoc.put Assoc.get text_eq
lacks_sequences = refl

keeps_views : has profile (str "views") ≡ true
unfolding has without_features Assoc.put Assoc.get text_eq
keeps_views = refl

adds_indexes : has_feature (with_features standard (str "indexes" ∷ [])) (str "indexes") ≡ true
unfolding has_feature with_features Assoc.put Assoc.get text_eq
adds_indexes = refl

own_clause : clause profile (str "current_schema") ≡ str "DATABASE()"
unfolding clause Assoc.get text_eq
own_clause = refl

standard_clause : clause profile (str "current_user") ≡ str "CURRENT_USER"
unfolding clause Assoc.get text_eq
standard_clause = refl

session_statement :
    build (current_user profile (λ (row : Text). (row, none))).stmt no_versions
    ≡ ok (str "SELECT CURRENT_USER AS \"name\"\n, SESSION_USER AS \"session\"")
unfolding current_user clause build resolve trim_right join standard_clauses Assoc.get text_eq
    resolve_loop met reachable consider prefer chosen build_parts keep_part join_parts
    Version.at_least Version.compare Version.get Version.has Assoc.has
session_statement = refl

abbrev scan_row : ℕ → Item ℕ
scan_row n = (n, none)

abbrev empty_queries : Kind → Query ℕ ℕ
empty_queries k = record { name = str "kind"; bindings = [] }

register_profile-Answers_example :
    (infos' : Infos) × (qs' : Kind → Query ℕ ℕ) × (register_profile [] empty_queries
        (str "presto")
        profile
        scan_row
      ≡ ok (infos', qs'))
    × Answers (str "presto") profile infos' qs'
register_profile-Answers_example =
    register_profile-Answers [] empty_queries (str "presto") profile scan_row
      (unfold Assoc.get in refl) λ k. unfold binding in refl
