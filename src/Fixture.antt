-- ===== src/Fixture.antt =====
-- models/*/fixture/fixture.go: the steps that build a known schema, resolved for one server. The packages
-- differ in the errors that skip a step.
pub mod Steps
use dbmeta.Common.{
  Bool, true, false, Option, none, some, List, [], ◌∷◌, ◌++◌, map, if◌then◌else◌, Result, ok, err,
  panic, out_of_fuel, ◌>>=◌, Error, version_too_old, not_supported, wrapped,
}
use dbmeta.Common.Text.{Text, str, replace_text}
use dbmeta.Common.Cut.{cut_suffix}
use dbmeta.Version.{Version, VersionSet}
use dbmeta.Query.{is_version_too_old, is_not_supported}
use dbmeta.Fragment.{Stmt, Gate, Choice, Fragment, build, always}

pub record Step : Type 0 where
  pub name : Text
  pub stmt : Stmt

pub record StepResult : Type 0 where
  pub name : Text
  pub query : Text
  pub skipped : Bool
  pub reason : Text

pub record Fixture : Type 0 where
  pub name : Text
  pub schema : Text
  pub setup : List Step
  pub teardown : List Step

-- What the `switch` on the error of a step says: the reason to skip it, or none to return the error.
abbrev pub Skips : Type 0
Skips = Error → Option Text

abbrev older_reason : Text
older_reason = str "the server is older than this step needs"

unfoldable pub too_old : Skips
unfolding is_version_too_old
too_old e = if is_version_too_old e then some older_reason else none

-- The same, and then the reason for an object that the server never has.
unfoldable pub too_old_or : Text → Skips
unfolding is_version_too_old is_not_supported
too_old_or reason e =
    if is_version_too_old e
    then some older_reason
    else if is_not_supported e
    then some reason
    else none

abbrev pub ran : Text → Text → StepResult
ran name query = record { name = name; query = query; skipped = false; reason = [] }

abbrev pub skipped_step : Text → Text → StepResult
skipped_step name reason = record { name = name; query = []; skipped = true; reason = reason }

abbrev after_error : Text → Error → Option Text → Result StepResult
after_error name e none = err e
after_error name e (some reason) = ok (skipped_step name reason)

-- One round of `resolve`: `Skips` is its `switch`.
unfoldable pub step_result : Skips → Text → Result Text → Result StepResult
step_result skips name (ok query) = ok (ran name query)
step_result skips name (err e) = after_error name e (skips e)
step_result skips name (panic message) = panic message
step_result skips name out_of_fuel = out_of_fuel

unfoldable pub resolve_steps : Skips → List Step → VersionSet → Result (List StepResult)
resolve_steps skips [] versions = ok []
resolve_steps skips (step ∷ steps) versions = do
  r ← step_result skips step.name (build step.stmt versions)
  rest ← resolve_steps skips steps versions
  ok (r ∷ rest)

-- `resolve` of the packages that skip a step for a newer server.
abbrev pub postgres_resolve : List Step → VersionSet → Result (List StepResult)
postgres_resolve = resolve_steps too_old

-- `resolve` of mysql and of cassandra, which also skip a step for another product.
abbrev pub mysql_resolve : List Step → VersionSet → Result (List StepResult)
mysql_resolve = resolve_steps (too_old_or (str "this product has no such object at any release"))

abbrev pub cassandra_resolve : List Step → VersionSet → Result (List StepResult)
cassandra_resolve = resolve_steps (too_old_or (str "the step is for the other product"))

-- `resolve` of the packages that skip nothing.
abbrev pub no_skips : Skips
no_skips e = none

abbrev pub duckdb_resolve : List Step → VersionSet → Result (List StepResult)
duckdb_resolve = resolve_steps no_skips

abbrev with_slash : Option Text → Text → Text
with_slash none location = location ++ str "/"
with_slash (some _) location = location

abbrev located : Text → StepResult → StepResult
located location r = record r { query = replace_text r.query (str "{location}") location }

abbrev all_located : Text → Result (List StepResult) → Result (List StepResult)
all_located location found = found >>= λ rs. ok (map (located location) rs)

-- `resolve` of athena, which names the location of the data in the statements.
unfoldable pub athena_resolve : List Step → VersionSet → Text → Result (List StepResult)
athena_resolve steps versions location =
    all_located (with_slash (cut_suffix location (str "/")) location)
      (resolve_steps no_skips steps versions)

-- `Fixture.ResolveSetup` and `Fixture.ResolveTeardown` of postgres
unfoldable pub resolve_setup : Fixture → VersionSet → Result (List StepResult)
resolve_setup f versions = postgres_resolve f.setup versions

unfoldable pub resolve_teardown : Fixture → VersionSet → Result (List StepResult)
resolve_teardown f versions = postgres_resolve f.teardown versions

-- `at`
abbrev pub at_step : Text → Text → Step
at_step name query = record { name = name; stmt = always query }

-- `from`
abbrev pub from_step : Text → Version → Text → Step
from_step name since query = record {
  name = name;
  stmt = (record { min = since; key = []; query = query } ∷ []) ∷ [];
}

-- `choose`
abbrev pub choose_step : Text → Choice → Step
choose_step name alternatives = record { name = name; stmt = alternatives ∷ [] }

abbrev gated : Text → Gate → Fragment
gated query g = record { min = g.min; key = g.key; query = query }

-- `when` of mysql
unfoldable pub when_step : Text → Text → List Gate → Step
when_step name query gates = record { name = name; stmt = map (gated query) gates ∷ [] }
