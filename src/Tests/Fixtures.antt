-- ===== src/Tests/Fixtures.antt =====
-- The fixtures on concrete inputs.
use dbmeta.Common.{◌≡◌, refl, List, [], ◌∷◌, ok, map}
use dbmeta.Common.Text.{str, trim_right}
use dbmeta.Version.{VersionSet, v_of, set_version, no_versions}
use dbmeta.Fixture.{Step, too_old, resolve_steps, postgres_resolve, at_step, from_step}
use dbmeta.Fixture.Steps.{
  Plain, at, from, plain_step, plain_result, Resolution, resolve_steps-Resolution,
  postgres_resolve-plain,
}

abbrev server : VersionSet
server = set_version no_versions [] (v_of (14 ∷ []))

abbrev steps : List Step
steps =
    at_step (str "schema") (str "CREATE SCHEMA s")
    ∷ from_step (str "new") (v_of (15 ∷ [])) (str "CREATE TABLE s.t (a int)")
    ∷ []

resolve_steps-Resolution_example :
    Resolution too_old server steps (resolve_steps too_old steps server)
resolve_steps-Resolution_example = resolve_steps-Resolution too_old server steps

abbrev plain_steps : List Plain
plain_steps =
    at (str "schema") (v_of []) (str "CREATE SCHEMA s")
    ∷ from (str "new") (v_of (15 ∷ [])) (str "CREATE TABLE s.t (a int)")
    ∷ []

postgres_resolve-plain_example :
    postgres_resolve (map plain_step plain_steps) server
    ≡ ok (map (plain_result server) plain_steps)
unfolding trim_right
postgres_resolve-plain_example = postgres_resolve-plain server plain_steps (refl, (refl, tt))
