-- ===== src/Fixture/Steps.antt =====
-- What the fixtures give for a server, step by step.
use dbmeta.Common.{
  ℕ, ◌≡◌, map, All, refl, ap, ◌∙◌, true, false, none, some, List, [], ◌∷◌, ◌++◌, if◌then◌else◌,
  Result, ok, err, ◌>>=◌, Error, version_too_old, Option-cases, Bool-cases, inl, inr, arith,
  is_empty, ◌⊎◌,
}
use dbmeta.Common.Text.{Text, str, trim_right, join}
use dbmeta.Common.Int.{neg_part}
use dbmeta.Version
use dbmeta.Version.{Version, VersionSet, at_least}
use dbmeta.Version.Order.{compare-release_order, padded}
use dbmeta.Query.{is_version_too_old}
use dbmeta.Fragment.{
  Stmt, build, is_blank, resolve, resolve_loop, consider, chosen, met, reachable, keep_part,
  join_parts, build_parts, always, no_version,
}
use dbmeta.Fragment.Build.{Built, build-Built, blank, built, failed}
use dbmeta.Fixture.{
  Step, StepResult, Skips, ran, skipped_step, step_result, resolve_steps, too_old, postgres_resolve,
  at_step, from_step,
}

module _ (skips : Skips) (versions : VersionSet) where
  -- A step is run with the statement that its pieces build, or skipped for the reason that the error has.
  pub data Resolves (step : Step) : StepResult → Type 0 where
    runs :
        (query : Text) → build step.stmt versions ≡ ok query → Resolves step (ran step.name query)
    skips_it :
        (e : Error) (reason : Text)
        → build step.stmt versions ≡ err e
        → skips e ≡ some reason
        → Resolves step (skipped_step step.name reason)

  pub data ResolvesAll : List Step → List StepResult → Type 0 where
    done : ResolvesAll [] []
    next :
        {step : Step} {steps : List Step} {r : StepResult} {rs : List StepResult}
        → Resolves step r
        → ResolvesAll steps rs
        → ResolvesAll (step ∷ steps) (r ∷ rs)

  -- One result for each step, in order, or the error of the first step that fails with another error.
  pub data Resolution (steps : List Step) : Result (List StepResult) → Type 0 where
    resolved : (rs : List StepResult) → ResolvesAll steps rs → Resolution steps (ok rs)
    stopped :
        (before : List Step) (step : Step) (after : List Step) (rs : List StepResult) (e : Error)
        → steps ≡ before ++ step ∷ after
        → ResolvesAll before rs
        → build step.stmt versions ≡ err e
        → skips e ≡ none
        → Resolution steps (err e)

  build-ends :
      (st : Stmt)
      → ((q : Text) × (build st versions ≡ ok q)) ⊎ ((e : Error) × (build st versions ≡ err e))
  build-ends st = go (build st versions) (build-Built st versions)
    where
      go :
          (r : Result Text)
          → Built versions st r
          → ((q : Text) × (r ≡ ok q)) ⊎ ((e : Error) × (r ≡ err e))
      go _ (built qs part parts h k) = inl (_, refl)
      go _ (blank qs h k) = inr (_, refl)
      go _ (failed before c after qs e h k l) = inr (e, refl)

  resolved_later :
      (step : Step) (r : StepResult) (steps : List Step) (found : Result (List StepResult))
      → Resolves step r
      → Resolution steps found
      → Resolution (step ∷ steps) (found >>= λ rest. ok (r ∷ rest))
  resolved_later step r steps _ h (resolved rs all) = resolved (r ∷ rs) (next h all)
  resolved_later step r steps _ h (stopped before bad after rs e split all b s) =
      stopped (step ∷ before) bad after (r ∷ rs) e (ap (λ l. step ∷ l) split) (next h all) b s

  -- A fixture resolves to one result for each step, in order: the statement that the step's pieces build
  -- for the server, or a skip with its reason when they fail with an error that skips a step. The first
  -- other error is returned in place of the results.
  pub resolve_steps-Resolution :
      (steps : List Step) → Resolution steps (resolve_steps skips steps versions)
  unfolding resolve_steps step_result
  resolve_steps-Resolution [] = resolved [] done
  resolve_steps-Resolution (step ∷ steps) = elim (build-ends step.stmt) [
    | inl (q, b) ↦
        rw b (
          resolved_later step (ran step.name q) steps _ (runs q b) (resolve_steps-Resolution steps))
    | inr (e, b) ↦ elim (Option-cases (skips e)) [
      | inl n ↦ rw (b, n) (stopped [] step steps [] e refl done b n)
      | inr (reason, s) ↦
          rw (b, s)
            (resolved_later step (skipped_step step.name reason) steps _ (skips_it e reason b s)
              (resolve_steps-Resolution steps))
    ]
  ]

-- A step that `at` or `from` makes.
pub data Plain : Type 0 where
  at from : Text → Version → Text → Plain

abbrev pub plain_step : Plain → Step
plain_step (at name since query) = at_step name query
plain_step (from name since query) = from_step name since query

-- Something of the statement is left without the blanks at its end.
abbrev pub HasText : Plain → Type 0
HasText (at name since query) = is_empty (trim_right is_blank query) ≡ false
HasText (from name since query) = is_empty (trim_right is_blank query) ≡ false

abbrev pub plain_result : VersionSet → Plain → StepResult
plain_result versions (at name since query) = ran name (trim_right is_blank query)
plain_result versions (from name since query) =
    if at_least (Version.get versions []) since
    then ran name (trim_right is_blank query)
    else skipped_step name (str "the server is older than this step needs")

pub one_alternative :
    (versions : VersionSet) (since : Version) (query : Text)
    → resolve (record { min = since; key = []; query = query } ∷ []) versions
      ≡ (if at_least (Version.get versions []) since then ok query else err version_too_old)
unfolding resolve resolve_loop consider chosen met reachable
one_alternative versions since query =
    elim (Bool-cases (at_least (Version.get versions []) since)) [
      | inl e ↦ rw (resolve, resolve_loop, met, e) refl
      | inr e ↦ rw (resolve, resolve_loop, met, e) refl
    ]

one_part : (part : Text) → is_empty part ≡ false → join_parts (keep_part [] part) ≡ ok part
unfolding join_parts keep_part join
one_part part h = rw h refl

build_one :
    (versions : VersionSet) (since : Version) (query : Text)
    → is_empty (trim_right is_blank query) ≡ false
    → build ((record { min = since; key = []; query = query } ∷ []) ∷ []) versions ≡ (
        if at_least (Version.get versions []) since
        then ok (trim_right is_blank query)
        else err version_too_old)
unfolding build build_parts
build_one versions since query h = elim (Bool-cases (at_least (Version.get versions []) since)) [
  | inl e ↦ rw (one_alternative versions since query, e) (one_part (trim_right is_blank query) h)
  | inr e ↦ rw (one_alternative versions since query, e) refl
]

from_result :
    (versions : VersionSet) (name : Text) (since : Version) (query : Text)
    → is_empty (trim_right is_blank query) ≡ false
    → step_result too_old name
        (build ((record { min = since; key = []; query = query } ∷ []) ∷ []) versions)
      ≡ ok (plain_result versions (from name since query))
unfolding step_result too_old is_version_too_old
from_result versions name since query h =
    elim (Bool-cases (at_least (Version.get versions []) since)) [
      | inl e ↦ rw (build_one versions since query h, e) refl
      | inr e ↦ rw (build_one versions since query h, e) refl
    ]

not_negative : (v : List ℕ) → neg_part (padded v []) ≡ 0
unfolding padded
not_negative [] = refl
not_negative (a ∷ v) = ground (arith, not_negative v)

-- Every version is at least the zero Version.
pub at_least-no_version : (v : Version) → at_least v no_version ≡ true
unfolding at_least
at_least-no_version v = ground (arith, compare-release_order v no_version, not_negative v.parts)

plain_step-result :
    (versions : VersionSet) (t : Plain)
    → HasText t
    → step_result too_old (plain_step t).name (build (plain_step t).stmt versions)
      ≡ ok (plain_result versions t)
unfolding always
plain_step-result versions (from name since query) h = from_result versions name since query h
plain_step-result versions (at name since query) h =
    from_result versions name no_version query h
    ∙ rw (at_least-no_version (Version.get versions [])) refl

-- A fixture of steps that `at` and `from` make, each with a statement that is not blank, resolves on every
-- server, to one result for each step in order: the statement without the blanks at its end, or a skip,
-- and a skip exactly for a `from` step of a release that the server's main version does not reach.
pub postgres_resolve-plain :
    (versions : VersionSet) (steps : List Plain)
    → All HasText steps
    → postgres_resolve (map plain_step steps) versions ≡ ok (map (plain_result versions) steps)
unfolding resolve_steps
postgres_resolve-plain versions [] h = refl
postgres_resolve-plain versions (t ∷ steps) h =
    rw (plain_step-result versions t h.0, postgres_resolve-plain versions steps h.1) refl
