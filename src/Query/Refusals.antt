-- ===== src/Query/Refusals.antt =====
-- `lookup` and `Build` of query.go, by the answer of `Support`.
use dbmeta.Common.{
  ◌≡◌, ◌≢◌, refl, sym, subst, ◌∙◌, ap, inl, inr, true, false≢true, All, Bool-cases, [], ◌∷◌, ◌++◌,
  Option, none, some, List, Option-cases, Result, ok, err, ◌>>=◌, not_supported, model_not_built,
  several_statements, Error,
}
use dbmeta.Common.Text.{Text}
use dbmeta.Value
use dbmeta.Common.Assoc
use dbmeta.Value.{Value, nil, string, bool, strings, int, opaque, as_bool, as_bool-true}
use dbmeta.Info.{Info}
use dbmeta.Fragment
use dbmeta.Fragment.{Stmt}
use dbmeta.Fragment.Build.{Built, built, blank, failed, build-Built}
use dbmeta.Dialect.{Infos, info_of, Meta}
use dbmeta.Bind.{Args, bind}
use dbmeta.Query.{
  Query, Binding, Variant, value_or_nil, Support, not_built, unsupported, supported, too_old,
  support_of, binding, lookup, lookup_as, build, build_binding, variant_stmt,
}
use dbmeta.Query.Answers.{Supports, Found, Says, no_model, no_binding, asks, support_of-Supports}

-- The arguments hold true for the parameter of a variant.
abbrev pub IsOn : Args → Variant → Type 0
IsOn args v = Assoc.get args v.param ≡ some (bool true)

-- The statement that the arguments choose: that of the first variant they turn on, or the binding's own
-- where they turn on none.
pub data Chosen (args : Args) (own : Stmt) (variants : List Variant) : Stmt → Type 0 where
  none_on : All (λ v. ¬ IsOn args v) variants → Chosen args own variants own
  first_on :
      (before after : List Variant) (v : Variant)
      → variants ≡ before ++ v ∷ after
      → All (λ u. ¬ IsOn args u) before
      → IsOn args v
      → Chosen args own variants v.stmt

is_on-true : (v : Option Value) → as_bool (value_or_nil v) ≡ true → v ≡ some (bool true)
is_on-true none e = absurd (false≢true e)
is_on-true (some v) e = ap some (as_bool-true v e)

-- A variant that is off, in front of others.
behind :
    (args : Args) (own stmt : Stmt) (v : Variant) (variants : List Variant)
    → ¬ IsOn args v
    → Chosen args own variants stmt
    → Chosen args own (v ∷ variants) stmt
behind args own stmt v variants off (none_on offs) = none_on (off, offs)
behind args own stmt v variants off (first_on before after u split offs on) =
    first_on (v ∷ before) after u (ap (λ vs. v ∷ vs) split) (off, offs) on

variant_stmt-Chosen :
    (own : Stmt) (variants : List Variant) (args : Args)
    → Chosen args own variants (variant_stmt own variants args)
unfolding variant_stmt
variant_stmt-Chosen own [] args = none_on tt
variant_stmt-Chosen own (v ∷ variants) args =
    elim (Bool-cases (as_bool (value_or_nil (Assoc.get args v.param)))) [
      | inl e ↦ rw (e, variant_stmt) (first_on [] variants v refl tt (is_on-true _ e))
      | inr e ↦
          rw (e, variant_stmt)
            (behind args own _ v variants
              (λ on. false≢true (sym e ∙ ap (λ o. as_bool (value_or_nil o)) on))
              (variant_stmt-Chosen own variants args))
    ]

module _ {Row T : Type 0} (infos : Infos) (q : Query Row T) (m : Meta) (args : Args) where
  -- What `Build` may answer.
  pub data Builds : Result (Text × List Value.Bound) → Type 0 where
    unknown_dialect : support_of infos q m ≡ not_built → Builds (err model_not_built)
    refused : support_of infos q m ≡ unsupported → Builds (err not_supported)
    walked :
        (b : Binding Row T)
        → Found infos q m b
        → support_of infos q m ≢ unsupported
        → b.walk ≢ none
        → Builds (err several_statements)
    bound :
        (b : Binding Row T) (f : Found infos q m b) (stmt : Stmt)
        → support_of infos q m ≢ unsupported
        → b.walk ≡ none
        → Chosen args b.stmt b.variants stmt
        → (text : Text) → Built m.versions stmt (ok text)
        → Builds (bind text f.info b.params b.derived args)
    unbuilt :
        (b : Binding Row T) (f : Found infos q m b) (stmt : Stmt)
        → support_of infos q m ≢ unsupported
        → b.walk ≡ none
        → Chosen args b.stmt b.variants stmt
        → (e : Error) → Built m.versions stmt (err e)
        → Builds (err e)

  abbrev asked : Binding Row T → Result Text
  asked b = Fragment.build (variant_stmt b.stmt b.variants args) m.versions

  as_said :
      (answer : Support) (found : Option (Binding Row T))
      → support_of infos q m ≡ answer
      → binding q m.dialect ≡ found
      → build infos q m args
        ≡ (lookup_as answer found >>= build_binding (info_of infos m.dialect) m.versions args)
  unfolding build lookup
  as_said answer found s e = rw (s, e, build, lookup)

  asked_walk :
      (b : Binding Row T) (i : Option Info) (w : Args → List (T × Option Error))
      → b.walk ≡ some w
      → build_binding i m.versions args b ≡ err several_statements
  unfolding build_binding
  asked_walk b i w e = rw (e, build_binding)

  asked_once :
      (b : Binding Row T) (i : Info)
      → b.walk ≡ none
      → build_binding (some i) m.versions args b
        ≡ (asked b >>= λ s. bind s i b.params b.derived args)
  unfolding build_binding
  asked_once b i e = rw (e, build_binding)

  -- From the text that the statement builds to, or the error.
  from_text :
      (b : Binding Row T) (f : Found infos q m b) (stmt : Stmt)
      → support_of infos q m ≢ unsupported
      → b.walk ≡ none
      → Chosen args b.stmt b.variants stmt
      → (r : Result Text) → Built m.versions stmt r
      → Builds (r >>= λ s. bind s f.info b.params b.derived args)
  from_text b f stmt s n ch _ (built qs part parts rs k) =
      bound b f stmt s n ch _ (built qs part parts rs k)
  from_text b f stmt s n ch _ (blank qs rs k) = unbuilt b f stmt s n ch _ (blank qs rs k)
  from_text b f stmt s n ch _ (failed before c after qs e eq rs k) =
      unbuilt b f stmt s n ch e (failed before c after qs e eq rs k)

  -- From a binding that is found and may be asked.
  through :
      (b : Binding Row T) (f : Found infos q m b)
      → support_of infos q m ≢ unsupported
      → build infos q m args ≡ build_binding (some f.info) m.versions args b
      → Builds (build infos q m args)
  through b f s e = elim (Option-cases b.walk) [
    | inl n ↦ subst Builds (sym (e ∙ asked_once b f.info n)) (
        from_text b f _ s n (variant_stmt-Chosen b.stmt b.variants args) _
          (build-Built (variant_stmt b.stmt b.variants args) m.versions))
    | inr (w, h) ↦ subst Builds (sym (e ∙ asked_walk b (some f.info) w h)) (walked b f s λ n. cc)
  ]

  asked_build :
      (b : Binding Row T) (answer : Support) (f : Found infos q m b)
      → support_of infos q m ≡ answer
      → lookup_as answer (some b) ≡ ok b
      → build infos q m args ≡ build_binding (some f.info) m.versions args b
  asked_build b answer f s l =
      as_said answer (some b) s f.bound
      ∙ (ap (λ r. r >>= build_binding (info_of infos m.dialect) m.versions args) l
          ∙ ap (λ i. build_binding i m.versions args b) f.built)

  by_answer :
      (b : Binding Row T) (answer : Support) (f : Found infos q m b) {r : Result Text}
      → Says r answer
      → support_of infos q m ≡ answer
      → Builds (build infos q m args)
  by_answer b not_built f says s = elim says [ ]
  by_answer b unsupported f says s =
      subst Builds (sym (as_said unsupported (some b) s f.bound)) (refused s)
  by_answer b supported f says s = through b f (λ n. cc) (asked_build b supported f s refl)
  by_answer b too_old f says s = through b f (λ n. cc) (asked_build b too_old f s refl)

  by_support :
      (answer : Support)
      → Supports infos q m answer
      → support_of infos q m ≡ answer
      → Builds (build infos q m args)
  by_support answer (no_model e) s =
      subst Builds (sym (as_said not_built _ s refl)) (unknown_dialect s)
  by_support answer (no_binding info e n) s =
      subst Builds (sym (as_said unsupported none s n)) (refused s)
  by_support answer (asks b f says) s = by_answer b answer f says s

-- `Build` gives the error "model not built" or "not supported" when `Support` says so. In every other
-- case the query has a binding for the dialect, and `Build` refuses a binding that walks over several
-- statements. For one with a single statement it takes that of the first variant whose parameter is true
-- in the arguments, or the binding's own where that holds for no variant, builds it for the server (its
-- pieces joined in order, or the error of that) and binds the arguments to its text. It never panics on
-- the way to the statement.
pub build-Builds :
    {Row T : Type 0} (infos : Infos) (q : Query Row T) (m : Meta) (args : Args)
    → Builds infos q m args (build infos q m args)
build-Builds infos q m args = by_support infos q m args _ (support_of-Supports infos q m) refl
