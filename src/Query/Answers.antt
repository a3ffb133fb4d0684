-- ===== src/Query/Answers.antt =====
-- `Support`, `lookup` and `Build` of query.go.
use dbmeta.Common.{
  ◌≡◌, refl, sym, subst, inl, inr, none, some, Option-cases, Result, ok, err, not_supported,
  version_too_old, ambiguous_fragment, empty_query,
}
use dbmeta.Common.Text.{Text}
use dbmeta.Info.{Info}
use dbmeta.Version.{VersionSet}
use dbmeta.Fragment
use dbmeta.Fragment.{Fragment, Stmt, Choice, resolve}
use dbmeta.Fragment.Resolve.{resolve-Outcome}
use dbmeta.Fragment.Rules.{Outcome, picked, ambiguous}
use dbmeta.Fragment.Rules
use dbmeta.Fragment.Build.{Built, built, blank, failed, build-Built}
use dbmeta.Dialect.{Infos, info_of, Meta}
use dbmeta.Query.{
  Query, Binding, Support, not_built, unsupported, supported, too_old, support_of_build,
  support_of_binding, support_of, binding, is_not_supported, is_version_too_old,
}

-- What a statement may build to.
pub data Answer : Result Text → Type 0 where
  text : (s : Text) → Answer (ok s)
  empty : Answer (err empty_query)
  two_keys : Answer (err ambiguous_fragment)
  refused : Answer (err not_supported)
  old : Answer (err version_too_old)

resolve-Answer :
    {versions : VersionSet} {P : Fragment → Type 0} {c : Choice} {r : Result Text}
    → Outcome versions P c r
    → Answer r
resolve-Answer (picked f p m b) = text _
resolve-Answer (ambiguous f g h k l m) = two_keys
resolve-Answer (Rules.wrong_product n h k) = refused
resolve-Answer (Rules.too_old h k) = old

built-Answer :
    {versions : VersionSet} {st : Stmt} {r : Result Text} → Built versions st r → Answer r
built-Answer (built qs part parts rs e) = text _
built-Answer (blank qs rs e) = empty
built-Answer {versions = versions} (failed before c after qs e eq rs f) =
    subst Answer f (resolve-Answer (resolve-Outcome c versions))

-- What `Support` makes of the text that a statement builds to.
pub data Says (r : Result Text) : Support → Type 0 where
  wrong_product : r ≡ err not_supported → Says r unsupported
  old_release : r ≡ err version_too_old → Says r too_old
  has_text : (s : Text) → r ≡ ok s → Says r supported
  no_text : r ≡ err empty_query → Says r supported
  ambiguous_text : r ≡ err ambiguous_fragment → Says r supported

answer-Says : {r : Result Text} → Answer r → Says r (support_of_build r)
unfolding support_of_build is_not_supported is_version_too_old
answer-Says (text s) = has_text s refl
answer-Says empty = no_text refl
answer-Says two_keys = ambiguous_text refl
answer-Says refused = wrong_product refl
answer-Says old = old_release refl

module _ {Row T : Type 0} (infos : Infos) (q : Query Row T) (m : Meta) where
  -- The dialect has a model and the query a binding for it.
  pub record Found (b : Binding Row T) : Type 0 where
    pub info : Info
    pub built : info_of infos m.dialect ≡ some info
    pub bound : binding q m.dialect ≡ some b

  -- What `Support` answers, and what it tells of the statement of the binding.
  pub data Supports : Support → Type 0 where
    no_model : info_of infos m.dialect ≡ none → Supports not_built
    no_binding :
        (info : Info)
        → info_of infos m.dialect ≡ some info
        → binding q m.dialect ≡ none
        → Supports unsupported
    asks :
        (b : Binding Row T) {answer : Support}
        → Found b
        → Says (Fragment.build b.stmt m.versions) answer
        → Supports answer

  support_unbuilt : info_of infos m.dialect ≡ none → support_of infos q m ≡ not_built
  unfolding support_of
  support_unbuilt e = rw (e, support_of)

  support_unbound :
      (info : Info)
      → info_of infos m.dialect ≡ some info
      → binding q m.dialect ≡ none
      → support_of infos q m ≡ unsupported
  unfolding support_of support_of_binding
  support_unbound info e n = rw (e, n, support_of, support_of_binding)

  support_bound :
      (b : Binding Row T)
      → Found b
      → support_of infos q m ≡ support_of_build (Fragment.build b.stmt m.versions)
  unfolding support_of support_of_binding
  support_bound b f = rw (f.built, f.bound, support_of, support_of_binding)

-- `Support` says "not built" exactly when no model of the dialect is built in, and "not supported" when
-- the query has no binding for the dialect. Otherwise it reports the statement of the binding:
-- "not supported" when building it gives that error, "version too old" when it gives that one, and
-- "supported" when it gives a text, or one of the two errors of a faulty model, no text and two keys.
pub support_of-Supports :
    {Row T : Type 0} (infos : Infos) (q : Query Row T) (m : Meta)
    → Supports infos q m (support_of infos q m)
support_of-Supports infos q m = elim (Option-cases (info_of infos m.dialect)) [
  | inl e ↦ subst (Supports infos q m) (sym (support_unbuilt infos q m e)) (no_model e)
  | inr (info, e) ↦ elim (Option-cases (binding q m.dialect)) [
    | inl n ↦
        subst (Supports infos q m) (sym (support_unbound infos q m info e n)) (no_binding info e n)
    | inr (b, h) ↦
        let f : Found infos q m b = record { info = info; built = e; bound = h } in
        subst (Supports infos q m) (sym (support_bound infos q m b f))
          (asks b f (answer-Says (built-Answer (build-Built b.stmt m.versions))))
  ]
]
