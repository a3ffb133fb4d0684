-- ===== src/InfoSchema/Supported.antt =====
-- What the queries of a dialect answer once `Register` of informationschema.go has run.
use dbmeta.Common.{
  ◌≡◌, refl, sym, ap, ◌∙◌, subst, ℕ, Bool, true, false, false≢true, ◌&&◌, ◌||◌, Option, none, some,
  List, [], ◌∷◌, inl, inr, ◌==◌, ==_iff, ==_refl, get_or, if◌then◌else◌, Bool-cases, arith, ok,
}
use dbmeta.Common.Text.{Text, text_eq_refl}
use dbmeta.Common.Assoc
use dbmeta.Common.Assoc.{Map, get-put}
use dbmeta.Version.{VersionSet}
use dbmeta.Dialect.{Infos, Dialect, register_dialect, info_of}
use dbmeta.Query.{
  Query, Binding, Item, supported, unsupported, register, binding, support_of, support_of_binding,
  support_of_build,
}
use dbmeta.InfoSchema.{Profile}
use dbmeta.InfoSchema.Builds.{
  Kind, schemas_kind, tables_kind, columns_kind, constraints_kind, sequences_kind, functions_kind,
  privileges_kind, constraint_columns_kind, routine_parameters_kind, views_kind,
  current_schema_kind, current_user_kind, binding_of, build-Fixed,
}
use dbmeta.InfoSchema.Registers.{
  is_registered, kinds, number, info_of_profile, put_query, register_kinds, register_profile,
}
use dbmeta.InfoSchema.Needs.{Answer, is_registered-Answer}

kind_at : ℕ → Kind
kind_at n = get_or kinds n schemas_kind

kind_at-number : (k : Kind) → kind_at (number k) ≡ k
unfolding kind_at
kind_at-number schemas_kind = refl
kind_at-number tables_kind = refl
kind_at-number columns_kind = refl
kind_at-number constraints_kind = refl
kind_at-number sequences_kind = refl
kind_at-number functions_kind = refl
kind_at-number privileges_kind = refl
kind_at-number constraint_columns_kind = refl
kind_at-number routine_parameters_kind = refl
kind_at-number views_kind = refl
kind_at-number current_schema_kind = refl
kind_at-number current_user_kind = refl

got : {V : Type 0} (m : Map V) (k : Text) (v : V) → Assoc.get (Assoc.put m k v) k ≡ some v
got m k v = get-put m k k v ∙ rw (text_eq_refl k) refl

same_kind : (j k : Kind) → (number j == number k) ≡ true → j ≡ k
same_kind j k e =
    sym (kind_at-number j) ∙ ap kind_at ((==_iff (number j) (number k)).0 e) ∙ kind_at-number k

abbrev member : Kind → List Kind → Bool
member k [] = false
member k (j ∷ ks) = number j == number k || member k ks

-- No kind is registered twice.
abbrev AreFresh : List Kind → Type 0
AreFresh [] = Unit
AreFresh (k ∷ ks) = (member k ks ≡ false) × AreFresh ks

module _ {Row T : Type 0} (d : Dialect) (p : Profile) (scan : Row → Item T) where
  -- What a kind is bound to once those of a list are registered.
  abbrev bound_after : List Kind → (Kind → Query Row T) → Kind → Option (Binding Row T)
  bound_after ks qs k =
      if member k ks && is_registered p k then some (binding_of k p scan) else binding (qs k) d

  skipped :
      (k : Kind) (ks : List Kind) (qs : Kind → Query Row T)
      → is_registered p k ≡ false
      → (j : Kind) → bound_after ks qs j ≡ bound_after (k ∷ ks) qs j
  skipped k ks qs e j = elim (Bool-cases (number k == number j)) [
    | inl q ↦ let e' = subst (λ i. is_registered p i ≡ false) (same_kind k j q) e in ground arith
    | inr q ↦ ground arith
  ]

  register_free :
      (q : Query Row T) (b : Binding Row T)
      → binding q d ≡ none
      → register q d b ≡ ok (record q { bindings = Assoc.put q.bindings d b })
  unfolding register binding Assoc.has
  register_free q b h = rw (register, h) refl

  still :
      (k : Kind) (ks : List Kind) (qs : Kind → Query Row T) (q : Query Row T)
      → member k ks ≡ false
      → ((j : Kind) → member j (k ∷ ks) ≡ true → binding (qs j) d ≡ none)
      → (j : Kind) → member j ks ≡ true
      → binding (put_query qs k q j) d ≡ none
  still k ks qs q new free j m = elim (Bool-cases (number k == number j)) [
    | inl e ↦
        elim (false≢true (sym (subst (λ i. member i ks ≡ false) (same_kind k j e) new) ∙ m)) [ ]
    | inr e ↦ rw (e) (free j (ground arith))
  ]

  added :
      (k : Kind) (ks : List Kind) (qs : Kind → Query Row T)
      → member k ks ≡ false
      → is_registered p k ≡ true
      → (j : Kind)
      → bound_after ks
          (put_query qs k
            (record (qs k) { bindings = Assoc.put (qs k).bindings d (binding_of k p scan) }))
          j
        ≡ bound_after (k ∷ ks) qs j
  unfolding binding
  added k ks qs new e j = elim (Bool-cases (number k == number j)) [
    | inr q ↦ rw (q) refl
    | inl q ↦
        subst
          (λ i.
            bound_after ks
              (put_query qs k
                (record (qs k) { bindings = Assoc.put (qs k).bindings d (binding_of k p scan) }))
              i
            ≡ bound_after (k ∷ ks) qs i)
          (same_kind k j q)
          (rw (==_refl (number k), new, e, got (qs k).bindings d (binding_of k p scan)) refl)
  ]

  register_kinds-bound :
      (ks : List Kind) (qs : Kind → Query Row T)
      → AreFresh ks
      → ((k : Kind) → member k ks ≡ true → binding (qs k) d ≡ none)
      → (qs' : Kind → Query Row T) × (register_kinds d p scan ks qs ≡ ok qs')
        × ((k : Kind) → binding (qs' k) d ≡ bound_after ks qs k)
  unfolding register_kinds
  register_kinds-bound [] qs fresh free = (qs, refl, λ k. refl)
  register_kinds-bound (k ∷ ks) qs (new, fresh) free = elim (Bool-cases (is_registered p k)) [
    | inr e ↦
        let (qs', r, h) = register_kinds-bound ks qs fresh (λ j m. free j (ground arith)) in
        (qs', rw (register_kinds, e) r, λ j. h j ∙ skipped k ks qs e j)
    | inl e ↦
        let q = record (qs k) { bindings = Assoc.put (qs k).bindings d (binding_of k p scan) } in
        let (qs', r, h) =
          register_kinds-bound ks (put_query qs k q) fresh (still k ks qs q new free) in
        (
          qs',
          rw
              (
                register_kinds,
                e,
                register_free (qs k) (binding_of k p scan)
                    (free k (ground (arith, ==_refl (number k)))),
              )
              r,
          λ j. h j ∙ added k ks qs new e j,
        )
  ]

is_member : (k : Kind) → member k kinds ≡ true
is_member schemas_kind = refl
is_member tables_kind = refl
is_member columns_kind = refl
is_member constraints_kind = refl
is_member sequences_kind = refl
is_member functions_kind = refl
is_member privileges_kind = refl
is_member constraint_columns_kind = refl
is_member routine_parameters_kind = refl
is_member views_kind = refl
is_member current_schema_kind = refl
is_member current_user_kind = refl

kinds-AreFresh : AreFresh kinds
kinds-AreFresh = (
  refl,
  (refl, (refl, (refl, (refl, (refl, (refl, (refl, (refl, (refl, (refl, (refl, tt))))))))))),
)

-- The dialect and the queries behind `Register`.
abbrev pub Answers : {Row T : Type 0} → Dialect → Profile → Infos → (Kind → Query Row T) → Type 0
Answers d p infos qs =
    (k : Kind) (versions : VersionSet)
    → Answer p k (support_of infos (qs k) (record { dialect = d; versions = versions }))

answers :
    {Row T : Type 0} (infos : Infos) (d : Dialect) (p : Profile) (scan : Row → Item T)
    (q : Query Row T) (k : Kind) (versions : VersionSet)
    → binding q d ≡ (if is_registered p k then some (binding_of k p scan) else none)
    → support_of
        (Assoc.put infos d (info_of_profile p))
        q
        (record { dialect = d; versions = versions })
      ≡ (if is_registered p k then supported else unsupported)
unfolding support_of support_of_binding info_of support_of_build
answers infos d p scan q k versions h = elim (Bool-cases (is_registered p k)) [
  | inr e ↦ rw (support_of, info_of, got infos d (info_of_profile p), h, e) refl
  | inl e ↦
      rw
        (
          support_of,
          info_of,
          got infos d (info_of_profile p),
          h,
          e,
          support_of_binding,
          (build-Fixed k p scan).1 versions,
        )
        refl
]

-- Where the dialect is new to the registry and to every query, `Register` returns and does not panic, and
-- then a query of the dialect, on every release of the server, is supported exactly where the profile has
-- the feature that its kind of row needs (constraints and their columns need "constraints", privileges
-- "table_privileges", routine parameters "parameters", and sequences, functions and views the feature of
-- their name; schemas, tables, columns, the current schema and the current user need none), and is
-- otherwise not supported, rather than supported and empty. A profile without features has the standard.
pub register_profile-Answers :
    {Row T : Type 0} (infos : Infos) (qs : Kind → Query Row T) (d : Dialect) (p : Profile)
    (scan : Row → Item T)
    → Assoc.get infos d ≡ none
    → ((k : Kind) → binding (qs k) d ≡ none)
    → (infos' : Infos) × (qs' : Kind → Query Row T) × (register_profile infos qs d p scan
        ≡ ok (infos', qs'))
      × Answers d p infos' qs'
unfolding register_profile register_dialect Assoc.has support_of support_of_binding info_of
register_profile-Answers infos qs d p scan new unbound =
    let (qs', r, h) = register_kinds-bound d p scan kinds qs kinds-AreFresh λ k _. unbound k in
    (
      Assoc.put infos d (info_of_profile p),
      qs',
      rw (register_dialect, new, r) refl,
      λ k versions.
          subst (Answer p k)
            (sym
              (answers infos d p scan (qs' k) k versions (h k ∙ rw (is_member k, unbound k) refl)))
            (is_registered-Answer p k),
    )
