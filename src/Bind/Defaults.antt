-- ===== src/Bind/Defaults.antt =====
-- `withDefaults` of walk.go: the arguments that a walk and a Keep are given.
use dbmeta.Common.{
  ◌≡◌, refl, sym, ap, subst, ◌∙◌, ◌⊎◌, inl, inr, Bool, true, false, false≢true, Option, none, some,
  List, [], ◌∷◌, In, first, later, if◌then◌else◌, Bool-cases, Result, ok, err, unknown_param,
  missing_param,
}
use dbmeta.Common.Text.{Text, text_eq, text_eq_iff, text_eq_refl}
use dbmeta.Common.Assoc
use dbmeta.Common.Assoc.{Map, get-put, has-put}
use dbmeta.Value.{Value, is_nil}
use dbmeta.Bind.{
  Param, Args, join_list, known_params, all_known, default_value, with_defaults_loop, with_defaults,
}

-- Some parameter has the name.
abbrev pub Named : Text → List Param → Type 0
Named k [] = ⊥
Named k (p ∷ params) = (p.name ≡ k) ⊎ Named k params

-- Every argument is a parameter.
abbrev pub AllNamed : List Param → Args → Type 0
AllNamed params args = (name : Text) (v : Value) → In (name, v) args → Named name params

-- What stands under the name `k` behind the loop: what stood there before, for a name of no parameter,
-- or the value of a parameter.
pub data At (params : List Param) (args before : Args) (k : Text) (found : Option Value)
    : Type 0 where
  kept : ¬ Named k params → found ≡ Assoc.get before k → At params args before k found
  filled :
      (p : Param) (v : Value)
      → In p params
      → p.name ≡ k
      → default_value p (Assoc.get args k) ≡ ok v
      → found ≡ some v
      → At params args before k found

-- What `withDefaults` may answer.
pub data Defaults (params : List Param) (args : Args) : Result Args → Type 0 where
  unknown :
      (name : Text) (v : Value)
      → In (name, v) args
      → ¬ Named name params
      → Defaults params args (err unknown_param)
  missing :
      AllNamed params args
      → (p : Param) → In p params
      → Assoc.get args p.name ≡ none
      → is_nil p.default ≡ true
      → Defaults params args (err missing_param)
  given :
      AllNamed params args
      → (out : Args) → ((k : Text) → At params args [] k (Assoc.get out k))
      → Defaults params args (ok out)

has-put_same : {V : Type 0} (m : Map V) (k : Text) (v : V) → Assoc.has (Assoc.put m k v) k ≡ true
has-put_same m k v = has-put m k k v ∙ ap (λ b. if b then true else Assoc.has m k) (text_eq_refl k)

has-put_other :
    {V : Type 0} (m : Map V) (k j : Text) (v : V)
    → text_eq k j ≡ false
    → Assoc.has (Assoc.put m k v) j ≡ Assoc.has m j
has-put_other m k j v h = has-put m k j v ∙ ap (λ b. if b then true else Assoc.has m j) h

has-put_kept :
    {V : Type 0} (m : Map V) (k j : Text) (v : V)
    → Assoc.has m j ≡ true
    → Assoc.has (Assoc.put m k v) j ≡ true
has-put_kept m k j v h = has-put m k j v ∙ go (text_eq k j)
  where
    go : (b : Bool) → (if b then true else Assoc.has m j) ≡ true
    go true = refl
    go false = h

-- The names that the code collects are those of the parameters.
known-Named :
    (known : Map Param) (params : List Param) (k : Text)
    → Assoc.has (known_params known params) k ≡ true
    → (Assoc.has known k ≡ true) ⊎ Named k params
unfolding known_params
known-Named known [] k h = inl h
known-Named known (p ∷ params) k h = elim (known-Named (Assoc.put known p.name p) params k h) [
  | inl e ↦ elim (Bool-cases (text_eq p.name k)) [
    | inl t ↦ inr (inl ((text_eq_iff p.name k).0 t))
    | inr t ↦ inl (sym (has-put_other known p.name k p t) ∙ e)
  ]
  | inr n ↦ inr (inr n)
]

known_kept :
    (known : Map Param) (params : List Param) (k : Text)
    → Assoc.has known k ≡ true
    → Assoc.has (known_params known params) k ≡ true
unfolding known_params
known_kept known [] k h = h
known_kept known (p ∷ params) k h =
    known_kept (Assoc.put known p.name p) params k (has-put_kept known p.name k p h)

Named-known :
    (known : Map Param) (params : List Param) (k : Text)
    → Named k params
    → Assoc.has (known_params known params) k ≡ true
unfolding known_params
Named-known known (p ∷ params) k (inl e) =
    known_kept (Assoc.put known p.name p) params k
      (subst (λ j. Assoc.has (Assoc.put known p.name p) j ≡ true) e (has-put_same known p.name p))
Named-known known (p ∷ params) k (inr n) = Named-known (Assoc.put known p.name p) params k n
Named-known known [] k n = elim n [ ]

no_key : (k : Text) → Assoc.has {V = Param} [] k ≡ false
unfolding Assoc.has Assoc.get
no_key k = refl

known-names :
    (params : List Param) (k : Text) → Assoc.has (known_params [] params) k ≡ true → Named k params
known-names params k h = elim (known-Named [] params k h) [
  | inl e ↦ absurd (false≢true (sym (no_key k) ∙ e))
  | inr n ↦ n
]

AllNamed-first :
    (params : List Param) (args : Args) (name : Text) (v : Value)
    → Named name params
    → AllNamed params args
    → AllNamed params ((name, v) ∷ args)
AllNamed-first params args name v n all _ _ first = n
AllNamed-first params args name v n all k w (later i) = all k w i

all_known-cases :
    (params : List Param) (args : Args)
    → ((all_known (known_params [] params) args ≡ true) × AllNamed params args)
      ⊎ ((all_known (known_params [] params) args ≡ false)
          × ((name : Text) × (v : Value) × In (name, v) args × (¬ Named name params)))
unfolding all_known
all_known-cases params [] = inl (refl, λ name v i. none_in i)
  where
    none_in : {A : Type 0} {a : Text × Value} → In a [] → A
    none_in i = elim i [ ]
all_known-cases params ((name, v) ∷ args) =
    elim (Bool-cases (Assoc.has (known_params [] params) name)) [
      | inl t ↦ elim (all_known-cases params args) [
        | inl (e, all) ↦
            let named = known-names params name t in
            inl (rw (t, e), λ k w i. AllNamed-first params args name v named all k w i)
        | inr (e, (k, w, i, stranger)) ↦ inr (rw (t, e), (k, w, later i, stranger))
      ]
      | inr f ↦ inr (rw f, (name, v, first, λ n. false≢true (sym f ∙ Named-known [] params name n)))
    ]

-- What one parameter gives.
default_value-cases :
    (p : Param) (found : Option Value)
    → ((v : Value) × (default_value p found ≡ ok v))
      ⊎ ((found ≡ none) × (is_nil p.default ≡ true) × (default_value p found ≡ err missing_param))
unfolding default_value
default_value-cases p (some v) = inl (join_list v, refl)
default_value-cases p none = elim (Bool-cases (is_nil p.default)) [
  | inl t ↦ inr (refl, t, rw t)
  | inr f ↦ inl (p.default, rw f)
]

-- What the loop over the parameters may answer.
data Filled (params : List Param) (args before : Args) : Result Args → Type 0 where
  lacks :
      (p : Param)
      → In p params
      → Assoc.get args p.name ≡ none
      → is_nil p.default ≡ true
      → Filled params args before (err missing_param)
  fills :
      (out : Args)
      → ((k : Text) → At params args before k (Assoc.get out k))
      → Filled params args before (ok out)

At-later :
    (p : Param) (params : List Param) (args before : Args) (v : Value) (k : Text)
    (found : Option Value)
    → default_value p (Assoc.get args p.name) ≡ ok v
    → At params args (Assoc.put before p.name v) k found
    → At (p ∷ params) args before k found
At-later p params args before v k found e (filled q w i n d f) = filled q w (later i) n d f
At-later p params args before v k found e (kept stranger f) = elim (Bool-cases (text_eq p.name k)) [
  | inl t ↦
      let same = (text_eq_iff p.name k).0 t in
      filled p v first same (subst (λ j. default_value p (Assoc.get args j) ≡ ok v) same e)
        (f ∙ get-put before p.name k v ∙ rw t)
  | inr t ↦
      kept
        (λ n. elim n [
          | inl same ↦ false≢true (sym t ∙ (text_eq_iff p.name k).1 same)
          | inr n ↦ stranger n
        ])
        (f ∙ get-put before p.name k v ∙ rw t)
]

Filled-later :
    (p : Param) (params : List Param) (args before : Args) (v : Value) (r : Result Args)
    → default_value p (Assoc.get args p.name) ≡ ok v
    → Filled params args (Assoc.put before p.name v) r
    → Filled (p ∷ params) args before r
Filled-later p params args before v _ e (lacks q i m d) = lacks q (later i) m d
Filled-later p params args before v _ e (fills out at) =
    fills out (λ k. At-later p params args before v k (Assoc.get out k) e (at k))

with_defaults_loop-Filled :
    (params : List Param) (args before : Args)
    → Filled params args before (with_defaults_loop args before params)
unfolding with_defaults_loop
with_defaults_loop-Filled [] args before = fills before (λ k. kept (λ n. elim n [ ]) refl)
with_defaults_loop-Filled (p ∷ params) args before =
    elim (default_value-cases p (Assoc.get args p.name)) [
      | inl (v, e) ↦
          let rest = with_defaults_loop-Filled params args (Assoc.put before p.name v) in
          rw e (Filled-later p params args before v _ e rest)
      | inr (m, d, e) ↦ rw e (lacks p first m d)
    ]

finish :
    (params : List Param) (args : Args) (r : Result Args)
    → AllNamed params args
    → Filled params args [] r
    → Defaults params args r
finish params args _ all (lacks p i m d) = missing all p i m d
finish params args _ all (fills out at) = given all out at

-- `withDefaults` refuses the arguments exactly for a name of no parameter, or, when every name is
-- known, for a parameter without a default that has no argument. What it gives otherwise holds,
-- under the name of each parameter, the argument (a list as one joined string) or the default,
-- and nothing under any other name.
pub with_defaults-Defaults :
    (params : List Param) (args : Args) → Defaults params args (with_defaults params args)
unfolding with_defaults
with_defaults-Defaults params args = elim (all_known-cases params args) [
  | inl (e, all) ↦ rw e (finish params args _ all (with_defaults_loop-Filled params args []))
  | inr (e, (k, w, i, stranger)) ↦ rw e (unknown k w i stranger)
]
