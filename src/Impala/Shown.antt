-- ===== src/Impala/Shown.antt =====
-- The walks of models/impala show values of the databases that they are asked for, and of no other.
use dbmeta.Common.{
  ◌≡◌, ℕ, suc, Bool, ◌&&◌, not, none, some, List, [], ◌∷◌, ◌++◌, All, All-any, arith, inl, inr,
  Bool-cases, Error, is_empty, Returns,
}
use dbmeta.Common.Text.{Text, str}
use dbmeta.Bind.{Args}
use dbmeta.Query.{Item}
use dbmeta.Like.{like, list_has}
use dbmeta.Service.{Service}
use dbmeta.Impala.{
  Database, Relation, Table, arg, quote, at, read_all, databases, relations, describe,
}
use dbmeta.Impala.Walks.{
  Column, View, Function, databases_walk, tables_walk, columns_loop, columns_walk, views_walk,
  function_row, functions_walk, cut_signature, definition_of, full_name,
}
use dbmeta.Impala.Visible.{
  IsWide, AreWide, width, at-Returns, IsVisible, OfVisible, databases-IsVisible,
  relations-OfVisible, describe-schema,
}
use dbmeta.Walk.{◌>>=◌, Ask, Walk, answer, for_each, emit, or_fail, yield_all}
use dbmeta.Walk.Holds.{Gives, Kept, Keeps, >>=-Keeps, for_each-Keeps, emit-Keeps, or_fail-Keeps}
use dbmeta.Impala.Kinds.{
  Kind, databases_kind, tables_kind, columns_kind, views_kind, functions_kind, aggregates_kind,
  Value, walk_kind, ShowsVisible,
}

-- The body keeps `I` on the items that may be shown.
abbrev KeptBy :
    {S : Type 0} (k : Kind) → Args → (S → Type 0) → (S → Item (Value k) → S × Bool) → Type 0
KeptBy k args I yield =
    (s : _) (item : Item (Value k)) → ShowsVisible k args item → I s → I (yield s item).0

-- A call that gives a value of some kind, and then the rest
after-Keeps :
    {W S T A : Type 0} (I : S → Type 0) (P : A → Type 0) (zero_value : T)
    (yield : S → Item T → S × Bool) (m : Ask W A) (next : A → Walk W S (Unit {0}))
    → ((s : S) (e : Error) → I s → I (yield s (zero_value, some e)).0)
    → Gives P m
    → ((a : A) → P a → Keeps I (λ _. Unit) (next a))
    → Keeps I (λ _. Unit) (or_fail yield zero_value m >>= next)
after-Keeps I P zero_value yield m next failed h k =
    >>=-Keeps I P (λ _. Unit) (or_fail yield zero_value m) next
      (or_fail-Keeps I yield zero_value P m failed h) k

definition_of-Returns :
    (rows : List (List Text)) → AreWide 1 rows → Returns (λ _. Unit) (definition_of rows)
definition_of-Returns [] long = tt
definition_of-Returns ([] ∷ rows) (long, _) = omega (arith, long)
definition_of-Returns ((v ∷ r) ∷ rows) long = tt

module _ {W S : Type 0} (query : Service W) (wide : IsWide query) (I : S → Type 0)
    (args : Args) where
  databases_walk-Keeps :
      (zero_value : Database) (yield : S → Item Database → S × Bool)
      → KeptBy databases_kind args I yield
      → Keeps I (λ _. Unit) (databases_walk query zero_value yield args)
  unfolding databases_walk yield_all
  databases_walk-Keeps zero_value yield h =
      let P = λ (d : Database). IsVisible args (str "name") d.name in
      >>=-Keeps I (All P) (λ _. Unit) (or_fail yield zero_value (databases query args (str "name")))
        _
        (or_fail-Keeps I yield zero_value (All P) _ (λ s e i. h s (zero_value, some e) tt i)
          (databases-IsVisible query wide args (str "name")))
        λ dbs v.
          for_each-Keeps I P _ dbs v λ d p. emit-Keeps I yield zero_value d λ s i. h s (d, none) p i

  -- A walk over the relations of the visible databases
  over_relations-Keeps :
      {T : Type 0} (zero_value : T) (yield : S → Item T → S × Bool) (param : Text)
      (round : Relation → Walk W S (Unit {0}))
      → ((s : S) (e : Error) → I s → I (yield s (zero_value, some e)).0)
      → ((r : Relation) → OfVisible args r → Keeps I (λ _. Unit) (round r))
      → Keeps I
          (λ _. Unit)
          (or_fail yield zero_value (relations query args param) >>= for_each round)
  over_relations-Keeps zero_value yield param round failed h =
      >>=-Keeps I (All (OfVisible args)) (λ _. Unit)
        (or_fail yield zero_value (relations query args param)) _
        (or_fail-Keeps I yield zero_value (All (OfVisible args)) _ failed
          (relations-OfVisible query wide args param))
        λ rs v. for_each-Keeps I (OfVisible args) round rs v h

  tables_walk-Keeps :
      (to_lower : ℕ → ℕ) (zero_value : Table) (yield : S → Item Table → S × Bool)
      → KeptBy tables_kind args I yield
      → Keeps I (λ _. Unit) (tables_walk query to_lower zero_value yield args)
  unfolding tables_walk
  tables_walk-Keeps to_lower zero_value yield h =
      over_relations-Keeps zero_value yield (str "name") _ (λ s e i. h s (zero_value, some e) tt i)
        λ r v.
          >>=-Keeps I (λ t. t.schema ≡ r.schema) (λ _. Unit)
            (or_fail yield zero_value (describe to_lower query r)) _
            (or_fail-Keeps I yield zero_value (λ t. t.schema ≡ r.schema) _
              (λ s e i. h s (zero_value, some e) tt i) (describe-schema query wide to_lower r))
            λ t e.
              elim (Bool-cases (
                not (is_empty (arg args (str "types")))
                && not (list_has (arg args (str "types")) t.type))) [
                  | inl c ↦ rw (c) (λ w s i. (tt, i))
                  | inr c ↦
                      rw (c) (emit-Keeps I yield zero_value t λ s i. h s (t, none) (rw (e) v) i)
                ]

  columns_loop-Keeps :
      (zero_value : Column) (yield : S → Item Column → S × Bool) (r : Relation) (i : ℕ)
      (rows : List (List Text))
      → KeptBy columns_kind args I yield
      → OfVisible args r
      → AreWide 2 rows
      → Keeps I (λ _. Unit) (columns_loop {W = W} zero_value yield args r i rows)
  unfolding columns_loop
  columns_loop-Keeps zero_value yield r i [] h v long = λ w s k. (tt, k)
  columns_loop-Keeps zero_value yield r i (c ∷ rows) h v (long, longs) =
      let rest = columns_loop-Keeps zero_value yield r (suc i) rows h v longs in
      let failed = λ (s : S) (e : Error) (k : I s). h s (zero_value, some e) tt k in
      after-Keeps I (λ _. Unit) zero_value yield (answer (at c 0)) _ failed
        (λ w. at-Returns c 0 (omega (arith, long)))
        λ name _. elim (Bool-cases (like (arg args (str "name")) name)) [
          | inr e ↦ rw (e) rest
          | inl e ↦ rw (e) (
              after-Keeps I (λ _. Unit) zero_value yield (answer (at c 1)) _ failed
                (λ w. at-Returns c 1 long)
                λ data_type _.
                  >>=-Keeps I (λ _. Unit) (λ _. Unit) (emit yield zero_value _) _
                    (emit-Keeps I yield zero_value _ λ s k. h s (_, none) v k) λ _ _. rest)
        ]

  columns_walk-Keeps :
      (zero_value : Column) (yield : S → Item Column → S × Bool)
      → KeptBy columns_kind args I yield
      → Keeps I (λ _. Unit) (columns_walk query zero_value yield args)
  unfolding columns_walk width
  columns_walk-Keeps zero_value yield h =
      let failed = λ (s : S) (e : Error) (k : I s). h s (zero_value, some e) tt k in
      over_relations-Keeps zero_value yield (str "parent") _ failed λ r v.
        let stmt = str "DESCRIBE " ++ full_name r in
        after-Keeps I (AreWide 2) zero_value yield (read_all query stmt) _ failed (wide stmt)
          λ rows long. columns_loop-Keeps zero_value yield r 0 rows h v long

  views_walk-Keeps :
      (zero_value : View) (yield : S → Item View → S × Bool)
      → KeptBy views_kind args I yield
      → Keeps I (λ _. Unit) (views_walk query zero_value yield args)
  unfolding views_walk width
  views_walk-Keeps zero_value yield h =
      let failed = λ (s : S) (e : Error) (k : I s). h s (zero_value, some e) tt k in
      over_relations-Keeps zero_value yield (str "name") _ failed λ r v.
        let stmt = str "SHOW CREATE VIEW " ++ full_name r in
        elim (Bool-cases (not r.view)) [
          | inl e ↦ rw (e) (λ w s k. (tt, k))
          | inr e ↦ rw (e) (
              after-Keeps I (AreWide 1) zero_value yield (read_all query stmt) _ failed (wide stmt)
                λ rows long.
                  after-Keeps I (λ _. Unit) zero_value yield (answer (definition_of rows)) _ failed
                    (λ w. definition_of-Returns rows long)
                    λ definition _. emit-Keeps I yield zero_value _ λ s k. h s (_, none) v k)
        ]

module _ {W S : Type 0} (I : S → Type 0) (yield : S → Item Function → S × Bool) where
  function_row-Keeps :
      (to_lower : ℕ → ℕ) (zero_value : Function) (args : Args) (schema kind : Text)
      (row : List Text)
      → KeptBy functions_kind args I yield
      → IsVisible args (str "schema") schema
      → Keeps I (λ _. Unit) (function_row {W = W} to_lower zero_value yield args schema kind row)
  unfolding function_row
  function_row-Keeps to_lower zero_value args schema kind (result ∷ id ∷ binary ∷ _) h v =
      elim (Bool-cases (like (arg args (str "name")) (cut_signature id).0)) [
        | inl e ↦ rw (e) (emit-Keeps I yield zero_value _ λ s k. h s (_, none) v k)
        | inr e ↦ rw (e) (λ w s k. (tt, k))
      ]
  function_row-Keeps to_lower zero_value args schema kind [] h v = λ w s k. (tt, k)
  function_row-Keeps to_lower zero_value args schema kind (_ ∷ []) h v = λ w s k. (tt, k)
  function_row-Keeps to_lower zero_value args schema kind (_ ∷ _ ∷ []) h v = λ w s k. (tt, k)

  functions_walk-Keeps :
      (query : Service W) (to_lower : ℕ → ℕ) (zero_value : Function) (show kind : Text)
      (args : Args)
      → IsWide query
      → KeptBy functions_kind args I yield
      → Keeps I (λ _. Unit) (functions_walk query to_lower zero_value yield show kind args)
  unfolding functions_walk
  functions_walk-Keeps query to_lower zero_value show kind args wide h =
      let P = λ (d : Database). IsVisible args (str "schema") d.name in
      let failed = λ (s : S) (e : Error) (k : I s). h s (zero_value, some e) tt k in
      >>=-Keeps I (All P) (λ _. Unit)
        (or_fail yield zero_value (databases query args (str "schema"))) _
        (or_fail-Keeps I yield zero_value (All P) _ failed
          (databases-IsVisible query wide args (str "schema")))
        λ dbs v. for_each-Keeps I P _ dbs v λ d p.
          after-Keeps I (AreWide (width (show ++ quote d.name))) zero_value yield
            (read_all query (show ++ quote d.name)) _ failed (wide (show ++ quote d.name))
            λ rows _.
              for_each-Keeps I (λ _. Unit) _ rows (All-any rows)
                λ row _. function_row-Keeps to_lower zero_value args d.name kind row h p

-- Each walk yields errors and values of visible databases only: those whose name matches the pattern of
-- the caller, and `_impala_builtins` only if the caller asked for what Impala keeps for itself. So a
-- property of the caller's state that the body keeps on such items holds behind the walk. The walk comes
-- to its end, and does not panic, on a service whose rows have two values where the statement is a
-- DESCRIBE and one where it is another.
pub walk_kind-Kept :
    {W S : Type 0} (k : Kind) (query : Service W) (to_lower : ℕ → ℕ) (zero_value : Value k)
    (yield : S → Item (Value k) → S × Bool) (args : Args) (I : S → Type 0) (w : W) (s : S)
    → IsWide query
    → ((s : S) (item : Item (Value k)) → ShowsVisible k args item → I s → I (yield s item).0)
    → I s
    → Kept I (λ _. Unit) (walk_kind query to_lower k zero_value yield args w s)
walk_kind-Kept databases_kind query to_lower zero_value yield args I w s wide h i =
    databases_walk-Keeps query wide I args zero_value yield h w s i
walk_kind-Kept tables_kind query to_lower zero_value yield args I w s wide h i =
    tables_walk-Keeps query wide I args to_lower zero_value yield h w s i
walk_kind-Kept columns_kind query to_lower zero_value yield args I w s wide h i =
    columns_walk-Keeps query wide I args zero_value yield h w s i
walk_kind-Kept views_kind query to_lower zero_value yield args I w s wide h i =
    views_walk-Keeps query wide I args zero_value yield h w s i
walk_kind-Kept functions_kind query to_lower zero_value yield args I w s wide h i =
    functions_walk-Keeps I yield query to_lower zero_value (str "SHOW FUNCTIONS IN ") (str "func")
      args wide h w s i
walk_kind-Kept aggregates_kind query to_lower zero_value yield args I w s wide h i =
    functions_walk-Keeps I yield query to_lower zero_value (str "SHOW AGGREGATE FUNCTIONS IN ")
      (str "agg") args wide h w s i
