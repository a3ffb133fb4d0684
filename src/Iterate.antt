-- ===== src/Iterate.antt =====
-- query.go: `All`, `Each` and `First`. A loop over the iterator is a body `yield` on the state of the
-- caller; it answers whether it goes on (false is a `break`). The statements of `Walk` run inside the
-- iterator that it returns, and are not modelled. The proofs are in the module below this one.
pub mod Stream
use dbmeta.Common.{
  Bool, true, false, ◌&&◌, Option, none, some, List, [], ◌∷◌, length, Result, ok, err, panic,
  out_of_fuel, ◌>>=◌, Error, ◌⊎◌, inl, inr,
}
use dbmeta.Common.Assoc
use dbmeta.Dialect.{Infos, Meta, Rows, Database}
use dbmeta.Bind.{Param, Args, with_defaults}
use dbmeta.Filter.{FilterArgs, args_map}
use dbmeta.Query
use dbmeta.Query.{Query, Binding, Item, lookup, binding, query_params, use_binding}

abbrev pub is_none : {A : Type 0} → Option A → Bool
is_none none = true
is_none (some _) = false

abbrev pub kept : {T : Type 0} → Option (T → Args → Bool) → Args → T → Bool
kept none all v = true
kept (some keep) all v = keep v all

-- Whether a scanned row is yielded: a row that failed to scan is, and so is one that Keep takes.
abbrev pub is_yielded : {T : Type 0} → Option (T → Args → Bool) → Args → Item T → Bool
is_yielded keep all (v, none) = kept keep all v
is_yielded keep all (v, some e) = true

-- The arguments that Keep is given; without a Keep they are not computed.
abbrev pub keep_args : {T : Type 0} → Option (T → Args → Bool) → List Param → Args → Result Args
keep_args none params args = ok []
keep_args (some _) params args = with_defaults params args

abbrev pub as_result : {A : Type 0} → Error ⊎ A → Result A
as_result (inl e) = err e
as_result (inr a) = ok a

-- The first test of `All`: a binding that is found and has a Walk.
abbrev pub walk_of :
    {Row T : Type 0} → Result (Binding Row T) → Option (Binding Row T × (Args → List (Item T)))
walk_of (ok b) = elim b.walk [ none ↦ none | some walk ↦ some (b, walk) ]
walk_of _ = none

-- The loop of `Each`: the arguments that the query takes.
unfoldable pub given_args : Args → Args → List Param → Args
unfolding Assoc.get Assoc.put
given_args map given [] = given
given_args map given (p ∷ params) =
    given_args map
      (elim (Assoc.get map p.name) [ none ↦ given | some v ↦ Assoc.put given p.name v ]) params

module _ {T S : Type 0} (yield : S → Item T → S × Bool) (zero_value : T) where
  -- The loop over the iterator of `Walk`: it stops when the body does, and after an error.
  unfoldable pub walk_loop : List (Item T) → S → S
  walk_loop [] s = s
  walk_loop ((v, e) ∷ items) s =
      let (s', go) = yield s (v, e) in
      elim (go && is_none e) [ true ↦ walk_loop items s' | false ↦ s' ]

  -- yield(zero, err)
  unfoldable pub yield_error : Error → S → S
  yield_error e s = (yield s (zero_value, some e)).0

  -- an error is yielded, and a panic goes on
  unfoldable pub or_yield : {A : Type 0} → S → Result A → (A → Result S) → Result S
  unfolding yield_error
  or_yield s (ok a) next = next a
  or_yield s (err e) next = ok (yield_error e s)
  or_yield s (panic m) next = panic m
  or_yield s out_of_fuel next = out_of_fuel

module _ {Row T S : Type 0} (yield : S → Item T → S × Bool) (zero_value : T) where
  -- `for rows.Next()`, and `rows.Err()` behind it; a body that stops ends the call.
  unfoldable pub rows_loop :
      (Row → Item T) → Option (T → Args → Bool) → Args → Option Error → List Row → S → S
  unfolding yield_error
  rows_loop scan keep all rows_err [] s = elim rows_err [
    | none ↦ s
    | some e ↦ yield_error yield zero_value e s
  ]
  rows_loop scan keep all rows_err (row ∷ rows) s = elim (is_yielded keep all (scan row)) [
    | false ↦ rows_loop scan keep all rows_err rows s
    | true ↦
        let (s', go) = yield s (scan row) in
        elim go [ true ↦ rows_loop scan keep all rows_err rows s' | false ↦ s' ]
  ]

  unfoldable pub read_rows : Binding Row T → Args → S → Rows Row → Result S
  unfolding rows_loop or_yield
  read_rows b args s rows =
      or_yield yield zero_value s (keep_args b.keep b.params args)
        λ all. ok (rows_loop b.scan b.keep all (rows.err_after (length rows.rows)) rows.rows s)

  -- The part of `All` that runs one statement.
  unfoldable pub all_rows : Database Row → Infos → Query Row T → Meta → Args → S → Result S
  unfolding read_rows or_yield Query.build
  all_rows db infos q m args s =
      or_yield yield zero_value s (Query.build infos q m args) λ (stmt, vals).
        or_yield yield zero_value s (as_result (db.query stmt vals))
          λ rows. use_binding (binding q m.dialect) >>= λ b. read_rows b args s rows

  unfoldable pub all_walk : Binding Row T → (Args → List (Item T)) → Args → S → Result S
  unfolding walk_loop or_yield
  all_walk b walk args s =
      or_yield yield zero_value s (with_defaults b.params args)
        λ all. ok (walk_loop yield zero_value (walk all) s)

  -- `Query.All`
  unfoldable pub all : Database Row → Infos → Query Row T → Meta → Args → S → Result S
  unfolding all_rows all_walk lookup
  all db infos q m args s = elim (walk_of (lookup infos q m)) [
    | some (b, walk) ↦ all_walk b walk args s
    | none ↦ all_rows db infos q m args s
  ]

  -- `Query.Each`
  unfoldable pub each : Database Row → Infos → Query Row T → Meta → FilterArgs → S → Result S
  unfolding all given_args query_params args_map or_yield
  each db infos q m args s =
      or_yield yield zero_value s (query_params infos q m)
        λ params. all db infos q m (given_args (args_map args) [] params) s

-- `First`, of an iterator: the body keeps what it is given first and stops.
unfoldable pub first :
    {T : Type 0}
    → ((Option (Item T) → Item T → Option (Item T) × Bool) → Option (Item T) → Option (Item T))
    → T
    → T × Bool × Option Error
first seq zero_value = elim (seq (λ _ item. (some item, false)) none) [
  | none ↦ (zero_value, false, none)
  | some (v, e) ↦ (v, is_none e, e)
]
