-- ===== src/Iterate/Stream.antt =====
-- `All` of query.go as the list of the pairs that its iterator yields.
use dbmeta.Common.{
  ◌≡◌, refl, sym, ap, inl, inr, Bool, true, false, Option, none, some, List, [], ◌∷◌, length,
  if◌then◌else◌, Option-cases, arith, Result, ok, err, panic, out_of_fuel, ◌>>=◌, Error,
}
use dbmeta.Dialect.{Infos, Meta, Rows, Database}
use dbmeta.Bind.{Args, with_defaults}
use dbmeta.Query
use dbmeta.Query.{Query, Binding, Item, lookup, binding, use_binding}
use dbmeta.Iterate.{
  is_yielded, keep_args, as_result, walk_of, walk_loop, yield_error, or_yield, rows_loop, read_rows,
  all_rows, all_walk, all,
}

-- The body on the items in order, until it stops.
abbrev pub drive : {S I : Type 0} → (S → I → S × Bool) → List I → S → S
drive yield [] s = s
drive yield (item ∷ items) s =
    let (s', go) = yield s item in elim go [ true ↦ drive yield items s' | false ↦ s' ]

-- The items of a Walk: none behind the first error.
abbrev pub walk_items : {T : Type 0} → List (Item T) → List (Item T)
walk_items [] = []
walk_items ((v, none) ∷ items) = (v, none) ∷ walk_items items
walk_items ((v, some e) ∷ items) = (v, some e) ∷ []

-- An error is one item with the zero value.
abbrev pub or_item :
    {T A : Type 0} → T → Result A → (A → Result (List (Item T))) → Result (List (Item T))
or_item zero_value (ok a) next = next a
or_item zero_value (err e) next = ok ((zero_value, some e) ∷ [])
or_item zero_value (panic m) next = panic m
or_item zero_value out_of_fuel next = out_of_fuel

module _ {Row T : Type 0} (zero_value : T) where
  -- The items of a statement: the rows that are kept, and the error of reading them at the end.
  abbrev pub row_items :
      (Row → Item T) → Option (T → Args → Bool) → Args → Option Error → List Row → List (Item T)
  row_items scan keep given none [] = []
  row_items scan keep given (some e) [] = (zero_value, some e) ∷ []
  row_items scan keep given rows_err (row ∷ rows) =
      let rest = row_items scan keep given rows_err rows in
      if is_yielded keep given (scan row) then scan row ∷ rest else rest

  abbrev pub statement_items :
      Database Row → Infos → Query Row T → Meta → Args → Result (List (Item T))
  statement_items db infos q m args =
      or_item zero_value (Query.build infos q m args) λ (stmt, vals).
        or_item zero_value (as_result (db.query stmt vals)) λ rows.
          use_binding (binding q m.dialect) >>= λ b.
          or_item zero_value (keep_args b.keep b.params args) λ given.
            ok (row_items b.scan b.keep given (rows.err_after (length rows.rows)) rows.rows)

  -- All that the iterator of `All` would yield to a body that never stops.
  abbrev pub items : Database Row → Infos → Query Row T → Meta → Args → Result (List (Item T))
  items db infos q m args = elim (walk_of (lookup infos q m)) [
    | some (b, walk) ↦
        or_item zero_value (with_defaults b.params args) λ given. ok (walk_items (walk given))
    | none ↦ statement_items db infos q m args
  ]

-- `r` drives the body over the items that `is` gives.
abbrev pub Drives :
    {S T : Type 0} → (S → Item T → S × Bool) → S → Result (List (Item T)) → Result S → Type 0
Drives yield s is r = r ≡ (is >>= λ items. ok (drive yield items s))

module _ {T S : Type 0} (yield : S → Item T → S × Bool) (zero_value : T) where
  pub last_item : (item : Item T) (s : S) → drive yield (item ∷ []) s ≡ (yield s item).0
  last_item item s = ground arith

  walk_loop-drive :
      (is : List (Item T)) (s : S) → walk_loop yield zero_value is s ≡ drive yield (walk_items is) s
  unfolding walk_loop
  walk_loop-drive [] s = refl
  walk_loop-drive ((v, none) ∷ is) s = ground (arith, walk_loop-drive is (yield s (v, none)).0)
  walk_loop-drive ((v, some e) ∷ is) s = ground arith

  or_yield-Drives :
      {A : Type 0} (s : S) (r : Result A) (next : A → Result S)
      (next_items : A → Result (List (Item T)))
      → ((a : A) → Drives yield s (next_items a) (next a))
      → Drives yield s (or_item zero_value r next_items) (or_yield yield zero_value s r next)
  unfolding or_yield yield_error
  or_yield-Drives s (ok a) next next_items h = h a
  or_yield-Drives s (err e) next next_items h = ap ok (sym (last_item (zero_value, some e) s))
  or_yield-Drives s (panic m) next next_items h = refl
  or_yield-Drives s out_of_fuel next next_items h = refl

module _ {Row T S : Type 0} (yield : S → Item T → S × Bool) (zero_value : T) where
  rows_loop-drive :
      (scan : Row → Item T) (keep : Option (T → Args → Bool)) (given : Args) (e : Option Error)
      (rows : List Row) (s : S)
      → rows_loop yield zero_value scan keep given e rows s
        ≡ drive yield (row_items zero_value scan keep given e rows) s
  unfolding rows_loop yield_error
  rows_loop-drive scan keep given none [] s = refl
  rows_loop-drive scan keep given (some e) [] s =
      sym (last_item yield zero_value (zero_value, some e) s)
  rows_loop-drive scan keep given e (row ∷ rows) s = ground (
    arith,
    rows_loop-drive scan keep given e rows s,
    rows_loop-drive scan keep given e rows (yield s (scan row)).0,
  )

  read_rows-Drives :
      (b : Binding Row T) (args : Args) (s : S) (rows : Rows Row)
      → Drives yield s
          (or_item zero_value (keep_args b.keep b.params args) λ given. ok (
            row_items zero_value b.scan b.keep given (rows.err_after (length rows.rows)) rows.rows))
          (read_rows yield zero_value b args s rows)
  unfolding read_rows
  read_rows-Drives b args s rows =
      or_yield-Drives yield zero_value s (keep_args b.keep b.params args) _ _
        λ given. ap ok (rows_loop-drive b.scan b.keep given _ rows.rows s)

  use_binding-Drives :
      (found : Option (Binding Row T)) (args : Args) (s : S) (rows : Rows Row)
      → Drives yield s
          (use_binding found >>= λ b. or_item zero_value (keep_args b.keep b.params args) λ given.
            ok (
              row_items zero_value b.scan b.keep given
                (rows.err_after (length rows.rows))
                rows.rows))
          (use_binding found >>= λ b. read_rows yield zero_value b args s rows)
  use_binding-Drives none args s rows = refl
  use_binding-Drives (some b) args s rows = read_rows-Drives b args s rows

  all_rows-Drives :
      (db : Database Row) (infos : Infos) (q : Query Row T) (m : Meta) (args : Args) (s : S)
      → Drives yield s
          (statement_items zero_value db infos q m args)
          (all_rows yield zero_value db infos q m args s)
  unfolding all_rows
  all_rows-Drives db infos q m args s =
      or_yield-Drives yield zero_value s (Query.build infos q m args) _ _ λ (stmt, vals).
        or_yield-Drives yield zero_value s (as_result (db.query stmt vals)) _ _
          λ rows. use_binding-Drives (binding q m.dialect) args s rows

  all_walk-Drives :
      (b : Binding Row T) (walk : Args → List (Item T)) (args : Args) (s : S)
      → Drives yield s
          (or_item zero_value (with_defaults b.params args) λ given. ok (walk_items (walk given)))
          (all_walk yield zero_value b walk args s)
  unfolding all_walk
  all_walk-Drives b walk args s =
      or_yield-Drives yield zero_value s (with_defaults b.params args) _ _
        λ given. ap ok (walk_loop-drive yield zero_value (walk given) s)

-- The loop over `All` calls its body on the items of the query one after the other, on the state that
-- the last call left, until the body stops or the items end; what stands behind the item at which it
-- stops has no effect. The items do not depend on the body: they are the scanned rows, without the
-- well scanned ones that Keep refuses, then the error of reading the rows; or what a Walk yields up to
-- its first error; or a single error, when the arguments or the statement are refused.
pub all-drive :
    {Row T S : Type 0} (yield : S → Item T → S × Bool) (zero_value : T) (db : Database Row)
    (infos : Infos) (q : Query Row T) (m : Meta) (args : Args) (s : S)
    → Drives yield s (items zero_value db infos q m args) (all yield zero_value db infos q m args s)
unfolding all
all-drive yield zero_value db infos q m args s = elim (Option-cases (walk_of (lookup infos q m))) [
  | inl e ↦ rw (e, all, items) (all_rows-Drives yield zero_value db infos q m args s)
  | inr ((b, walk), e) ↦ rw (e, all, items) (all_walk-Drives yield zero_value b walk args s)
]
