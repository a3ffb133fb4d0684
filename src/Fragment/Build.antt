-- ===== src/Fragment/Build.antt =====
-- `Stmt.Build` of query.go: the pieces of a statement resolved one by one and joined.
use dbmeta.Common.{
  ◌≡◌, refl, sym, ap, subst, ◌⊎◌, inl, inr, List, [], ◌∷◌, ◌++◌, Result, ok, err, ◌>>=◌,
  empty_query, Error,
}
use dbmeta.Common.Text.{Text, trim_right, join}
use dbmeta.Version.{VersionSet}
use dbmeta.Fragment.{
  Fragment, Choice, Stmt, resolve, keep_part, is_blank, build_parts, join_parts, build,
}
use dbmeta.Fragment.Resolve.{resolve-Outcome}
use dbmeta.Fragment.Rules.{Outcome, picked, ambiguous, wrong_product, too_old}

-- The text of each piece, in order.
pub data Resolves (versions : VersionSet) : Stmt → List Text → Type 0 where
  none : Resolves versions [] []
  piece :
      {c : Choice} {st : Stmt} {q : Text} {qs : List Text}
      → resolve c versions ≡ ok q
      → Resolves versions st qs
      → Resolves versions (c ∷ st) (q ∷ qs)

-- The pieces without the blanks at their ends, and without those of which nothing is left.
abbrev pub kept : List Text → List Text
kept [] = []
kept (q ∷ qs) = keep_part (kept qs) (trim_right is_blank q)

-- What `Build` may answer.
pub data Built (versions : VersionSet) (st : Stmt) : Result Text → Type 0 where
  built :
      (qs : List Text) (part : Text) (parts : List Text)
      → Resolves versions st qs
      → kept qs ≡ part ∷ parts
      → Built versions st (ok (join (10 ∷ []) (part ∷ parts)))
  blank :
      (qs : List Text)
      → Resolves versions st qs
      → kept qs ≡ []
      → Built versions st (err empty_query)
  failed :
      (before : Stmt) (c : Choice) (after : Stmt) (qs : List Text) (e : Error)
      → st ≡ before ++ c ∷ after
      → Resolves versions before qs
      → resolve c versions ≡ err e
      → Built versions st (err e)

module _ (versions : VersionSet) where
  data Parts (st : Stmt) : Result (List Text) → Type 0 where
    all : (qs : List Text) → Resolves versions st qs → Parts st (ok (kept qs))
    stopped :
        (before : Stmt) (c : Choice) (after : Stmt) (qs : List Text) (e : Error)
        → st ≡ before ++ c ∷ after
        → Resolves versions before qs
        → resolve c versions ≡ err e
        → Parts st (err e)

  returned :
      (P : Fragment → Type 0) (c : Choice) (r : Result Text)
      → Outcome versions P c r
      → ((q : Text) × (r ≡ ok q)) ⊎ ((e : Error) × (r ≡ err e))
  returned P c r (picked f p m b) = inl (f.query, refl)
  returned P c r (ambiguous f g h k l m) = inr (_, refl)
  returned P c r (wrong_product n h k) = inr (_, refl)
  returned P c r (too_old h k) = inr (_, refl)

  resolve_returned :
      (c : Choice)
      → ((q : Text) × (resolve c versions ≡ ok q)) ⊎ ((e : Error) × (resolve c versions ≡ err e))
  resolve_returned c = returned _ c _ (resolve-Outcome c versions)

  add_piece :
      (c : Choice) (q : Text) (st : Stmt) (r : Result (List Text))
      → resolve c versions ≡ ok q
      → Parts st r
      → Parts (c ∷ st) (r >>= λ parts. ok (keep_part parts (trim_right is_blank q)))
  add_piece c q st r h (all qs rs) = all (q ∷ qs) (piece h rs)
  add_piece c q st r h (stopped before d after qs e eq rs f) =
      stopped (c ∷ before) d after (q ∷ qs) e (ap (λ t. c ∷ t) eq) (piece h rs) f

  step_ok :
      (c : Choice) (q : Text) (st : Stmt)
      → resolve c versions ≡ ok q
      → build_parts (c ∷ st) versions
        ≡ (build_parts st versions >>= λ parts. ok (keep_part parts (trim_right is_blank q)))
  unfolding build_parts
  step_ok c q st h = rw (h, build_parts, ◌>>=◌)

  step_err :
      (c : Choice) (e : Error) (st : Stmt)
      → resolve c versions ≡ err e
      → build_parts (c ∷ st) versions ≡ err e
  unfolding build_parts
  step_err c e st h = rw (h, build_parts, ◌>>=◌)

  build_parts-Parts : (st : Stmt) → Parts st (build_parts st versions)
  build_parts-Parts [] = unfold build_parts in all [] none
  build_parts-Parts (c ∷ st) = elim (resolve_returned c) [
    | inl (q, h) ↦
        subst (Parts (c ∷ st)) (sym (step_ok c q st h))
          (add_piece c q st _ h (build_parts-Parts st))
    | inr (e, h) ↦
        subst (Parts (c ∷ st)) (sym (step_err c e st h)) (stopped [] c st [] e refl none h)
  ]

  joined : (st : Stmt) (r : Result (List Text)) → Parts st r → Built versions st (r >>= join_parts)
  unfolding join_parts
  joined st r (all qs rs) = go (kept qs) refl
    where
      go : (parts : List Text) → kept qs ≡ parts → Built versions st (join_parts parts)
      go [] e = blank qs rs e
      go (part ∷ parts) e = built qs part parts rs e
  joined st r (stopped before c after qs e eq rs f) = failed before c after qs e eq rs f

-- `Build` joins by a newline the texts that the pieces resolve to, each without its blanks at the end
-- and without the empty ones; it says "empty query" when none is left, and otherwise gives the error of
-- the first piece that does not resolve. It gives nothing else.
pub build-Built : (st : Stmt) (versions : VersionSet) → Built versions st (build st versions)
unfolding build
build-Built [] versions = blank [] none refl
build-Built (c ∷ st) versions = joined versions (c ∷ st) _ (build_parts-Parts versions (c ∷ st))
