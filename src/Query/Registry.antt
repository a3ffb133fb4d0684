-- ===== src/Query/Registry.antt =====
-- `Query.Register` and `Query.Share` of query.go.
use dbmeta.Common.{
  ◌≡◌, refl, inl, inr, Bool, true, false, Option, none, some, if◌then◌else◌, Option-cases, Result,
  ok, panic,
}
use dbmeta.Common.Text.{Text, text_eq}
use dbmeta.Common.Assoc
use dbmeta.Common.Assoc.{get-put}
use dbmeta.Dialect.{Dialect}
use dbmeta.Query.{Query, Binding, register, share, share_binding, binding}

module _ {Row T : Type 0} (q : Query Row T) where
  -- `q'` is the query with the binding of one dialect set, and the others as they were.
  pub record Sets (d : Dialect) (b : Binding Row T) (q' : Query Row T) : Type 0 where
    pub same_name : q'.name ≡ q.name
    pub sets : (e : Dialect) → binding q' e ≡ (if text_eq d e then some b else binding q e)

  -- What `Register` may do.
  pub data Registers (d : Dialect) (b : Binding Row T) : Result (Query Row T) → Type 0 where
    twice :
        (old : Binding Row T) (message : Text)
        → binding q d ≡ some old
        → Registers d b (panic message)
    added : (q' : Query Row T) → binding q d ≡ none → Sets d b q' → Registers d b (ok q')

  -- What `Share` may do.
  pub data Shares (from to : Dialect) : Result (Query Row T × Bool) → Type 0 where
    no_source : binding q from ≡ none → Shares from to (ok (q, false))
    taken :
        (b old : Binding Row T) (message : Text)
        → binding q from ≡ some b
        → binding q to ≡ some old
        → Shares from to (panic message)
    shared :
        (b : Binding Row T) (q' : Query Row T)
        → binding q from ≡ some b
        → binding q to ≡ none
        → Sets to b q'
        → Shares from to (ok (q', true))

  pub put-Sets :
      (d : Dialect) (b : Binding Row T)
      → Sets d b (record q { bindings = Assoc.put q.bindings d b })
  unfolding binding
  put-Sets d b = record { same_name = refl; sets = λ e. get-put q.bindings d e b }

-- `Register` sets the binding of a dialect that has none, and nothing else; a second binding for the
-- same dialect is a panic.
pub register-Registers :
    {Row T : Type 0} (q : Query Row T) (d : Dialect) (b : Binding Row T)
    → Registers q d b (register q d b)
unfolding register binding Assoc.has
register-Registers q d b = elim (Option-cases (Assoc.get q.bindings d)) [
  | inl e ↦ rw (e, register) (added _ e (put-Sets q d b))
  | inr (old, e) ↦ rw (e, register) (twice old _ e)
]

share_binding-Shares :
    {Row T : Type 0} (q : Query Row T) (from to : Dialect) (found : Option (Binding Row T))
    → binding q from ≡ found
    → Shares q from to (share_binding q to found)
unfolding share_binding binding Assoc.has
share_binding-Shares q from to none e = no_source e
share_binding-Shares q from to (some b) e = elim (Option-cases (Assoc.get q.bindings to)) [
  | inl n ↦ rw (n, share_binding) (shared b _ e n (put-Sets q to b))
  | inr (old, n) ↦ rw (n, share_binding) (taken b old _ e n)
]

-- `Share` gives the binding of the first dialect to the second, when the first has one and the second
-- has none, and reports that it did; without a binding to share it changes nothing and reports that;
-- when both have a binding it panics.
pub share-Shares :
    {Row T : Type 0} (q : Query Row T) (from to : Dialect) → Shares q from to (share q from to)
unfolding share binding
share-Shares q from to = share_binding-Shares q from to _ refl
