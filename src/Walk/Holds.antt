-- ===== src/Walk/Holds.antt =====
-- Rules for what a walk keeps: a property of the caller's state that the body keeps on the items of some
-- kind holds at the end of each walk that yields only such items.
use dbmeta.Common.{
  Bool-cases, Bool, none, some, List, [], ◌∷◌, All, All-append, Returns, inl, inr, Result, ok, err,
  panic, out_of_fuel, Error,
}
use dbmeta.Query.{Item}
use dbmeta.Walk.{
  Ask, Outcome, going, returned, panicked, unfinished, Walk, next_ask, then_ask, gather, next_walk,
  failing, ◌>>=◌, for_each, emit, or_fail,
}

abbrev pub Gives : {W A : Type 0} → (A → Type 0) → Ask W A → Type 0
Gives P m = (w : _) → Returns P (m w).0

-- The caller's state keeps `I`, and a value has `P`. There is no panic.
abbrev pub Kept : {W S A : Type 0} → (S → Type 0) → (A → Type 0) → Outcome W S A → Type 0
Kept I P (going a w s) = P a × I s
Kept I P (returned s) = I s
Kept I P (panicked m) = ⊥
Kept I P unfinished = ⊥

abbrev pub Keeps : {W S A : Type 0} → (S → Type 0) → (A → Type 0) → Walk W S A → Type 0
Keeps I P m = (w : _) (s : _) → I s → Kept I P (m w s)

module _ {W : Type 0} where
  next_ask-Returns :
      {A B : Type 0} (P : A → Type 0) (Q : B → Type 0) (r : Result A × W) (next : A → Ask W B)
      → Returns P r.0
      → ((a : A) → P a → Gives Q (next a))
      → Returns Q (next_ask r next).0
  next_ask-Returns P Q (ok a, w) next h k = k a h w
  next_ask-Returns P Q (err e, w) next h k = tt
  next_ask-Returns P Q (panic m, w) next h k = h
  next_ask-Returns P Q (out_of_fuel, w) next h k = h

  pub then_ask-Gives :
      {A B : Type 0} (P : A → Type 0) (Q : B → Type 0) (m : Ask W A) (next : A → Ask W B)
      → Gives P m
      → ((a : A) → P a → Gives Q (next a))
      → Gives Q (then_ask m next)
  then_ask-Gives P Q m next h k w = next_ask-Returns P Q (m w) next (h w) k

  pub gather-Gives :
      {A B : Type 0} (P : A → Type 0) (Q : B → Type 0) (round : A → Ask W (List B))
      (rounds : List A)
      → All P rounds
      → ((a : A) → P a → Gives (All Q) (round a))
      → Gives (All Q) (gather round rounds)
  unfolding gather
  gather-Gives P Q round [] h k = λ w. tt
  gather-Gives P Q round (a ∷ others) (h, hs) k =
      then_ask-Gives (All Q) (All Q) (round a) _ (k a h) λ out p.
        then_ask-Gives (All Q) (All Q) (gather round others) _ (gather-Gives P Q round others hs k)
          λ rest q w. All-append Q out rest p q

module _ {W S : Type 0} (I : S → Type 0) where
  next_walk-Kept :
      {A B : Type 0} (P : A → Type 0) (Q : B → Type 0) (r : Outcome W S A) (next : A → Walk W S B)
      → Kept I P r
      → ((a : A) → P a → Keeps I Q (next a))
      → Kept I Q (next_walk r next)
  next_walk-Kept P Q (going a w s) next (p, i) k = k a p w s i
  next_walk-Kept P Q (returned s) next h k = h
  next_walk-Kept P Q (panicked m) next h k = h
  next_walk-Kept P Q unfinished next h k = h

  pub >>=-Keeps :
      {A B : Type 0} (P : A → Type 0) (Q : B → Type 0) (m : Walk W S A) (next : A → Walk W S B)
      → Keeps I P m
      → ((a : A) → P a → Keeps I Q (next a))
      → Keeps I Q (m >>= next)
  >>=-Keeps P Q m next h k w s i = next_walk-Kept P Q (m w s) next (h w s i) k

  pub for_each-Keeps :
      {A : Type 0} (P : A → Type 0) (round : A → Walk W S (Unit {0})) (rounds : List A)
      → All P rounds
      → ((a : A) → P a → Keeps I (λ _. Unit) (round a))
      → Keeps I (λ _. Unit) (for_each round rounds)
  unfolding for_each
  for_each-Keeps P round [] h k = λ w s i. (tt, i)
  for_each-Keeps P round (a ∷ others) (h, hs) k =
      >>=-Keeps (λ _. Unit) (λ _. Unit) (round a) _ (k a h)
        λ _ _. for_each-Keeps P round others hs k

module _ {W S T : Type 0} (I : S → Type 0) (yield : S → Item T → S × Bool) (zero_value : T) where
  pub emit-Keeps :
      (v : T)
      → ((s : S) → I s → I (yield s (v, none)).0)
      → Keeps I (λ _. Unit) (emit {W = W} yield zero_value v)
  unfolding emit
  emit-Keeps v h w s i = elim (Bool-cases (yield s (v, none)).1) [
    | inl e ↦ rw (emit, e) (tt, h s i)
    | inr e ↦ rw (emit, e) (h s i)
  ]

  failing-Kept :
      {A : Type 0} (P : A → Type 0) (r : Result A × W) (s : S)
      → ((s : S) (e : Error) → I s → I (yield s (zero_value, some e)).0)
      → Returns P r.0
      → I s
      → Kept I P (failing yield zero_value r s)
  failing-Kept P (ok a, w) s h p i = (p, i)
  failing-Kept P (err e, w) s h p i = h s e i
  failing-Kept P (panic m, w) s h p i = p
  failing-Kept P (out_of_fuel, w) s h p i = p

  pub or_fail-Keeps :
      {A : Type 0} (P : A → Type 0) (m : Ask W A)
      → ((s : S) (e : Error) → I s → I (yield s (zero_value, some e)).0)
      → Gives P m
      → Keeps I P (or_fail yield zero_value m)
  unfolding or_fail
  or_fail-Keeps P m h g w s i = failing-Kept P (m w) s h (g w) i
