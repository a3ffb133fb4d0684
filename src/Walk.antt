-- ===== src/Walk.antt =====
-- The iterators that a model writes itself, as programs. A walk runs statements, which change the
-- service, and calls the body of its caller, which works on a state and says whether it goes on. `Ask`
-- is a Go function with a result and an error that runs statements; `Walk` is the body of an iterator.
-- The rules of the module below this one are proved of them.
pub mod Holds
use dbmeta.Common.{
  Bool, true, false, Option, none, some, List, [], ◌∷◌, ◌++◌, Result, ok, err, panic, out_of_fuel,
  Error,
}
use dbmeta.Common.Text.{Text}
use dbmeta.Query.{Item}

abbrev pub Ask : Type 0 → Type 0 → Type 0
Ask W A = W → Result A × W

-- How the body of an iterator goes on: with a value, or not, since it has returned or has panicked.
pub data Outcome (W S A : Type 0) : Type 0 where
  going : A → W → S → Outcome W S A
  returned : S → Outcome W S A
  panicked : Text → Outcome W S A
  unfinished : Outcome W S A

abbrev pub Walk : Type 0 → Type 0 → Type 0 → Type 0
Walk W S A = W → S → Outcome W S A

module _ {W : Type 0} where
  abbrev pub answer : {A : Type 0} → Result A → Ask W A
  answer r w = (r, w)

  abbrev pub next_ask : {A B : Type 0} → Result A × W → (A → Ask W B) → Result B × W
  next_ask (ok a, w) next = next a w
  next_ask (err e, w) next = (err e, w)
  next_ask (panic m, w) next = (panic m, w)
  next_ask (out_of_fuel, w) next = (out_of_fuel, w)

  -- if err != nil { return nil, err }
  abbrev pub then_ask : {A B : Type 0} → Ask W A → (A → Ask W B) → Ask W B
  then_ask m next w = next_ask (m w) next

  -- A loop that appends what each round gives, and ends at the first error.
  unfoldable pub gather : {A B : Type 0} → (A → Ask W (List B)) → List A → Ask W (List B)
  gather round [] = answer (ok [])
  gather round (a ∷ others) =
      then_ask (round a) λ out. then_ask (gather round others) λ rest. answer (ok (out ++ rest))

module _ {W S : Type 0} where
  infixl 5 ◌>>=◌ ◌>>◌
  abbrev pub next_walk : {A B : Type 0} → Outcome W S A → (A → Walk W S B) → Outcome W S B
  next_walk (going a w s) next = next a w s
  next_walk (returned s) next = returned s
  next_walk (panicked m) next = panicked m
  next_walk unfinished next = unfinished

  abbrev pub ◌>>=◌ : {A B : Type 0} → Walk W S A → (A → Walk W S B) → Walk W S B
  ◌>>=◌ m next w s = next_walk (m w s) next

  abbrev pub skip : Walk W S (Unit {0})
  skip w s = going tt w s

  abbrev pub ◌>>◌ : {B : Type 0} → Walk W S (Unit {0}) → Walk W S B → Walk W S B
  m >> rest = m >>= λ _. rest

  -- A `for` over a slice
  unfoldable pub for_each : {A : Type 0} → (A → Walk W S (Unit {0})) → List A → Walk W S (Unit {0})
  for_each round [] = skip
  for_each round (a ∷ others) = round a >>= λ _. for_each round others

module _ {W S T : Type 0} (yield : S → Item T → S × Bool) (zero_value : T) where
  -- if !yield(v, nil) { return }
  unfoldable pub emit : T → Walk W S (Unit {0})
  emit v w s =
      let (s', go) = yield s (v, none) in elim go [ true ↦ going tt w s' | false ↦ returned s' ]

  abbrev pub failing : {A : Type 0} → Result A × W → S → Outcome W S A
  failing (ok a, w) s = going a w s
  failing (err e, w) s = returned (yield s (zero_value, some e)).0
  failing (panic m, w) s = panicked m
  failing (out_of_fuel, w) s = unfinished

  -- if err != nil { yield(zero, err); return }
  unfoldable pub or_fail : {A : Type 0} → Ask W A → Walk W S A
  or_fail m w s = failing (m w) s

  -- `yieldAll`
  unfoldable pub yield_all : Ask W (List T) → Walk W S (Unit {0})
  unfolding or_fail for_each emit
  yield_all vs = or_fail vs >>= for_each emit
