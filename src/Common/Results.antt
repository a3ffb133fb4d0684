-- ===== src/Common/Results.antt =====
-- What a Go call gives: a value, an error value, a panic, or (in a model of a loop) no fuel left.
-- The errors are those of error.go, an error of code outside the repository, and one wrapped by
-- `fmt.Errorf` under a context.
use Prim.Native.Nat.{ℕ}
use mathlib.Core.Path.{◌≡◌, refl}
use mathlib.Core.Logic.{◌⊎◌, inl, inr}
use mathlib.Core.Bool.{Bool, true, false}
use mathlib.Core.List.{List}

pub data Error : Type 0 where
  not_supported model_not_built not_found permission_denied version_too_old : Error
  invalid_version empty_query unknown_param missing_param several_statements : Error
  invalid_param quoting_unknown invalid_password ambiguous_fragment : Error
  no_rows : Error
  canceled : Error
  foreign : List ℕ → Error
  wrapped : List ℕ → Error → Error

pub data Result {ℓ} (A : Type ℓ) : Type ℓ where
  ok : A → Result A
  err : Error → Result A
  panic : List ℕ → Result A
  out_of_fuel : Result A

infixl 5 ◌>>=◌ ◌>>◌
-- An error, a panic and missing fuel end a chain of calls.
abbrev pub ◌>>=◌ {ℓ κ} : {A : Type ℓ} {B : Type κ} → Result A → (A → Result B) → Result B
out_of_fuel >>= next = out_of_fuel
panic message >>= next = panic message
err e >>= next = err e
ok a >>= next = next a

-- `if !b { return err }`
abbrev pub require : Bool → Error → Result (Unit {0})
require b e = elim b [ false ↦ err e | true ↦ ok tt ]

abbrev pub ◌>>◌ {ℓ} : {B : Type ℓ} → Result (Unit {0}) → Result B → Result B
checked >> rest = checked >>= λ _. rest

-- The call came to an end by itself: with a value, an error or a panic.
abbrev pub Ends {ℓ} : {A : Type ℓ} → Result A → Type 0
Ends out_of_fuel = ⊥
Ends _ = Unit

-- The call returned, and what it returned has the property; an error is allowed.
abbrev pub Returns {ℓ} : {A : Type ℓ} → (A → Type 0) → Result A → Type 0
Returns P (ok a) = P a
Returns P (err e) = Unit
Returns P _ = ⊥

pub Returns-cases {ℓ} :
    {A : Type ℓ} (P : A → Type 0) (r : Result A)
    → Returns P r
    → ((a : A) × (r ≡ ok a)) ⊎ ((e : Error) × (r ≡ err e))
Returns-cases P (ok a) h = inl (a, refl)
Returns-cases P (err e) h = inr (e, refl)
Returns-cases P (panic m) h = elim h [ ]
Returns-cases P out_of_fuel h = elim h [ ]

pub >>=-Returns {ℓ κ} :
    {A : Type ℓ} {B : Type κ} (P : A → Type 0) (Q : B → Type 0) (r : Result A) (next : A → Result B)
    → Returns P r
    → ((a : A) → P a → Returns Q (next a))
    → Returns Q (r >>= next)
>>=-Returns P Q (ok a) next h k = k a h
>>=-Returns P Q (err e) next h k = tt
>>=-Returns P Q (panic m) next h k = h
>>=-Returns P Q out_of_fuel next h k = h
