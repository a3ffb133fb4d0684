-- ===== src/Tablestore/Sieve.antt =====
-- Rows with a key: those that a test keeps, and of each key the first one.
use dbmeta.Common.{◌≡◌, refl, Bool, true, not, List, [], ◌∷◌, if◌then◌else◌, arith}
use dbmeta.Common.Text.{Text, text_eq, text_eq_iff, contains}

module _ {ℓ} {A : Type ℓ} where
  abbrev pub keep : (A → Bool) → List A → List A
  keep p [] = []
  keep p (r ∷ rows) = let rest = keep p rows in if p r then r ∷ rest else rest

module _ {ℓ} {A : Type ℓ} (key : A → Text) where
  -- The first row of each key, in their order.
  abbrev pub first_of_each : List A → List A
  first_of_each [] = []
  first_of_each (r ∷ rows) =
      r ∷ keep (λ other. not (text_eq (key r) (key other))) (first_of_each rows)

  abbrev pub without : List Text → List A → List A
  without seen rows = keep (λ r. not (contains seen (key r))) rows

  pub without_nil : (rows : List A) → without [] rows ≡ rows
  unfolding contains
  without_nil [] = refl
  without_nil (r ∷ rows) = ground (arith, without_nil rows)

  pub without_seen :
      (seen : List Text) (name : Text) (rows : List A)
      → contains seen name ≡ true
      → without seen (keep (λ other. not (text_eq name (key other))) rows) ≡ without seen rows
  without_seen seen name [] h = refl
  without_seen seen name (r ∷ rows) h =
      ground (arith, without_seen seen name rows, text_eq_iff name (key r))

  pub without_more :
      (seen : List Text) (name : Text) (rows : List A)
      → without seen (keep (λ other. not (text_eq name (key other))) rows)
        ≡ without (name ∷ seen) rows
  unfolding contains
  without_more seen name [] = refl
  without_more seen name (r ∷ rows) = ground (arith, without_more seen name rows)
