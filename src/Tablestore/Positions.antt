-- ===== src/Tablestore/Positions.antt =====
-- The positions of the columns that a reader of models/tablestore asks for, and the value of a row by the
-- name of its column.
use dbmeta.Common.{
  ◌≡◌, refl, ℕ, zero, suc, Option, none, some, List, [], ◌∷◌, ◌⊎◌, inl, inr, length, get_elem?, Any,
  here, there, if◌then◌else◌, Option-cases, arith, ok, err, Error,
}
use dbmeta.Common.Text.{Text, text_eq}
use dbmeta.Tablestore.{index_of, positions, cell, no_column}

-- The value of a row in the first column of a name.
unfoldable pub named : List Text → List (Option Text) → Text → Option Text
unfolding text_eq
named (c ∷ cols) (v ∷ r) name = if text_eq c name then v else named cols r name
named _ _ name = none

-- The positions are those of the names.
unfoldable pub At : List Text → List Text → List ℕ → Type 0
At cols [] [] = Unit
At cols (name ∷ names) (i ∷ at) = (index_of name cols ≡ some i) × At cols names at
At cols _ _ = ⊥

pub positions-At :
    (cols names : List Text)
    → ((at : List ℕ) × (positions cols names ≡ ok at) × At cols names at)
      ⊎ ((e : Error) × (positions cols names ≡ err e)
          × Any (λ name. index_of name cols ≡ none) names)
unfolding positions At
positions-At cols [] = inl ([], refl, tt)
positions-At cols (name ∷ names) = elim (Option-cases (index_of name cols)) [
  | inl e ↦ inr (no_column name cols, rw (positions, e) refl, here e)
  | inr (i, e) ↦ elim (positions-At cols names) [
    | inl (at, p, h) ↦ inl (i ∷ at, rw (positions, e, p) refl, (e, h))
    | inr (er, p, a) ↦ inr (er, rw (positions, e, p) refl, there a)
  ]
]

index_of-named :
    (cols : List Text) (r : List (Option Text)) (name : Text) (i : ℕ)
    → length r ≡ length cols
    → index_of name cols ≡ some i
    → get_elem? r i ≡ some (named cols r name)
unfolding index_of named
index_of-named [] r name i h e = cc
index_of-named (c ∷ cols) [] name i h e = cc
index_of-named (c ∷ cols) (v ∷ r) name i h e =
    grind (arith, λ (j : ℕ). index_of-named cols r name j)

pub cell-named :
    (cols names : List Text) (at : List ℕ) (r : List (Option Text)) (k : ℕ) (name : Text)
    → At cols names at
    → length r ≡ length cols
    → get_elem? names k ≡ some name
    → cell r at k ≡ ok (named cols r name)
unfolding At cell
cell-named cols [] [] r k name h l e = cc
cell-named cols [] (i ∷ at) r k name h l e = elim h [ ]
cell-named cols (n ∷ names) [] r k name h l e = elim h [ ]
cell-named cols (n ∷ names) (i ∷ at) r zero name (h, hs) l e =
    grind (arith, index_of-named cols r n i)
cell-named cols (n ∷ names) (i ∷ at) r (suc k) name (h, hs) l e =
    cell-named cols names at r k name hs l e
