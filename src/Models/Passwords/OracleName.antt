-- ===== src/Models/Passwords/OracleName.antt =====
-- The user that a name of an Oracle password change means: `oracleUser` of models/oracle/password.go.
use mathlib.Core.List.{reverse, reverse-reverse, reverse-cons}
use dbmeta.Common.{
  ℕ, ◌≡◌, ◌≢◌, refl, sym, ap, subst, ◌∙◌, inl, inr, false, Option, none, some, [], ◌∷◌, ◌++◌, map,
  Bool-cases, ◌==◌, ==_iff, false≢true,
}
use dbmeta.Common.Text.{Text, str, cut_prefix}
use dbmeta.Common.Cut.{cut_suffix}
use dbmeta.Models.Passwords.{double_quote, oracle_name}

-- A name that does not start with a double quote means that name in upper case. One that stands between
-- two double quotes, with something between them, means what stands between them. No other name, `none`,
-- means a user.
pub data Means (to_upper : ℕ → ℕ) : Text → Option Text → Type 0 where
  blank : Means to_upper [] (some [])
  plain :
      (c : ℕ) (name : Text)
      → c ≢ double_quote
      → Means to_upper (c ∷ name) (some (map to_upper (c ∷ name)))
  quoted :
      (c : ℕ) (inner : Text)
      → Means to_upper (double_quote ∷ ((c ∷ inner) ++ double_quote ∷ [])) (some (c ∷ inner))
  lone : Means to_upper (double_quote ∷ []) none
  nothing : Means to_upper (double_quote ∷ double_quote ∷ []) none
  left_open :
      (inner : Text) (c : ℕ)
      → c ≢ double_quote
      → Means to_upper (double_quote ∷ (inner ++ c ∷ [])) none

module _ (to_upper : ℕ → ℕ) where
  abbrev unless_empty : Option Text → Option Text
  unless_empty none = none
  unless_empty (some []) = none
  unless_empty (some (c ∷ inner)) = some (c ∷ inner)

  oracle_name-cut_suffix :
      (inner : Text) (v : Option Text)
      → cut_suffix inner (str "\"") ≡ v
      → oracle_name to_upper (double_quote ∷ inner) ≡ unless_empty v
  unfolding oracle_name cut_prefix
  oracle_name-cut_suffix inner none e = rw (oracle_name, e) refl
  oracle_name-cut_suffix inner (some []) e = rw (oracle_name, e) refl
  oracle_name-cut_suffix inner (some (c ∷ rest)) e = rw (oracle_name, e) refl

  -- The suffix of a text that is written backwards.
  closed :
      (inner r : Text)
      → reverse inner ≡ double_quote ∷ r
      → cut_suffix inner (str "\"") ≡ some (reverse r)
  unfolding cut_suffix cut_prefix
  closed inner r e = rw (cut_suffix, e) refl

  unclosed :
      (inner r : Text) (c : ℕ)
      → (c == double_quote) ≡ false
      → reverse inner ≡ c ∷ r
      → cut_suffix inner (str "\"") ≡ none
  unfolding cut_suffix cut_prefix
  unclosed inner r c n e = rw (cut_suffix, e, cut_prefix, n) refl

  forwards : (inner r : Text) (c : ℕ) → reverse inner ≡ c ∷ r → inner ≡ reverse r ++ (c ∷ [])
  forwards inner r c e = sym (reverse-reverse inner) ∙ ap reverse e ∙ reverse-cons c r

  behind_quote :
      (inner rest : Text)
      → inner ≡ rest ++ double_quote ∷ []
      → oracle_name to_upper (double_quote ∷ inner) ≡ unless_empty (some rest)
      → Means to_upper (double_quote ∷ inner) (oracle_name to_upper (double_quote ∷ inner))
  behind_quote inner [] e h = rw (h, e) nothing
  behind_quote inner (c ∷ rest) e h = rw (h, e) (quoted c rest)

  backwards :
      (inner l : Text)
      → reverse inner ≡ l
      → Means to_upper (double_quote ∷ inner) (oracle_name to_upper (double_quote ∷ inner))
  unfolding oracle_name cut_suffix cut_prefix
  backwards inner [] e =
      subst (λ i. Means to_upper (double_quote ∷ i) (oracle_name to_upper (double_quote ∷ i)))
        (sym (sym (reverse-reverse inner) ∙ ap reverse e)) lone
  backwards inner (c ∷ r) e = elim (Bool-cases (c == double_quote)) [
    | inl q ↦
        let e' = e ∙ ap (λ x. x ∷ r) ((==_iff c double_quote).0 q) in
        behind_quote inner (reverse r) (forwards inner r double_quote e')
          (oracle_name-cut_suffix inner (some (reverse r)) (closed inner r e'))
    | inr q ↦
        rw (oracle_name-cut_suffix inner none (unclosed inner r c q e), forwards inner r c e)
          (left_open (reverse r) c λ same. false≢true (sym q ∙ (==_iff c double_quote).1 same))
  ]

  pub oracle_name-Means : (name : Text) → Means to_upper name (oracle_name to_upper name)
  unfolding oracle_name cut_prefix
  oracle_name-Means [] = blank
  oracle_name-Means (c ∷ name) = elim (Bool-cases (c == double_quote)) [
    | inl q ↦
        subst (λ d. Means to_upper (d ∷ name) (oracle_name to_upper (d ∷ name)))
          (sym ((==_iff c double_quote).0 q)) (backwards name (reverse name) refl)
    | inr q ↦
        rw (oracle_name, cut_prefix, q)
          (plain c name λ same. false≢true (sym q ∙ (==_iff c double_quote).1 same))
  ]
