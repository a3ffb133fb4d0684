-- ===== src/Fragment/Rules.antt =====
-- The rules that the comment of `Choice.Resolve` of query.go states, and `prefer` against them.
use dbmeta.Common.{
  ℕ, zero, suc, ◌≡◌, ◌≢◌, refl, ◌⊎◌, inl, inr, true, false, [], ◌∷◌, arith, is_empty, Bool-cases,
  Result, ok, err, not_supported, version_too_old, ambiguous_fragment,
}
use dbmeta.Common.Text.{Text, text_eq, text_eq_iff}
use dbmeta.Common.Int.{ltb_ℤ, pos}
use dbmeta.Version
use dbmeta.Version.{VersionSet, at_least}
use dbmeta.Version.Order.{compare_anti, at_least_total}
use dbmeta.Fragment.{Fragment, Choice, Best, nothing, best, gate, met, prefer}

module _ (versions : VersionSet) where
  -- The server meets the gate of the fragment.
  abbrev pub IsMet : Fragment → Type 0
  IsMet f = met (gate f) versions ≡ true

  -- The server reports the key of the fragment, or the fragment has none.
  abbrev pub IsReachable : Fragment → Type 0
  IsReachable f = (f.key ≡ []) ⊎ (Version.has versions f.key ≡ true)

  -- `f` is chosen before `g`: `g` has the same key and no newer Min, or `g` has no key.
  abbrev pub Beats : Fragment → Fragment → Type 0
  Beats f g = (g.key ≡ f.key → at_least f.min g.min ≡ true) × ((g.key ≡ f.key) ⊎ (g.key ≡ []))

  -- What `Resolve` may answer about the alternatives of which `P` holds; `c` is the choice.
  pub data Outcome (P : Fragment → Type 0) (c : Choice) : Result Text → Type 0 where
    picked :
        (f : Fragment)
        → P f
        → IsMet f
        → ((g : Fragment) → P g → IsMet g → Beats f g)
        → Outcome P c (ok f.query)
    ambiguous :
        (f g : Fragment)
        → P f × P g × IsMet f × IsMet g
        → f.key ≢ []
        → g.key ≢ []
        → f.key ≢ g.key
        → Outcome P c (err ambiguous_fragment)
    wrong_product :
        c ≢ []
        → ((g : Fragment) → P g → ¬ IsMet g)
        → ((g : Fragment) → P g → ¬ IsReachable g)
        → Outcome P c (err not_supported)
    too_old :
        ((g : Fragment) → P g → ¬ IsMet g)
        → (c ≡ []) ⊎ ((g : Fragment) × P g × IsReachable g)
        → Outcome P c (err version_too_old)

  pub Outcome-map :
      {P Q : Fragment → Type 0} {c : Choice} {r : Result Text}
      → ((g : Fragment) → P g → Q g)
      → ((g : Fragment) → Q g → P g)
      → Outcome P c r
      → Outcome Q c r
  Outcome-map to from (picked f p m beats) = picked f (to f p) m λ g q. beats g (from g q)
  Outcome-map to from (ambiguous f g (p, p', m, m') k k' d) =
      ambiguous f g (to f p, to g p', m, m') k k' d
  Outcome-map to from (wrong_product n no_met no_reach) =
      wrong_product n (λ g q. no_met g (from g q)) (λ g q. no_reach g (from g q))
  Outcome-map to from (too_old no_met (inl e)) = too_old (λ g q. no_met g (from g q)) (inl e)
  Outcome-map to from (too_old no_met (inr (g, p, r))) =
      too_old (λ h q. no_met h (from h q)) (inr (g, to g p, r))

  -- What the loop knows of the alternatives that it has seen.
  abbrev pub KnowsBest : (Fragment → Type 0) → Best → Type 0
  KnowsBest Seen nothing = (g : Fragment) → Seen g → ¬ IsMet g
  KnowsBest Seen (best f) = Seen f × IsMet f × ((g : Fragment) → Seen g → IsMet g → Beats f g)

  abbrev pub KnowsCount : (Fragment → Type 0) → ℕ → Type 0
  KnowsCount Seen zero = (g : Fragment) → Seen g → ¬ IsReachable g
  KnowsCount Seen (suc n) = (g : Fragment) × Seen g × IsReachable g

abbrev pub AndSeen : (Fragment → Type 0) → Fragment → Fragment → Type 0
AndSeen Seen f g = Seen g ⊎ (g ≡ f)

pub is_empty_nil : (s : Text) → is_empty s ≡ true → s ≡ []
is_empty_nil [] h = refl
is_empty_nil (c ∷ s) h = cc

not_empty : (s : Text) → is_empty s ≡ false → s ≢ []
not_empty [] h = cc
not_empty (c ∷ s) h = λ e. cc

pub at_least_self : (f : Fragment) → at_least f.min f.min ≡ true
at_least_self f = elim ((at_least_total f.min f.min).0) [ inl h ↦ h | inr h ↦ h ]

-- The two answers of the comparison in `prefer`.
compare_newer :
    (b f : Fragment)
    → ltb_ℤ (Version.compare b.min f.min) (pos 0) ≡ true
    → at_least f.min b.min ≡ true
unfolding at_least
compare_newer b f h = ground (arith, compare_anti b.min f.min)

compare_older :
    (b f : Fragment)
    → ltb_ℤ (Version.compare b.min f.min) (pos 0) ≡ false
    → at_least b.min f.min ≡ true
unfolding at_least
compare_older b f h = ground arith

-- The `switch` of the loop, as its reasons.
pub data Preferred (b f : Fragment) : Result Fragment → Type 0 where
  newer : b.key ≡ f.key → at_least f.min b.min ≡ true → Preferred b f (ok f)
  older : b.key ≡ f.key → at_least b.min f.min ≡ true → Preferred b f (ok b)
  keyed : b.key ≡ [] → b.key ≢ f.key → Preferred b f (ok f)
  unkeyed : f.key ≡ [] → b.key ≢ f.key → Preferred b f (ok b)
  clash : b.key ≢ [] → f.key ≢ [] → b.key ≢ f.key → Preferred b f (err ambiguous_fragment)

keys_differ : (b f : Fragment) → text_eq b.key f.key ≡ false → b.key ≢ f.key
keys_differ b f h = λ e. ground (arith, text_eq_iff b.key f.key)

pub prefer-Preferred : (b f : Fragment) → Preferred b f (prefer b f)
unfolding prefer
prefer-Preferred b f = elim (Bool-cases (text_eq b.key f.key)) [
  | inl same ↦ elim (Bool-cases (ltb_ℤ (Version.compare b.min f.min) (pos 0))) [
    | inl lt ↦ rw (same, lt) (newer ((text_eq_iff b.key f.key).0 same) (compare_newer b f lt))
    | inr ge ↦ rw (same, ge) (older ((text_eq_iff b.key f.key).0 same) (compare_older b f ge))
  ]
  | inr differ ↦ elim (Bool-cases (is_empty b.key)) [
    | inl e ↦ rw (differ, e) (keyed (is_empty_nil b.key e) (keys_differ b f differ))
    | inr e ↦ elim (Bool-cases (is_empty f.key)) [
      | inl d ↦ rw (differ, e, d) (unkeyed (is_empty_nil f.key d) (keys_differ b f differ))
      | inr d ↦
          rw (differ, e, d) (clash (not_empty b.key e) (not_empty f.key d) (keys_differ b f differ))
    ]
  ]
]
