-- ===== src/Like/Relation.antt =====
-- The patterns of `Like` of walk.go as a relation, and the parts of its loop against it.
use dbmeta.Common.{
  ℕ, suc, ◌≡◌, ◌≢◌, sym, ◌∙◌, subst, inl, inr, Bool, true, false, [], ◌∷◌, arith, ◌==◌, ==_iff,
  Bool-cases,
}
use dbmeta.Common.Text.{Text}
use dbmeta.Like.{
  percent, underscore, backslash, skip_percents, some_suffix, next_is, next_any, escaped,
  after_percents, match_at,
}

-- A text matches a pattern: `%` any run, `_` one code point, `\x` the code point x, a backslash at the
-- end itself, and any other code point itself.
pub data Matches : Text → Text → Type 0 where
  empty : Matches [] []
  leave : {c : ℕ} {p t : Text} → c ≡ percent → Matches p t → Matches (c ∷ p) t
  take : {c x : ℕ} {p t : Text} → c ≡ percent → Matches (c ∷ p) t → Matches (c ∷ p) (x ∷ t)
  one : {c x : ℕ} {p t : Text} → c ≡ underscore → Matches p t → Matches (c ∷ p) (x ∷ t)
  own : {c x y : ℕ} {p t : Text} → c ≡ backslash → y ≡ x → Matches p t → Matches (c ∷ x ∷ p) (y ∷ t)
  last : {c y : ℕ} → c ≡ backslash → y ≡ c → Matches (c ∷ []) (y ∷ [])
  literal :
      {c y : ℕ} {p t : Text}
      → c ≢ percent
      → c ≢ underscore
      → c ≢ backslash
      → y ≡ c
      → Matches p t
      → Matches (c ∷ p) (y ∷ t)

-- A run of percent signs is one.
two_percents :
    {c d : ℕ} {p t : Text} → c ≡ percent → d ≡ percent → Matches (c ∷ d ∷ p) t → Matches (d ∷ p) t
two_percents e k (leave _ m) = m
two_percents e k (take _ m) = take k (two_percents e k m)
two_percents e k (one h m) = absurd (omega arith)
two_percents e k (own h _ m) = absurd (omega arith)
two_percents e k (literal n _ _ _ m) = absurd (n e)

-- A percent sign takes the place of another.
same_percent :
    {c d : ℕ} {p t : Text} → c ≡ percent → d ≡ percent → Matches (c ∷ p) t → Matches (d ∷ p) t
same_percent {p} {t} e k m = subst (λ x. Matches (x ∷ p) t) (e ∙ sym k) m

pub skip_sound :
    (c : ℕ) (p t : Text) → c ≡ percent → Matches (c ∷ skip_percents p) t → Matches (c ∷ p) t
unfolding skip_percents
skip_sound c [] t e m = m
skip_sound c (d ∷ p) t e m = elim (Bool-cases (d == percent)) [
  | inl h ↦ leave e (same_percent e ((==_iff d percent).0 h) (skip_sound c p t e (rw h at m)))
  | inr h ↦ rw h at m
]

pub skip_complete :
    (c : ℕ) (p t : Text) → c ≡ percent → Matches (c ∷ p) t → Matches (c ∷ skip_percents p) t
unfolding skip_percents
skip_complete c [] t e m = m
skip_complete c (d ∷ p) t e m = elim (Bool-cases (d == percent)) [
  | inl h ↦ rw h (
      let k : d ≡ percent = (==_iff d percent).0 h in
      skip_complete c p t e (same_percent k e (two_percents e k m)))
  | inr h ↦ rw h m
]

pub all_taken : (c : ℕ) (t : Text) → c ≡ percent → Matches (c ∷ []) t
all_taken c [] e = leave e empty
all_taken c (x ∷ t) e = take e (all_taken c t e)

pub suffix_sound :
    (c : ℕ) (q : Text) (test : Text → Bool) (t : Text)
    → c ≡ percent
    → ((u : Text) → test u ≡ true → Matches q u)
    → some_suffix test t ≡ true
    → Matches (c ∷ q) t
unfolding some_suffix
suffix_sound c q test [] e k h = leave e (k [] h)
suffix_sound c q test (x ∷ t) e k h = elim (Bool-cases (test (x ∷ t))) [
  | inl found ↦ leave e (k (x ∷ t) found)
  | inr missing ↦ take e (suffix_sound c q test t e k (rw missing at h))
]

suffix_here : (test : Text → Bool) (t : Text) → test t ≡ true → some_suffix test t ≡ true
unfolding some_suffix
suffix_here test [] h = h
suffix_here test (x ∷ t) h = rw h

suffix_later :
    (test : Text → Bool) (x : ℕ) (t : Text)
    → some_suffix test t ≡ true
    → some_suffix test (x ∷ t) ≡ true
unfolding some_suffix
suffix_later test x t h = ground arith

pub suffix_complete :
    (c : ℕ) (q : Text) (test : Text → Bool) {t : Text}
    → c ≡ percent
    → ((u : Text) → Matches q u → test u ≡ true)
    → Matches (c ∷ q) t
    → some_suffix test t ≡ true
suffix_complete c q test {t} e k (leave _ m) = suffix_here test t (k t m)
suffix_complete c q test e k (take {x} {t = u} _ m) =
    suffix_later test x u (suffix_complete c q test e k m)
suffix_complete c q test e k (one h m) = absurd (omega arith)
suffix_complete c q test e k (own h _ m) = absurd (omega arith)
suffix_complete c q test e k (last h _) = absurd (omega arith)
suffix_complete c q test e k (literal n _ _ _ m) = absurd (n e)

-- The four branches of the `switch`.
module _ (f c : ℕ) (p t : Text) where
  pub on_percent :
      (c == percent) ≡ true
      → match_at (suc f) (c ∷ p) t ≡ after_percents (match_at f) (skip_percents p) t
  unfolding match_at
  on_percent h = rw (h, match_at)

  pub on_underscore :
      (c == percent) ≡ false
      → (c == underscore) ≡ true
      → match_at (suc f) (c ∷ p) t ≡ next_any (match_at f p) t
  unfolding match_at
  on_underscore h k = rw (h, k, match_at)

  pub on_backslash :
      (c == percent) ≡ false
      → (c == underscore) ≡ false
      → (c == backslash) ≡ true
      → match_at (suc f) (c ∷ p) t ≡ escaped (match_at f) p t
  unfolding match_at
  on_backslash h k l = rw (h, k, l, match_at)

  pub on_literal :
      (c == percent) ≡ false
      → (c == underscore) ≡ false
      → (c == backslash) ≡ false
      → match_at (suc f) (c ∷ p) t ≡ next_is c (match_at f p) t
  unfolding match_at
  on_literal h k l = rw (h, k, l, match_at)
