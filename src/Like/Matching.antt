-- ===== src/Like/Matching.antt =====
-- `Like` of walk.go, and the relation that SQL's LIKE states, with no search order in it.
use dbmeta.Common.{
  ℕ, zero, suc, ◌≤◌, ◌<◌, ◌≡◌, ◌≢◌, refl, sym, ◌∙◌, subst, ◌↔◌, ◌⊎◌, inl, inr, Bool, true, false,
  false≢true, [], ◌∷◌, length, arith, ◌==◌, ==_iff, Bool-cases,
}
use dbmeta.Common.Text.{Text}
use dbmeta.Like.{
  percent, underscore, backslash, skip_percents, next_is, next_any, escaped, after_percents,
  match_at, like,
}
use dbmeta.Like.Relation.{
  Matches, empty, leave, take, one, own, last, literal, skip_sound, skip_complete, all_taken,
  suffix_sound, suffix_complete, on_percent, on_underscore, on_backslash, on_literal,
}

is_not : (c d : ℕ) → (c == d) ≡ false → c ≢ d
is_not c d h = ground arith

not_is : (c d : ℕ) → c ≢ d → (c == d) ≡ false
not_is c d h = ground arith

-- What the helpers answer, over any matcher that is right about what is behind.
after_percents_sound :
    (c : ℕ) (q : Text) (next : Text → Text → Bool) (t : Text)
    → c ≡ percent
    → ((q : Text) (u : Text) → next q u ≡ true → Matches q u)
    → after_percents next q t ≡ true
    → Matches (c ∷ q) t
unfolding after_percents
after_percents_sound c [] next t e k h = all_taken c t e
after_percents_sound c (d ∷ q) next t e k h =
    suffix_sound c (d ∷ q) (next (d ∷ q)) t e (k (d ∷ q)) h

next_any_sound :
    (c : ℕ) (p : Text) (next : Text → Bool) (t : Text)
    → c ≡ underscore
    → ((u : Text) → next u ≡ true → Matches p u)
    → next_any next t ≡ true
    → Matches (c ∷ p) t
unfolding next_any
next_any_sound c p next [] e k h = absurd (false≢true h)
next_any_sound c p next (x ∷ t) e k h = one e (k t h)

next_is_head :
    (c x : ℕ) (next : Text → Bool) (t : Text)
    → next_is c next (x ∷ t) ≡ true
    → (x ≡ c) × (next t ≡ true)
unfolding next_is
next_is_head c x next t h = ground arith

only_empty : {t : Text} → Matches [] t → t ≡ []
only_empty empty = refl

escaped_sound :
    (c : ℕ) (p : Text) (next : Text → Text → Bool) (t : Text)
    → c ≡ backslash
    → ((q : Text) (u : Text) → next q u ≡ true → Matches q u)
    → escaped next p t ≡ true
    → Matches (c ∷ p) t
unfolding escaped next_is
escaped_sound c [] next [] e k h = absurd (false≢true h)
escaped_sound c [] next (x ∷ t) e k h =
    let (same, rest) = next_is_head backslash x (next []) t h in
    subst (λ u. Matches (c ∷ []) (x ∷ u)) (sym (only_empty (k [] t rest))) (last e (same ∙ sym e))
escaped_sound c (d ∷ p) next [] e k h = absurd (false≢true h)
escaped_sound c (d ∷ p) next (x ∷ t) e k h =
    let (same, rest) = next_is_head d x (next p) t h in own e same (k p t rest)

literal_sound :
    (c : ℕ) (p : Text) (next : Text → Bool) (t : Text)
    → c ≢ percent
    → c ≢ underscore
    → c ≢ backslash
    → ((u : Text) → next u ≡ true → Matches p u)
    → next_is c next t ≡ true
    → Matches (c ∷ p) t
literal_sound c p next [] n m l k h = unfold next_is in absurd (false≢true h)
literal_sound c p next (x ∷ t) n m l k h =
    let (same, rest) = next_is_head c x next t h in literal n m l same (k t rest)

match_sound : (f : ℕ) (p t : Text) → match_at f p t ≡ true → Matches p t
match_sound zero p t h = unfold match_at in absurd (false≢true h)
match_sound (suc f) [] [] h = empty
match_sound (suc f) [] (x ∷ t) h = unfold match_at in absurd (false≢true h)
match_sound (suc f) (c ∷ p) t h = elim (Bool-cases (c == percent)) [
  | inl is_percent ↦ skip_sound c p t ((==_iff c percent).0 is_percent) (
      after_percents_sound c (skip_percents p) (match_at f) t ((==_iff c percent).0 is_percent)
        (match_sound f) (sym (on_percent f c p t is_percent) ∙ h))
  | inr a ↦ elim (Bool-cases (c == underscore)) [
    | inl is_one ↦
        next_any_sound c p (match_at f p) t ((==_iff c underscore).0 is_one) (match_sound f p)
          (sym (on_underscore f c p t a is_one) ∙ h)
    | inr b ↦ elim (Bool-cases (c == backslash)) [
      | inl esc ↦
          escaped_sound c p (match_at f) t ((==_iff c backslash).0 esc) (match_sound f)
            (sym (on_backslash f c p t a b esc) ∙ h)
      | inr d ↦
          literal_sound c p (match_at f p) t (is_not c percent a) (is_not c underscore b)
            (is_not c backslash d) (match_sound f p) (sym (on_literal f c p t a b d) ∙ h)
    ]
  ]
]

length-skip_percents : (p : Text) → length (skip_percents p) ≤ length p
unfolding skip_percents
length-skip_percents [] = omega arith
length-skip_percents (c ∷ p) = ground (arith, length-skip_percents p)

next_is_here :
    (c x : ℕ) (next : Text → Bool) (t : Text)
    → x ≡ c
    → next t ≡ true
    → next_is c next (x ∷ t) ≡ true
unfolding next_is
next_is_here c x next t e h = ground arith

after_percents_complete :
    (c : ℕ) (q : Text) (next : Text → Text → Bool) (t : Text)
    → c ≡ percent
    → ((u : Text) → Matches q u → next q u ≡ true)
    → Matches (c ∷ q) t
    → after_percents next q t ≡ true
unfolding after_percents
after_percents_complete c [] next t e k m = refl
after_percents_complete c (d ∷ q) next t e k m = suffix_complete c (d ∷ q) (next (d ∷ q)) e k m

-- What a derivation of each form says about the helper of its branch.
next_any_complete :
    (c : ℕ) (p : Text) (next : Text → Bool) {t : Text}
    → c ≢ percent
    → c ≡ underscore
    → ((u : Text) → Matches p u → next u ≡ true)
    → Matches (c ∷ p) t
    → next_any next t ≡ true
unfolding next_any
next_any_complete c p next n e k (leave h m) = absurd (n h)
next_any_complete c p next n e k (take h m) = absurd (n h)
next_any_complete c p next n e k (one {t} h m) = k t m
next_any_complete c p next n e k (own h _ m) = absurd (omega arith)
next_any_complete c p next n e k (last h _) = absurd (omega arith)
next_any_complete c p next n e k (literal _ l _ _ m) = absurd (l e)

escaped_complete :
    (c : ℕ) (p : Text) (next : Text → Text → Bool) {t : Text}
    → c ≢ percent
    → c ≢ underscore
    → c ≡ backslash
    → ((q u : Text) → length q ≤ length p → Matches q u → next q u ≡ true)
    → Matches (c ∷ p) t
    → escaped next p t ≡ true
unfolding escaped
escaped_complete c p next n l e k (leave h m) = absurd (n h)
escaped_complete c p next n l e k (take h m) = absurd (n h)
escaped_complete c p next n l e k (one h m) = absurd (l h)
escaped_complete c p next n l e k (own {x} {y} {p = q} {t} h same m) =
    next_is_here x y (next q) t same (k q t (omega arith) m)
escaped_complete c p next n l e k (last {y} h same) =
    next_is_here backslash y (next []) [] (same ∙ h) (k [] [] (omega arith) empty)
escaped_complete c p next n l e k (literal _ _ b _ m) = absurd (b e)

literal_complete :
    (c : ℕ) (p : Text) (next : Text → Bool) {t : Text}
    → c ≢ percent
    → c ≢ underscore
    → c ≢ backslash
    → ((u : Text) → Matches p u → next u ≡ true)
    → Matches (c ∷ p) t
    → next_is c next t ≡ true
literal_complete c p next n l b k (leave h m) = absurd (n h)
literal_complete c p next n l b k (take h m) = absurd (n h)
literal_complete c p next n l b k (one h m) = absurd (l h)
literal_complete c p next n l b k (own h _ m) = absurd (b h)
literal_complete c p next n l b k (last h _) = absurd (b h)
literal_complete c p next n l b k (literal {y} {t} _ _ _ same m) =
    next_is_here c y next t same (k t m)

match_complete : (f : ℕ) (p t : Text) → length p < f → Matches p t → match_at f p t ≡ true
match_complete zero p t h m = absurd (omega arith)
match_complete (suc f) [] t h m = unfold match_at in rw (only_empty m)
match_complete (suc f) (c ∷ p) t h m = elim (Bool-cases (c == percent)) [
  | inl is_percent ↦
      on_percent f c p t is_percent
      ∙ after_percents_complete c (skip_percents p) (match_at f) t ((==_iff c percent).0 is_percent)
          (λ u. match_complete f (skip_percents p) u (omega (arith, length-skip_percents p)))
          (skip_complete c p t ((==_iff c percent).0 is_percent) m)
  | inr a ↦ elim (Bool-cases (c == underscore)) [
    | inl is_one ↦
        on_underscore f c p t a is_one
        ∙ next_any_complete c p (match_at f p) (is_not c percent a) ((==_iff c underscore).0 is_one)
            (λ u. match_complete f p u (omega arith)) m
    | inr b ↦ elim (Bool-cases (c == backslash)) [
      | inl esc ↦
          on_backslash f c p t a b esc
          ∙ escaped_complete c p (match_at f) (is_not c percent a) (is_not c underscore b)
              ((==_iff c backslash).0 esc) (λ q u shorter. match_complete f q u (omega arith)) m
      | inr d ↦
          on_literal f c p t a b d
          ∙ literal_complete c p (match_at f p) (is_not c percent a) (is_not c underscore b)
              (is_not c backslash d) (λ u. match_complete f p u (omega arith)) m
    ]
  ]
]

-- `Like` answers true exactly when the pattern is empty or matches the text as SQL's LIKE says.
pub like_iff : (pattern s : Text) → (like pattern s ≡ true) ↔ ((pattern ≡ []) ⊎ Matches pattern s)
like_iff [] s = (λ _. inl refl, λ _. unfold like in refl)
like_iff (c ∷ p) s =
    unfold like in
    (
      λ h. inr (match_sound (suc (length (c ∷ p))) (c ∷ p) s h),
      λ h. elim h [
        | inl e ↦ cc
        | inr m ↦ match_complete (suc (length (c ∷ p))) (c ∷ p) s (omega arith) m
      ],
    )
