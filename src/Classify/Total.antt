-- ===== src/Classify/Total.antt =====
-- `Classify` of classify.go, every path of it.
use dbmeta.Common.{
  ℕ, zero, suc, ◌+◌, ◌≡◌, ◌≤◌, ◌<◌, refl, sym, subst, inl, inr, Bool, true, false, ◌||◌, Option,
  none, some, List, [], ◌∷◌, length, length-drop, drop, if◌then◌else◌, Option-cases, arith,
}
use dbmeta.Common.Text.{Text, str}
use dbmeta.Info.{
  Info, Syntax, Returning, returning_none, returning_rows, returning_output, returning_then_return,
}
use dbmeta.Dialect.{Dialect, Infos, info_of}
use dbmeta.Classify.Lexer.{Unicode, Token, lex}
use dbmeta.Classify.Ends.{lex_loop_ends}
use dbmeta.Classify.{
  find_top, top_word, output_loop, returns_rows, with_tag_of, with_tag, with_tag_at, info_or_new,
  text_at, by_first, two_words, by_words, classify, classify_with, classify_stmt,
}

-- An answer is there.
abbrev pub Some : {A : Type 0} → Option A → Type 0
Some {A = A} r = (a : A) × (r ≡ some a)

abbrev is_some : {A : Type 0} → Option A → Bool
is_some none = false
is_some (some a) = true

find_top_bounds :
    (words : List Text) (i j : ℕ) (toks : List Token)
    → find_top words i toks ≡ some j
    → (i ≤ j) × (j < i + length toks)
unfolding find_top
find_top_bounds words i j [] h = cc
find_top_bounds words i j (t ∷ toks) h = ground (arith, find_top_bounds words (suc i) j toks)

pub top_word_bounds :
    (toks : List Token) (from : ℕ) (words : List Text) (j : ℕ)
    → top_word toks from words ≡ some j
    → (from ≤ j) × (j < length toks)
unfolding top_word
top_word_bounds toks from words j h =
    let (low, high) = find_top_bounds words from j (drop from toks) h in
    (low, omega (arith, length-drop from toks))

choice-Some : {A : Type 0} (b : Bool) {r s : Option A} → Some r → Some s → Some (if b then r else s)
choice-Some true r s = r
choice-Some false r s = s

-- One round, at the next place.
round-Some :
    (fuel : ℕ) (toks : List Token) (i : ℕ)
    → Some (output_loop fuel toks (top_word toks (suc i) (str "OUTPUT" ∷ [])))
    → Some (output_loop (suc fuel) toks (some i))
unfolding output_loop
round-Some fuel toks i h = choice-Some _ h (true, refl)

no_place-Some : (fuel : ℕ) (toks : List Token) → Some (output_loop fuel toks none)
unfolding output_loop
no_place-Some fuel toks = (false, refl)

-- `fuel` covers the tokens from the place on.
output_loop_ends :
    (fuel : ℕ) (toks : List Token) (i : ℕ)
    → i < length toks
    → length toks ≤ fuel + i
    → Some (output_loop fuel toks (some i))
output_loop_ends zero toks i h k = let none_left : ⊥ = omega arith in elim none_left [ ]
output_loop_ends (suc fuel) toks i h k =
    round-Some fuel toks i (elim (Option-cases (top_word toks (suc i) (str "OUTPUT" ∷ []))) [
      | inl e ↦ subst (λ n. Some (output_loop fuel toks n)) (sym e) (no_place-Some fuel toks)
      | inr (j, e) ↦
          let (low, high) = top_word_bounds toks (suc i) _ j e in
          subst (λ n. Some (output_loop fuel toks n)) (sym e)
            (output_loop_ends fuel toks j high (omega (arith, low)))
    ])

returns_rows-Some : (toks : List Token) (from : ℕ) (r : Returning) → Some (returns_rows toks from r)
unfolding returns_rows
returns_rows-Some toks from returning_none = (false, refl)
returns_rows-Some toks from returning_rows = (_, refl)
returns_rows-Some toks from returning_then_return = (_, refl)
returns_rows-Some toks from returning_output =
    elim (Option-cases (top_word toks from (str "OUTPUT" ∷ []))) [
      | inl e ↦ subst (λ n. Some (output_loop (length toks) toks n)) (sym e) (no_place-Some _ toks)
      | inr (j, e) ↦
          let (low, high) = top_word_bounds toks from _ j e in
          subst (λ n. Some (output_loop (length toks) toks n)) (sym e)
            (output_loop_ends (length toks) toks j high (omega arith))
    ]

tagged-Some : (tag : Text) {rows : Option Bool} → Some rows → Some (with_tag_of tag rows)
tagged-Some tag (b, e) = ((tag, b), rw e refl)

found_one : {A : Type 0} (r : Option A) → Some r → is_some r ≡ true
found_one r (a, e) = rw e refl

is_some-Some : {A : Type 0} (r : Option A) → is_some r ≡ true → Some r
is_some-Some none h = cc
is_some-Some (some a) h = (a, refl)

with_tag_at_total :
    (toks : List Token) (info : Info) (i : Option ℕ) → is_some (with_tag_at toks info i) ≡ true
unfolding with_tag_at
with_tag_at_total toks info none = refl
with_tag_at_total toks info (some i) = ground (
  arith,
  found_one _ (tagged-Some (text_at toks i) (returns_rows-Some toks i info.statements.returning)),
)

with_tag_total : (toks : List Token) (info : Info) → is_some (with_tag toks info) ≡ true
unfolding with_tag
with_tag_total toks info = with_tag_at_total toks info _

by_first_total :
    (info : Info) (toks : List Token) (first : Text) (words : List Text)
    → is_some (by_first info toks first words) ≡ true
unfolding by_first
by_first_total info toks first words = ground (
  arith,
  with_tag_total toks info,
  found_one _ (tagged-Some first (returns_rows-Some toks 0 info.statements.returning)),
)

by_words-Some :
    (info : Info) (toks : List Token) (words : List Text) → Some (by_words info toks words)
unfolding by_words
by_words-Some info toks [] = is_some-Some _ (ground arith)
by_words-Some info toks (first ∷ words) = elim (Option-cases (two_words first words)) [
  | inl e ↦ rw (e, by_words) (is_some-Some _ (by_first_total info toks first words))
  | inr (both, e) ↦ rw (e, by_words) ((both, true), refl)
]

classify-Some : (info : Info) (toks : List Token) → Some (classify info toks)
unfolding classify
classify-Some info [] = (_, refl)
classify-Some info (t ∷ toks) = by_words-Some info (t ∷ toks) _

lex-Some : (u : Unicode) (s : Text) (syn : Syntax) → Some (lex u s syn)
unfolding lex
lex-Some u s syn = lex_loop_ends u (length s) syn 0 s (omega arith)

-- From the tokens and their answer.
pub classify_with-some :
    (u : Unicode) (info : Info) (stmt : Text) (toks : List Token) (tag : Text) (rows : Bool)
    → lex u stmt info.syntax ≡ some toks
    → classify info toks ≡ some (tag, rows)
    → classify_with u info stmt ≡ some (tag, rows || info.every_statement_is_a_query)
unfolding classify_with
classify_with-some u info stmt toks tag rows e f = rw (e, f, classify_with)

-- Whatever the statement, the dialect and the registry, `Classify` comes to an end and gives a tag with
-- the answer whether rows come back: the lexer takes a code point each round, and the search through
-- the OUTPUT clauses moves forward.
pub classify_stmt-Some :
    (u : Unicode) (infos : Infos) (d : Dialect) (stmt : Text) → Some (classify_stmt u infos d stmt)
unfolding classify_stmt
classify_stmt-Some u infos d stmt =
    let info = info_or_new (info_of infos d) in
    let (toks, e) = lex-Some u stmt info.syntax in
    let ((tag, rows), f) = classify-Some info toks in
    (
      (tag, rows || info.every_statement_is_a_query),
      classify_with-some u info stmt toks tag rows e f,
    )
