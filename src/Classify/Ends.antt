-- ===== src/Classify/Ends.antt =====
-- The loops of `lex` and `returnsRows` of classify.go.
use dbmeta.Common.{
  ℕ, zero, suc, ◌+◌, ◌≡◌, ◌≤◌, refl, ap, inl, inr, Bool, true, false, ◌&&◌, Option, none, some,
  List, [], ◌∷◌, length, length-drop, drop, ◌==◌, Bool-cases, Option-cases, arith,
}
use dbmeta.Common.Text.{Text, str, is_space, byte_length, rune_len}
use dbmeta.Info.{Syntax}
use dbmeta.Classify.Lexer.{
  Unicode, Token, Round, skip_to, index_runes, skip_line, tag_rest, dollar_tag, span_word,
  word_or_mark, quoted_dollar, tag_at, lex_step, lex_loop, add_token, dollar,
}

pub skip_to_shorter :
    (closer : ℕ) (double escapes : Bool) (s : Text)
    → length (skip_to closer double escapes s) ≤ length s
unfolding skip_to
skip_to_shorter closer double escapes [] = omega arith
skip_to_shorter closer double escapes (_ ∷ []) = omega arith
skip_to_shorter closer double escapes (a ∷ b ∷ s) =
    ground (
      arith,
      skip_to_shorter closer double escapes s,
      skip_to_shorter closer double escapes (b ∷ s),
    )

index_runes_shorter : (sub s : Text) → length (index_runes sub s) ≤ length s
unfolding index_runes
index_runes_shorter sub [] = omega arith
index_runes_shorter sub (a ∷ s) = ground (arith, index_runes_shorter sub s)

skip_line_shorter : (s : Text) → length (skip_line s) ≤ length s
unfolding skip_line
skip_line_shorter [] = omega arith
skip_line_shorter (a ∷ s) = ground (arith, skip_line_shorter s)

too_long : {A : Type 0} (n : ℕ) → suc n ≤ 0 → A
too_long n h = let none_left : ⊥ = omega arith in elim none_left [ ]

module _ (u : Unicode) where
  span_word_shorter : (syn : Syntax) (s : Text) → length (span_word u syn s).1 ≤ length s
  unfolding span_word
  span_word_shorter syn [] = omega arith
  span_word_shorter syn (a ∷ s) = ground (arith, span_word_shorter syn s)

  word_or_mark_shorter :
      (syn : Syntax) (depth r : ℕ) (s : Text) → length (word_or_mark u syn depth r s).2 ≤ length s
  unfolding word_or_mark
  word_or_mark_shorter syn depth r s = ground (arith, span_word_shorter syn s)

  rune_len_positive : (c : ℕ) → 1 ≤ rune_len c
  unfolding rune_len
  rune_len_positive c = ground arith

  quoted_dollar_shorter :
      (depth r : ℕ) (tag s : Text)
      → length (quoted_dollar u depth (dollar ∷ tag) (r ∷ s)).2 ≤ length s
  unfolding byte_length
  quoted_dollar_shorter depth r tag s =
      let n = rune_len dollar + byte_length tag in
      let rest = drop n (r ∷ s) in
      omega (
        arith,
        rune_len_positive dollar,
        length-drop n (index_runes (dollar ∷ tag) rest),
        index_runes_shorter (dollar ∷ tag) rest,
        length-drop n (r ∷ s),
      )

  block_shorter : (s : Text) → length (drop 2 (index_runes (str "*/") (drop 1 s))) ≤ length s
  block_shorter s = omega (
    arith,
    length-drop 2 (index_runes (str "*/") (drop 1 s)),
    index_runes_shorter (str "*/") (drop 1 s),
    length-drop 1 s,
  )

  comment_shorter : (r : ℕ) (s : Text) → is_space r ≡ false → length (skip_line (r ∷ s)) ≤ length s
  unfolding skip_line is_space
  comment_shorter r s h = ground (arith, skip_line_shorter s)

  tag_shorter :
      (syn : Syntax) (depth r : ℕ) (s : Text)
      → length
          (elim (tag_at u syn r s) as (λ _. Round u) [
            | some tag ↦ quoted_dollar u depth tag (r ∷ s)
            | none ↦ word_or_mark u syn depth r s
          ]).2
        ≤ length s
  unfolding dollar_tag
  tag_shorter syn depth r s = elim (Bool-cases (r == dollar && syn.dollar_quotes)) [
    | inl h ↦ elim (Option-cases (tag_rest u true s)) [
      | inl n ↦ rw (h, n) (word_or_mark_shorter syn depth r s)
      | inr (t, e) ↦ rw (h, e) (quoted_dollar_shorter depth r t s)
    ]
    | inr h ↦ rw h (word_or_mark_shorter syn depth r s)
  ]

  -- Every round takes the code point that it stands at.
  lex_step_shorter :
      (syn : Syntax) (depth r : ℕ) (s : Text) → length (lex_step u syn depth r s).2 ≤ length s
  unfolding lex_step
  lex_step_shorter syn depth r s = ground (
    arith,
    comment_shorter r s,
    block_shorter s,
    skip_to_shorter r true syn.backslash_escapes s,
    skip_to_shorter r true false s,
    skip_to_shorter b']' true false s,
    tag_shorter syn depth r s,
  )

  token_added :
      (t : Option Token) (r : Option (List Token))
      → (toks : List Token) × (r ≡ some toks)
      → (toks : List Token) × (add_token u t r ≡ some toks)
  token_added none r (toks, e) = (toks, e)
  token_added (some t) r (toks, e) = (t ∷ toks, rw e refl)

  pub lex_loop_ends :
      (fuel : ℕ) (syn : Syntax) (depth : ℕ) (s : Text)
      → length s ≤ fuel
      → (toks : List Token) × (lex_loop u fuel syn depth s ≡ some toks)
  unfolding lex_loop
  lex_loop_ends fuel syn depth [] h = ([], refl)
  lex_loop_ends zero syn depth (r ∷ s) h = too_long (length s) h
  lex_loop_ends (suc fuel) syn depth (r ∷ s) h =
      let round = lex_step u syn depth r s in
      token_added round.0 _
        (lex_loop_ends fuel syn round.1 round.2 (omega (arith, lex_step_shorter syn depth r s)))

  -- More fuel changes nothing.
  pub lex_loop_enough :
      (m n : ℕ) (syn : Syntax) (depth : ℕ) (s : Text)
      → length s ≤ m
      → length s ≤ n
      → lex_loop u m syn depth s ≡ lex_loop u n syn depth s
  unfolding lex_loop
  lex_loop_enough zero zero syn depth s h k = refl
  lex_loop_enough m n syn depth [] h k = refl
  lex_loop_enough zero n syn depth (r ∷ s) h k = too_long (length s) h
  lex_loop_enough m zero syn depth (r ∷ s) h k = too_long (length s) k
  lex_loop_enough (suc m) (suc n) syn depth (r ∷ s) h k =
      let round = lex_step u syn depth r s in
      ap (add_token u round.0) (
        lex_loop_enough m n syn round.1 round.2 (omega (arith, lex_step_shorter syn depth r s))
          (omega (arith, lex_step_shorter syn depth r s)))
