-- ===== src/Classify/Lexer.antt =====
-- classify.go: `lex` and the functions that it calls. `unicode.IsLetter`, `unicode.IsDigit` and
-- `unicode.ToUpper` are a parameter. An index into the runes is the text from there on.
use dbmeta.Common.{
  ℕ, zero, suc, ◌-◌, Bool, true, false, ◌&&◌, ◌||◌, not, Option, none, some, List, [], ◌∷◌, map,
  length, drop, ◌==◌, if◌then◌else◌,
}
use dbmeta.Common.Text.{Text, str, has_prefix, is_space, byte_length}
use dbmeta.Info.{Syntax}

pub record Unicode : Type 0 where
  pub is_letter : ℕ → Bool
  pub is_digit : ℕ → Bool
  pub to_upper : ℕ → ℕ

-- 'w', 'p' and 'o'
pub data Kind : Type 0 where
  word mark other : Kind

pub record Token : Type 0 where
  pub kind : Kind
  pub text : Text
  pub depth : ℕ

abbrev pub backslash : ℕ
backslash = 92

abbrev pub dollar : ℕ
dollar = 36

-- skipTo, from behind the opener
unfoldable pub skip_to : ℕ → Bool → Bool → Text → Text
skip_to closer double escapes [] = []
skip_to closer double escapes (_ ∷ []) = []
skip_to closer double escapes (a ∷ b ∷ s) = elim (escapes && a == backslash) [
  | true ↦ skip_to closer double escapes s
  | false ↦ elim (a == closer) [
    | true ↦ elim (double && b == closer) [ true ↦ skip_to closer double escapes s | false ↦ b ∷ s ]
    | false ↦ skip_to closer double escapes (b ∷ s)
  ]
]

-- `indexRunes`: the text from the first `sub` on
unfoldable pub index_runes : Text → Text → Text
index_runes sub [] = []
index_runes sub (a ∷ s) = elim (has_prefix (a ∷ s) sub) [ true ↦ a ∷ s | false ↦ index_runes sub s ]

-- The comment up to the end of its line.
unfoldable pub skip_line : Text → Text
skip_line [] = []
skip_line (a ∷ s) = if a == 10 then a ∷ s else skip_line s

module _ (u : Unicode) where
  unfoldable pub tag_rest : Bool → Text → Option Text
  tag_rest is_first [] = none
  tag_rest is_first (a ∷ s) = elim (a == dollar) [
    | true ↦ some (dollar ∷ [])
    | false ↦ elim (a == b'_' || u.is_letter a || (not is_first && u.is_digit a)) [
      | true ↦ elim (tag_rest false s) [ none ↦ none | some t ↦ some (a ∷ t) ]
      | false ↦ none
    ]
  ]

  -- `dollarTag` at a dollar sign, from behind it; none is its empty string
  unfoldable pub dollar_tag : Text → Option Text
  unfolding tag_rest
  dollar_tag s = elim (tag_rest true s) [ none ↦ none | some t ↦ some (dollar ∷ t) ]

  -- isWord
  unfoldable pub is_word : Syntax → ℕ → Bool
  is_word syn r =
      r == b'_'
      || r == dollar
      || r == b'@'
      || (r == b'#' && not syn.hash_comments)
      || u.is_letter r
      || u.is_digit r

  unfoldable pub span_word : Syntax → Text → Text × Text
  span_word syn [] = ([], [])
  span_word syn (a ∷ s) = elim (is_word syn a) [
    | true ↦ (let (w, rest) = span_word syn s in (a ∷ w, rest))
    | false ↦ ([], a ∷ s)
  ]

  -- What one round of the loop gives: a token or none, the depth and the text that is left.
  abbrev pub Round : Type 0
  Round = Option Token × ℕ × Text

  abbrev pub quoted : ℕ → Text → Round
  quoted depth rest = (some (record { kind = other; text = []; depth = depth }), depth, rest)

  abbrev pub quoted_dollar : ℕ → Text → Text → Round
  quoted_dollar depth tag s =
      let n = byte_length tag in quoted depth (drop n (index_runes tag (drop n s)))

  -- The last two cases of the switch: a word, and a mark.
  unfoldable pub word_or_mark : Syntax → ℕ → ℕ → Text → Round
  unfolding span_word is_word
  word_or_mark syn depth r s =
      if is_word syn r
      then (let (w, rest) = span_word syn s in
          (
            some (record { kind = word; text = map u.to_upper (r ∷ w); depth = depth }),
            depth,
            rest,
          ))
      else if r == b'('
      then (some (record { kind = mark; text = r ∷ []; depth = depth }), suc depth, s)
      else if r == b')'
      then (some (record { kind = mark; text = r ∷ []; depth = depth - 1 }), depth - 1, s)
      else (some (record { kind = mark; text = r ∷ []; depth = depth }), depth, s)

  abbrev pub starts_comment : Syntax → ℕ → Text → Bool
  starts_comment syn r s =
      (syn.dash_comments && has_prefix (r ∷ s) (str "--"))
      || (syn.slash_comments && has_prefix (r ∷ s) (str "//"))
      || (syn.hash_comments && r == b'#')

  abbrev pub tag_at : Syntax → ℕ → Text → Option Text
  tag_at syn r s = if r == dollar && syn.dollar_quotes then dollar_tag s else none

  -- One round of the loop, at the rune `r`.
  unfoldable pub lex_step : Syntax → ℕ → ℕ → Text → Round
  lex_step syn depth r s =
      if is_space r
      then (none, depth, s)
      else if starts_comment syn r s
      then (none, depth, skip_line (r ∷ s))
      else if syn.block_comments && has_prefix (r ∷ s) (str "/*")
      then (none, depth, drop 2 (index_runes (str "*/") (drop 1 s)))
      else if r == 39 || r == 34
      then quoted depth (skip_to r true syn.backslash_escapes s)
      else if r == 96 && syn.backticks
      then quoted depth (skip_to r true false s)
      else if r == b'[' && syn.brackets
      then quoted depth (skip_to b']' true false s)
      else elim (tag_at syn r s) [
        | some tag ↦ quoted_dollar depth tag (r ∷ s)
        | none ↦ word_or_mark syn depth r s
      ]

  abbrev pub add_token : Option Token → Option (List Token) → Option (List Token)
  add_token none toks = toks
  add_token (some t) none = none
  add_token (some t) (some toks) = some (t ∷ toks)

  unfoldable pub lex_loop : ℕ → Syntax → ℕ → Text → Option (List Token)
  lex_loop fuel syn depth [] = some []
  lex_loop zero syn depth (_ ∷ _) = none
  lex_loop (suc fuel) syn depth (r ∷ s) =
      let (t, depth', rest) = lex_step syn depth r s in add_token t (lex_loop fuel syn depth' rest)

  -- `lex`; none is a loop that did not end
  unfoldable pub lex : Text → Syntax → Option (List Token)
  unfolding lex_loop lex_step skip_to index_runes skip_line dollar_tag word_or_mark is_space
      has_prefix byte_length
  lex stmt syn = lex_loop (length stmt) syn 0 stmt
