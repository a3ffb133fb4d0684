-- ===== src/Syntax.antt =====
-- syntax.go: `FoldIdentifier` and `Pattern`. `unicode.ToLower` and `unicode.ToUpper` are parameters.
use dbmeta.Common.{
  ℕ, Bool, true, false, ◌&&◌, not, Option, none, some, [], ◌∷◌, ◌++◌, map, ◌==◌, if◌then◌else◌,
}
use dbmeta.Common.Text.{Text}
use dbmeta.Info.{Info, Fold, fold_none, fold_lower, fold_upper}
use dbmeta.Dialect.{Dialect, Infos, info_of}

abbrev pub double_quote : ℕ
double_quote = 34

abbrev pub backtick : ℕ
backtick = 96

-- What stands between two code points `q` at the ends of a text of two code points or more.
unfoldable pub inner : ℕ → Text → Option Text
inner q [] = none
inner q (a ∷ []) = if a == q then some [] else none
inner q (a ∷ b ∷ s) = elim (inner q (b ∷ s)) [ none ↦ none | some t ↦ some (a ∷ t) ]

unfoldable pub between : ℕ → Text → Option Text
unfolding inner
between q [] = none
between q (_ ∷ []) = none
between q (a ∷ b ∷ s) = if a == q then inner q (b ∷ s) else none

-- strings.ReplaceAll(s, qq, q): each doubled quote, from the left, becomes one
unfoldable pub undouble : ℕ → Text → Text
undouble q [] = []
undouble q (a ∷ []) = a ∷ []
undouble q (a ∷ b ∷ s) =
    let skip = undouble q s in
    let next = undouble q (b ∷ s) in if a == q && b == q then q ∷ skip else a ∷ next

unfoldable pub folded : (ℕ → ℕ) → (ℕ → ℕ) → Fold → Text → Text
folded to_lower to_upper fold_lower name = map to_lower name
folded to_lower to_upper fold_upper name = map to_upper name
folded to_lower to_upper fold_none name = name

abbrev pub quoted_by : Bool → ℕ → Text → Option Text
quoted_by true q name = between q name
quoted_by false q name = none

-- `Dialect.FoldIdentifier`, at the Info of the dialect
unfoldable pub fold_with : (ℕ → ℕ) → (ℕ → ℕ) → Info → Text → Text
unfolding between undouble folded
fold_with to_lower to_upper info name = elim (between double_quote name) [
  | some t ↦ undouble double_quote t
  | none ↦ elim (quoted_by info.syntax.backticks backtick name) [
    | some t ↦ undouble backtick t
    | none ↦ folded to_lower to_upper info.fold name
  ]
]

unfoldable pub fold_identifier : (ℕ → ℕ) → (ℕ → ℕ) → Infos → Dialect → Text → Text
unfolding fold_with info_of
fold_identifier to_lower to_upper infos d name = elim (info_of infos d) [
  | none ↦ name
  | some info ↦ fold_with to_lower to_upper info name
]

-- The variables of the loop of `Pattern`: the two builders and the one that is written to, which is
-- the second once the pattern is split, the run, and whether a double quote is open.
pub record Scan : Type 0 where
  pub first : Text
  pub second : Text
  pub run : Text
  pub split : Bool
  pub quote : Bool

-- cur.WriteString
unfoldable pub write : Text → Scan → Scan
write t st =
    if st.split then record st { second = st.second ++ t } else record st { first = st.first ++ t }

module _ (fold : Text → Text) where
  unfoldable pub flush : Scan → Scan
  unfolding write
  flush st = record (write (fold st.run) st) { run = [] }

  unfoldable pub push : ℕ → Scan → Scan
  push c st = record st { run = st.run ++ c ∷ [] }

  -- One round at the byte `c`; a doubled quote is seen by the loop.
  unfoldable pub scan_step : ℕ → Scan → Scan
  unfolding flush push write
  scan_step c st =
      if c == double_quote
      then (let st' = flush st in record st' { quote = not st.quote })
      else if st.quote
      then write (c ∷ []) st
      else if c == b'.' && not st.split
      then record (flush st) { split = true }
      else if c == b'*'
      then push b'%' st
      else if c == b'?'
      then push b'_' st
      else push c st

  unfoldable pub scan_loop : Text → Scan → Scan
  unfolding scan_step
  scan_loop [] st = st
  scan_loop (c ∷ []) st = scan_step c st
  scan_loop (c ∷ d ∷ p) st = elim (st.quote && c == double_quote && d == double_quote) [
    | true ↦ scan_loop p (write (double_quote ∷ []) st)
    | false ↦ scan_loop (d ∷ p) (scan_step c st)
  ]

  -- `Dialect.Pattern`, by the folding of the dialect
  unfoldable pub pattern_by : Text → Text × Text
  unfolding scan_loop
  pattern_by p =
      let start : Scan = record {
        first = [];
        second = [];
        run = [];
        split = false;
        quote = false;
      } in
      let st = flush (scan_loop p start) in
      if st.split then (st.first, st.second) else ([], st.first)

unfoldable pub pattern_of : (ℕ → ℕ) → (ℕ → ℕ) → Infos → Dialect → Text → Text × Text
unfolding pattern_by fold_identifier
pattern_of to_lower to_upper infos d p = pattern_by (fold_identifier to_lower to_upper infos d) p
