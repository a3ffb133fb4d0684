-- ===== src/Classify.antt =====
-- classify.go: `Classify` over the tokens of a statement. An index of -1 is `none`, and a `map` that
-- holds true values is the list of its keys. The proofs are in the modules below this one.
pub mod Tags
pub mod Lexer
pub mod Ends
pub mod Total
pub mod Longest
pub mod Literals
use dbmeta.Common.{
  ℕ, zero, suc, ◌+◌, Bool, true, false, ◌&&◌, ◌||◌, not, Option, none, some, List, [], ◌∷◌, ◌++◌,
  length, take, drop, get_elem?, is_empty, if◌then◌else◌,
}
use dbmeta.Common.Text.{Text, str, text_eq, contains, join}
use dbmeta.Info.{
  Info, no_info, Returning, returning_none, returning_rows, returning_output, returning_then_return,
}
use dbmeta.Dialect.{Dialect, Infos, info_of}
use dbmeta.Classify.Tags.{query_tags, exec_tags, create_ignore}
use dbmeta.Classify.Lexer.{Unicode, Kind, word, mark, other, Token, lex}

abbrev pub is_word_kind : Kind → Bool
is_word_kind word = true
is_word_kind _ = false

-- A word of the list at the top level.
unfoldable pub is_top : List Text → Token → Bool
unfolding contains
is_top words t = is_word_kind t.kind && is_zero t.depth && contains words t.text
  where
    is_zero : ℕ → Bool
    is_zero zero = true
    is_zero (suc n) = false

-- The place of the first such word, counted from `i`.
unfoldable pub find_top : List Text → ℕ → List Token → Option ℕ
unfolding is_top
find_top words i [] = none
find_top words i (t ∷ toks) = elim (is_top words t) [
  | true ↦ some i
  | false ↦ find_top words (suc i) toks
]

-- `topWord`
unfoldable pub top_word : List Token → ℕ → List Text → Option ℕ
unfolding find_top
top_word toks from words = find_top words from (drop from toks)

abbrev pub found : Option ℕ → Bool
found none = false
found (some i) = true

-- dml
abbrev pub dml : List Text
dml = str "INSERT" ∷ str "UPDATE" ∷ str "DELETE" ∷ str "MERGE" ∷ str "REPLACE" ∷ str "UPSERT" ∷ []

-- toks[i].text; a place behind the tokens has no text, which no test takes for a word.
abbrev pub text_at : List Token → ℕ → Text
text_at toks i = elim (get_elem? toks i) [ none ↦ [] | some t ↦ t.text ]

abbrev pub end_of : List Token → Option ℕ → ℕ
end_of toks none = length toks
end_of toks (some i) = i

-- The loop over the OUTPUT clauses, at the one at `i`; none is a loop that did not end.
unfoldable pub output_loop : ℕ → List Token → Option ℕ → Option Bool
output_loop fuel toks none = some false
output_loop zero toks (some i) = none
output_loop (suc fuel) toks (some i) =
    let next = top_word toks (suc i) (str "OUTPUT" ∷ []) in
    let rest = output_loop fuel toks next in
    if found (top_word (take (end_of toks next) toks) i (str "INTO" ∷ [])) then rest else some true

-- `returnsRows`
unfoldable pub returns_rows : List Token → ℕ → Returning → Option Bool
returns_rows toks from returning_none = some false
returns_rows toks from returning_rows = some (found (top_word toks from (str "RETURNING" ∷ [])))
returns_rows toks from returning_then_return = some (elim (top_word toks from (str "THEN" ∷ [])) [
  | none ↦ false
  | some i ↦ text_eq (text_at toks (suc i)) (str "RETURN")
])
returns_rows toks from returning_output =
    output_loop (length toks) toks (top_word toks from (str "OUTPUT" ∷ []))

-- The words at the start, `n` at most.
unfoldable pub leading : ℕ → List Token → List Text
leading zero toks = []
leading (suc n) [] = []
leading (suc n) (t ∷ toks) = if is_word_kind t.kind then t.text ∷ leading n toks else []

-- `listsSettings`, behind the first token
unfoldable pub lists_settings : List Token → Bool
unfolding text_eq
lists_settings [] = true
lists_settings (t ∷ []) =
    (is_word_kind t.kind && text_eq t.text (str "ALL")) || text_eq t.text (str ";")
lists_settings (t ∷ v ∷ []) = text_eq t.text (str "-") && text_eq v.text (str "V")
lists_settings (_ ∷ _ ∷ _ ∷ _) = false

-- The words that are not in the list.
unfoldable pub without : List Text → List Text → List Text
unfolding contains
without ignored [] = []
without ignored (w ∷ words) =
    let rest = without ignored words in if contains ignored w then rest else w ∷ rest

-- The words of the tag behind the first: CREATE and DROP leave some out.
unfoldable pub tag_words : Text → List Text → List Text
unfolding without text_eq
tag_words first words =
    if text_eq first (str "CREATE")
    then without create_ignore words
    else if text_eq first (str "DROP")
    then without (str "PROCEDURAL" ∷ []) words
    else words

-- The longest run of `i` words or fewer that is a tag, and else the first word.
unfoldable pub longest_tag : Text → List Text → ℕ → Text
unfolding contains
longest_tag first words zero = first
longest_tag first words (suc i) =
    let tag = join (str " ") (take (suc i) words) in
    elim (contains exec_tags tag) [ true ↦ tag | false ↦ longest_tag first words i ]

-- `execTag`, of the first word and the others
unfoldable pub exec_tag : Text → List Text → Text
unfolding longest_tag tag_words
exec_tag first words =
    let tagged = first ∷ tag_words first words in longest_tag first tagged (length tagged)

-- Whether the statement is a query, with the tag; none is a loop that did not end.
abbrev pub Answer : Type 0
Answer = Option (Text × Bool)

abbrev pub with_tag_of : Text → Option Bool → Answer
with_tag_of tag none = none
with_tag_of tag (some rows) = some (tag, rows)

-- `withTag` from the place of its statement word on
unfoldable pub with_tag_at : List Token → Info → Option ℕ → Answer
with_tag_at toks info none = some (str "WITH", true)
with_tag_at toks info (some i) =
    let tag = text_at toks i in
    if contains (str "SELECT" ∷ str "VALUES" ∷ str "TABLE" ∷ []) tag
    then (if text_eq tag (str "SELECT") && found (top_word toks i (str "INTO" ∷ []))
        then some (str "SELECT INTO", false)
        else some (str "WITH", true))
    else with_tag_of tag (returns_rows toks i info.statements.returning)

-- `withTag`
unfoldable pub with_tag : List Token → Info → Answer
with_tag toks info =
    with_tag_at toks info (top_word toks 1 (str "SELECT" ∷ str "VALUES" ∷ str "TABLE" ∷ dml))

-- Some mark is an equals sign.
unfoldable pub has_equals : List Token → Bool
unfolding text_eq
has_equals [] = false
has_equals (t ∷ toks) = (is_mark t.kind && text_eq t.text (str "=")) || has_equals toks
  where
    is_mark : Kind → Bool
    is_mark mark = true
    is_mark _ = false

-- `classify`, for a statement whose first words are `first` and `words`, no case of a query of two words
unfoldable pub by_first : Info → List Token → Text → List Text → Answer
by_first info toks first words =
    if text_eq first (str "SET")
      && info.statements.set_lists_settings
      && lists_settings (drop 1 toks)
    then some (str "SET", true)
    else if text_eq first (str "EXECUTE") && info.statements.execute_returns_rows
    then some (str "EXECUTE", true)
    else if text_eq first (str "WITH")
    then with_tag toks info
    else if text_eq first (str "SELECT")
    then (if found (top_word toks 0 (str "INTO" ∷ []))
        then some (str "SELECT INTO", false)
        else some (str "SELECT", true))
    else if text_eq first (str "PRAGMA")
    then some (str "PRAGMA", not (has_equals toks))
    else if contains dml first
    then with_tag_of first (returns_rows toks 0 info.statements.returning)
    else if contains query_tags first
        && not (text_eq first (str "SET"))
        && not (text_eq first (str "EXECUTE"))
    then some (first, true)
    else some (exec_tag first words, false)

-- The first two words, when they start a query.
unfoldable pub two_words : Text → List Text → Option Text
unfolding contains
two_words first [] = none
two_words first (second ∷ words) =
    let both = first ++ (str " " ++ second) in if contains query_tags both then some both else none

-- `classify` from the words at the start on
unfoldable pub by_words : Info → List Token → List Text → Answer
by_words info toks [] =
    if text_eq (text_at toks 0) (str "(")
    then some (str "SELECT", true)
    else some (str "EXEC", false)
by_words info toks (first ∷ words) = elim (two_words first words) [
  | some both ↦ some (both, true)
  | none ↦ by_first info toks first words
]

-- `classify`, of the tokens
unfoldable pub classify : Info → List Token → Answer
classify info [] = some (str "EXEC", false)
classify info (t ∷ toks) = by_words info (t ∷ toks) (leading 12 (t ∷ toks))

abbrev pub info_or_new : Option Info → Info
info_or_new none = no_info
info_or_new (some info) = info

-- `Dialect.Classify` with the Info of the dialect, or an empty one
unfoldable pub classify_with : Unicode → Info → Text → Answer
unfolding lex classify by_words by_first two_words leading with_tag with_tag_at lists_settings
    has_equals returns_rows output_loop exec_tag top_word contains text_eq
classify_with u info stmt = elim (lex u stmt info.syntax) [
  | none ↦ none
  | some toks ↦ elim (classify info toks) [
    | none ↦ none
    | some (tag, rows) ↦ some (tag, rows || info.every_statement_is_a_query)
  ]
]

-- `Dialect.Classify`
unfoldable pub classify_stmt : Unicode → Infos → Dialect → Text → Answer
unfolding classify_with info_of
classify_stmt u infos d stmt = classify_with u (info_or_new (info_of infos d)) stmt
