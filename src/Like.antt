-- ===== src/Like.antt =====
-- walk.go: `Like`, `LikeFold` and `ListHas`. The proofs are in the modules below this one.
pub mod Relation
pub mod Matching
use dbmeta.Common.{
  ℕ, zero, suc, ◌+◌, Bool, true, false, ◌&&◌, ◌||◌, not, Option, none, some, List, [], ◌∷◌, map,
  length, is_empty, ltb, ◌==◌, if◌then◌else◌,
}
use dbmeta.Common.Text.{Text, text_eq}

abbrev pub percent : ℕ
percent = b'%'

abbrev pub underscore : ℕ
underscore = b'_'

abbrev pub backslash : ℕ
backslash = 92

-- the inner `for` over a run of percent signs
unfoldable pub skip_percents : Text → Text
skip_percents [] = []
skip_percents (c ∷ p) = if c == percent then skip_percents p else c ∷ p

-- `for k := j; k <= len(t); k++ { if match(i, k) { return true } }`
unfoldable pub some_suffix : (Text → Bool) → Text → Bool
some_suffix test [] = test []
some_suffix test (c ∷ t) = if test (c ∷ t) then true else some_suffix test t

-- The text goes on with the code point `c`, and what is behind it matches.
unfoldable pub next_is : ℕ → (Text → Bool) → Text → Bool
next_is c rest [] = false
next_is c rest (x ∷ t) = if x == c then rest t else false

unfoldable pub next_any : (Text → Bool) → Text → Bool
next_any rest [] = false
next_any rest (x ∷ t) = rest t

-- The pattern behind a backslash: it makes the next code point its own, if there is one.
unfoldable pub escaped : (Text → Text → Bool) → Text → Text → Bool
unfolding next_is
escaped next [] t = next_is backslash (next []) t
escaped next (c ∷ p) t = next_is c (next p) t

unfoldable pub after_percents : (Text → Text → Bool) → Text → Text → Bool
unfolding some_suffix
after_percents next [] t = true
after_percents next (c ∷ p) t = some_suffix (next (c ∷ p)) t

-- `match(i, j)`, at the pattern from i and the text from j. Every round or call takes at least one
-- code point of the pattern; `false` at no fuel is never reached with more fuel than that.
unfoldable pub match_at : ℕ → Text → Text → Bool
match_at zero p t = false
match_at (suc f) [] t = is_empty t
match_at (suc f) (c ∷ p) t =
    if c == percent
    then after_percents (match_at f) (skip_percents p) t
    else if c == underscore
    then next_any (match_at f p) t
    else if c == backslash
    then escaped (match_at f) p t
    else next_is c (match_at f p) t

-- `Like`
unfoldable pub like : Text → Text → Bool
unfolding match_at after_percents skip_percents escaped next_is next_any
like pattern s = if is_empty pattern then true else match_at (suc (length pattern)) pattern s

-- `LikeFold`, over `unicode.ToLower`
unfoldable pub like_fold : (ℕ → ℕ) → Text → Text → Bool
unfolding like
like_fold to_lower pattern s = like (map to_lower pattern) (map to_lower s)

-- strings.SplitSeq(list, ","): the word in front of the first comma, and the others
unfoldable pub split_commas : Text → Text × List Text
split_commas [] = ([], [])
split_commas (c ∷ s) =
    let (word, words) = split_commas s in
    if c == b',' then ([], word ∷ words) else (c ∷ word, words)

unfoldable pub any_word : Text → List Text → Bool
unfolding text_eq
any_word word [] = false
any_word word (w ∷ words) = if text_eq w word then true else any_word word words

-- `ListHas`
unfoldable pub list_has : Text → Text → Bool
unfolding any_word split_commas
list_has list word =
    if is_empty list
    then true
    else (let (w, words) = split_commas list in any_word word (w ∷ words))
