-- ===== src/Container/Shell/Words.antt =====
-- How a POSIX shell splits a command line into words, and what it reads of `HealthCmd`.
use dbmeta.Common.{
  ◌≡◌, refl, sym, ap, ◌∙◌, ℕ, Bool, true, false, ◌||◌, ◌&&◌, not, Option, none, some, List, [], ◌∷◌,
  ◌++◌, is_empty, if◌then◌else◌, ◌==◌, arith, append_assoc, append-nil, Bool-cases, inl, inr, All,
}
use dbmeta.Common.Text.{Text, str, join, replace_all, contains_rune}
use dbmeta.Container.Shell.{single_quote, shell_quote, needs_quotes, health_word, health_cmd}

-- Outside of quotes, inside single quotes, and behind a backslash.
pub data Quotes : Type 0 where
  outside inside behind_backslash : Quotes

-- What a shell gives a meaning of its own outside of quotes, besides blanks, single quotes and
-- backslashes: operators, expansions, double quotes, comments and the end of the line.
abbrev pub specials : Text
specials = str "|&;<>()$`\"*?[]{}#~\n"

abbrev pub blank : ℕ → Bool
blank c = c == 32 || c == 9

-- The word with one more code point, and the word that a quote opens.
abbrev push : Option Text → ℕ → Option Text
push none c = some (c ∷ [])
push (some w) c = some (w ++ c ∷ [])

abbrev begun : Option Text → Option Text
begun none = some []
begun (some w) = some w

abbrev flush : Option Text → List Text → List Text
flush none words = words
flush (some w) words = w ∷ words

abbrev flushed : Option Text → Option (List Text) → Option (List Text)
flushed word none = none
flushed word (some words) = some (flush word words)

-- The words of a command line; none where a quote is open at the end or a special stands unquoted.
pub words : Quotes → Option Text → Text → Option (List Text)
words outside word [] = some (flush word [])
words inside word [] = none
words behind_backslash word [] = none
words outside word (c ∷ s) =
    if blank c
    then flushed word (words outside none s)
    else if c == single_quote
    then words inside (begun word) s
    else if c == b'\\'
    then words behind_backslash (begun word) s
    else if contains_rune specials c
    then none
    else words outside (push word c) s
words inside word (c ∷ s) =
    if c == single_quote then words outside word s else words inside (push word c) s
words behind_backslash word (c ∷ s) = words outside (push word c) s

-- An argument that `HealthCmd` leaves as it is means itself: it is not empty, and no code point of it has
-- a meaning to the shell.
abbrev pub means_itself : Text → Bool
means_itself [] = true
means_itself (c ∷ s) = not (c == b'\\') && not (contains_rune specials c) && means_itself s

abbrev pub is_readable : Text → Bool
is_readable arg = needs_quotes arg || (not (is_empty arg) && means_itself arg)

-- A quoted text is read to its closing quote, whatever it holds.
words_inside :
    (w s rest : Text)
    → words inside (some w) (replace_all s single_quote (str "'\\''") ++ single_quote ∷ rest)
      ≡ words outside (some (w ++ s)) rest
unfolding words replace_all
words_inside w [] rest = ap (λ t. words outside (some t) rest) (sym (append-nil w))
words_inside w (c ∷ s) rest = elim (Bool-cases (c == single_quote)) [
  | inl e ↦ ground (arith, words_inside (w ++ c ∷ []) s rest, append_assoc w (c ∷ []) s)
  | inr e ↦ ground (arith, words_inside (w ++ c ∷ []) s rest, append_assoc w (c ∷ []) s)
]

words_outside :
    (w s rest : Text)
    → needs_quotes s ≡ false
    → means_itself s ≡ true
    → words outside (some w) (s ++ rest) ≡ words outside (some (w ++ s)) rest
unfolding words
words_outside w [] rest n h = ap (λ t. words outside (some t) rest) (sym (append-nil w))
words_outside w (c ∷ s) rest n h =
    ground (arith, words_outside (w ++ c ∷ []) s rest, append_assoc w (c ∷ []) s)

words_arg :
    (a rest : Text)
    → is_readable a ≡ true
    → words outside none (health_word a ++ rest) ≡ words outside (some a) rest
unfolding words shell_quote
words_arg a rest r = elim (Bool-cases (needs_quotes a)) [
  | inl e ↦ rw e (
      ap (λ t. words inside (some []) t)
        (append_assoc (replace_all a single_quote (str "'\\''")) _ rest)
      ∙ words_inside [] a rest)
  | inr e ↦ rw e (unquoted a e (ground arith))
]
  where
    unquoted :
        (s : Text)
        → needs_quotes s ≡ false
        → (not (is_empty s) && means_itself s) ≡ true
        → words outside none (s ++ rest) ≡ words outside (some s) rest
    unquoted [] n h = absurd (ground arith)
    unquoted (c ∷ s) n h = ground (arith, words_outside (c ∷ []) s rest)

-- The shell that is given `HealthCmd` finds the arguments of the readiness command as they are, one word
-- for each, when none of those that the code does not quote is empty or holds a backslash, a line break
-- or another sign of the shell's.
pub words-health_cmd :
    (ready : List Text)
    → All (λ arg. is_readable arg ≡ true) ready
    → words outside none (health_cmd ready) ≡ some ready
unfolding words health_cmd join
words-health_cmd [] h = refl
words-health_cmd (a ∷ []) h =
    ap (words outside none) (sym (append-nil (health_word a))) ∙ words_arg a [] h.0
words-health_cmd (a ∷ b ∷ ready) h =
    words_arg a (str " " ++ health_cmd (b ∷ ready)) h.0
    ∙ ap (flushed (some a)) (words-health_cmd (b ∷ ready) h.1)
