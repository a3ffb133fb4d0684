-- ===== src/Classify/Longest.antt =====
-- `execTag` of classify.go.
use dbmeta.Common.{
  ℕ, zero, suc, ◌≡◌, ◌≤◌, ◌<◌, refl, sym, subst, ◌⊎◌, inl, inr, true, false, List, ◌∷◌, length,
  take, Bool-cases, arith,
}
use dbmeta.Common.Text.{Text, str, join, contains}
use dbmeta.Classify.Tags.{exec_tags}
use dbmeta.Classify.{longest_tag, exec_tag, tag_words}

-- The first `i` words with spaces between them.
abbrev pub run : List Text → ℕ → Text
run words i = join (str " ") (take i words)

-- No run of more than `low` words, and of `high` at most, is a tag.
abbrev pub NoTag : List Text → ℕ → ℕ → Type 0
NoTag words low high = (j : ℕ) → low < j → j ≤ high → contains exec_tags (run words j) ≡ false

pub data Longest (first : Text) (words : List Text) (high : ℕ) : Text → Type 0 where
  known :
      (i : ℕ)
      → i < high
      → contains exec_tags (run words (suc i)) ≡ true
      → NoTag words (suc i) high
      → Longest first words high (run words (suc i))
  unknown : NoTag words 0 high → Longest first words high first

tag_hit :
    (first : Text) (words : List Text) (i : ℕ)
    → contains exec_tags (run words (suc i)) ≡ true
    → longest_tag first words (suc i) ≡ run words (suc i)
unfolding longest_tag
tag_hit first words i h = rw (h, longest_tag) refl

tag_miss :
    (first : Text) (words : List Text) (i : ℕ)
    → contains exec_tags (run words (suc i)) ≡ false
    → longest_tag first words (suc i) ≡ longest_tag first words i
unfolding longest_tag
tag_miss first words i h = rw (h, longest_tag) refl

one_more :
    (words : List Text) (low high : ℕ)
    → contains exec_tags (run words (suc high)) ≡ false
    → NoTag words low high
    → NoTag words low (suc high)
one_more words low high miss none_below j l h = elim (le_cases j high h) [
  | inl k ↦ none_below j l k
  | inr e ↦ subst (λ n. contains exec_tags (run words n) ≡ false) (sym e) miss
]
  where
    le_cases : (j high : ℕ) → j ≤ suc high → (j ≤ high) ⊎ (j ≡ suc high)
    le_cases j high h = omega arith

widen :
    {first : Text} {words : List Text} {high : ℕ} {tag : Text}
    → Longest first words high tag
    → contains exec_tags (run words (suc high)) ≡ false
    → Longest first words (suc high) tag
widen {words = words} {high = high} (known i l h n) miss =
    known i (omega arith) h (one_more words (suc i) high miss n)
widen {words = words} {high = high} (unknown n) miss = unknown (one_more words 0 high miss n)

longest_tag-Longest :
    (first : Text) (words : List Text) (high : ℕ)
    → Longest first words high (longest_tag first words high)
unfolding longest_tag
longest_tag-Longest first words zero = unknown λ j l h. let no : ⊥ = omega arith in elim no [ ]
longest_tag-Longest first words (suc i) =
    elim (Bool-cases (contains exec_tags (run words (suc i)))) [
      | inl h ↦
          subst (Longest first words (suc i)) (sym (tag_hit first words i h))
            (known i (omega arith) h λ j l k. let no : ⊥ = omega arith in elim no [ ])
      | inr h ↦
          subst (Longest first words (suc i)) (sym (tag_miss first words i h))
            (widen (longest_tag-Longest first words i) h)
    ]

-- The tag of a statement that returns no rows is the longest run of its leading words that stands in
-- the table of tags, with the words left out that CREATE and DROP leave out, and the first word when
-- no run stands there.
pub exec_tag-Longest :
    (first : Text) (words : List Text)
    → Longest first
        (first ∷ tag_words first words)
        (suc (length (tag_words first words)))
        (exec_tag first words)
unfolding exec_tag
exec_tag-Longest first words = longest_tag-Longest first _ _
