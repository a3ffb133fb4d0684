-- ===== src/Classify/Literals.antt =====
-- The lexer of classify.go at the literals that password.go writes.
use dbmeta.Common.{
  ℕ, suc, ◌≡◌, ◌≤◌, refl, ap, subst, ◌∙◌, inl, inr, Bool, true, false, ◌&&◌, some, [], ◌∷◌, ◌++◌,
  append_assoc, length, ◌==◌, if◌then◌else◌, Bool-cases, arith,
}
use dbmeta.Common.Text.{Text, replace_all, has_prefix, is_space}
use dbmeta.Info.{Syntax, Quoting}
use dbmeta.Password.{quote, backslash, escapes, quote_literal}
use dbmeta.Password.Quotes.{StartsOther}
use dbmeta.Classify.Lexer.{Unicode, other, skip_to, lex_step, lex_loop, lex, add_token, quoted}
use dbmeta.Classify.Ends.{lex_loop_enough, skip_to_shorter}

skip_to_plain :
    (c closer : ℕ) (escaping : Bool) (s : Text)
    → (escaping && c == backslash) ≡ false
    → (c == closer) ≡ false
    → skip_to closer true escaping (c ∷ s) ≡ skip_to closer true escaping s
unfolding skip_to
skip_to_plain c closer escaping [] h k = refl
skip_to_plain c closer escaping (b ∷ s) h k = ground arith

skip_to_end :
    (escaping : Bool) (rest : Text)
    → StartsOther quote rest
    → skip_to quote true escaping (quote ∷ rest) ≡ rest
unfolding skip_to
skip_to_end escaping [] h = refl
skip_to_end true (b ∷ rest) h = ground arith
skip_to_end false (b ∷ rest) h = ground arith

-- A doubled text, without and with doubled backslashes, is skipped up to its closing quote.
skip_to-doubled :
    (s rest : Text)
    → StartsOther quote rest
    → skip_to quote true false (replace_all s quote (quote ∷ quote ∷ []) ++ quote ∷ rest) ≡ rest
unfolding skip_to replace_all
skip_to-doubled [] rest h = skip_to_end false rest h
skip_to-doubled (c ∷ s) rest h = elim (Bool-cases (c == quote)) [
  | inl e ↦ rw (e, replace_all) (skip_to-doubled s rest h)
  | inr e ↦ rw (e, replace_all) (skip_to_plain c quote false _ refl e ∙ skip_to-doubled s rest h)
]

skip_to-doubled_twice :
    (s rest : Text)
    → StartsOther quote rest
    → skip_to quote true true (
        replace_all
          (replace_all s quote (quote ∷ quote ∷ []))
          backslash
          (backslash ∷ backslash ∷ [])
        ++ quote ∷ rest)
      ≡ rest
unfolding skip_to replace_all
skip_to-doubled_twice [] rest h = skip_to_end true rest h
skip_to-doubled_twice (c ∷ s) rest h = elim (Bool-cases (c == quote)) [
  | inl e ↦ rw (e, replace_all) (skip_to-doubled_twice s rest h)
  | inr e ↦ elim (Bool-cases (c == backslash)) [
    | inl b ↦ rw (e, b, replace_all) (skip_to-doubled_twice s rest h)
    | inr b ↦
        rw (e, b, replace_all) (skip_to_plain c quote true _ b e ∙ skip_to-doubled_twice s rest h)
  ]
]

skip_to-quote_literal :
    (s rest : Text) (q : Quoting)
    → StartsOther quote rest
    → (body : Text) × (quote_literal s q ++ rest ≡ quote ∷ body)
      × (skip_to quote true (escapes q.backslash_escapes) body ≡ rest)
unfolding quote_literal
skip_to-quote_literal s rest q h = go (escapes q.backslash_escapes)
  where
    regroup : (t : Text) → (quote ∷ (t ++ quote ∷ [])) ++ rest ≡ quote ∷ (t ++ quote ∷ rest)
    regroup t = ap (λ x. quote ∷ x) (append_assoc t (quote ∷ []) rest)

    go :
        (escaping : Bool)
        → (body : Text) × ((quote
                ∷ ((if escaping
                      then replace_all
                          (replace_all s quote (quote ∷ quote ∷ []))
                          backslash
                          (backslash ∷ backslash ∷ [])
                      else replace_all s quote (quote ∷ quote ∷ []))
                    ++ quote ∷ []))
              ++ rest
            ≡ quote ∷ body)
          × (skip_to quote true escaping body ≡ rest)
    go true = (_, regroup _, skip_to-doubled_twice s rest h)
    go false = (_, regroup _, skip_to-doubled s rest h)

module _ (u : Unicode) (syn : Syntax) where
  at_quote :
      (depth : ℕ) (body : Text)
      → lex_step u syn depth quote body
        ≡ quoted u depth (skip_to quote true syn.backslash_escapes body)
  unfolding lex_step is_space has_prefix
  at_quote depth body = ground arith

  loop_at_quote :
      (fuel depth : ℕ) (body : Text)
      → lex_loop u (suc fuel) syn depth (quote ∷ body)
        ≡ add_token u
            (some (record { kind = other; text = []; depth = depth }))
            (lex_loop u fuel syn depth (skip_to quote true syn.backslash_escapes body))
  unfolding lex_loop
  loop_at_quote fuel depth body = rw (at_quote depth body) refl

-- The lexer takes a literal of `QuoteLiteral` for one token that no word matches, whatever text it
-- holds, and reads on behind it: a statement that starts with the literal has that token and then the
-- tokens of the rest. The dialect must read backslashes as the quoting state says, and the rest must
-- not start with a quote.
pub lex-quote_literal :
    (u : Unicode) (syn : Syntax) (s rest : Text) (q : Quoting)
    → syn.backslash_escapes ≡ escapes q.backslash_escapes
    → StartsOther quote rest
    → lex u (quote_literal s q ++ rest) syn
      ≡ add_token u (some (record { kind = other; text = []; depth = 0 })) (lex u rest syn)
unfolding lex
lex-quote_literal u syn s rest q e h =
    let (body, start, skipped) = skip_to-quote_literal s rest q h in
    let skip : skip_to quote true syn.backslash_escapes body ≡ rest =
      ap (λ b. skip_to quote true b body) e ∙ skipped in
    let shorter : length rest ≤ length body =
      subst (λ r. length r ≤ length body) skip
        (skip_to_shorter quote true syn.backslash_escapes body) in
    ap (λ t. lex_loop u (length t) syn 0 t) start
    ∙ (loop_at_quote u syn (length body) 0 body
        ∙ ap (add_token u (some (record { kind = other; text = []; depth = 0 }))) (
            ap (lex_loop u (length body) syn 0) skip
            ∙ lex_loop_enough u (length body) (length rest) syn 0 rest shorter (omega arith)))
