-- ===== src/Tests/Classes.antt =====
-- `Classify` of classify.go on concrete statements.
use dbmeta.Common.{
  ◌≡◌, refl, [], ◌∷◌, ◌++◌, length, suc, true, false, some, Bool, ℕ, ◌-◌, ◌&&◌, ◌||◌, if◌then◌else◌,
  leb, ◌==◌,
}
use dbmeta.Common.Text.{str, text_eq, join, is_ascii_digit}
use dbmeta.Info.{Info, no_info, returning_rows}
use dbmeta.Classify.Lexer.{Unicode}
use dbmeta.Classify.{classify_with, classify_stmt, exec_tag, tag_words}
use dbmeta.Classify.Lexer.{lex, add_token, other}
use dbmeta.Classify.Total.{Some, classify_stmt-Some}
use dbmeta.Classify.Longest.{Longest, exec_tag-Longest}
use dbmeta.Classify.Literals.{lex-quote_literal}
use dbmeta.Dialect.{Infos}
use dbmeta.Password.{quote_literal, no_quoting}

abbrev is_lower : ℕ → Bool
is_lower c = leb b'a' c && leb c b'z'

-- The letters and digits of ASCII, and é.
abbrev pub few : Unicode
few = record {
  is_letter = λ c. is_lower c || (leb b'A' c && leb c b'Z') || c == 0xE9;
  is_digit = is_ascii_digit;
  to_upper = λ c. if is_lower c then c - 32 else c;
}

abbrev pub postgres : Info
postgres = record no_info {
  syntax = record no_info.syntax {
    dollar_quotes = true;
    block_comments = true;
    dash_comments = true;
  };
  statements = record no_info.statements { returning = returning_rows };
}

selects : classify_with few postgres (str "-- a\n select 'INTO' from t") ≡ some (str "SELECT", true)
unfolding classify_with text_eq join
selects = refl

creates :
    classify_with few postgres (str "create or replace temp view v as select 1")
    ≡ some (str "CREATE VIEW", false)
unfolding classify_with text_eq join
creates = refl

inserts :
    classify_with few postgres (str "insert into t values ('returning') returning a")
    ≡ some (str "INSERT", true)
unfolding classify_with text_eq join
inserts = refl

-- A tag of three code points and four bytes: the place behind it is counted in bytes, so the closing
-- tag is missed and the rest of the statement with it.
misses_returning :
    classify_with few postgres (str "insert into t values ($é$$é$) returning a")
    ≡ some (str "INSERT", false)
unfolding classify_with text_eq join
misses_returning = refl

finds_returning :
    classify_with few postgres (str "insert into t values ($e$$e$) returning a")
    ≡ some (str "INSERT", true)
unfolding classify_with text_eq join
finds_returning = refl

abbrev infos : Infos
infos = (str "pg", postgres) ∷ []

classify_stmt-Some_example : Some (classify_stmt few infos (str "pg") (str "select 1"))
classify_stmt-Some_example = classify_stmt-Some few infos (str "pg") (str "select 1")

lex-quote_literal_example :
    lex few (quote_literal (str "it's a ) returning") no_quoting ++ str ", 1)") postgres.syntax
    ≡ add_token few
        (some (record { kind = other; text = []; depth = 0 }))
        (lex few (str ", 1)") postgres.syntax)
lex-quote_literal_example =
    lex-quote_literal few postgres.syntax (str "it's a ) returning") (str ", 1)") no_quoting refl
      refl

exec_tag-Longest_example :
    Longest
      (str "CREATE")
      (str "CREATE" ∷ tag_words (str "CREATE") (str "TEMP" ∷ str "TABLE" ∷ str "T" ∷ []))
      (suc (length (tag_words (str "CREATE") (str "TEMP" ∷ str "TABLE" ∷ str "T" ∷ []))))
      (exec_tag (str "CREATE") (str "TEMP" ∷ str "TABLE" ∷ str "T" ∷ []))
exec_tag-Longest_example = exec_tag-Longest (str "CREATE") (str "TEMP" ∷ str "TABLE" ∷ str "T" ∷ [])
