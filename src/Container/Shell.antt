-- ===== src/Container/Shell.antt =====
-- http.go, and `HealthCmd` of container.go: the texts that a shell of the container reads.
pub mod Words
use dbmeta.Common.{
  ℕ, Bool, true, false, ◌||◌, Option, none, some, List, [], ◌∷◌, ◌++◌, map, is_empty, if◌then◌else◌,
  ◌==◌,
}
use dbmeta.Common.Text.{Text, str, join, replace_all}
use dbmeta.Common.Assoc
use dbmeta.Common.Assoc.{Map}
use dbmeta.Version.{format_uint, sort_keys}

abbrev pub single_quote : ℕ
single_quote = 39

-- `shellQuote`
unfoldable pub shell_quote : Text → Text
unfolding replace_all
shell_quote s = str "'" ++ (replace_all s single_quote (str "'\\''") ++ str "'")

-- strings.ContainsAny(arg, " \t\"'")
abbrev pub needs_quotes : Text → Bool
needs_quotes [] = false
needs_quotes (c ∷ s) = (c == 32 || c == 9 || c == 34 || c == single_quote) || needs_quotes s

-- One round of `HealthCmd`.
abbrev pub health_word : Text → Text
health_word arg = if needs_quotes arg then shell_quote arg else arg

-- `Server.HealthCmd`, of the readiness command
unfoldable pub health_cmd : List Text → Text
unfolding join
health_cmd ready = join (str " ") (map health_word ready)

-- `printfLiteral`
unfoldable pub printf_literal : Text → Text
unfolding replace_all
printf_literal s = replace_all s b'%' (str "%%")

abbrev value_or_empty : Option Text → Text
value_or_empty none = []
value_or_empty (some v) = v

-- The header lines, in the order of their names.
abbrev header_lines : Map Text → List Text → Text
header_lines headers [] = []
header_lines headers (k ∷ keys) =
    k
    ++ (str ": "
        ++ (value_or_empty (Assoc.get headers k) ++ (str "\\r\\n" ++ header_lines headers keys)))

abbrev json_line : Text → Text
json_line [] = []
json_line (_ ∷ _) = str "Content-Type: application/json\\r\\n"

-- `bashRequest`
unfoldable pub bash_request : ℕ → Text → Text → Text → Map Text → List ℕ → List Text
unfolding Assoc.get Assoc.keys sort_keys shell_quote printf_literal join format_uint
bash_request port method path body headers want =
    let head = header_lines headers (sort_keys (Assoc.keys headers)) ++ json_line body in
    str "bash"
    ∷ str "-c"
    ∷ (str "b="
        ++ (shell_quote body
            ++ (str "\nexec 3<>/dev/tcp/127.0.0.1/"
                ++ (format_uint port
                    ++ (str " || exit 1\nprintf '"
                        ++ (printf_literal method
                            ++ (str " "
                                ++ (printf_literal path
                                    ++ (str " HTTP/1.0\\r\\nHost: 127.0.0.1\\r\\n"
                                        ++ (printf_literal head
                                            ++ (str
                                                  "Content-Length: %d\\r\\n\\r\\n%s' \"${#b}\" \"$b\" >&3\nread -r _ status _ <&3\ncase \"$status\" in "
                                                ++ (join (str "|") (map format_uint want)
                                                    ++ str ") ;; *) exit 1 ;; esac"))))))))))))
    ∷ []

-- The script of a command that `bashRequest` built, its third item; another command is out of range.
abbrev script : List Text → Option Text
script (_ ∷ _ ∷ s ∷ _) = some s
script (_ ∷ _ ∷ []) = none
script (_ ∷ []) = none
script [] = none

-- `bashEither`
abbrev pub either_of : Option Text → Option Text → Option (List Text)
either_of none second = none
either_of (some first) none = none
either_of (some first) (some second) =
    some
      (str "bash" ∷ str "-c" ∷ (str "(" ++ (first ++ (str ") || (" ++ (second ++ str ")")))) ∷ [])

unfoldable pub bash_either : List Text → List Text → Option (List Text)
bash_either first second = either_of (script first) (script second)

abbrev in_parens : Option Text → Option (List Text) → Option (List Text)
in_parens none parts = none
in_parens (some s) none = none
in_parens (some s) (some parts) = some ((str "(" ++ (s ++ str ")")) ∷ parts)

abbrev all_parts : List (List Text) → Option (List Text)
all_parts [] = some []
all_parts (c ∷ commands) = in_parens (script c) (all_parts commands)

abbrev joined_parts : Option (List Text) → Option (List Text)
joined_parts none = none
joined_parts (some parts) = some (str "bash" ∷ str "-c" ∷ join (str " &&\n") parts ∷ [])

-- `bashAll`
unfoldable pub bash_all : List (List Text) → Option (List Text)
bash_all commands = joined_parts (all_parts commands)
