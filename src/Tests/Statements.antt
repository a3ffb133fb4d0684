-- ===== src/Tests/Statements.antt =====
-- `bind` of query.go and `Like` of walk.go on concrete inputs.
use dbmeta.Common.{
  ◌≡◌, ◌↔◌, ◌⊎◌, refl, true, false, some, List, [], ◌∷◌, ok, err, require, ◌>>◌, unknown_param,
  missing_param, arith,
}
use dbmeta.Common.Text.{str, text_eq}
use dbmeta.Value.{nil, string, strings, plain, named}
use dbmeta.Info.{Info, no_info}
use dbmeta.Bind.{Args, with_defaults, Param, bind, all_known, known_params}
use dbmeta.Bind.Defaults.{Defaults, with_defaults-Defaults}
use dbmeta.Bind.Pieces.{Piece, raw, param, system, source, render, IsPieces, bind-render}
use dbmeta.Like.{like}
use dbmeta.Like.Matching.{like_iff}
use dbmeta.Like.Relation.{Matches}

abbrev question : Info
question = record no_info { placeholder = some (λ _. str "?") }

abbrev schema_param : Param
schema_param = record { name = str "schema"; desc = []; default = string [] }

abbrev name_param : Param
name_param = record { name = str "name"; desc = []; default = nil }

binds_twice :
    bind
      (str "a=@schema b=@schema c=@@x d=@")
      question
      (schema_param ∷ [])
      []
      ((str "schema", string (str "s")) ∷ [])
    ≡ ok (str "a=? b=? c=@@x d=@", plain (string (str "s")) ∷ plain (string (str "s")) ∷ [])
unfolding bind text_eq
binds_twice = refl

refuses_unknown :
    bind (str "a") question (schema_param ∷ []) [] ((str "shema", nil) ∷ []) ≡ err unknown_param
unfolding bind text_eq
refuses_unknown = refl

refuses_missing : bind (str "@name") question (name_param ∷ []) [] [] ≡ err missing_param
unfolding bind text_eq
refuses_missing = refl

names_positions :
    bind (str "@schema") (record no_info { named = true }) (schema_param ∷ []) [] []
    ≡ ok (str "$p1", named (str "p1") (string []) ∷ [])
unfolding bind text_eq
names_positions = refl

abbrev pieces : List Piece
pieces = raw (str "a LIKE ") ∷ param (str "schema") ∷ raw (str " AND ") ∷ system (str "mode") ∷ []

pieces-IsPieces : IsPieces pieces
unfolding source
pieces-IsPieces = ground arith

bind-render_example : bind (source pieces) question (schema_param ∷ []) [] [] ≡ (
    require (all_known (known_params [] (schema_param ∷ [])) []) unknown_param
    >> render question (schema_param ∷ []) [] [] [] pieces)
bind-render_example = bind-render pieces question (schema_param ∷ []) [] [] pieces-IsPieces

like_escapes : like (str "a\\%%_") (str "a%bc") ≡ true
unfolding like
like_escapes = refl

like_refuses : like (str "a\\%") (str "ab") ≡ false
unfolding like
like_refuses = refl

like_iff_example :
    (like (str "f%m") (str "film") ≡ true) ↔ ((str "f%m" ≡ []) ⊎ Matches (str "f%m") (str "film"))
like_iff_example = like_iff (str "f%m") (str "film")

abbrev list_args : Args
list_args = (str "schema", strings (str "a" ∷ str "b" ∷ [])) ∷ []

with_defaults-Defaults_example :
    Defaults
      (schema_param ∷ name_param ∷ [])
      list_args
      (with_defaults (schema_param ∷ name_param ∷ []) list_args)
with_defaults-Defaults_example = with_defaults-Defaults (schema_param ∷ name_param ∷ []) list_args
