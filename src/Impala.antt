-- ===== src/Impala.antt =====
-- models/impala: walk.go, and the walks that catalog.go registers. `Ask` is a function that runs
-- statements; the walks are in the module below this one. The column statistics, which are floating
-- point numbers, are left out.
pub mod Walks
pub mod Visible
pub mod Kinds
pub mod Shown
use dbmeta.Common.{
  ℕ, suc, ◌+◌, Bool, true, false, ◌&&◌, ◌||◌, not, Option, none, some, List, [], ◌∷◌, ◌++◌, map,
  length, inl, inr, get_elem?, is_empty, ltb, if◌then◌else◌, Result, ok, err, panic, ◌>>=◌,
}
use dbmeta.Common.Text.{Text, str, text_eq, contains, trim_space}
use dbmeta.Common.Cut.{cut_suffix}
use dbmeta.Common.Int.{ℤ, pos, negsuc}
use dbmeta.Common.Assoc
use dbmeta.Value.{string, bool}
use dbmeta.Bind.{Args}
use dbmeta.Like.{like}
use dbmeta.Password.{quote_identifier}
use dbmeta.Service.{Service, Answer}
use dbmeta.Service
use dbmeta.Tablestore.{or_empty, parse_int}
use dbmeta.Walk.{Ask, answer, then_ask, gather}

abbrev builtins : Text
builtins = str "_impala_builtins"

-- `arg`
unfoldable pub arg : Args → Text → Text
arg args name = elim (Assoc.get args name) [ some (string s) ↦ s | _ ↦ [] ]

-- `system`
unfoldable pub system : Args → Bool
system args = elim (Assoc.get args (str "with_system")) [ some (bool b) ↦ b | _ ↦ false ]

-- `quote`
abbrev pub quote : Text → Text
quote name = quote_identifier name (str "`") b'`'

-- r[i]
unfoldable pub at : List Text → ℕ → Result Text
at r i = elim (get_elem? r i) [ none ↦ panic (str "index out of range") | some v ↦ ok v ]

abbrev pub texts_of : Answer → List (List Text)
texts_of res = map (λ r. map or_empty r) res.rows

module _ {W : Type 0} (query : Service W) where
  -- `readAll`: as elsewhere, with a NULL read as the empty text
  unfoldable pub read_all : Text → Ask W (List (List Text))
  read_all stmt w =
      let (res, w') = Service.read_all query w stmt in
      (elim res [ inl e ↦ err e | inr res ↦ ok (texts_of res) ], w')

pub record Database : Type 0 where
  pub name : Text
  pub comment : Option Text

pub record Relation : Type 0 where
  pub schema : Text
  pub name : Text
  pub view : Bool

-- A value in a column that the row may not have, and that is not empty.
abbrev pub filled : Option Text → Option Text
filled none = none
filled (some []) = none
filled (some (c ∷ v)) = some (c ∷ v)

-- Whether the loop of `databases` goes on with a name.
unfoldable pub is_listed : Args → Text → Text → Bool
unfolding text_eq system
is_listed args param name =
    not (text_eq name builtins && not (system args)) && like (arg args param) name

unfoldable pub databases_loop : Args → Text → List (List Text) → Result (List Database)
unfolding is_listed
databases_loop args param [] = ok []
databases_loop args param (r ∷ rows) =
    let rest = databases_loop args param rows in
    at r 0 >>= λ name.
    if is_listed args param name
    then (rest >>= λ ds. ok (record { name = name; comment = filled (get_elem? r 1) } ∷ ds))
    else rest

-- The keys of `isView`
unfoldable pub first_values : List (List Text) → Result (List Text)
first_values [] = ok []
first_values (r ∷ rows) = at r 0 >>= λ v. first_values rows >>= λ vs. ok (v ∷ vs)

unfoldable pub relations_loop :
    Args → Text → Text → List Text → List (List Text) → Result (List Relation)
relations_loop args param schema views [] = ok []
relations_loop args param schema views (r ∷ rows) =
    let rest = relations_loop args param schema views rows in
    at r 0 >>= λ name.
    if like (arg args param) name
    then (rest >>= λ rs.
        ok (record { schema = schema; name = name; view = contains views name } ∷ rs))
    else rest

module _ {W : Type 0} (query : Service W) where
  -- `databases`
  unfoldable pub databases : Args → Text → Ask W (List Database)
  databases args param =
      then_ask (read_all query (str "SHOW DATABASES"))
        λ rows. answer (databases_loop args param rows)

  -- A round of the loop of `relations`
  unfoldable pub relations_in : Args → Text → Database → Ask W (List Relation)
  relations_in args param d =
      then_ask (read_all query (str "SHOW VIEWS IN " ++ quote d.name)) λ rows.
        then_ask (answer (first_values rows)) λ views.
          then_ask (read_all query (str "SHOW TABLES IN " ++ quote d.name))
            λ tables. answer (relations_loop args param d.name views tables)

  -- `relations`
  unfoldable pub relations : Args → Text → Ask W (List Relation)
  relations args param =
      then_ask (databases args (str "schema")) λ dbs. gather (relations_in args param) dbs

-- `kind`
abbrev pub kind : Relation → Text
kind r = if r.view then str "view" else str "table"

-- `statistic`
unfoldable pub statistic : Text → Option ℤ
unfolding trim_space parse_int
statistic s = elim (parse_int (trim_space s)) [ ok (pos n) ↦ some (pos n) | _ ↦ none ]

pub record Table : Type 0 where
  pub schema : Text
  pub name : Text
  pub type : Text
  pub owner : Option Text
  pub comment : Option Text
  pub rows : Option ℤ
  pub size : Option ℤ
  pub persistence : Option Text
  pub access_method : Option Text

-- The table that `describe` starts from
abbrev pub undescribed : Relation → Table
undescribed r = record {
  schema = r.schema;
  name = r.name;
  type = kind r;
  owner = none;
  comment = none;
  rows = none;
  size = none;
  persistence = none;
  access_method = none;
}

-- `tableTypes`
abbrev pub table_types : List (Text × Text)
table_types =
    (str "MANAGED_TABLE", str "table")
    ∷ (str "EXTERNAL_TABLE", str "external table")
    ∷ (str "VIRTUAL_VIEW", str "view")
    ∷ (str "MATERIALIZED_VIEW", str "materialized view")
    ∷ []

abbrev pub is_told : Text → Bool
is_told value = not (is_empty value) && not (text_eq value (str "null"))

-- The end of `describe`
unfoldable pub with_storage : Table × Text → Table
unfolding cut_suffix
with_storage (v, format) = elim (cut_suffix v.type (str "view")) [
  | some _ ↦ v
  | none ↦ record v {
    persistence = some (str "permanent");
    access_method = if is_empty format then v.access_method else some format;
  }
]

module _ (to_lower : ℕ → ℕ) where
  abbrev pub type_word : Text → Text
  type_word value = elim (Assoc.get table_types value) [ some t ↦ t | none ↦ map to_lower value ]

  -- The switch of `describe`, on the table and its input format.
  unfoldable pub described : Text → Text → Text → Table × Text → Table × Text
  unfolding Assoc.get statistic trim_space
  described label value third (v, format) =
      if text_eq label (str "Table Type:")
      then (record v { type = type_word value }, format)
      else if text_eq label (str "Owner:") && is_told value
      then (record v { owner = some value }, format)
      else if text_eq label (str "InputFormat:") && is_told value
      then (v, value)
      else if is_empty label && text_eq value (str "comment")
      then (record v { comment = some (trim_space third) }, format)
      else if is_empty label && text_eq value (str "numRows")
      then (record v { rows = statistic third }, format)
      else if is_empty label && text_eq value (str "totalSize")
      then (record v { size = statistic third }, format)
      else (v, format)

  unfoldable pub describe_loop : List (List Text) → Table × Text → Table × Text
  unfolding described trim_space
  describe_loop [] state = state
  describe_loop ((label ∷ value ∷ third ∷ _) ∷ rows) state =
      describe_loop rows (described (trim_space label) (trim_space value) third state)
  describe_loop (_ ∷ rows) state = describe_loop rows state

  -- `describe`
  unfoldable pub describe : {W : Type 0} → Service W → Relation → Ask W Table
  unfolding describe_loop with_storage
  describe query r =
      then_ask
        (read_all query
          (str "DESCRIBE FORMATTED " ++ (quote r.schema ++ (str "." ++ quote r.name))))
        λ rows. answer (ok (with_storage (describe_loop rows (undescribed r, []))))
