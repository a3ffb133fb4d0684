-- ===== src/Bind.antt =====
-- query.go and walk.go: the parameters of a query, `bind`, which writes them into a statement,
-- `withKnown` and `withDefaults`. The proofs are in the modules below this one.
pub mod Pieces
pub mod Defaults
use dbmeta.Common.{
  ℕ, zero, suc, ◌+◌, Bool, true, false, ◌&&◌, ◌||◌, not, Option, none, some, List, [], ◌∷◌, ◌++◌,
  ◌⊎◌, length, is_empty, leb, ◌==◌, if◌then◌else◌, Result, ok, err, panic, out_of_fuel, ◌>>=◌, ◌>>◌,
  require, unknown_param, missing_param,
}
use dbmeta.Common.Text.{Text, str, join}
use dbmeta.Common.Assoc
use dbmeta.Common.Assoc.{Map}
use dbmeta.Value.{Value, nil, string, bool, strings, is_nil, Bound, plain, named}
use dbmeta.Version.{format_uint}
use dbmeta.Info.{Info}
use dbmeta.Dialect.{lift}

pub record Param : Type 0 where
  pub name : Text
  pub desc : Text
  pub default : Value

pub record Derived : Type 0 where
  pub name : Text
  pub from : Map Value → Value

abbrev pub Args : Type 0
Args = Map Value

-- The loop that fills `known`: a later parameter of the same name wins.
unfoldable pub known_params : Map Param → List Param → Map Param
unfolding Assoc.put
known_params known [] = known
known_params known (p ∷ params) = known_params (Assoc.put known p.name p) params

unfoldable pub deriving_params : Map Derived → List Derived → Map Derived
unfolding Assoc.put
deriving_params known [] = known
deriving_params known (d ∷ derived) = deriving_params (Assoc.put known d.name d) derived

-- The loop over the arguments: each has to be a known parameter.
unfoldable pub all_known : Map Param → Args → Bool
unfolding Assoc.has
all_known known [] = true
all_known known ((name, _) ∷ args) = if Assoc.has known name then all_known known args else false

-- One round of `withKnown`.
unfoldable pub with_known_value : Args → Param → Option Value → Args
unfolding Assoc.put
with_known_value out p (some v) = Assoc.put out p.name v
with_known_value out p none = if is_nil p.default then out else Assoc.put out p.name p.default

unfoldable pub with_known_loop : Args → Args → List Param → Args
unfolding with_known_value Assoc.get
with_known_loop args out [] = out
with_known_loop args out (p ∷ params) =
    with_known_loop args (with_known_value out p (Assoc.get args p.name)) params

-- `withKnown`
unfoldable pub with_known : List Param → Args → Args
unfolding with_known_loop
with_known params args = with_known_loop args [] params

-- A list is bound as one string, its items joined by commas.
unfoldable pub join_list : Value → Value
unfolding join
join_list (strings items) = string (join (str ",") items)
join_list v = v

-- One round of `withDefaults`.
unfoldable pub default_value : Param → Option Value → Result Value
unfolding join_list
default_value p (some v) = ok (join_list v)
default_value p none = if is_nil p.default then err missing_param else ok p.default

unfoldable pub with_defaults_loop : Args → Args → List Param → Result Args
with_defaults_loop args out [] = ok out
with_defaults_loop args out (p ∷ params) = do
  v ← default_value p (Assoc.get args p.name)
  with_defaults_loop args (Assoc.put out p.name v) params

-- `withDefaults`
unfoldable pub with_defaults : List Param → Args → Result Args
unfolding with_defaults_loop known_params all_known
with_defaults params args = do
  require (all_known (known_params [] params) args) unknown_param
  with_defaults_loop args [] params

abbrev pub at_sign : ℕ
at_sign = b'@'

-- strings.IndexByte(s, '@'): what stands before the first at sign and behind it
unfoldable pub cut_at : Text → Option (Text × Text)
cut_at [] = none
cut_at (c ∷ s) =
    if c == at_sign
    then some ([], s)
    else elim (cut_at s) [ none ↦ none | some (before, rest) ↦ some (c ∷ before, rest) ]

abbrev pub is_name_byte : ℕ → Bool
is_name_byte c =
    c == b'_'
    || (leb b'a' c && leb c b'z')
    || (leb b'A' c && leb c b'Z')
    || (leb b'0' c && leb c b'9')

-- the longest run of name bytes at the start of a text, and what follows it
unfoldable pub span_name : Text → Text × Text
span_name [] = ([], [])
span_name (c ∷ s) =
    let rest = span_name s in if is_name_byte c then (c ∷ rest.0, rest.1) else ([], c ∷ s)

-- The value of a parameter that the arguments leave out.
abbrev pub or_default : Param → Option Value → Result Value
or_default p (some v) = ok v
or_default p none = if is_nil p.default then err missing_param else ok p.default

abbrev pub known_value : Args → Text → Option Param → Result Value
known_value args name none = err unknown_param
known_value args name (some p) = or_default p (Assoc.get args name)

-- The value that a name in the statement stands for.
unfoldable pub value_of : List Param → List Derived → Args → Text → Result Value
unfolding with_known known_params deriving_params
value_of params derived args name = elim (Assoc.get (deriving_params [] derived) name) [
  | some d ↦ ok (d.from (with_known params args))
  | none ↦ known_value args name (Assoc.get (known_params [] params) name)
]

-- What is written for a value, and the values behind it: a literal, a named argument or the
-- placeholder of its position.
abbrev pub write_placeholder : Option (ℕ → Text) → List Bound → Value → Result (Text × List Bound)
write_placeholder none vals v = panic (str "nil Placeholder")
write_placeholder (some write) vals v = ok (write (suc (length vals)), vals ++ plain v ∷ [])

unfoldable pub write_bound : Info → List Bound → Value → Result (Text × List Bound)
unfolding format_uint
write_bound info vals v =
    let name = str "p" ++ format_uint (suc (length vals)) in
    if info.named
    then ok (str "$" ++ name, vals ++ named name v ∷ [])
    else write_placeholder info.placeholder vals v

abbrev pub converted : Option (Value → Value) → Value → Value
converted none v = v
converted (some f) v = f v

unfoldable pub write_value : Info → List Bound → Value → Result (Text × List Bound)
unfolding write_bound
write_value info vals v = elim info.literal [
  | some render ↦ lift (render v) >>= λ lit. ok (lit, vals)
  | none ↦ write_bound info vals (converted info.bind_value v)
]

-- The text written for a parameter, and the values with its own.
unfoldable pub write_name :
    Info → List Param → List Derived → Args → List Bound → Text → Result (Text × List Bound)
unfolding value_of write_value join_list
write_name info params derived args vals name = do
  v ← value_of params derived args name
  write_value info vals (join_list v)

module _ (info : Info) (params : List Param) (derived : List Derived) (args : Args) where
  abbrev pub Next : Type 0
  Next = Text → Text → List Bound → Result (Text × List Bound)

  -- What stands behind a single at sign: a name, or none.
  unfoldable pub bind_name : Next → Text → List Bound → Text × Text → Result (Text × List Bound)
  bind_name next out vals ([], rest) = next rest (out ++ at_sign ∷ []) vals
  bind_name next out vals (c ∷ name, rest) =
      write_name info params derived args vals (c ∷ name) >>= λ (written, vals').
      next rest (out ++ written) vals'

  -- What stands behind an at sign. A second one starts a system variable, written as it is.
  unfoldable pub bind_at : Next → Text → List Bound → Text → Result (Text × List Bound)
  bind_at next out vals [] = bind_name next out vals ([], [])
  bind_at next out vals (c ∷ s) =
      if c == at_sign
      then (let (name, rest) = span_name s in next rest (out ++ (at_sign ∷ at_sign ∷ name)) vals)
      else bind_name next out vals (span_name (c ∷ s))

  -- The loop of `bind` on fuel: the text left, what is written, and the values.
  unfoldable pub bind_loop : ℕ → Text → Text → List Bound → Result (Text × List Bound)
  bind_loop zero s out vals = out_of_fuel
  bind_loop (suc f) s out vals = elim (cut_at s) [
    | none ↦ ok (out ++ s, vals)
    | some (before, rest) ↦ bind_at (bind_loop f) (out ++ before) vals rest
  ]

-- `bind`. Each round but the last eats an at sign.
unfoldable pub bind : Text → Info → List Param → List Derived → Args → Result (Text × List Bound)
unfolding bind_loop bind_at bind_name cut_at span_name write_name all_known known_params
bind s info params derived args = do
  require (all_known (known_params [] params) args) unknown_param
  bind_loop info params derived args (suc (length s)) s [] []
