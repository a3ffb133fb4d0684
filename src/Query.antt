-- ===== src/Query.antt =====
-- query.go: bindings, the registry of a query, `Support`, `Build`, `All`, `Each` and `First`. An
-- iterator is the function that runs the loop body `yield` on the state of its caller until the body
-- says stop. The proofs are in the modules below this one.
pub mod Answers
pub mod Refusals
pub mod Registry
use dbmeta.Common.{
  Bool, true, false, Option, none, some, List, [], ◌∷◌, ◌++◌, if◌then◌else◌, Result, ok, err, panic,
  ◌>>=◌, Error, wrapped, not_supported, model_not_built, version_too_old, several_statements,
}
use dbmeta.Common.Text.{Text, str}
use dbmeta.Common.Assoc
use dbmeta.Common.Assoc.{Map}
use dbmeta.Value.{Value, Bound, nil, as_bool}
use dbmeta.Version.{VersionSet}
use dbmeta.Info.{Info, no_info}
use dbmeta.Fragment.{Stmt, Field}
use dbmeta.Fragment
use dbmeta.Dialect.{Dialect, Infos, info_of, Meta}
use dbmeta.Bind.{Param, Derived, Args, bind}

pub record Variant : Type 0 where
  pub param : Text
  pub stmt : Stmt

-- A row with the error of its scan, as a loop body receives it.
abbrev pub Item : Type 0 → Type 0
Item T = T × Option Error

-- `walk` gives the pairs that the iterator of `Binding.Walk` yields, in order.
pub record Binding (Row T : Type 0) : Type 0 where
  pub stmt : Stmt
  pub variants : List Variant
  pub fields : List Field
  pub params : List Param
  pub derived : List Derived
  pub scan : Row → Item T
  pub keep : Option (T → Args → Bool)
  pub walk : Option (Args → List (Item T))

pub record Query (Row T : Type 0) : Type 0 where
  pub name : Text
  pub bindings : Map (Binding Row T)

pub data Support : Type 0 where
  not_built unsupported supported too_old : Support

-- `Support.String`
unfoldable pub support_string : Support → Text
support_string not_built = str "not built"
support_string unsupported = str "not supported"
support_string supported = str "supported"
support_string too_old = str "version too old"

-- errors.Is(err, ErrNotSupported) and errors.Is(err, ErrVersionTooOld)
unfoldable pub is_not_supported : Error → Bool
is_not_supported not_supported = true
is_not_supported (wrapped _ e) = is_not_supported e
is_not_supported _ = false

unfoldable pub is_version_too_old : Error → Bool
is_version_too_old version_too_old = true
is_version_too_old (wrapped _ e) = is_version_too_old e
is_version_too_old _ = false

-- What the error of building the statement says of the query.
unfoldable pub support_of_build : Result Text → Support
unfolding is_not_supported is_version_too_old
support_of_build (err e) =
    if is_not_supported e then unsupported else if is_version_too_old e then too_old else supported
support_of_build _ = supported

abbrev pub value_or_nil : Option Value → Value
value_or_nil none = nil
value_or_nil (some v) = v

-- The first variant whose parameter is true replaces the statement.
unfoldable pub variant_stmt : Stmt → List Variant → Args → Stmt
unfolding Assoc.get
variant_stmt stmt [] args = stmt
variant_stmt stmt (v ∷ variants) args =
    if as_bool (value_or_nil (Assoc.get args v.param))
    then v.stmt
    else variant_stmt stmt variants args

abbrev pub info_or_zero : Option Info → Info
info_or_zero none = no_info
info_or_zero (some info) = info

module _ {Row T : Type 0} where
  unfoldable pub panic_twice : Query Row T → Dialect → Text
  panic_twice q d = str "dbmeta: query " ++ (q.name ++ (str " registered twice for dialect " ++ d))

  -- `Query.Register`
  unfoldable pub register : Query Row T → Dialect → Binding Row T → Result (Query Row T)
  unfolding panic_twice Assoc.has Assoc.put
  register q d b =
      if Assoc.has q.bindings d
      then panic (panic_twice q d)
      else ok (record q { bindings = Assoc.put q.bindings d b })

  unfoldable pub share_binding :
      Query Row T → Dialect → Option (Binding Row T) → Result (Query Row T × Bool)
  unfolding panic_twice Assoc.has Assoc.put
  share_binding q to none = ok (q, false)
  share_binding q to (some b) =
      if Assoc.has q.bindings to
      then panic (panic_twice q to)
      else ok (record q { bindings = Assoc.put q.bindings to b }, true)

  -- `Query.Share`
  unfoldable pub share : Query Row T → Dialect → Dialect → Result (Query Row T × Bool)
  unfolding share_binding Assoc.get
  share q from to = share_binding q to (Assoc.get q.bindings from)

  -- `Query.binding`
  unfoldable pub binding : Query Row T → Dialect → Option (Binding Row T)
  unfolding Assoc.get
  binding q d = Assoc.get q.bindings d

  unfoldable pub support_of_binding : Option (Binding Row T) → VersionSet → Support
  unfolding support_of_build Fragment.build
  support_of_binding none versions = unsupported
  support_of_binding (some b) versions = support_of_build (Fragment.build b.stmt versions)

  unfoldable pub support_of : Infos → Query Row T → Meta → Support
  unfolding support_of_binding binding info_of
  support_of infos q m = elim (info_of infos m.dialect) [
    | none ↦ not_built
    | some _ ↦ support_of_binding (binding q m.dialect) m.versions
  ]

  -- `Query.Support`; none is a nil `*Meta`
  unfoldable pub support : Infos → Query Row T → Option Meta → Support
  unfolding support_of
  support infos q none = not_built
  support infos q (some m) = support_of infos q m

  -- The binding that `lookup` returns; a nil one panics where it is read.
  abbrev pub use_binding : Option (Binding Row T) → Result (Binding Row T)
  use_binding none = panic (str "nil pointer dereference")
  use_binding (some b) = ok b

  abbrev pub lookup_as : Support → Option (Binding Row T) → Result (Binding Row T)
  lookup_as not_built b = err model_not_built
  lookup_as unsupported b = err not_supported
  lookup_as supported b = use_binding b
  lookup_as too_old b = use_binding b

  -- `Query.lookup`
  unfoldable pub lookup : Infos → Query Row T → Meta → Result (Binding Row T)
  unfolding binding support_of
  lookup infos q m = lookup_as (support_of infos q m) (binding q m.dialect)

  -- `Query.Fields` and `Query.Params`
  unfoldable pub query_fields : Infos → Query Row T → Meta → Result (List Field)
  unfolding lookup
  query_fields infos q m = do b ← lookup infos q m; ok b.fields

  unfoldable pub query_params : Infos → Query Row T → Meta → Result (List Param)
  unfolding lookup
  query_params infos q m = do b ← lookup infos q m; ok b.params

  unfoldable pub build_binding :
      Option Info → VersionSet → Args → Binding Row T → Result (Text × List Bound)
  unfolding variant_stmt Fragment.build bind
  build_binding info versions args b = elim b.walk [
    | some _ ↦ err several_statements
    | none ↦ Fragment.build (variant_stmt b.stmt b.variants args) versions >>= λ s.
        bind s (info_or_zero info) b.params b.derived args
  ]

  -- `Query.Build`
  unfoldable pub build : Infos → Query Row T → Meta → Args → Result (Text × List Bound)
  unfolding lookup build_binding
  build infos q m args =
      lookup infos q m >>= build_binding (info_of infos m.dialect) m.versions args
