-- ===== src/Fragment.antt =====
-- query.go: gates, fragments, choices and statements, and the gates of a field. The proofs are in
-- the modules below this one.
pub mod Rules
pub mod Resolve
pub mod Build
use dbmeta.Common.{
  ℕ, suc, ◌+◌, Bool, true, false, ◌&&◌, ◌||◌, not, List, [], ◌∷◌, ◌==◌, is_empty, length,
  if◌then◌else◌, Result, ok, err, ◌>>=◌, not_supported, version_too_old, empty_query,
  ambiguous_fragment,
}
use dbmeta.Common.Text.{Text, str, text_eq, trim_right, join}
use dbmeta.Common.Int.{ltb_ℤ, pos}
use dbmeta.Version
use dbmeta.Version.{Version, VersionSet, v_of}

pub record Gate : Type 0 where
  pub min : Version
  pub key : Text

-- `Gate.Met`
unfoldable pub met : Gate → VersionSet → Bool
met g versions =
    if not (is_empty g.key) && not (Version.has versions g.key)
    then false
    else Version.at_least (Version.get versions g.key) g.min

pub record Fragment : Type 0 where
  pub min : Version
  pub key : Text
  pub query : Text

-- `Fragment.Gate`
abbrev pub gate : Fragment → Gate
gate f = record { min = f.min; key = f.key }

abbrev pub Choice : Type 0
Choice = List Fragment

-- The server can meet the gate on a newer release: no key, or a key that it reports.
unfoldable pub reachable : Fragment → VersionSet → Bool
reachable f versions = is_empty f.key || Version.has versions f.key

-- The variable `best` and `found` of `Resolve`.
pub data Best : Type 0 where
  nothing : Best
  best : Fragment → Best

-- The `switch` on two fragments that are both met: the one to keep.
unfoldable pub prefer : Fragment → Fragment → Result Fragment
prefer b f =
    if text_eq b.key f.key
    then ok (if ltb_ℤ (Version.compare b.min f.min) (pos 0) then f else b)
    else if is_empty b.key
    then ok f
    else if is_empty f.key
    then ok b
    else err ambiguous_fragment

unfoldable pub consider : Best → Fragment → Result Best
unfolding prefer
consider nothing f = ok (best f)
consider (best b) f = do kept ← prefer b f; ok (best kept)

-- The loop: what is best so far, and how many alternatives the server can reach.
unfoldable pub resolve_loop : VersionSet → Best → ℕ → Choice → Result (Best × ℕ)
resolve_loop versions b n [] = ok (b, n)
resolve_loop versions b n (f ∷ c) =
    let n' = if reachable f versions then suc n else n in
    elim (met (gate f) versions) [
      | false ↦ resolve_loop versions b n' c
      | true ↦ consider b f >>= λ b'. resolve_loop versions b' n' c
    ]

unfoldable pub chosen : Choice → Best × ℕ → Result Text
chosen c (best b, n) = ok b.query
chosen c (nothing, n) =
    if not (is_empty c) && n == 0 then err not_supported else err version_too_old

-- `Choice.Resolve`
unfoldable pub resolve : Choice → VersionSet → Result Text
unfolding resolve_loop chosen met reachable consider
resolve c versions = do found ← resolve_loop versions nothing 0 c; chosen c found

abbrev pub Stmt : Type 0
Stmt = List Choice

-- the cut set " \t"
abbrev pub is_blank : ℕ → Bool
is_blank c = c == 32 || c == 9

unfoldable pub keep_part : List Text → Text → List Text
keep_part parts s = if is_empty s then parts else s ∷ parts

-- The parts of the pieces that are not blank, in order; the first error stops the loop.
unfoldable pub build_parts : Stmt → VersionSet → Result (List Text)
unfolding keep_part
build_parts [] versions = ok []
build_parts (c ∷ st) versions = do
  s ← resolve c versions
  parts ← build_parts st versions
  ok (keep_part parts (trim_right is_blank s))

unfoldable pub join_parts : List Text → Result Text
unfolding join
join_parts [] = err empty_query
join_parts (s ∷ parts) = ok (join (10 ∷ []) (s ∷ parts))

-- `Stmt.Build`
unfoldable pub build : Stmt → VersionSet → Result Text
unfolding build_parts join_parts trim_right resolve
build [] versions = err empty_query
build (c ∷ st) versions = do parts ← build_parts (c ∷ st) versions; join_parts parts

abbrev pub no_version : Version
no_version = record { raw = []; parts = []; suffix = []; unknown = false }

-- `Always`
unfoldable pub always : Text → Stmt
always query = (record { min = no_version; key = []; query = query } ∷ []) ∷ []

pub record Field : Type 0 where
  pub name : Text
  pub desc : Text
  pub min : Version
  pub key : Text
  pub also : List Gate

unfoldable pub any_met : List Gate → VersionSet → Bool
unfolding met
any_met [] versions = false
any_met (g ∷ gates) versions = if met g versions then true else any_met gates versions

-- `Field.Present`
unfoldable pub present : Field → VersionSet → Bool
unfolding any_met
present f versions =
    if met (record { min = f.min; key = f.key }) versions then true else any_met f.also versions

-- `Fields`
unfoldable pub fields : List Text → List Field
fields [] = []
fields (name ∷ names) =
    record { name = name; desc = []; min = no_version; key = []; also = [] } ∷ fields names
