-- ===== src/Models/FollowUp.antt =====
-- The second statement of models/cassandra, and what a caller reads of a server with both.
use dbmeta.Common.{
  ◌≡◌, ◌≢◌, refl, sym, ◌∙◌, false≢true, ℕ, true, false, not, Option, none, some, List, [], ◌∷◌,
  ◌++◌, ◌⊎◌, inl, inr, is_empty, if◌then◌else◌, Bool-cases, Option-cases, Sum-cases, arith, Result,
  ok, err, panic, out_of_fuel, ◌||◌, Error, invalid_version, Returns, Returns-cases,
}
use dbmeta.Common.Text.{Text, str, text_eq}
use dbmeta.Common.Cut.{cut}
use dbmeta.Common.Assoc.{get-put}
use dbmeta.Version
use dbmeta.Version.{Version, VersionSet, parse_version, set_version, has}
use dbmeta.Info.{Info, no_info}
use dbmeta.Dialect
use dbmeta.Dialect.{
  Infos, Dialect, Database, Rows, info_of, read_row, first_row, finish_row, version, version_with,
  version_query, refine, follow_up, follow_up_query, parse_follow_up, reading_from,
}
use dbmeta.Models.Banners.{SystemRow, cassandra}

abbrev pub scylla : Text
scylla = str "scylla"

abbrev pub local_query : Text
local_query = str "SELECT JSON * FROM system.local WHERE key = 'local'"

abbrev pub release_query : Text
release_query = str "SELECT version FROM system.versions WHERE key = 'local'"

-- `followUpQuery`
unfoldable pub cassandra_follow_up : VersionSet → Text × ℕ
unfolding has
cassandra_follow_up s = if not (has s scylla) then ([], 0) else (release_query, 1)

-- strings.Replace of the first occurrence
abbrev pub replace_once : Text → Text → Text → Text
replace_once s old new = elim (cut s old) [
  | none ↦ s
  | some (before, after) ↦ before ++ (new ++ after)
]

-- `parseFollowUp`
unfoldable pub cassandra_release : VersionSet → List Text → Error ⊎ VersionSet
unfolding parse_version set_version cut
cassandra_release s ([]) = inl invalid_version
cassandra_release s (col ∷ []) =
    if is_empty col || (parse_version col).unknown
    then inl invalid_version
    else inr (record (set_version s scylla (parse_version col)) {
      display = replace_once s.display (str "ScyllaDB,") (str "ScyllaDB " ++ (col ++ str ","));
    })
cassandra_release s (col ∷ next ∷ cols) = inl invalid_version

-- What `init` declares about the versions of the dialect.
abbrev pub cassandra_info : (Text → Option SystemRow) → Info
cassandra_info unmarshal = record no_info {
  version_query = local_query;
  version_columns = 1;
  parse_version = some (cassandra unmarshal);
  follow_up_query = some cassandra_follow_up;
  parse_follow_up = some cassandra_release;
}

-- A row of one column that holds a version.
abbrev pub IsRelease : List Text → Type 0
IsRelease [] = ⊥
IsRelease (col ∷ []) = (col ≢ []) × ((parse_version col).unknown ≡ false)
IsRelease (col ∷ next ∷ cols) = ⊥

module _ {Row : Type 0} (db : Database Row) (d : Dialect)
    (unmarshal : Text → Option SystemRow) where
  -- What a caller may read.
  pub data Reads : Result VersionSet → Type 0 where
    unread : (e : Error) → read_row db d local_query 1 ≡ err e → Reads (err e)
    unparsed :
        (cols : List Text) (e : Error)
        → read_row db d local_query 1 ≡ ok cols
        → cassandra unmarshal cols ≡ inl e
        → Reads (err e)
    stopped :
        (cols : List Text) (s : VersionSet) (e stop : Error)
        → read_row db d local_query 1 ≡ ok cols
        → cassandra unmarshal cols ≡ inr s
        → has s scylla ≡ true
        → read_row db d release_query 1 ≡ err e
        → db.ctx_err ≡ some stop
        → Reads (err (reading_from d stop))
    no_release :
        (cols : List Text) (s : VersionSet) (row : List Text)
        → read_row db d local_query 1 ≡ ok cols
        → cassandra unmarshal cols ≡ inr s
        → has s scylla ≡ true
        → read_row db d release_query 1 ≡ ok row
        → ¬ IsRelease row
        → Reads (err invalid_version)
    one_statement :
        (cols : List Text) (s : VersionSet)
        → read_row db d local_query 1 ≡ ok cols
        → cassandra unmarshal cols ≡ inr s
        → has s scylla ≡ false
        → Reads (ok s)
    unreadable :
        (cols : List Text) (s : VersionSet) (e : Error)
        → read_row db d local_query 1 ≡ ok cols
        → cassandra unmarshal cols ≡ inr s
        → has s scylla ≡ true
        → read_row db d release_query 1 ≡ err e
        → db.ctx_err ≡ none
        → Reads (ok s)
    released :
        (cols : List Text) (s s' : VersionSet) (col : Text)
        → read_row db d local_query 1 ≡ ok cols
        → cassandra unmarshal cols ≡ inr s
        → has s scylla ≡ true
        → read_row db d release_query 1 ≡ ok (col ∷ [])
        → (parse_version col).unknown ≡ false
        → ((key : Text)
            → Version.get s' key
              ≡ (if text_eq scylla key then parse_version col else Version.get s key))
        → Reads (ok s')

  no_version :
      (col : Text) → (is_empty col || (parse_version col).unknown) ≡ true → ¬ IsRelease (col ∷ [])
  no_version [] c (filled, known) = filled refl
  no_version (b ∷ col) c (filled, known) = false≢true (sym known ∙ c)

  read_row-Returns : (query : Text) (n : ℕ) → Returns (λ _. Unit) (read_row db d query n)
  unfolding read_row first_row finish_row
  read_row-Returns query n = ground arith

  -- The answer to the second statement, where the first says that the server is a ScyllaDB.
  follow_up-Reads :
      (infos : Infos) (cols : List Text) (s : VersionSet)
      → info_of infos d ≡ some (cassandra_info unmarshal)
      → read_row db d local_query 1 ≡ ok cols
      → cassandra unmarshal cols ≡ inr s
      → has s scylla ≡ true
      → (r : Result (List Text)) → read_row db d release_query 1 ≡ r
      → Returns (λ _. Unit) r
      → Reads (follow_up db infos d s r)
  unfolding follow_up parse_follow_up cassandra_release Version.get
  follow_up-Reads infos cols s i q p h (err e) r ret = elim (Option-cases db.ctx_err) [
    | inl c ↦ simp (follow_up, c) (unreadable cols s e q p h r c)
    | inr (stop, c) ↦ simp (follow_up, c) (stopped cols s e stop q p h r c)
  ]
  follow_up-Reads infos cols s i q p h (ok []) r ret =
      rw (parse_follow_up, i) (no_release cols s [] q p h r λ is. is)
  follow_up-Reads infos cols s i q p h (ok (col ∷ [])) r ret =
      elim (Bool-cases (is_empty col || (parse_version col).unknown)) [
        | inl c ↦
            rw (parse_follow_up, i, cassandra_release, c)
              (no_release cols s (col ∷ []) q p h r (no_version col c))
        | inr c ↦
            rw (parse_follow_up, i, cassandra_release, c)
              (released cols s _ col q p h r (ground arith)
                λ key. ground (arith, get-put s.versions scylla key (parse_version col)))
      ]
  follow_up-Reads infos cols s i q p h (ok (col ∷ next ∷ more)) r ret =
      rw (parse_follow_up, i) (no_release cols s (col ∷ next ∷ more) q p h r λ is. is)
  follow_up-Reads infos cols s i q p h (panic m) r ret = elim ret [ ]
  follow_up-Reads infos cols s i q p h out_of_fuel r ret = elim ret [ ]

  refine-Reads :
      (infos : Infos) (cols : List Text) (s : VersionSet)
      → info_of infos d ≡ some (cassandra_info unmarshal)
      → read_row db d local_query 1 ≡ ok cols
      → cassandra unmarshal cols ≡ inr s
      → Reads (refine db infos d s (follow_up_query infos d s))
  unfolding refine follow_up_query cassandra_follow_up
  refine-Reads infos cols s i q p = elim (Bool-cases (has s scylla)) [
    | inr h ↦ rw (follow_up_query, i, cassandra_follow_up, h) (one_statement cols s q p h)
    | inl h ↦
        rw (follow_up_query, i, cassandra_follow_up, h)
          (follow_up-Reads infos cols s i q p h (read_row db d release_query 1) refl
            (read_row-Returns release_query 1))
  ]

-- Reading the version of a Cassandra or ScyllaDB server returns and does not panic, whatever the server
-- answers. It is an error exactly where the first statement cannot be read, with the error of that, where
-- the parser refuses its row, with the error of that, and, on a ScyllaDB, where the second statement
-- cannot be read and the context is done, with the error of the context behind the name of the dialect, and where its row is not one
-- column that holds a known version, with the error "invalid version". Otherwise the answer is what the
-- first statement says, if it does not tell of a ScyllaDB, or if the second statement cannot be read while
-- the context is not done; else the version of the second statement stands under the key of ScyllaDB, and
-- every other key is as the first statement says.
pub version-Reads :
    {Row : Type 0} (db : Database Row) (infos : Infos) (d : Dialect)
    (unmarshal : Text → Option SystemRow)
    → info_of infos d ≡ some (cassandra_info unmarshal)
    → Reads db d unmarshal (version db infos d)
unfolding version version_query version_with Dialect.parse_version
version-Reads db infos d unmarshal i =
    elim (Returns-cases (λ _. Unit) (read_row db d local_query 1)
      (read_row-Returns db d unmarshal local_query 1)) [
        | inr (e, q) ↦ rw (version, version_query, i, version_with, q) (unread e q)
        | inl (cols, q) ↦ elim (Sum-cases (cassandra unmarshal cols)) [
          | inl (e, p) ↦
              rw (version, version_query, i, version_with, q, Dialect.parse_version, i, p)
                (unparsed cols e q p)
          | inr (s, p) ↦
              rw (version, version_query, i, version_with, q, Dialect.parse_version, i, p)
                (refine-Reads db d unmarshal infos cols s i q p)
        ]
      ]
