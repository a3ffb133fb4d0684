-- ===== src/Container/Exposed.antt =====
-- client.go: the clients that show the password of a connection in their arguments, and the masking of it.
use dbmeta.Common.{
  ◌≡◌, refl, subst, ℕ, true, false, List, [], ◌∷◌, ◌++◌, map, arith, In, first, later, is_empty,
  if◌then◌else◌, append_assoc, append-nil,
}
use dbmeta.Common.Text.{Text, str, contains_rune, replace_text}
use dbmeta.Common.Cut.{contains_text}
use dbmeta.Common.Contains.{contains_text-between, replace_from-masked}
use dbmeta.Container.Clients.{
  Connection, Call, Client, call, in_args, any_contains, masked, mask_arg,
}
use dbmeta.Container.Commands
use dbmeta.Container.Commands.{Url, url_of}

-- The clients that take a password in an argument.
pub data Loud : Type 0 where
  sqlplus cqlsh mongosh hdbsql arangosh rqlite cbq ksql exaplus : Loud

abbrev pub loud_client : (Text → Text) → Loud → Client
loud_client query_escape sqlplus = Commands.sqlplus
loud_client query_escape cqlsh = Commands.cqlsh
loud_client query_escape mongosh = Commands.mongosh query_escape
loud_client query_escape hdbsql = Commands.hdbsql
loud_client query_escape arangosh = Commands.arangosh
loud_client query_escape rqlite = Commands.rqlite
loud_client query_escape cbq = Commands.cbq
loud_client query_escape ksql = Commands.ksql
loud_client query_escape exaplus = Commands.exaplus

any_In :
    (secret a : Text) (args : List Text)
    → In a args
    → contains_text a secret ≡ true
    → any_contains secret args ≡ true
any_In secret a _ first h = rw h refl
any_In secret a (b ∷ args) (later i) h = ground (arith, any_In secret a args i h)

-- The password is found at the end of an argument, or further in.
at_end : (a : Text) (p : ℕ) (ps : Text) → contains_text (a ++ (p ∷ ps)) (p ∷ ps) ≡ true
at_end a p ps =
    subst (λ t. contains_text (a ++ t) (p ∷ ps) ≡ true) (append-nil (p ∷ ps))
      (contains_text-between a p ps [])

behind_both :
    (a m : Text) (p : ℕ) (ps : Text) → contains_text (a ++ (m ++ (p ∷ ps))) (p ∷ ps) ≡ true
behind_both a m p ps =
    subst (λ t. contains_text t (p ∷ ps) ≡ true) (append_assoc a m (p ∷ ps)) (at_end (a ++ m) p ps)

between_quotes :
    (a m : Text) (p : ℕ) (ps q r : Text)
    → contains_text (a ++ (m ++ (((p ∷ ps) ++ q) ++ r))) (p ∷ ps) ≡ true
between_quotes a m p ps q r =
    subst (λ t. contains_text t (p ∷ ps) ≡ true) nested
      (contains_text-between (a ++ m) p ps (q ++ r))
  where
    nested : (a ++ m) ++ ((p ∷ ps) ++ (q ++ r)) ≡ a ++ (m ++ (((p ∷ ps) ++ q) ++ r))
    nested = simp append_assoc

abbrev pub with_login : Connection → Text → Text → Connection
with_login c u p = record c { user = u; password = p }

loud_arg :
    (query_escape : Text → Text) (k : Loud) (c : Connection) (u : ℕ) (us : Text) (p : ℕ) (ps : Text)
    → (a : Text) × In a (call (loud_client query_escape k) (with_login c (u ∷ us) (p ∷ ps))).args
      × (contains_text a (p ∷ ps) ≡ true)
unfolding call Commands.sqlplus Commands.cqlsh Commands.mongosh Commands.hdbsql Commands.arangosh
    Commands.rqlite Commands.cbq Commands.ksql Commands.exaplus
loud_arg query_escape cqlsh c u us p ps =
    (_, later (later (later (later (later first)))), at_end [] p ps)
loud_arg query_escape mongosh c u us p ps = (_, later (later (later (later first))), at_end [] p ps)
loud_arg query_escape hdbsql c u us p ps =
    (_, later (later (later (later (later first)))), at_end [] p ps)
loud_arg query_escape arangosh c u us p ps =
    (_, later (later (later (later (later first)))), at_end [] p ps)
loud_arg query_escape cbq c u us p ps =
    (_, later (later (later (later (later first)))), at_end [] p ps)
loud_arg query_escape ksql c u us p ps = (_, later (later (later first)), at_end [] p ps)
loud_arg query_escape exaplus c u us p ps =
    (_, later (later (later (later (later first)))), at_end [] p ps)
loud_arg query_escape rqlite c u us p ps =
    (_, later (later (later (later (later first)))), behind_both (u ∷ us) (str ":") p ps)
loud_arg query_escape sqlplus c u us p ps = (_, first, between_quotes (u ∷ us) (str "/\"") p ps _ _)

loud_secret :
    (query_escape : Text → Text) (k : Loud) (c : Connection) (user password : Text)
    → (call (loud_client query_escape k) (with_login c user password)).secret ≡ password
unfolding call Commands.sqlplus Commands.cqlsh Commands.mongosh Commands.hdbsql Commands.arangosh
    Commands.rqlite Commands.cbq Commands.ksql Commands.exaplus
loud_secret query_escape sqlplus c user password = refl
loud_secret query_escape cqlsh c user password = refl
loud_secret query_escape mongosh c user password = refl
loud_secret query_escape hdbsql c user password = refl
loud_secret query_escape arangosh c user password = refl
loud_secret query_escape rqlite c user password = refl
loud_secret query_escape cbq c user password = refl
loud_secret query_escape ksql c user password = refl
loud_secret query_escape exaplus c user password = refl

shown-in_args :
    (c : Call) (p : ℕ) (ps a : Text)
    → c.secret ≡ p ∷ ps
    → In a c.args
    → contains_text a (p ∷ ps) ≡ true
    → in_args c ≡ true
unfolding in_args
shown-in_args c p ps a e i h = rw (e, any_In (p ∷ ps) a c.args i h) refl

-- A client that takes a password in an argument shows it there, for a login with a name and a password
-- that are not empty, and `Call.InArgs` says so.
pub loud_client-in_args :
    (query_escape : Text → Text) (k : Loud) (c : Connection) (u : ℕ) (us : Text) (p : ℕ) (ps : Text)
    → in_args (call (loud_client query_escape k) (with_login c (u ∷ us) (p ∷ ps))) ≡ true
loud_client-in_args query_escape k c u us p ps =
    let (a, i, h) = loud_arg query_escape k c u us p ps in
    shown-in_args _ p ps a (loud_secret query_escape k c (u ∷ us) (p ∷ ps)) i h

any_masked :
    (k : ℕ) (secret : Text) (args : List Text)
    → contains_rune (k ∷ secret) b'x' ≡ false
    → any_contains (k ∷ secret) (map (mask_arg (k ∷ secret)) args) ≡ false
unfolding replace_text
any_masked k secret [] no_x = refl
any_masked k secret (a ∷ args) no_x =
    ground (arith, replace_from-masked 0 a k secret no_x, any_masked k secret args no_x)

-- The arguments that `Call.Masked` gives do not hold the password, when it has no x in it.
pub masked-in_args :
    (c : Call)
    → contains_rune c.secret b'x' ≡ false
    → in_args (record c { args = masked c }) ≡ false
unfolding in_args masked
masked-in_args c no_x = go c.secret no_x
  where
    go :
        (secret : Text)
        → contains_rune secret b'x' ≡ false
        → (if is_empty secret then false else any_contains secret (map (mask_arg secret) c.args))
          ≡ false
    go [] no_x = refl
    go (k ∷ secret) no_x = any_masked k secret c.args no_x
