-- ===== src/Container/Clients.antt =====
-- client.go: a connection, a call of a native client, and the clients of the products. `net/url` is a
-- parameter: what url.Parse finds in a text, and how url.URL and url.Values are written.
use dbmeta.Common.{
  ℕ, ◌+◌, ◌-◌, ◌*◌, ◌^◌, Bool, false, ◌||◌, Option, none, some, List, [], ◌∷◌, ◌++◌, map, is_empty,
  ltb, ◌==◌, if◌then◌else◌, ◌⊎◌, inl, inr,
}
use dbmeta.Common.Text.{Text, str, trim_prefix, replace_text}
use dbmeta.Common.Cut.{before, contains_text}
use dbmeta.Common.Assoc
use dbmeta.Common.Assoc.{Map}
use dbmeta.Version.{format_uint}

pub record Connection : Type 0 where
  pub host : Text
  pub port : ℕ
  pub first : ℕ
  pub user : Text
  pub password : Text
  pub database : Text
  pub query : Map (List Text)
  pub scheme : Text

-- What the code reads of a url.URL: the host name and the port by its methods, and the user, if there
-- is one, with its password (empty when it has none).
pub record ParsedUrl : Type 0 where
  pub hostname : Text
  pub port : Text
  pub path : Text
  pub query : Map (List Text)
  pub scheme : Text
  pub user : Option (Text × Text)

-- The number that decimal digits write behind `n`.
abbrev digits_value : ℕ → Text → ℕ
digits_value n [] = n
digits_value n (c ∷ s) = digits_value (n * 10 + (c - b'0')) s

-- strconv.Atoi of decimal digits, which is all that the port of a URL may be
unfoldable pub atoi : Text → Option ℕ
atoi s = let n = digits_value 0 s in if ltb n (2 ^ 63) then some n else none

abbrev pub port_of : Text → Option ℕ
port_of [] = some 0
port_of (c ∷ s) = atoi (c ∷ s)

abbrev pub user_of : Option (Text × Text) → Text × Text
user_of none = ([], [])
user_of (some login) = login

abbrev connection_at : ParsedUrl → ℕ → ℕ → Connection
connection_at u first port = record {
  host = u.hostname;
  port = port;
  first = if first == 0 then port else first;
  user = (user_of u.user).0;
  password = (user_of u.user).1;
  database = trim_prefix u.path (str "/");
  query = u.query;
  scheme = u.scheme;
}

-- ErrBadURL
pub data ContainerError : Type 0 where
  bad_url : ContainerError

abbrev parsed_connection : ℕ → Option ParsedUrl → ContainerError ⊎ Connection
parsed_connection first none = inl bad_url
parsed_connection first (some u) = elim (port_of u.port) [
  | none ↦ inl bad_url
  | some port ↦ inr (connection_at u first port)
]

-- `ParseConnection`
unfoldable pub parse_connection : (Text → Option ParsedUrl) → Text → ℕ → ContainerError ⊎ Connection
unfolding atoi
parse_connection parse raw first = parsed_connection first (parse raw)

pub record Call : Type 0 where
  pub command : Text
  pub args : List Text
  pub env : List Text
  pub secret : Text

abbrev pub any_contains : Text → List Text → Bool
any_contains secret [] = false
any_contains secret (a ∷ args) = contains_text a secret || any_contains secret args

-- `Call.InArgs`
unfoldable pub in_args : Call → Bool
in_args c = if is_empty c.secret then false else any_contains c.secret c.args

abbrev pub mask_arg : Text → Text → Text
mask_arg [] a = a
mask_arg (k ∷ secret) a = replace_text a (k ∷ secret) (str "xxxxx")

-- `Call.Masked`
unfoldable pub masked : Call → List Text
masked c = map (mask_arg c.secret) c.args

-- `Call.EnvNames`
unfoldable pub env_names : Call → List Text
env_names c = map (λ e. before e (str "=")) c.env

abbrev pub Built : Type 0
Built = List Text × List Text

pub record Client : Type 0 where
  pub command : Text
  pub why : Text
  pub build : Option (Connection → Built)

abbrev no_call : Call
no_call = record { command = []; args = []; env = []; secret = [] }

abbrev call_built : Text → Text → Built → Call
call_built command secret (args, env) = record {
  command = command;
  args = args;
  env = env;
  secret = secret;
}

abbrev call_with : Client → Connection → Option (Connection → Built) → Call
call_with c conn none = no_call
call_with c conn (some build) =
    if is_empty c.command then no_call else call_built c.command conn.password (build conn)

-- `Client.Call`
unfoldable pub call : Client → Connection → Call
call c conn = call_with c conn c.build

-- `NoClient`
abbrev pub no_client : Text → Client
no_client why = record { command = []; why = why; build = none }

-- `opt`
abbrev pub opt : Text → Text → List Text
opt name [] = []
opt name (c ∷ value) = name ∷ (c ∷ value) ∷ []

-- `withEnv`
abbrev pub with_env : Text → Text → List Text
with_env name [] = []
with_env name (c ∷ value) = (name ++ (str "=" ++ (c ∷ value))) ∷ []

-- `hostPort`
abbrev pub host_port : Text → ℕ → Text
host_port host n = host ++ (str ":" ++ format_uint n)

-- url.Values.Get
abbrev first_value : Option (List Text) → Text
first_value none = []
first_value (some []) = []
first_value (some (v ∷ _)) = v

abbrev pub query_get : Map (List Text) → Text → Text
query_get query name = first_value (Assoc.get query name)

abbrev pub native : Text → (Connection → Built) → Client
native command build = record { command = command; why = []; build = some build }
