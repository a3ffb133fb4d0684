-- ===== src/Container/Servers.antt =====
-- container.go and principal.go: a server, the arguments of the commands that start and ask it, and the
-- principals it is reached as. A port is a natural number, and a duration is one of nanoseconds.
-- `net/url` is a parameter, and so is `unicode.ToLower`.
use dbmeta.Common.{
  ℕ, ◌+◌, Bool, true, false, ◌||◌, not, Option, none, some, List, [], ◌∷◌, ◌++◌, map, is_empty,
  if◌then◌else◌, ◌==◌,
}
use dbmeta.Common.Text.{Text, str, text_eq, has_prefix, contains, replace_all}
use dbmeta.Common.Assoc
use dbmeta.Common.Assoc.{Map}
use dbmeta.Version.{format_uint, sort_keys}
use dbmeta.Container.Clients.{Client}

pub data Tier : Type 0 where
  no_tier tested nightly verified staged : Tier

abbrev pub tier_eq : Tier → Tier → Bool
tier_eq no_tier no_tier = true
tier_eq tested tested = true
tier_eq nightly nightly = true
tier_eq verified verified = true
tier_eq staged staged = true
tier_eq _ _ = false

pub record Principal : Type 0 where
  pub role : Text
  pub user : Text
  pub dsn : ℕ → Text
  pub url : Option (ℕ → Text)
  pub api : Option (ℕ → Text)

pub record Server : Type 0 where
  pub dialect : Text
  pub also : List Text
  pub product : Text
  pub release : Text
  pub major : Text
  pub tier : Tier
  pub cadence : Tier
  pub image : Text
  pub tag : Text
  pub port : ℕ
  pub second_port : ℕ
  pub env : Map Text
  pub ready : List Text
  pub run_flags : List Text
  pub init : List Text
  pub init_input : Text
  pub memory : Text
  pub license : Text
  pub seed : Text
  pub run_image : Text
  pub startup : ℕ
  pub settle : ℕ
  pub args : List Text
  pub client : Client
  pub users : List Principal
  pub dsn : ℕ → Text
  pub api : Option (ℕ → Text)
  pub url : Option (ℕ → Text)

-- `Server.MemoryOrDefault`
unfoldable pub memory_or_default : Server → Text
memory_or_default s = if is_empty s.memory then str "4g" else s.memory

-- `Server.Ref`
abbrev pub ref : Server → Text
ref s = s.image ++ (str ":" ++ s.tag)

-- `SecondHostPort`
abbrev pub second_host_port : ℕ → ℕ
second_host_port host_port = host_port + 1000

abbrev value_or_empty : Option Text → Text
value_or_empty none = []
value_or_empty (some v) = v

abbrev variables : Map Text → List Text → List Text
variables env [] = []
variables env (k ∷ keys) = (k ++ (str "=" ++ value_or_empty (Assoc.get env k))) ∷ variables env keys

-- `Server.Environ`
unfoldable pub environ : Server → List Text
unfolding Assoc.get Assoc.keys sort_keys
environ s = variables s.env (sort_keys (Assoc.keys s.env))

-- A flag before each value.
abbrev pub flagged : Text → List Text → List Text
flagged flag [] = []
flagged flag (v ∷ values) = flag ∷ v ∷ flagged flag values

abbrev pub ports : ℕ → ℕ → Text
ports host inner = format_uint host ++ (str ":" ++ format_uint inner)

abbrev pub published : Server → ℕ → List Text
published s host =
    ports host s.port
    ∷ (if s.second_port == 0 then [] else ports (second_host_port host) s.second_port ∷ [])

-- `Server.RunArgs`
unfoldable pub run_args : Server → Text → ℕ → List Text → List Text
run_args s name host flags =
    (str "run" ∷ str "--detach" ∷ str "--name" ∷ name ∷ [])
    ++ (flagged (str "--env") (environ s)
        ++ (flagged (str "--publish") (published s host)
            ++ ((str "--memory" ∷ memory_or_default s ∷ [])
                ++ (s.run_flags ++ (flags ++ ref s ∷ s.args)))))

-- `Server.ReadyArgs`
unfoldable pub ready_args : Server → Text → Option (List Text)
ready_args s name = if is_empty s.ready then none else some (str "exec" ∷ name ∷ s.ready)

-- `Server.InitArgs`
unfoldable pub init_args : Server → Text → Option (List Text)
init_args s name =
    if is_empty s.init
    then none
    else if not (is_empty s.init_input)
    then some (str "exec" ∷ str "-i" ∷ name ∷ s.init)
    else some (str "exec" ∷ name ∷ s.init)

-- `Server.RemoveArgs`
abbrev pub remove_args : Text → List Text
remove_args name = str "rm" ∷ str "--force" ∷ name ∷ []

-- `Server.Name`
abbrev pub name : (ℕ → ℕ) → Server → Text
name to_lower s = map to_lower s.product ++ (str "-" ++ s.major)

-- `apiOf`
unfoldable pub api_of : Option (ℕ → Text) → (ℕ → Text) → ℕ → Text
unfolding has_prefix
api_of (some api) dsn port = api port
api_of none dsn port =
    if has_prefix (dsn port) (str "http://") || has_prefix (dsn port) (str "https://")
    then dsn port
    else []

-- `Server.API`
abbrev pub server_api : Server → ℕ → Text
server_api s port = api_of s.api s.dsn port

-- The URL, or the DSN without one.
abbrev pub or_dsn : Option (ℕ → Text) → (ℕ → Text) → ℕ → Text
or_dsn none dsn port = dsn port
or_dsn (some url) dsn port = url port

-- `Server.URL`
abbrev pub server_url : Server → ℕ → Text
server_url s port = or_dsn s.url s.dsn port

-- `Principal.API`
abbrev pub principal_api : Principal → ℕ → Text
principal_api p port = api_of p.api p.dsn port

-- `Principal.URL`
abbrev pub principal_url : Principal → ℕ → Text
principal_url p port = or_dsn p.url p.dsn port

-- `userOf`, by the name of the user that url.Parse finds
abbrev user_of : Option (Option Text) → Text
user_of none = []
user_of (some none) = []
user_of (some (some user)) = user

-- `Server.Principals`
unfoldable pub principals : (Text → Option (Option Text)) → Server → List Principal
principals parse s =
    record {
      role = str "administrator";
      user = user_of (parse (server_url s 0));
      dsn = s.dsn;
      url = s.url;
      api = s.api;
    }
    ∷ s.users

-- `AtTier`, of all servers
unfoldable pub at_tier : List Server → Tier → List Server
at_tier [] t = []
at_tier (s ∷ all) t = if tier_eq s.tier t then s ∷ at_tier all t else at_tier all t

-- `ForDialect`, of all servers
unfoldable pub for_dialect : List Server → Text → List Server
unfolding text_eq contains
for_dialect [] d = []
for_dialect (s ∷ all) d =
    if text_eq s.dialect d || contains s.also d then s ∷ for_dialect all d else for_dialect all d

-- `Releases`
abbrev pub releases : List Server → List Text
releases servers = map (λ s. s.release) servers

-- `clientKey`
unfoldable pub client_key : (ℕ → ℕ) → Text → Text
unfolding replace_all
client_key to_lower name = map to_lower (replace_all name 32 [])

-- The last server of a product, and its client.
unfoldable pub newest : List Server → Text → Client → Client
unfolding text_eq
newest [] product c = c
newest (s ∷ all) product c = newest all product (if text_eq s.product product then s.client else c)

-- The first server of which the key is the one asked for.
unfoldable pub first_named : (Server → Text) → Text → List Server → Option Server
unfolding text_eq
first_named key_of key [] = none
first_named key_of key (s ∷ all) =
    if text_eq (key_of s) key then some s else first_named key_of key all

abbrev pub zero_client : Client
zero_client = record { command = []; why = []; build = none }

-- `ClientFor`, of all servers
unfoldable pub client_for : (ℕ → ℕ) → List Server → Text → Option Client
client_for to_lower all name =
    let key = client_key to_lower name in
    elim (first_named (λ s. client_key to_lower s.product) key all) [
      | some s ↦ some (newest all s.product zero_client)
      | none ↦ elim (first_named (λ s. client_key to_lower s.dialect) key all) [
        | some s ↦ some (newest all s.product zero_client)
        | none ↦ none
      ]
    ]
