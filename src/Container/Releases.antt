-- ===== src/Container/Releases.antt =====
-- container.go: a product, and the list of its servers under construction.
pub mod Sorting
pub mod Chains
use dbmeta.Common.{
  ℕ, Bool, true, false, ◌&&◌, Option, none, some, List, [], ◌∷◌, ◌++◌, map, if◌then◌else◌,
}
use dbmeta.Common.Text.{Text, str, text_eq}
use dbmeta.Common.Int.{ℤ, pos, leb_ℤ}
use dbmeta.Common.Assoc.{Map}
use dbmeta.Version.{Version, parse_version, compare}
use dbmeta.Container.Clients.{Client}
use dbmeta.Container.Servers.{Server, Principal, Tier, no_tier, staged, tier_eq}

pub record Product : Type 0 where
  pub dialect : Text
  pub also : List Text
  pub name : Text
  pub image : Text
  pub major : Option (Text → Text)
  pub tag_prefix : Text
  pub tag_suffix : Text
  pub port : ℕ
  pub second : ℕ
  pub env : Map Text
  pub ready : List Text
  pub init : List Text
  pub init_input : Text
  pub run_flags : List Text
  pub seed : Text
  pub run_image : Text
  pub args : List Text
  pub memory : Text
  pub license : Text
  pub client : Client
  pub startup : ℕ
  pub settle : ℕ
  pub dsn : ℕ → Text
  pub api : Option (ℕ → Text)
  pub url : Option (ℕ → Text)
  pub users : List Principal

-- `compareRelease`
unfoldable pub compare_release : Text → Text → ℤ
compare_release a b = compare (parse_version a) (parse_version b)

-- The server `a` may stand before `b`.
abbrev pub in_order : Server → Server → Bool
in_order a b = leb_ℤ (compare_release a.release b.release) (pos 0)

-- slices.SortStableFunc: a server goes in front of those that it may stand before.
unfoldable pub insert_server : Server → List Server → List Server
insert_server s [] = s ∷ []
insert_server s (t ∷ servers) =
    if in_order s t then s ∷ t ∷ servers else t ∷ insert_server s servers

unfoldable pub sort_servers : List Server → List Server
sort_servers [] = []
sort_servers (s ∷ servers) = insert_server s (sort_servers servers)

abbrev major_of : Option (Text → Text) → Text → Text
major_of none release = release
major_of (some major) release = major release

-- The server that `add` builds for a release.
abbrev pub server_of : Product → Tier → Text → Server
server_of p tier v = record {
  dialect = p.dialect;
  also = p.also;
  product = p.name;
  release = v;
  major = major_of p.major v;
  tier = tier;
  cadence = no_tier;
  image = p.image;
  tag = p.tag_prefix ++ (v ++ p.tag_suffix);
  port = p.port;
  second_port = p.second;
  env = p.env;
  ready = p.ready;
  run_flags = p.run_flags;
  init = p.init;
  init_input = p.init_input;
  memory = p.memory;
  license = p.license;
  seed = p.seed;
  run_image = p.run_image;
  startup = p.startup;
  settle = p.settle;
  args = p.args;
  client = p.client;
  users = p.users;
  dsn = p.dsn;
  api = p.api;
  url = p.url;
}

-- `list.add`
unfoldable pub add : List Server → Product → Tier → List Text → List Server
add l p tier versions = sort_servers (l ++ map (server_of p tier) versions)

-- One round of `list.staged`.
abbrev pub with_cadence : Tier → Server → Server
with_cadence cadence s =
    if tier_eq s.tier staged && tier_eq s.cadence no_tier then record s { cadence = cadence } else s

-- `list.staged`
unfoldable pub add_staged : List Server → Product → Tier → List Text → List Server
add_staged l p cadence versions = map (with_cadence cadence) (add l p staged versions)

-- `list.on`
unfoldable pub on_release : List Server → Text → (Server → Server) → List Server
on_release l release change = map (λ s. if text_eq s.release release then change s else s) l
