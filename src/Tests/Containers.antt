-- ===== src/Tests/Containers.antt =====
-- The servers, clients and shell texts of the package container on concrete inputs.
use dbmeta.Common.{ℕ, ◌≡◌, refl, true, false, none, some, List, [], ◌∷◌, map, All}
use dbmeta.Common.Text.{Text, str, contains_rune, has_prefix, replace_text}
use dbmeta.Common.Assoc.{Map}
use dbmeta.Version.{parse_version, format_uint, compare}
use dbmeta.Container.Clients.{Connection, Call, call, in_args, masked, no_client}
use dbmeta.Container.Commands.{Url}
use dbmeta.Container.Secrets.{
  psql, HandedOver, quiet_client, with_password, password_variable, quiet_client-HandedOver,
}
use dbmeta.Container.Exposed.{sqlplus, loud_client, with_login, loud_client-in_args, masked-in_args}
use dbmeta.Container.Shell.{health_cmd, shell_quote}
use dbmeta.Container.Shell.Words.{outside, words, words-health_cmd}
use dbmeta.Container.Servers.{Server, tested, nightly, client_key, client_for}
use dbmeta.Container.Lookup.{Finds, named, client_for-Finds}
use dbmeta.Container.Releases.{
  Product, server_of, add, add_staged, compare_release, sort_servers, insert_server,
}
use dbmeta.Container.Releases.Sorting.{Sorted}
use dbmeta.Container.Releases.Chains.{empty, added, added_staged, HasCadence, Listed-Sorted}

abbrev conn : Connection
conn = record {
  host = str "127.0.0.1";
  port = 33000;
  first = 33000;
  user = str "ann";
  password = [];
  database = str "db";
  query = [];
  scheme = str "postgres";
}

abbrev url_host : Url → Text
url_host u = u.host

abbrev no_query : Map (List Text) → Text
no_query q = []

quiet_client-HandedOver_example :
    ((call (quiet_client url_host no_query psql) (with_password conn (str "secret"))).args
      ≡ (call (quiet_client url_host no_query psql) conn).args)
    × HandedOver
        (str "secret")
        (call (quiet_client url_host no_query psql) (with_password conn (str "secret"))).env
        (password_variable psql)
quiet_client-HandedOver_example =
    quiet_client-HandedOver url_host no_query psql conn b's' (str "ecret")

same : Text → Text
same s = s

loud_client-in_args_example :
    in_args (call (loud_client same sqlplus) (with_login conn (str "ann") (str "secret"))) ≡ true
loud_client-in_args_example =
    loud_client-in_args same sqlplus conn b'a' (str "nn") b's' (str "ecret")

abbrev shown : Text → Text → Call
shown secret arg = record {
  command = str "cbq";
  args = str "-p" ∷ arg ∷ [];
  env = [];
  secret = secret;
}

masked-in_args_example :
    in_args (record (shown (str "P4ss!") (str "u:P4ss!")) {
      args = masked (shown (str "P4ss!") (str "u:P4ss!"));
    })
    ≡ false
unfolding contains_rune
masked-in_args_example = masked-in_args (shown (str "P4ss!") (str "u:P4ss!")) refl

masks : masked (shown (str "P4ss!") (str "u:P4ss!")) ≡ str "-p" ∷ str "u:xxxxx" ∷ []
unfolding masked replace_text has_prefix
masks = refl

abbrev ready : List Text
ready = str "sqlcmd" ∷ str "-Q" ∷ str "SELECT 'a b'" ∷ []

words-health_cmd_example : words outside none (health_cmd ready) ≡ some ready
unfolding contains_rune
words-health_cmd_example = words-health_cmd ready (refl, (refl, (refl, tt)))

quotes_blanks : health_cmd ready ≡ str "sqlcmd -Q 'SELECT '\\''a b'\\'''"
unfolding health_cmd shell_quote
quotes_blanks = refl

abbrev mariadb : Product
mariadb = record {
  dialect = str "mysql";
  also = [];
  name = str "MariaDB";
  image = str "docker.io/library/mariadb";
  major = none;
  tag_prefix = [];
  tag_suffix = [];
  port = 3306;
  second = 0;
  env = [];
  ready = ready;
  init = [];
  init_input = [];
  run_flags = [];
  seed = [];
  run_image = [];
  args = [];
  memory = [];
  license = [];
  client = no_client (str "none here");
  startup = 0;
  settle = 0;
  dsn = format_uint;
  api = none;
  url = none;
  users = [];
}

abbrev new_releases : List Text
new_releases = str "11.8" ∷ str "10.6" ∷ []

oldest_first :
    map (λ (s : Server). s.release) (add [] mariadb tested new_releases)
    ≡ str "10.6" ∷ str "11.8" ∷ []
unfolding add compare_release parse_version sort_servers insert_server compare
oldest_first = refl

abbrev chain : List Server
chain = add_staged (add [] mariadb tested new_releases) mariadb nightly (str "12.0" ∷ [])

Listed-Sorted_example : Sorted chain × All HasCadence chain
Listed-Sorted_example = Listed-Sorted chain (
    added_staged _ mariadb nightly (str "12.0" ∷ [])
      (added [] mariadb tested new_releases empty refl) refl)

abbrev lower : ℕ → ℕ
lower c = c

abbrev servers : List Server
servers = server_of mariadb tested (str "10.6") ∷ []

client_for-Finds_example :
    Finds
      (named (λ s. client_key lower s.product) (client_key lower (str "Maria DB")))
      (named (λ s. client_key lower s.dialect) (client_key lower (str "Maria DB")))
      servers
      (client_for lower servers (str "Maria DB"))
client_for-Finds_example = client_for-Finds lower servers (str "Maria DB")
