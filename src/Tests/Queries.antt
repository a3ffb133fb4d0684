-- ===== src/Tests/Queries.antt =====
-- `Support`, `Build` and the registry of query.go on concrete queries.
use dbmeta.Common.{inr, true, Bool, List, canceled, ◌≡◌, refl, some, none, [], ◌∷◌, ok}
use dbmeta.Common.Text.{Text, str, text_eq}
use dbmeta.Version
use dbmeta.Version.{VersionSet, no_versions, at_least}
use dbmeta.Info.{no_info}
use dbmeta.Fragment.{no_version}
use dbmeta.Dialect.{Database, Infos, Meta}
use dbmeta.Query.{Query, Binding, Item, register, share, support_of, build}
use dbmeta.Query.Registry.{Registers, Shares, register-Registers, share-Shares}
use dbmeta.Iterate.{all}
use dbmeta.Iterate.Stream.{Drives, items, all-drive}
use dbmeta.Query.Answers.{Supports, support_of-Supports}
use dbmeta.Query.Refusals.{Builds, build-Builds}

abbrev infos : Infos
infos = (str "pg", record no_info { placeholder = some (λ _. str "?") }) ∷ []

abbrev names : Binding Text Text
names = record {
  stmt = ((record { min = no_version; key = []; query = str "select 1" }) ∷ []) ∷ [];
  variants = [];
  fields = [];
  params = [];
  derived = [];
  scan = λ row. (row, none);
  keep = none;
  walk = none;
}

abbrev query : Query Text Text
query = record { name = str "names"; bindings = (str "pg", names) ∷ [] }

abbrev server : Meta
server = record { dialect = str "pg"; versions = no_versions }

support_of-Supports_example : Supports infos query server (support_of infos query server)
support_of-Supports_example = support_of-Supports infos query server

build-Builds_example : Builds infos query server [] (build infos query server [])
build-Builds_example = build-Builds infos query server []

builds : build infos query server [] ≡ ok (str "select 1", [])
unfolding build text_eq at_least Version.get Version.has
builds = refl

register-Registers_example : Registers query (str "my") names (register query (str "my") names)
register-Registers_example = register-Registers query (str "my") names

share-Shares_example : Shares query (str "pg") (str "my") (share query (str "pg") (str "my"))
share-Shares_example = share-Shares query (str "pg") (str "my")

abbrev two_rows : Database Text
two_rows = record {
  query = λ _ _.
      inr (record {
        rows = str "a" ∷ str "b" ∷ [];
        err_after = λ _. some canceled;
        close_err = none;
      });
  scan_text = λ row n. inr (some row ∷ []);
  ctx_err = none;
}

abbrev collect : List (Item Text) → Item Text → List (Item Text) × Bool
collect seen item = (item ∷ seen, true)

reads_all :
    all collect [] two_rows infos query server [] []
    ≡ ok (([], some canceled) ∷ (str "b", none) ∷ (str "a", none) ∷ [])
unfolding all text_eq at_least Version.get Version.has
reads_all = refl

all-drive_example :
    Drives collect []
      (items [] two_rows infos query server [])
      (all collect [] two_rows infos query server [] [])
all-drive_example = all-drive collect [] two_rows infos query server [] []
