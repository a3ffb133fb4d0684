-- ===== src/Container/Releases/Sorting.antt =====
-- The order and the cadences of the lists of servers that container.go builds.
use dbmeta.Common.{
  ◌≡◌, refl, sym, ap, ◌∙◌, Bool, true, false, ◌&&◌, false≢true, List, [], ◌∷◌, ◌++◌, map,
  if◌then◌else◌, arith, Bool-cases, inl, inr,
}
use dbmeta.Common.Text.{Text}
use dbmeta.Version.{Version, parse_version, at_least}
use dbmeta.Version.Order.{compare_anti, at_least_trans, at_least_total}
use dbmeta.Container.Servers.{Server, Tier}
use dbmeta.Container.Releases.{
  Product, compare_release, in_order, insert_server, sort_servers, server_of, add,
}

abbrev pub version_of : Server → Version
version_of s = parse_version s.release

in_order-at_least : (a b : Server) → in_order a b ≡ at_least (version_of b) (version_of a)
unfolding compare_release at_least
in_order-at_least a b =
    ground (arith, compare_anti (parse_version b.release) (parse_version a.release))

-- Each server may stand before the next one.
abbrev pub Sorted : List Server → Type 0
Sorted [] = Unit
Sorted (s ∷ []) = Unit
Sorted (s ∷ t ∷ servers) = (in_order s t ≡ true) × Sorted (t ∷ servers)

total : (a b : Server) → in_order a b ≡ false → in_order b a ≡ true
total a b h = elim (at_least_total (version_of a) (version_of b)).0 [
  | inl t ↦ in_order-at_least b a ∙ t
  | inr t ↦ absurd (false≢true (sym h ∙ in_order-at_least a b ∙ t))
]

-- Neither release is older than the other.
pub is_version : Version → Server → Bool
is_version v s = at_least (version_of s) v && at_least v (version_of s)

-- The servers with the release of the version `v`, in their order.
pub at_version : Version → List Server → List Server
at_version v [] = []
at_version v (s ∷ servers) =
    let rest = at_version v servers in if is_version v s then s ∷ rest else rest

insert-head :
    (s t : Server) (servers : List Server)
    → in_order t s ≡ true
    → Sorted (t ∷ servers)
    → Sorted (t ∷ insert_server s servers)
unfolding insert_server
insert-head s t [] e h = (e, tt)
insert-head s t (u ∷ servers) e h = elim (Bool-cases (in_order s u)) [
  | inl o ↦ rw o (e, (o, h.1))
  | inr o ↦ rw o (h.0, insert-head s u servers (total s u o) h.1)
]

insert_server-Sorted :
    (s : Server) (servers : List Server) → Sorted servers → Sorted (insert_server s servers)
unfolding insert_server
insert_server-Sorted s [] h = tt
insert_server-Sorted s (t ∷ servers) h = elim (Bool-cases (in_order s t)) [
  | inl o ↦ rw o (o, h)
  | inr o ↦ rw o (insert-head s t servers (total s t o) h)
]

sort_servers-Sorted : (servers : List Server) → Sorted (sort_servers servers)
unfolding sort_servers
sort_servers-Sorted [] = tt
sort_servers-Sorted (s ∷ servers) =
    insert_server-Sorted s (sort_servers servers) (sort_servers-Sorted servers)

-- Two servers with the release of `v` may stand in either order.
same_version :
    (v : Version) (s t : Server)
    → is_version v s ≡ true
    → is_version v t ≡ true
    → in_order s t ≡ true
unfolding is_version
same_version v s t h k =
    in_order-at_least s t
    ∙ at_least_trans (version_of t) v (version_of s) (ground arith) (ground arith)

swapped :
    (a b : Bool) (s t : Server) (rest : List Server)
    → (a ≡ true → b ≡ true → ⊥)
    → (if b then t ∷ (if a then s ∷ rest else rest) else if a then s ∷ rest else rest)
      ≡ (if a then s ∷ (if b then t ∷ rest else rest) else if b then t ∷ rest else rest)
swapped true true s t rest h = absurd (h refl refl)
swapped true false s t rest h = refl
swapped false true s t rest h = refl
swapped false false s t rest h = refl

at_version-insert_server :
    (v : Version) (s : Server) (servers : List Server)
    → at_version v (insert_server s servers) ≡ at_version v (s ∷ servers)
unfolding insert_server at_version
at_version-insert_server v s [] = refl
at_version-insert_server v s (t ∷ servers) = elim (Bool-cases (in_order s t)) [
  | inl o ↦ rw o refl
  | inr o ↦
      rw (o, at_version-insert_server v s servers)
        (swapped (is_version v s) (is_version v t) s t (at_version v servers)
          λ a b. false≢true (sym o ∙ same_version v s t a b))
]

at_version-sort_servers :
    (v : Version) (servers : List Server)
    → at_version v (sort_servers servers) ≡ at_version v servers
unfolding sort_servers at_version
at_version-sort_servers v [] = refl
at_version-sort_servers v (s ∷ servers) =
    at_version-insert_server v s (sort_servers servers)
    ∙ ap (λ rest. if is_version v s then s ∷ rest else rest) (at_version-sort_servers v servers)

-- `add` gives a list that is sorted by the releases, the oldest first. It holds the servers that were
-- there and one for each new release, and those of one release stand in the order in which they were
-- added.
pub add-Sorted :
    (l : List Server) (p : Product) (tier : Tier) (versions : List Text)
    → Sorted (add l p tier versions)
      × ((v : Version)
          → at_version v (add l p tier versions)
            ≡ at_version v (l ++ map (server_of p tier) versions))
unfolding add
add-Sorted l p tier versions = (
  sort_servers-Sorted (l ++ map (server_of p tier) versions),
  λ v. at_version-sort_servers v (l ++ map (server_of p tier) versions),
)
