-- ===== src/Container/Releases/Chains.antt =====
-- The lists that chains of `add`, `staged` and `on` of container.go build from the empty one.
use dbmeta.Common.{
  ◌≡◌, refl, sym, ap, ◌∙◌, Bool, true, false, ◌&&◌, ◌||◌, not, List, [], ◌∷◌, ◌++◌, map,
  if◌then◌else◌, arith, Bool-cases, inl, inr, All,
}
use dbmeta.Common.Text.{Text, text_eq}
use dbmeta.Container.Servers.{Server, Tier, no_tier, staged, tier_eq}
use dbmeta.Container.Releases.{
  Product, in_order, insert_server, sort_servers, server_of, add, with_cadence, add_staged,
  on_release,
}
use dbmeta.Container.Releases.Sorting.{Sorted, add-Sorted}

-- What a change of `on` leaves alone.
pub record Keeps (change : Server → Server) : Type 0 where
  pub release : (s : Server) → (change s).release ≡ s.release
  pub tier : (s : Server) → (change s).tier ≡ s.tier
  pub cadence : (s : Server) → (change s).cadence ≡ s.cadence

-- The lists that are built: `add` is called with a tier other than Staged, and `staged` with a cadence.
pub data Listed : List Server → Type 0 where
  empty : Listed []
  added :
      (l : List Server) (p : Product) (t : Tier) (versions : List Text)
      → Listed l
      → tier_eq t staged ≡ false
      → Listed (add l p t versions)
  added_staged :
      (l : List Server) (p : Product) (cadence : Tier) (versions : List Text)
      → Listed l
      → tier_eq cadence no_tier ≡ false
      → Listed (add_staged l p cadence versions)
  changed :
      (l : List Server) (release : Text) (change : Server → Server)
      → Listed l
      → Keeps change
      → Listed (on_release l release change)

-- A server has a cadence exactly when it is Staged.
abbrev pub HasCadence : Server → Type 0
HasCadence s = tier_eq s.tier staged ≡ not (tier_eq s.cadence no_tier)

module _ (P : Server → Type 0) where
  All-insert : (s : Server) (l : List Server) → P s → All P l → All P (insert_server s l)
  unfolding insert_server
  All-insert s [] h k = (h, tt)
  All-insert s (t ∷ l) h k = elim (Bool-cases (in_order s t)) [
    | inl o ↦ rw o (h, k)
    | inr o ↦ rw o (k.0, All-insert s l h k.1)
  ]

  All-sort : (l : List Server) → All P l → All P (sort_servers l)
  unfolding sort_servers
  All-sort [] h = tt
  All-sort (s ∷ l) h = All-insert s (sort_servers l) h.0 (All-sort l h.1)

  All-append : (l k : List Server) → All P l → All P k → All P (l ++ k)
  All-append [] k h i = i
  All-append (s ∷ l) k h i = (h.0, All-append l k h.1 i)

  All-new :
      (p : Product) (t : Tier) (versions : List Text)
      → ((v : Text) → P (server_of p t v))
      → All P (map (server_of p t) versions)
  All-new p t [] h = tt
  All-new p t (v ∷ versions) h = (h v, All-new p t versions h)

  All-added :
      (l : List Server) (p : Product) (t : Tier) (versions : List Text)
      → All P l
      → ((v : Text) → P (server_of p t v))
      → All P (add l p t versions)
  unfolding add
  All-added l p t versions h new = All-sort _ (All-append l _ h (All-new p t versions new))

All-map :
    (P Q : Server → Type 0) (f : Server → Server) (l : List Server)
    → ((s : Server) → P s → Q (f s))
    → All P l
    → All Q (map f l)
All-map P Q f [] h k = tt
All-map P Q f (s ∷ l) h k = (h s k.0, All-map P Q f l h k.1)

map-Sorted :
    (f : Server → Server) (l : List Server)
    → ((s : Server) → (f s).release ≡ s.release)
    → Sorted l
    → Sorted (map f l)
map-Sorted f [] h k = tt
map-Sorted f (s ∷ []) h k = tt
map-Sorted f (s ∷ t ∷ l) h k = (rw (h s, h t) k.0, map-Sorted f (t ∷ l) h k.1)

-- Only a Staged server has a cadence.
abbrev OnlyStaged : Server → Type 0
OnlyStaged s = (tier_eq s.tier staged || tier_eq s.cadence no_tier) ≡ true

HasCadence-OnlyStaged : (s : Server) → HasCadence s → OnlyStaged s
HasCadence-OnlyStaged s h = ground arith

given_cadence :
    (cadence : Tier) (s : Server)
    → tier_eq cadence no_tier ≡ false
    → OnlyStaged s
    → HasCadence (with_cadence cadence s)
given_cadence cadence s c h = elim (Bool-cases (tier_eq s.tier staged)) [
  | inl t ↦ elim (Bool-cases (tier_eq s.cadence no_tier)) [
    | inl n ↦ rw (t, n) (t ∙ sym (ap not c))
    | inr n ↦ rw (t, n) (t ∙ sym (ap not n))
  ]
  | inr t ↦ rw t (t ∙ sym (ap not (ap (λ b. b || tier_eq s.cadence no_tier) (sym t) ∙ h)))
]

with_cadence-release : (cadence : Tier) (s : Server) → (with_cadence cadence s).release ≡ s.release
with_cadence-release cadence s = go (tier_eq s.tier staged && tier_eq s.cadence no_tier)
  where
    go : (b : Bool) → (if b then record s { cadence = cadence } else s).release ≡ s.release
    go true = refl
    go false = refl

new_server :
    (p : Product) (t : Tier) (v : Text) → tier_eq t staged ≡ false → HasCadence (server_of p t v)
new_server p t v h = h

new_staged : (p : Product) (v : Text) → OnlyStaged (server_of p staged v)
new_staged p v = refl

All-weaker : (l : List Server) → All HasCadence l → All OnlyStaged l
All-weaker [] h = tt
All-weaker (s ∷ l) h = (HasCadence-OnlyStaged s h.0, All-weaker l h.1)

module _ (release : Text) (change : Server → Server) (keeps : Keeps change) where
  on_one : Server → Server
  on_one s = if text_eq s.release release then change s else s

  on_one-release : (s : Server) → (on_one s).release ≡ s.release
  unfolding on_one
  on_one-release s = elim (Bool-cases (text_eq s.release release)) [
    | inl e ↦ rw e (keeps.release s)
    | inr e ↦ rw e refl
  ]

  on_one-HasCadence : (s : Server) → HasCadence s → HasCadence (on_one s)
  unfolding on_one
  on_one-HasCadence s h = elim (Bool-cases (text_eq s.release release)) [
    | inl e ↦ rw (e, keeps.tier s, keeps.cadence s) h
    | inr e ↦ rw e h
  ]

-- Every list that a chain of `add`, `staged` and `on` builds is sorted by the releases, and a server in it
-- has a cadence exactly when its tier is Staged. `add` is called with another tier than Staged, `staged`
-- with a cadence, and `on` with a change that keeps release, tier and cadence.
pub Listed-Sorted : (l : List Server) → Listed l → Sorted l × All HasCadence l
unfolding add_staged on_release on_one
Listed-Sorted _ empty = (tt, tt)
Listed-Sorted _ (added l p t versions h ordinary) = (
  (add-Sorted l p t versions).0,
  All-added HasCadence l p t versions (Listed-Sorted l h).1 (λ v. new_server p t v ordinary),
)
Listed-Sorted _ (added_staged l p cadence versions h given) =
    let only = All-weaker l (Listed-Sorted l h).1 in
    (
      map-Sorted (with_cadence cadence) _ (with_cadence-release cadence)
          (add-Sorted l p staged versions).0,
      All-map OnlyStaged HasCadence (with_cadence cadence) _ (λ s. given_cadence cadence s given)
          (All-added OnlyStaged l p staged versions only (new_staged p)),
    )
Listed-Sorted _ (changed l release change h keeps) = (
  map-Sorted _ l (on_one-release release change keeps) (Listed-Sorted l h).0,
  All-map HasCadence HasCadence _ l (on_one-HasCadence release change keeps) (Listed-Sorted l h).1,
)
