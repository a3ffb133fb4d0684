-- ===== src/Container/Lookup.antt =====
-- `ClientFor` of client.go: which server answers for a name.
use dbmeta.Common.{
  ◌≡◌, refl, sym, ◌∙◌, ℕ, Bool, true, false, false≢true, Option, none, some, List, [], ◌∷◌, ◌⊎◌,
  inl, inr, Bool-cases, All,
}
use dbmeta.Common.Text.{Text, text_eq, text_eq_refl}
use dbmeta.Container.Clients.{Client}
use dbmeta.Container.Servers.{Server, newest, zero_client, first_named, client_for, client_key}

-- The first server of a list that passes a test, and the last one.
pub data FirstOf (p : Server → Bool) (s : Server) : List Server → Type 0 where
  found : {l : List Server} → p s ≡ true → FirstOf p s (s ∷ l)
  skipped : {t : Server} {l : List Server} → p t ≡ false → FirstOf p s l → FirstOf p s (t ∷ l)

abbrev pub NoneOf : (Server → Bool) → List Server → Type 0
NoneOf p l = All (λ s. p s ≡ false) l

pub data LastOf (p : Server → Bool) (s : Server) : List Server → Type 0 where
  last : {l : List Server} → p s ≡ true → NoneOf p l → LastOf p s (s ∷ l)
  behind : {t : Server} {l : List Server} → LastOf p s l → LastOf p s (t ∷ l)

abbrev pub named : (Server → Text) → Text → Server → Bool
named key_of key s = text_eq (key_of s) key

abbrev pub is_product : Text → Server → Bool
is_product product s = text_eq s.product product

first_named-cases :
    (key_of : Server → Text) (key : Text) (all : List Server)
    → ((s : Server) × (first_named key_of key all ≡ some s) × FirstOf (named key_of key) s all)
      ⊎ ((first_named key_of key all ≡ none) × NoneOf (named key_of key) all)
unfolding first_named
first_named-cases key_of key [] = inr (refl, tt)
first_named-cases key_of key (s ∷ all) = elim (Bool-cases (text_eq (key_of s) key)) [
  | inl e ↦ inl (s, rw e refl, found e)
  | inr e ↦ elim (first_named-cases key_of key all) [
    | inl (t, h, f) ↦ inl (t, rw (e, h) refl, skipped e f)
    | inr (h, none_of) ↦ inr (rw (e, h) refl, (e, none_of))
  ]
]

newest-cases :
    (all : List Server) (product : Text) (c : Client)
    → ((s : Server) × LastOf (is_product product) s all × (newest all product c ≡ s.client))
      ⊎ (NoneOf (is_product product) all × (newest all product c ≡ c))
unfolding newest
newest-cases [] product c = inr (tt, refl)
newest-cases (s ∷ all) product c = elim (Bool-cases (text_eq s.product product)) [
  | inl e ↦ elim (newest-cases all product s.client) [
    | inl (t, l, h) ↦ inl (t, behind l, rw e h)
    | inr (n, h) ↦ inl (s, last e n, rw e h)
  ]
  | inr e ↦ elim (newest-cases all product c) [
    | inl (t, l, h) ↦ inl (t, behind l, rw e h)
    | inr (n, h) ↦ inr ((e, n), rw e h)
  ]
]

first-not_none :
    (p : Server → Bool) (s : Server) (all : List Server)
    → FirstOf p s all
    → NoneOf (is_product s.product) all
    → ⊥
first-not_none p s _ (found e) n = false≢true (sym n.0 ∙ text_eq_refl s.product)
first-not_none p s _ (skipped e f) n = first-not_none p s _ f n.1

newest-LastOf :
    (p : Server → Bool) (s : Server) (all : List Server) (c : Client)
    → FirstOf p s all
    → (t : Server) × LastOf (is_product s.product) t all × (newest all s.product c ≡ t.client)
newest-LastOf p s all c f = elim (newest-cases all s.product c) [
  | inl found_last ↦ found_last
  | inr (n, h) ↦ absurd (first-not_none p s all f n)
]

-- What a name finds in the list of all servers: the keys of the products are `product_key`, those of the
-- dialects `dialect_key`.
pub data Finds (product_key dialect_key : Server → Bool) (all : List Server)
    : Option Client → Type 0 where
  of_product :
      (s t : Server)
      → FirstOf product_key s all
      → LastOf (is_product s.product) t all
      → Finds product_key dialect_key all (some t.client)
  of_dialect :
      (s t : Server)
      → NoneOf product_key all
      → FirstOf dialect_key s all
      → LastOf (is_product s.product) t all
      → Finds product_key dialect_key all (some t.client)
  unknown : NoneOf product_key all → NoneOf dialect_key all → Finds product_key dialect_key all none

-- `ClientFor` answers with the client of the newest release of a product, the last of the product's
-- servers: the product of the first server whose product has the name, and only when there is none, of
-- the first whose dialect has it. It knows no client exactly when neither has the name. Names are
-- compared in lower case without spaces.
pub client_for-Finds :
    (to_lower : ℕ → ℕ) (all : List Server) (name : Text)
    → Finds
        (named (λ s. client_key to_lower s.product) (client_key to_lower name))
        (named (λ s. client_key to_lower s.dialect) (client_key to_lower name))
        all
        (client_for to_lower all name)
unfolding client_for
client_for-Finds to_lower all name = elim (first_named-cases product_of key all) [
  | inl (s, h, f) ↦
      let (t, l, e) = newest-LastOf (named product_of key) s all zero_client f in
      rw (client_for, h, e) (of_product s t f l)
  | inr (h, none_of) ↦ elim (first_named-cases dialect_of key all) [
    | inl (s, k, f) ↦
        let (t, l, e) = newest-LastOf (named dialect_of key) s all zero_client f in
        rw (client_for, h, k, e) (of_dialect s t none_of f l)
    | inr (k, no_dialect) ↦ rw (client_for, h, k) (unknown none_of no_dialect)
  ]
]
  where
    key : Text
    key = client_key to_lower name

    product_of : Server → Text
    product_of s = client_key to_lower s.product

    dialect_of : Server → Text
    dialect_of s = client_key to_lower s.dialect
