-- ===== src/Tablestore/Stream.antt =====
-- `walkTables` of models/tablestore as the items that it yields, with what the service answered.
use dbmeta.Common.{
  ◌≡◌, refl, sym, ap, Bool, true, false, none, some, List, [], ◌∷◌, ◌++◌, ◌⊎◌, inl, inr, map,
  Bool-cases, Sum-cases, arith, Result, ok, err, Error, Returns, Returns-cases,
}
use dbmeta.Common.Text.{Text, str, contains}
use dbmeta.Bind.{Args}
use dbmeta.Query.{Item}
use dbmeta.Like.{like}
use dbmeta.Iterate.Stream.{drive, last_item}
use dbmeta.Service.{Answer, Service, read_all}
use dbmeta.Service.Tables.{IsTable, read_all-IsTable}
use dbmeta.Tablestore.Walks.{
  quote, list_tables, vanished, yield_values, tables_loop, arg, walk_tables,
}

-- The list of the tables does not show that the table is gone.
abbrev pub StillThere : Error ⊎ List Text → Text → Type 0
StillThere (inl e) name = Unit
StillThere (inr names) name = contains names name ≡ true

abbrev pub values : {T : Type 0} → List T → List (Item T)
values vals = map (λ v. (v, none)) vals

module _ {W T : Type 0} (query : Service W) (zero_value : T) (stmt : Text)
    (read : Text → Answer → Result (List T)) (parent : Text) where
  -- The items of the tables of a list, from a state of the service on. A table whose name the pattern
  -- refuses costs no statement. A table gives the values that are read from the answer to its statement.
  -- It is passed over if its statement failed and a list that was then read does not hold it. Any other
  -- error is the last item.
  pub data Walked : List Text → W → List (Item T) → Type 0 where
    ended : {w : W} → Walked [] w []
    refused :
        {name : Text} {names : List Text} {w : W} {items : List (Item T)}
        → like parent name ≡ false
        → Walked names w items
        → Walked (name ∷ names) w items
    answered :
        {name : Text} {names : List Text} {w w' : W} {answer : Answer} {vals : List T}
        {items : List (Item T)}
        → like parent name ≡ true
        → read_all query w (stmt ++ (str " " ++ quote name)) ≡ (inr answer, w')
        → read name answer ≡ ok vals
        → Walked names w' items
        → Walked (name ∷ names) w (values vals ++ items)
    unread :
        {name : Text} {names : List Text} {w w' : W} {answer : Answer} {e : Error}
        → like parent name ≡ true
        → read_all query w (stmt ++ (str " " ++ quote name)) ≡ (inr answer, w')
        → read name answer ≡ err e
        → Walked (name ∷ names) w ((zero_value, some e) ∷ [])
    gone :
        {name : Text} {names listed : List Text} {w w' w'' : W} {e : Error} {items : List (Item T)}
        → like parent name ≡ true
        → read_all query w (stmt ++ (str " " ++ quote name)) ≡ (inl e, w')
        → list_tables query w' ≡ (inr listed, w'')
        → contains listed name ≡ false
        → Walked names w'' items
        → Walked (name ∷ names) w items
    failed :
        {name : Text} {names : List Text} {w w' w'' : W} {e : Error} {listed : Error ⊎ List Text}
        → like parent name ≡ true
        → read_all query w (stmt ++ (str " " ++ quote name)) ≡ (inl e, w')
        → list_tables query w' ≡ (listed, w'')
        → StillThere listed name
        → Walked (name ∷ names) w ((zero_value, some e) ∷ [])

module _ {S T : Type 0} (yield : S → Item T → S × Bool) where
  -- The values of a table, and the items behind them if the body goes on.
  yield_values-drive :
      (vals : List T) (items : List (Item T)) (s : S)
      → drive yield (values vals ++ items) s ≡ elim (yield_values yield vals s).1 [
        | true ↦ drive yield items (yield_values yield vals s).0
        | false ↦ (yield_values yield vals s).0
      ]
  unfolding yield_values
  yield_values-drive [] items s = refl
  yield_values-drive (v ∷ vals) items s =
      ground (arith, yield_values-drive vals items (yield s (v, none)).0)

vanished-cases :
    {W : Type 0} (query : Service W) (w : W) (name : Text)
    → ((vanished query w name).0 ≡ false) × StillThere (list_tables query w).0 name
      ⊎ ((listed : List Text) × ((vanished query w name).0 ≡ true)
          × (list_tables query w ≡ (inr listed, (vanished query w name).1))
          × (contains listed name ≡ false))
unfolding vanished
vanished-cases query w name = elim (Sum-cases (list_tables query w).0) [
  | inl (e, p) ↦ inl (rw (vanished, p) refl, rw (p) tt)
  | inr (listed, p) ↦ elim (Bool-cases (contains listed name)) [
    | inl c ↦ inl (rw (vanished, p, c) refl, rw (p) c)
    | inr c ↦ inr (listed, rw (vanished, p, c) refl, ap (λ r. (r, (list_tables query w).1)) p, c)
  ]
]

module _ {W S T : Type 0} (query : Service W) (zero_value : T) (stmt : Text)
    (read : Text → Answer → Result (List T)) (parent : Text) (yield : S → Item T → S × Bool)
    (reads : (name : Text) (answer : Answer)
      → IsTable answer
      → Returns (λ _. Unit) (read name answer)) where
  abbrev asked : W → Text → (Error ⊎ Answer) × W
  asked w name = read_all query w (stmt ++ (str " " ++ quote name))

  -- The loop, from a state of the service on, drives the body over items.
  abbrev WalkedBy : List Text → W → Type 0
  WalkedBy names w =
      (items : List (Item T)) × Walked query zero_value stmt read parent names w items
      × ((s : S)
          → tables_loop query zero_value yield stmt read parent names w s
            ≡ ok (drive yield items s))

  failed-WalkedBy :
      (name : Text) (names : List Text) (w : W) (e : Error)
      → like parent name ≡ true
      → (asked w name).0 ≡ inl e
      → ((w'' : W) → WalkedBy names w'')
      → WalkedBy (name ∷ names) w
  unfolding tables_loop
  failed-WalkedBy name names w e l p rest =
      let w' = (asked w name).1 in
      let answer = ap (λ r. (r, w')) p in
      elim (vanished-cases query w' name) [
        | inl (v, there) ↦ (
          (zero_value, some e) ∷ [],
          failed l answer refl there,
          λ s.
              rw (tables_loop, l, p, v)
                (ap ok (sym (last_item yield zero_value (zero_value, some e) s))),
        )
        | inr (listed, v, q, c) ↦
            let (items, walked, h) = rest (vanished query w' name).1 in
            (items, gone l answer q c walked, λ s. rw (tables_loop, l, p, v) (h s))
      ]

  answered-WalkedBy :
      (name : Text) (names : List Text) (w : W) (answer : Answer) (vals : List T)
      → like parent name ≡ true
      → (asked w name).0 ≡ inr answer
      → read name answer ≡ ok vals
      → ((w'' : W) → WalkedBy names w'')
      → WalkedBy (name ∷ names) w
  unfolding tables_loop
  answered-WalkedBy name names w answer vals l p r rest =
      let w' = (asked w name).1 in
      let (items, walked, h) = rest w' in
      (
        values vals ++ items,
        answered l (ap (λ r. (r, w')) p) r walked,
        λ s.
            rw (tables_loop, l, p, r)
              (ground
                (arith, yield_values-drive yield vals items s, h (yield_values yield vals s).0)),
      )

  asked-cases :
      (name : Text) (w : W) (answer : Answer)
      → (asked w name).0 ≡ inr answer
      → ((vals : List T) × (read name answer ≡ ok vals))
        ⊎ ((e : Error) × (read name answer ≡ err e))
  asked-cases name w answer p =
      let p' = ap (λ r. (r, (asked w name).1)) p in
      let t =
        read_all-IsTable query w (asked w name).1 (stmt ++ (str " " ++ quote name)) answer p' in
      Returns-cases (λ _. Unit) (read name answer) (reads name answer t)

  tables_loop-WalkedBy : (names : List Text) (w : W) → WalkedBy names w
  unfolding tables_loop
  tables_loop-WalkedBy [] w = ([], ended, λ s. refl)
  tables_loop-WalkedBy (name ∷ names) w = elim (Bool-cases (like parent name)) [
    | inr l ↦
        let (items, walked, h) = tables_loop-WalkedBy names w in
        (items, refused l walked, λ s. rw (tables_loop, l) (h s))
    | inl l ↦ elim (Sum-cases (asked w name).0) [
      | inl (e, p) ↦ failed-WalkedBy name names w e l p (tables_loop-WalkedBy names)
      | inr (answer, p) ↦ elim (asked-cases name w answer p) [
        | inl (vals, r) ↦
            answered-WalkedBy name names w answer vals l p r (tables_loop-WalkedBy names)
        | inr (e, r) ↦ (
          (zero_value, some e) ∷ [],
          unread l (ap (λ r. (r, (asked w name).1)) p) r,
          λ s.
              rw (tables_loop, l, p, r)
                (ap ok (sym (last_item yield zero_value (zero_value, some e) s))),
        )
      ]
    ]
  ]

module _ {W T : Type 0} (query : Service W) (zero_value : T) (stmt : Text)
    (read : Text → Answer → Result (List T)) (args : Args) where
  -- The items of a walk: none where the schema pattern does not match the empty text, the error of a
  -- list that cannot be read, else those of the listed tables.
  pub data WalkItems : W → List (Item T) → Type 0 where
    no_schema : {w : W} → like (arg args (str "schema")) [] ≡ false → WalkItems w []
    unlisted :
        {w w' : W} {e : Error}
        → like (arg args (str "schema")) [] ≡ true
        → list_tables query w ≡ (inl e, w')
        → WalkItems w ((zero_value, some e) ∷ [])
    listed :
        {w w' : W} {names : List Text} {items : List (Item T)}
        → like (arg args (str "schema")) [] ≡ true
        → list_tables query w ≡ (inr names, w')
        → Walked query zero_value stmt read (arg args (str "parent")) names w' items
        → WalkItems w items

-- The run of a walk, on a state of its caller, calls the body on the items in order until it stops.
abbrev pub IsWalk :
    {W S T : Type 0}
    → Service W
    → T
    → (S → Item T → S × Bool)
    → Text
    → (Text → Answer → Result (List T))
    → Args
    → W
    → (S → Result S)
    → Type 0
IsWalk query zero_value yield stmt read args w run =
    (items : List (Item _)) × WalkItems query zero_value stmt read args w items
    × ((s : _) → run s ≡ ok (drive yield items s))

-- With a reader that returns on every answer whose rows are as wide as its columns, a walk calls its
-- body on items one after the other until the body stops, and never panics. The items are those of
-- `WalkItems`: none if the schema pattern does not match the empty text; the error of a list of the
-- tables that cannot be read; else, for each listed table that the parent pattern matches, in the
-- order of the list, the values read from the answer to its statement. A table is passed over only if
-- its statement failed and a list that was then read does not name it; any other error is an item, and
-- the last one.
pub walk_tables-drive :
    {W S T : Type 0} (query : Service W) (zero_value : T) (yield : S → Item T → S × Bool)
    (stmt : Text) (read : Text → Answer → Result (List T)) (args : Args) (w : W)
    → ((name : Text) (answer : Answer) → IsTable answer → Returns (λ _. Unit) (read name answer))
    → IsWalk query zero_value yield stmt read args w
        (λ s. walk_tables query zero_value yield stmt read args w s)
unfolding walk_tables
walk_tables-drive query zero_value yield stmt read args w reads =
    elim (Bool-cases (like (arg args (str "schema")) [])) [
      | inr l ↦ ([], no_schema l, λ s. rw (walk_tables, l) refl)
      | inl l ↦ elim (Sum-cases (list_tables query w).0) [
        | inl (e, p) ↦ (
          (zero_value, some e) ∷ [],
          unlisted l (ap (λ r. (r, (list_tables query w).1)) p),
          λ s.
              rw (walk_tables, l, p)
                (ap ok (sym (last_item yield zero_value (zero_value, some e) s))),
        )
        | inr (names, p) ↦
            let (items, walked, h) =
              tables_loop-WalkedBy query zero_value stmt read (arg args (str "parent")) yield reads
                names (list_tables query w).1 in
            (
              items,
              listed l (ap (λ r. (r, (list_tables query w).1)) p) walked,
              λ s. rw (walk_tables, l, p) (h s),
            )
      ]
    ]
