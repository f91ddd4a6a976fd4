-- ===== src/ConsistentHash/Joined.antt =====
-- consistenthash.h: once a group has joined, every lookup answers with a group that has joined.
use dfs_system.Base.{
  ℕ, zero, suc, ◌+◌, ◌≡◌, ◌≢◌, refl, List, [], ◌∷◌, ◌⊎◌, inl, inr, none, some, arith, ltb, leb,
  ◌==◌, Bool-cases, Option,
}
use dfs_system.ConsistentHash.{
  Group, Ring, insert, lower_bound, begin, or_begin, virtual_node, hash, add_from, add_node,
  get_group, replicas,
}

abbrev pub Among : Group → List Group → Type 0
Among g [] = ⊥
Among g (n ∷ ns) = (g ≡ n) ⊎ Among g ns

-- Every entry of the ring names one of the groups `ns`.
abbrev Every : List Group → Ring → Type 0
Every ns [] = Unit
Every ns ((k, v) ∷ ring) = Among v ns × Every ns ring

Every-insert :
    (ns : List Group) (k : ℕ) (v : Group) (ring : Ring)
    → Among v ns
    → Every ns ring
    → Every ns (insert k v ring)
unfolding insert
Every-insert ns k v [] a e = (a, tt)
Every-insert ns k v ((j, w) ∷ ring) a e = elim (Bool-cases (ltb k j)) [
  | inl less ↦ rw less (a, e)
  | inr more ↦ rw more (elim (Bool-cases (k == j)) [
    | inl same ↦ rw same (a, e.1)
    | inr other ↦ rw other (e.0, Every-insert ns k v ring a e.1)
  ])
]

Every-later : (n : Group) (ns : List Group) (ring : Ring) → Every ns ring → Every (n ∷ ns) ring
Every-later n ns [] e = tt
Every-later n ns ((k, v) ∷ ring) e = (inr e.0, Every-later n ns ring e.1)

insert-ne-nil : (k : ℕ) (v : Group) (ring : Ring) → insert k v ring ≢ []
unfolding insert
insert-ne-nil k v [] h = cc
insert-ne-nil k v ((j, w) ∷ ring) h = ground arith

-- What a lookup can answer in a ring that is not empty.
abbrev Answers : List Group → Option Group → Type 0
Answers ns none = Unit
Answers ns (some v) = Among v ns

lower_bound-Answers :
    (ns : List Group) (h : ℕ) (ring : Ring) → Every ns ring → Answers ns (lower_bound h ring)
unfolding lower_bound
lower_bound-Answers ns h [] e = tt
lower_bound-Answers ns h ((k, v) ∷ ring) e = elim (Bool-cases (leb h k)) [
  | inl at ↦ rw at e.0
  | inr below ↦ rw below (lower_bound-Answers ns h ring e.1)
]

begin-Among : (ns : List Group) (ring : Ring) → ring ≢ [] → Every ns ring → Among (begin ring) ns
unfolding begin
begin-Among ns [] full e = absurd (full refl)
begin-Among ns ((k, v) ∷ ring) full e = e.0

or_begin-Among :
    (ns : List Group) (ring : Ring) (answer : Option Group)
    → Among (begin ring) ns
    → Answers ns answer
    → Among (or_begin ring answer) ns
or_begin-Among ns ring none first a = first
or_begin-Among ns ring (some v) first a = a

module _ (hasher : List ℕ → ℕ) where
  add_from-Every :
      (ns : List Group) (n i : ℕ) (node : Group) (ring : Ring)
      → Among node ns
      → Every ns ring
      → Every ns (add_from hasher n i node ring)
  unfolding add_from
  add_from-Every ns zero i node ring a e = e
  add_from-Every ns (suc n) i node ring a e =
      let k = hash hasher (virtual_node node i) in
      add_from-Every ns n (i + 1) node (insert k node ring) a (Every-insert ns k node ring a e)

  add_from-ne-nil :
      (n i : ℕ) (node : Group) (ring : Ring) → ring ≢ [] → add_from hasher n i node ring ≢ []
  unfolding add_from
  add_from-ne-nil zero i node ring full = full
  add_from-ne-nil (suc n) i node ring full =
      let k = hash hasher (virtual_node node i) in
      add_from-ne-nil n (i + 1) node (insert k node ring) (insert-ne-nil k node ring)

  add_node-ne-nil : (node : Group) (ring : Ring) → add_node hasher node ring ≢ []
  unfolding add_node add_from
  add_node-ne-nil node ring =
      let k = hash hasher (virtual_node node 0) in
      add_from-ne-nil 4 1 node (insert k node ring) (insert-ne-nil k node ring)

  -- The ring after the groups of the list have joined, the last of the list first.
  unfoldable pub join : List Group → Ring
  join [] = []
  join (n ∷ ns) = add_node hasher n (join ns)

  join-Every : (ns : List Group) → Every ns (join ns)
  unfolding join add_node
  join-Every [] = tt
  join-Every (n ∷ ns) =
      add_from-Every (n ∷ ns) replicas 0 n (join ns) (inl refl)
        (Every-later n ns (join ns) (join-Every ns))

  -- Each user is sent to a group that has joined, however the hashes fall.
  pub get_group-Among :
      (key : List ℕ) (n : Group) (ns : List Group)
      → Among (get_group hasher key (join (n ∷ ns))) (n ∷ ns)
  unfolding get_group join
  get_group-Among key n ns =
      let all = join-Every (n ∷ ns) in
      or_begin-Among (n ∷ ns) (join (n ∷ ns)) (lower_bound (hash hasher key) (join (n ∷ ns)))
        (begin-Among (n ∷ ns) (join (n ∷ ns)) (add_node-ne-nil n (join ns)) all)
        (lower_bound-Answers (n ∷ ns) (hash hasher key) (join (n ∷ ns)) all)
