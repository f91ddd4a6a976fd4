-- ===== src/ConsistentHash/Ring.antt =====
-- consistenthash.h: the ring as a sorted map, and which entry answers a lookup.
use dfs_system.Base.{
  ℕ, zero, suc, ◌+◌, ◌≡◌, ◌<◌, ◌≤◌, refl, sym, List, [], ◌∷◌, ◌⊎◌, inl, inr, some, none, arith, leb,
  Bool-cases,
}
use dfs_system.ConsistentHash.{
  Group, Ring, insert, lower_bound, begin, virtual_node, hash, add_from, add_node, get_group,
  replicas,
}

-- Every key of the ring is above `k`.
abbrev pub Above : ℕ → Ring → Type 0
Above k [] = Unit
Above k ((j, v) ∷ ring) = (k < j) × Above k ring

abbrev pub IsSorted : Ring → Type 0
IsSorted [] = Unit
IsSorted ((k, v) ∷ ring) = Above k ring × IsSorted ring

abbrev pub Has : ℕ → Group → Ring → Type 0
Has k v [] = ⊥
Has k v ((j, w) ∷ ring) = ((k ≡ j) × (v ≡ w)) ⊎ Has k v ring

-- The entry that owns the point `h`: the nearest at or after it, or, when there is none, the first.
abbrev pub Owns : ℕ → ℕ → Group → Ring → Type 0
Owns h k v ring =
    Has k v ring
    × (((h ≤ k) × ((j : ℕ) (w : Group) → Has j w ring → h ≤ j → k ≤ j))
        ⊎ (((j : ℕ) (w : Group) → Has j w ring → j < h)
            × ((j : ℕ) (w : Group) → Has j w ring → k ≤ j)))

Above-mono : (k j : ℕ) (ring : Ring) → k ≤ j → Above j ring → Above k ring
Above-mono k j [] h a = tt
Above-mono k j ((i, v) ∷ ring) h a = (omega arith, Above-mono k j ring h a.1)

insert-Above :
    (j k : ℕ) (v : Group) (ring : Ring) → j < k → Above j ring → Above j (insert k v ring)
unfolding insert
insert-Above j k v [] h a = (h, tt)
insert-Above j k v ((i, w) ∷ ring) h a = ground (arith, insert-Above j k v ring h a.1)

insert-IsSorted : (k : ℕ) (v : Group) (ring : Ring) → IsSorted ring → IsSorted (insert k v ring)
unfolding insert
insert-IsSorted k v [] s = (tt, tt)
insert-IsSorted k v ((j, w) ∷ ring) s =
    ground
      (arith, insert-IsSorted k v ring s.1, insert-Above j k v ring, Above-mono k j ring, s.0, s.1)

Above-Has : (k j : ℕ) (v : Group) (ring : Ring) → Above k ring → Has j v ring → k < j
Above-Has k j v [] a h = absurd h
Above-Has k j v ((i, w) ∷ ring) a (inl e) = omega (arith, e.0)
Above-Has k j v ((i, w) ∷ ring) a (inr h) = Above-Has k j v ring a.1 h

lower_bound-next :
    (h k : ℕ) (v : Group) (ring : Ring)
    → IsSorted ring
    → Has k v ring
    → h ≤ k
    → ((j : ℕ) (w : Group) → Has j w ring → h ≤ j → k ≤ j)
    → lower_bound h ring ≡ some v
unfolding lower_bound
lower_bound-next h k v [] s m le least = absurd m
lower_bound-next h k v ((j, w) ∷ ring) s (inl e) le least = ground arith
lower_bound-next h k v ((j, w) ∷ ring) s (inr m) le least = elim (Bool-cases (leb h j)) [
  | inl at ↦
      let first : k ≤ j = least j w (inl (refl, refl)) (ground arith) in
      absurd (omega (arith, Above-Has j k v ring s.0 m))
  | inr below ↦ rw below (lower_bound-next h k v ring s.1 m le (λ i u p q. least i u (inr p) q))
]

lower_bound-none :
    (h : ℕ) (ring : Ring) → ((j : ℕ) (w : Group) → Has j w ring → j < h) → lower_bound h ring ≡ none
unfolding lower_bound
lower_bound-none h [] all = refl
lower_bound-none h ((j, w) ∷ ring) all =
    ground (arith, all j w (inl (refl, refl)), lower_bound-none h ring (λ i u p. all i u (inr p)))

begin-first :
    (k : ℕ) (v : Group) (ring : Ring)
    → IsSorted ring
    → Has k v ring
    → ((j : ℕ) (w : Group) → Has j w ring → k ≤ j)
    → begin ring ≡ v
unfolding begin
begin-first k v [] s m least = absurd m
begin-first k v ((j, w) ∷ ring) s (inl e) least = sym e.1
begin-first k v ((j, w) ∷ ring) s (inr m) least =
    absurd (omega (arith, Above-Has j k v ring s.0 m, least j w (inl (refl, refl))))

module _ (hasher : List ℕ → ℕ) where
  add_from-IsSorted :
      (n i : ℕ) (node : Group) (ring : Ring)
      → IsSorted ring
      → IsSorted (add_from hasher n i node ring)
  unfolding add_from
  add_from-IsSorted zero i node ring s = s
  add_from-IsSorted (suc n) i node ring s =
      add_from-IsSorted n (i + 1) node (insert (hash hasher (virtual_node node i)) node ring)
        (insert-IsSorted _ node ring s)

  -- A joining group keeps the ring sorted by its keys, without repetition.
  pub add_node-IsSorted :
      (node : Group) (ring : Ring) → IsSorted ring → IsSorted (add_node hasher node ring)
  unfolding add_node
  add_node-IsSorted node ring s = add_from-IsSorted replicas 0 node ring s

  -- In a sorted ring a lookup answers with the entry that owns the key's hash.
  pub get_group-Owns :
      (key : List ℕ) (k : ℕ) (v : Group) (ring : Ring)
      → IsSorted ring
      → Owns (hash hasher key) k v ring
      → get_group hasher key ring ≡ v
  unfolding get_group
  get_group-Owns key k v ring s (m, inl (le, least)) =
      rw (lower_bound-next (hash hasher key) k v ring s m le least)
  get_group-Owns key k v ring s (m, inr (all, least)) =
      rw (lower_bound-none (hash hasher key) ring all) (begin-first k v ring s m least)
