-- ===== src/ConsistentHash/Stability.antt =====
-- consistenthash.h: a new group takes users over, and moves none between the old groups.
use dfs_system.Base.{ℕ, zero, suc, ◌+◌, ◌≡◌, refl, ◌⊎◌, inl, inr, List, [], ◌∷◌, some, arith}
use dfs_system.ConsistentHash.{
  Group, Ring, insert, lower_bound, begin, or_begin, virtual_node, hash, add_from, add_node,
  get_group, replicas,
}

-- Where the lookup of `h` ends after one insertion.
begin-insert :
    (k : ℕ) (node : Group) (ring : Ring)
    → (begin (insert k node ring) ≡ node) ⊎ (begin (insert k node ring) ≡ begin ring)
unfolding insert begin
begin-insert k node [] = inl refl
begin-insert k node ((j, v) ∷ ring) = ground arith

lower_bound-insert :
    (h k : ℕ) (node : Group) (ring : Ring)
    → (lower_bound h (insert k node ring) ≡ some node)
      ⊎ (lower_bound h (insert k node ring) ≡ lower_bound h ring)
unfolding insert lower_bound
lower_bound-insert h k node [] = ground arith
lower_bound-insert h k node ((j, v) ∷ ring) = ground (arith, lower_bound-insert h k node ring)

insert_moves :
    (h k : ℕ) (node : Group) (ring : Ring)
    → let after = insert k node ring in
      (or_begin after (lower_bound h after) ≡ node)
      ⊎ (or_begin after (lower_bound h after) ≡ or_begin ring (lower_bound h ring))
insert_moves h k node ring =
    ground (arith, begin-insert k node ring, lower_bound-insert h k node ring)

module _ (hasher : List ℕ → ℕ) where
  add_from_moves :
      (n i : ℕ) (node : Group) (key : List ℕ) (ring : Ring)
      → (get_group hasher key (add_from hasher n i node ring) ≡ node)
        ⊎ (get_group hasher key (add_from hasher n i node ring) ≡ get_group hasher key ring)
  unfolding add_from
  add_from_moves zero i node key ring = inr refl
  add_from_moves (suc n) i node key ring =
      let after = insert (hash hasher (virtual_node node i)) node ring in
      ground (arith, add_from_moves n (i + 1) node key after, one)
    where
      one :
          (get_group hasher key (insert (hash hasher (virtual_node node i)) node ring) ≡ node)
          ⊎ (get_group hasher key (insert (hash hasher (virtual_node node i)) node ring)
              ≡ get_group hasher key ring)
      one =
          unfold get_group in
          insert_moves (hash hasher key) (hash hasher (virtual_node node i)) node ring

  -- When a group joins, each user stays where they were or goes to the new group.
  pub add_node_moves :
      (node : Group) (key : List ℕ) (ring : Ring)
      → (get_group hasher key (add_node hasher node ring) ≡ node)
        ⊎ (get_group hasher key (add_node hasher node ring) ≡ get_group hasher key ring)
  unfolding add_node
  add_node_moves node key ring = add_from_moves replicas 0 node key ring
