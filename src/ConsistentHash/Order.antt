-- ===== src/ConsistentHash/Order.antt =====
-- consistenthash.h: trackers that hear of the groups in another order build the same ring.
use dfs_system.Base.{
  ℕ, zero, suc, ◌+◌, ◌≡◌, ◌≢◌, ◌<◌, ◌≤◌, refl, ◌∙◌, sym, ap, List, [], ◌∷◌, arith,
}
use dfs_system.ConsistentHash.{
  Group, Ring, insert, virtual_node, hash, add_from, add_node, replicas,
}

insert_comm :
    (h k : ℕ) (a b : Group) (ring : Ring)
    → h ≢ k
    → insert h a (insert k b ring) ≡ insert k b (insert h a ring)
unfolding insert
insert_comm h k a b [] d = ground arith
insert_comm h k a b ((j, v) ∷ ring) d = ground (arith, insert_comm h k a b ring d)

module _ (hasher : List ℕ → ℕ) where
  -- The virtual nodes of two groups hash to different places.
  abbrev pub IsApart : Group → Group → Type 0
  IsApart a b =
      (i j : ℕ)
      → i < replicas
      → j < replicas
      → hash hasher (virtual_node a i) ≢ hash hasher (virtual_node b j)

  add_from-insert :
      (n i h : ℕ) (a b : Group) (ring : Ring)
      → ((j : ℕ) → i ≤ j → j < i + n → h ≢ hash hasher (virtual_node b j))
      → add_from hasher n i b (insert h a ring) ≡ insert h a (add_from hasher n i b ring)
  unfolding add_from
  add_from-insert zero i h a b ring d = refl
  add_from-insert (suc n) i h a b ring d =
      let k = hash hasher (virtual_node b i) in
      ap (add_from hasher n (i + 1) b)
        (insert_comm k h b a ring (λ e. d i (omega arith) (omega arith) (sym e)))
      ∙ add_from-insert n (i + 1) h a b (insert k b ring) (λ j p q. d j (omega arith) (omega arith))

  add_from_comm :
      (n i m : ℕ) (a b : Group) (ring : Ring)
      → ((k j : ℕ)
          → i ≤ k
          → k < i + n
          → j < m
          → hash hasher (virtual_node a k) ≢ hash hasher (virtual_node b j))
      → add_from hasher n i a (add_from hasher m 0 b ring)
        ≡ add_from hasher m 0 b (add_from hasher n i a ring)
  unfolding add_from
  add_from_comm zero i m a b ring d = refl
  add_from_comm (suc n) i m a b ring d =
      let h = hash hasher (virtual_node a i) in
      ap (add_from hasher n (i + 1) a) (
        sym (
          add_from-insert m 0 h a b ring
            (λ j p q. d i j (omega arith) (omega arith) (omega arith))))
      ∙ add_from_comm n (i + 1) m a b (insert h a ring)
          (λ k j p q. d k j (omega arith) (omega arith))

  -- If no virtual nodes of two groups collide, the order in which they join does not matter.
  pub add_node_comm :
      (a b : Group) (ring : Ring)
      → IsApart a b
      → add_node hasher a (add_node hasher b ring) ≡ add_node hasher b (add_node hasher a ring)
  unfolding add_node
  add_node_comm a b ring d =
      add_from_comm replicas 0 replicas a b ring (λ k j p q r. d k j (omega arith) r)
