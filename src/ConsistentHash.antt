-- ===== src/ConsistentHash.antt =====
-- tracker/src/message/consistenthash.h: the ring that assigns each user to a storage group.
-- std::hash<std::string> is the section's parameter; the std::map is a list sorted by its keys.
pub mod Ring
pub mod Stability
pub mod Order
pub mod Joined
mod Tests
use dfs_system.Base.{
  ℕ, zero, suc, ◌+◌, ◌%◌, ◌^◌, List, [], ◌∷◌, ◌++◌, Option, none, some, if◌then◌else◌, ltb, leb,
  ◌==◌, codes,
}

abbrev pub Group : Type 0
Group = List ℕ

abbrev pub Ring : Type 0
Ring = List (ℕ × Group)

-- ring_[hash] = node
unfoldable pub insert : ℕ → Group → Ring → Ring
insert h node [] = (h, node) ∷ []
insert h node ((k, v) ∷ ring) =
    if ltb h k
    then (h, node) ∷ (k, v) ∷ ring
    else if h == k
    then (h, node) ∷ ring
    else (k, v) ∷ insert h node ring

-- ring_.lower_bound(hash): the first entry whose key is not below.
unfoldable pub lower_bound : ℕ → Ring → Option Group
lower_bound h [] = none
lower_bound h ((k, v) ∷ ring) = if leb h k then some v else lower_bound h ring

-- ring_.begin()->second, and "" for the empty ring.
unfoldable pub begin : Ring → Group
begin [] = []
begin ((k, v) ∷ ring) = v

abbrev pub or_begin : Ring → Option Group → Group
or_begin ring none = begin ring
or_begin ring (some v) = v

-- replices_
abbrev pub replicas : ℕ
replicas = 5

-- node + "---" + std::to_string(i); i is a single digit.
unfoldable pub virtual_node : Group → ℕ → List ℕ
virtual_node node i = node ++ codes "---" ++ (b'0' + i) ∷ []

module _ (hasher : List ℕ → ℕ) where
  -- Hash_: size_t to uint32_t.
  unfoldable pub hash : List ℕ → ℕ
  hash key = hasher key % 2 ^ 32

  -- The loop of AddNode with `n` rounds left.
  unfoldable pub add_from : ℕ → ℕ → Group → Ring → Ring
  unfolding insert
  add_from zero i node ring = ring
  add_from (suc n) i node ring =
      add_from n (i + 1) node (insert (hash (virtual_node node i)) node ring)

  unfoldable pub add_node : Group → Ring → Ring
  unfolding add_from
  add_node node ring = add_from replicas 0 node ring

  unfoldable pub get_group : List ℕ → Ring → Group
  unfolding lower_bound begin
  get_group key ring = or_begin ring (lower_bound (hash key) ring)
