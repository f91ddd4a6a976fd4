-- ===== src/ConsistentHash/Tests.antt =====
-- A ring under a toy hash (the sum of the bytes), and the witnesses of the theorems.
use dfs_system.Base.{ℕ, ◌+◌, ◌≤◌, ◌≡◌, refl, List, [], ◌∷◌, ◌⊎◌, inl, inr, arith, codes}
use dfs_system.ConsistentHash.{Group, Ring, virtual_node, hash, add_node, get_group}
use dfs_system.ConsistentHash.Ring.{Has, Owns, get_group-Owns}
use dfs_system.ConsistentHash.Stability.{add_node_moves}
use dfs_system.ConsistentHash.Order.{IsApart}

abbrev byte_sum : List ℕ → ℕ
byte_sum [] = 0
byte_sum (x ∷ xs) = x + byte_sum xs

abbrev first : Group
first = codes "a"

abbrev second : Group
second = codes "k"

abbrev two_entries : Ring
two_entries = (100, first) ∷ (200, second) ∷ []

-- 97 + 3 * 45 + 48 and the four points after it.
ring_of_first :
    add_node byte_sum first []
    ≡ (280, first) ∷ (281, first) ∷ (282, first) ∷ (283, first) ∷ (284, first) ∷ []
unfolding add_node hash virtual_node
ring_of_first = refl

apart : IsApart byte_sum first second
unfolding hash virtual_node
apart i j p q = omega arith

-- "z" hashes to 122.
z_owned : Owns (hash byte_sum (codes "z")) 200 second two_entries
unfolding hash
z_owned = (inr (inl (refl, refl)), inl (omega arith, nearest))
  where
    nearest : (j : ℕ) (w : Group) → Has j w two_entries → 122 ≤ j → 200 ≤ j
    nearest j w (inl e) h = absurd (omega (arith, e.0))
    nearest j w (inr (inl e)) h = omega (arith, e.0)
    nearest j w (inr (inr e)) h = absurd e

get_group-Owns_example : get_group byte_sum (codes "z") two_entries ≡ second
get_group-Owns_example =
    get_group-Owns byte_sum (codes "z") 200 second two_entries (omega arith) z_owned

add_node_moves_example :
    (get_group byte_sum (codes "z") (add_node byte_sum first two_entries) ≡ first)
    ⊎ (get_group byte_sum (codes "z") (add_node byte_sum first two_entries)
        ≡ get_group byte_sum (codes "z") two_entries)
add_node_moves_example = add_node_moves byte_sum first (codes "z") two_entries
