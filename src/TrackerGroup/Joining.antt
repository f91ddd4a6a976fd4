-- ===== src/TrackerGroup/Joining.antt =====
-- The tracker's storagenode.cpp: a group and the ring of groups.
use dfs_system.Base.{
  ℕ, ◌≡◌, refl, ap, ◌∙◌, true, false, List, [], ◌∷◌, some, codes, str_eq, str_eq_refl, ◌==◌, arith,
  inl, inr,
}
use dfs_system.Wire.{decimal}
use dfs_system.ConsistentHash.{add_node, get_group}
use dfs_system.ConsistentHash.Joined.{join, get_group-Among}
use dfs_system.TrackerGroup.{
  Node, Tracker, join_ring, deal_new, join_group, answer_new, members_text, leave, set_group,
  set_node, read_new,
}

only_one :
    (hasher : List ℕ → ℕ) (user name : List ℕ)
    → get_group hasher user (add_node hasher name []) ≡ name
unfolding join
only_one hasher user name = elim (get_group-Among hasher user name []) [
  | inl e ↦ e
  | inr b ↦ absurd b
]

module _ (hasher : List ℕ → ℕ) (fd : ℕ) (node : Node) (t : Tracker) where
  abbrev alone : Tracker
  alone = record (set_node fd (some node) (set_group node.group_name (fd ∷ []) t)) {
    ring = add_node hasher node.group_name [];
  }

  first_member :
      t.ring ≡ []
      → t.group node.group_name ≡ []
      → str_eq node.group_name (codes "public") ≡ false
      → join_group hasher fd node t ≡ some (codes "new 0 \r\n", alone)
  unfolding join_group decimal
  first_member bare empty other =
      let ring : join_ring hasher node.group_name t ≡ add_node hasher node.group_name [] =
        rw (empty, other, bare) refl in
      ap (λ members. answer_new hasher fd node t members (members_text t.nodes members)) empty
      ∙ ap (λ r. some (codes "new 0 \r\n", record alone { ring = r })) ring

  gone : (leave fd node alone).group node.group_name ≡ []
  unfolding leave
  gone =
      let same : str_eq node.group_name node.group_name ≡ true = str_eq_refl node.group_name in
      let here : (fd == fd) ≡ true = ground arith in rw (same, here) refl

-- If the first group that joins the tracker, not the one named public, loses its only storage
-- node, it has no member and is still in the ring: every user goes on being sent to it.
pub left_group-chosen :
    (hasher : List ℕ → ℕ) (fd : ℕ) (line : List ℕ) (node : Node) (t : Tracker) (user : List ℕ)
    → t.ring ≡ []
    → t.group (read_new line node).group_name ≡ []
    → str_eq (read_new line node).group_name (codes "public") ≡ false
    → (answer : List ℕ) × (t' : Tracker) × (deal_new hasher fd line node t ≡ some (answer, t'))
      × ((leave fd (read_new line node) t').group (read_new line node).group_name ≡ [])
      × (get_group hasher user (leave fd (read_new line node) t').ring
          ≡ (read_new line node).group_name)
unfolding deal_new leave
left_group-chosen hasher fd line node t user bare empty other =
    let node' = read_new line node in
    (
      codes "new 0 \r\n",
      alone hasher fd node' t,
      first_member hasher fd node' t bare empty other,
      gone hasher fd node' t,
      only_one hasher user node'.group_name,
    )
