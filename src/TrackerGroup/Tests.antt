-- ===== src/TrackerGroup/Tests.antt =====
-- The only storage node of group g1 joins and leaves.
use dfs_system.Base.{ℕ, ◌≡◌, refl, List, [], codes, none, some, false, length, str_eq}
use dfs_system.Wire.{read_word}
use dfs_system.ConsistentHash.{get_group}
use dfs_system.TrackerGroup.{Node, Tracker, read_new, deal_new, leave}
use dfs_system.TrackerGroup.Joining.{left_group-chosen}

abbrev unknown : Node
unknown = record {
  ip = 1;
  status = 0;
  group_name = [];
  task_port = 0;
  http_port = 0;
  total_size = 0;
  used_size = 0;
}

abbrev tracker : Tracker
tracker = record {
  group = λ g. [];
  nodes = λ fd. none;
  ring = [];
  user_server = λ u. none;
  online = λ u. false;
  time_until = 0;
  flag = false;
}

abbrev text : List ℕ
text = codes "g1 9000 80 500 0"

other : str_eq (read_new text unknown).group_name (codes "public") ≡ false
unfolding read_new str_eq read_word
other = refl

left_group-chosen_example :
    (answer : List ℕ) × (t' : Tracker) × (deal_new length 5 text unknown tracker
      ≡ some (answer, t'))
    × ((leave 5 (read_new text unknown) t').group (read_new text unknown).group_name ≡ [])
    × (get_group length (codes "ann") (leave 5 (read_new text unknown) t').ring
        ≡ (read_new text unknown).group_name)
left_group-chosen_example =
    left_group-chosen length 5 text unknown tracker (codes "ann") refl refl other
