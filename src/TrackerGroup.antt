-- ===== src/TrackerGroup.antt =====
-- tracker/src/message/node/storagenode.cpp, with the maps of storagemess.h: how storage nodes join
-- and leave their groups, and what they report.
pub mod Joining
pub mod Reading
pub mod Greeting
pub mod Healthy
pub mod Flag
mod Tests
use Prim.Native.Nat.{min}
use dfs_system.Base.{
  ℕ, zero, suc, ◌+◌, ◌-◌, Bool, true, false, not, ◌&&◌, ◌||◌, List, [], ◌∷◌, ◌++◌, Option, none,
  some, if◌then◌else◌, ltb, leb, ◌==◌, length, take, drop, codes, str_eq,
}
use dfs_system.Wire.{read_word, read_number, decimal, is_digit, take_digits, skip_spaces}
use dfs_system.ConsistentHash.{Ring, add_node}

pub record Node : Type 0 where
  pub ip : ℕ
  pub status : ℕ
  pub group_name : List ℕ
  pub task_port : ℕ
  pub http_port : ℕ
  pub total_size : ℕ
  pub used_size : ℕ

-- Message::group and Message::storageNode by name and descriptor; HttpMessage::userServer as the
-- reports of a user, HttpMessage::onlieUser as a test; timeUnitl and flag.
pub record Tracker : Type 0 where
  pub group : List ℕ → List ℕ
  pub nodes : ℕ → Option Node
  pub ring : Ring
  pub user_server : List ℕ → Option (List (ℕ × ℕ))
  pub online : List ℕ → Bool
  pub time_until : ℕ
  pub flag : Bool

-- STORAGE_STATUS_WAIT_SYNC and STORAGE_STATUS_ACTIVE.
abbrev pub wait_sync : ℕ
wait_sync = 1

abbrev pub active : ℕ
active = 4

abbrev pub set_group : List ℕ → List ℕ → Tracker → Tracker
set_group name fds t = record t { group = λ g. if str_eq g name then fds else t.group g }

abbrev pub set_node : ℕ → Option Node → Tracker → Tracker
set_node fd node t = record t { nodes = λ f. if f == fd then node else t.nodes f }

-- The first place of the descriptor in its group's list.
unfoldable pub erase_fd : ℕ → List ℕ → List ℕ
erase_fd fd [] = []
erase_fd fd (f ∷ fds) = let rest = erase_fd fd fds in if f == fd then fds else f ∷ rest

-- ~StorageNode().
unfoldable pub leave : ℕ → Node → Tracker → Tracker
unfolding erase_fd
leave fd node t =
    set_node fd none (set_group node.group_name (erase_fd fd (t.group node.group_name)) t)

-- "<ip> <port> " of a member; a descriptor without a node is a null pointer.
unfoldable pub member_text : Option Node → Option (List ℕ)
unfolding decimal
member_text none = none
member_text (some m) = some (decimal m.ip ++ codes " " ++ decimal m.task_port ++ codes " ")

abbrev pub both : Option (List ℕ) → Option (List ℕ) → Option (List ℕ)
both none rest = none
both (some s) none = none
both (some s) (some rest) = some (s ++ rest)

unfoldable pub members_text : (ℕ → Option Node) → List ℕ → Option (List ℕ)
unfolding member_text
members_text nodes [] = some []
members_text nodes (fd ∷ fds) = both (member_text (nodes fd)) (members_text nodes fds)

-- `stream >> word`, where `none` is a stream that has failed: the word, or what was there.
unfoldable pub extract_word : List ℕ → Option (List ℕ) → List ℕ × Option (List ℕ)
unfolding read_word
extract_word old none = (old, none)
extract_word old (some s) =
    let (word, rest) = read_word s in if length word == 0 then (old, none) else (word, some rest)

abbrev pub fitted : ℕ → ℕ × List ℕ → ℕ × Option (List ℕ)
fitted most (n, rest) = if leb n most then (n, some rest) else (most, none)

abbrev pub extracted : ℕ → ℕ → List ℕ → ℕ × Option (List ℕ)
extracted most old [] = (old, none)
extracted most old (c ∷ s) = if is_digit c then fitted most (take_digits 0 (c ∷ s)) else (0, none)

-- `stream >> number` into an unsigned type with its greatest number: too great a number fails with
-- that one, another text with 0.
unfoldable pub extract_number : ℕ → ℕ → Option (List ℕ) → ℕ × Option (List ℕ)
unfolding skip_spaces take_digits
extract_number most old none = (old, none)
extract_number most old (some s) = extracted most old (skip_spaces s)

-- `stream >> groupName >> TaskPort >> HttpPort >> TotalSize >> UsedSize`
unfoldable pub read_new : List ℕ → Node → Node
unfolding extract_word extract_number
read_new line node =
    let (group_name, s1) = extract_word node.group_name (some line) in
    let (task_port, s2) = extract_number 65_535 node.task_port s1 in
    let (http_port, s3) = extract_number 65_535 node.http_port s2 in
    let (total_size, s4) = extract_number 4_294_967_295 node.total_size s3 in
    let (used_size, s5) = extract_number 4_294_967_295 node.used_size s4 in
    record node {
      status = wait_sync;
      group_name = group_name;
      task_port = task_port;
      http_port = http_port;
      total_size = total_size;
      used_size = used_size;
    }

module _ (hasher : List ℕ → ℕ) where
  -- AddNode, for the first member of a group other than "public".
  unfoldable pub join_ring : List ℕ → Tracker → Ring
  unfolding add_node
  join_ring name t =
      if length (t.group name) == 0 && not (str_eq name (codes "public"))
      then add_node hasher name t.ring
      else t.ring

  -- The answer, with the members before the node, and the new state.
  unfoldable pub answer_new :
      ℕ → Node → Tracker → List ℕ → Option (List ℕ) → Option (List ℕ × Tracker)
  unfolding join_ring
  answer_new fd node t members none = none
  answer_new fd node t members (some text) = some (
    codes "new " ++ decimal (length members) ++ codes " " ++ text ++ codes "\r\n",
    record (set_node fd (some node) (set_group node.group_name (members ++ fd ∷ []) t)) {
      ring = join_ring node.group_name t;
    },
  )

  unfoldable pub join_group : ℕ → Node → Tracker → Option (List ℕ × Tracker)
  unfolding answer_new members_text
  join_group fd node t =
      let members = t.group node.group_name in
      answer_new fd node t members (members_text t.nodes members)

  -- DealNEW_.
  unfoldable pub deal_new : ℕ → List ℕ → Node → Tracker → Option (List ℕ × Tracker)
  unfolding read_new join_group
  deal_new fd line node t = join_group fd (read_new line node) t

-- DealKEP_.
abbrev pub deal_kep : List ℕ
deal_kep = codes "kep\r\n"

abbrev pub set_report : ℕ → ℕ → List (ℕ × ℕ) → List (ℕ × ℕ)
set_report fd status [] = (fd, status) ∷ []
set_report fd status ((f, s) ∷ reports) =
    let rest = set_report fd status reports in
    if f == fd then (fd, status) ∷ reports else (f, s) ∷ rest

-- All reports are STORAGE_STATUS_ACTIVE.
abbrev pub all_active : List (ℕ × ℕ) → Bool
all_active [] = true
all_active ((f, s) ∷ reports) = (s == active) && all_active reports

-- `userServer[user]`: a missing entry is an empty one.
abbrev pub reports_of : Option (List (ℕ × ℕ)) → List (ℕ × ℕ)
reports_of none = []
reports_of (some reports) = reports

abbrev pub set_reports : List ℕ → Option (List (ℕ × ℕ)) → Tracker → Tracker
set_reports user reports t = record t {
  user_server = λ u. if str_eq u user then reports else t.user_server u;
}

-- DealCHG_ of a user: a user who is not online and whose reports are all active is forgotten.
unfoldable pub user_changed : ℕ → List ℕ → ℕ → Tracker → Tracker
user_changed fd user status t =
    let reports = set_report fd status (reports_of (t.user_server user)) in
    if not (t.online user) && all_active reports
    then set_reports user none t
    else set_reports user (some reports) t

-- Message::changeFLAG at the second `now`, with Conf::timeOut.
unfoldable pub change_flag : ℕ → ℕ → Tracker → Tracker
change_flag now time_out t = record t { time_until = now + time_out + 5; flag = true }

abbrev pub with_status : ℕ → Option Node → Option Node
with_status status none = none
with_status status (some node) = some (record node { status = status })

unfoldable pub self_changed : ℕ → ℕ → ℕ → ℕ → Tracker → Tracker
unfolding change_flag
self_changed now time_out fd status t =
    change_flag now time_out (set_node fd (with_status status (t.nodes fd)) t)

unfoldable pub deal_chg : ℕ → ℕ → ℕ → List ℕ → Tracker → Tracker
unfolding user_changed self_changed
deal_chg now time_out fd line t =
    let (method, s1) = read_word line in
    let (username, s2) = read_word s1 in
    if str_eq method (codes "user")
    then user_changed fd username (read_number s2).0 t
    else if str_eq method (codes "self")
    then self_changed now time_out fd (read_number s1).0 t
    else t
