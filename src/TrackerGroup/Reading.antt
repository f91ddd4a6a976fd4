-- ===== src/TrackerGroup/Reading.antt =====
-- tracker/src/message/node/storagenode.cpp (ParseHead_) and basenode.cpp: how the tracker reads from
-- a storage node and writes to it.
use dfs_system.Base.{
  ℕ, ◌+◌, ◌-◌, Bool, true, false, List, [], ◌∷◌, ◌++◌, Option, none, some, if◌then◌else◌, ◌||◌,
  ◌&&◌, ltb, ◌==◌, length, take, drop, codes, str_eq,
}
use dfs_system.Status.{Status, handle_init, handle_complete, handle_error}
use dfs_system.FileBody.{find, crlf}
use dfs_system.StorageNode.Sending.{Answer, took, again, failed}
use dfs_system.TaskNode.Reading.{Receipt, received, ended, again, broken, at_init}
use dfs_system.TrackerGroup.{Node, Tracker, deal_new, deal_kep, deal_chg}

-- The members of BaseNode; the storage node itself is in the maps of the tracker.
pub record Conn : Type 0 where
  pub status : Status
  pub is_out : Bool
  pub recv : List ℕ
  pub send : List ℕ

-- BaseNode::Init.
unfoldable pub init : Conn → Conn
init c = record c { is_out = false; status = handle_init }

-- What a storage node's commands need: std::hash, the time and Conf::timeOut.
pub record Surroundings : Type 0 where
  pub hasher : List ℕ → ℕ
  pub now : ℕ
  pub time_out : ℕ

-- A connection and the maps.
abbrev pub State : Type 0
State = Conn × Tracker

abbrev pub answered : Conn → Option (List ℕ × Tracker) → Option State
answered c none = none
answered c (some (text, t)) =
    some (record c { send = c.send ++ text; is_out = true; status = handle_complete }, t)

-- DealNEW_ of the node at `fd`.
unfoldable pub new_from : Surroundings → ℕ → List ℕ → Option Node → Conn → Tracker → Option State
unfolding deal_new
new_from env fd line none c t = none
new_from env fd line (some node) c t = answered c (deal_new env.hasher fd line node t)

-- A command with its line; behind an unknown one the line stays in the buffer.
unfoldable pub command : Surroundings → ℕ → List ℕ → List ℕ → List ℕ → Conn → Tracker → Option State
unfolding new_from deal_chg
command env fd name line rest c t =
    if str_eq name (codes "NEW")
    then new_from env fd line (t.nodes fd) (record c { recv = rest }) t
    else if str_eq name (codes "KEP")
    then answered (record c { recv = rest }) (some (deal_kep, t))
    else if str_eq name (codes "CHG")
    then some (
      record c { recv = rest; status = handle_complete },
      deal_chg env.now env.time_out fd line t,
    )
    else some (record c { recv = drop 4 c.recv }, t)

abbrev pub is_known : List ℕ → Bool
is_known name = str_eq name (codes "NEW") || str_eq name (codes "KEP") || str_eq name (codes "CHG")

-- ParseHead_ with the place of CRLF: a buffer of fewer than four bytes, or a known command with its
-- line's end among them, ends the program.
unfoldable pub head_at : Surroundings → ℕ → ℕ → Conn → Tracker → Option State
unfolding command
head_at env fd e c t =
    if e == length c.recv
    then some (c, t)
    else if ltb (length c.recv) 4 || (ltb e 4 && is_known (take 3 c.recv))
    then none
    else command env fd (take 3 c.recv) (take (e - 4) (drop 4 c.recv)) (drop (e + 2) c.recv) c t

unfoldable pub parse_head : Surroundings → ℕ → Conn → Tracker → Option State
unfolding find head_at
parse_head env fd c t = head_at env fd (find crlf c.recv) c t

unfoldable pub go_on :
    (Conn → Tracker → Option (ℕ × State)) → Status → Conn → Tracker → Option (ℕ × State)
unfolding init
go_on next handle_complete c t = some (if c.is_out then 0 else 1, (init c, t))
go_on next handle_error c t = some (2, (c, t))
go_on next _ c t = next c t

abbrev pub and_go_on : (Conn → Tracker → Option (ℕ × State)) → Option State → Option (ℕ × State)
and_go_on next none = none
and_go_on next (some (c, t)) = go_on next c.status c t

abbrev pub parse_if : Surroundings → ℕ → Conn → Tracker → Option State
parse_if env fd c t = if at_init c.status then parse_head env fd c t else some (c, t)

-- ReadProcess: 0 to write, 1 to wait, 2 to close.
unfoldable pub read_process : Surroundings → ℕ → List Receipt → Conn → Tracker → Option (ℕ × State)
unfolding parse_head go_on
read_process env fd [] c t = some (1, (c, t))
read_process env fd (ended ∷ receipts) c t = some (2, (c, t))
read_process env fd (again ∷ receipts) c t = some (1, (c, t))
read_process env fd (broken ∷ receipts) c t = some (2, (c, t))
read_process env fd (received s ∷ receipts) c t =
    and_go_on (read_process env fd receipts) (parse_if env fd (record c { recv = c.recv ++ s }) t)

-- WriteProcess, with the answer of the kernel to its one write.
unfoldable pub write_process : Answer → Conn → ℕ × Conn
write_process again c = (1, c)
write_process failed c = (2, c)
write_process (took n) c =
    let left = record c { send = drop n c.send } in
    if n == 0 then (2, c) else if length left.send == 0 then (0, left) else (1, left)
