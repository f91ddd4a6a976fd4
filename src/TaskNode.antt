-- ===== src/TaskNode.antt =====
-- storage/src/message/node/tasknode.cpp: the tasks that come from other nodes of the group; and the
-- loop over receipts that it has from storage/src/message/node/basenode.cpp (ReadProcess).
pub mod Reading
pub mod Delete
pub mod Upload
pub mod Received
mod Tests
use Prim.Native.Nat.{min}
use dfs_system.Base.{
  ℕ, zero, suc, ◌+◌, ◌-◌, ◌%◌, ◌^◌, Bool, true, false, not, List, [], ◌∷◌, ◌++◌, Option, none, some,
  ◌||◌, if◌then◌else◌, leb, ltb, ◌==◌, length, take, drop, codes, str_eq,
}
use dfs_system.Wire.{read_word, read_number}
use dfs_system.FileBody.{find, crlf, task_mark, save_file}
use dfs_system.ConsistLog.RollbackLog.{RollbackLog, make_order, clear_order}
use dfs_system.ConsistLog.RingLog.{RingLog, write_rollback_log, free_log}
use dfs_system.Status.{
  Status, handle_init, handle_body, handle_complete, FileStatus, file_begin, file_head,
  file_complete,
}

-- What a task does outside the node.
pub data Effect : Type 0 where
  joins : ℕ → Effect
  removes : List ℕ → Effect
  saves : List ℕ → List ℕ → Effect
  syncs_user : List ℕ → Effect

-- `connects` says for which ports connect() succeeds, `past` what stands behind the end of a name.
pub record Surroundings : Type 0 where
  pub data_path : List ℕ
  pub connects : ℕ → Bool
  pub past : ℕ → ℕ

-- `path` and `saved` are the file that fp stands for.
pub record TaskNode : Type 0 where
  pub status : Status
  pub file_status : FileStatus
  pub is_out : Bool
  pub recv : List ℕ
  pub boundary : List ℕ
  pub username : List ℕ
  pub body_len : ℕ
  pub path : List ℕ
  pub saved : List ℕ
  pub order : RollbackLog
  pub log_addr : ℕ
  pub ring : RingLog
  pub effects : List Effect

unfoldable pub init : TaskNode → TaskNode
init n = record n {
  is_out = false;
  status = handle_init;
  file_status = file_begin;
  body_len = 0;
  username = [];
}

abbrev pub effect : Effect → TaskNode → TaskNode
effect e n = record n { effects = n.effects ++ e ∷ [] }

-- `stream >> _port`: a number that does not fit gives the largest.
unfoldable pub deal_new : Surroundings → List ℕ → TaskNode → TaskNode
deal_new env line n =
    let port = min (read_number line).0 65535 in
    if env.connects port then effect (joins port) (record n { status = handle_complete }) else n

-- `pub` or `pri`, and else no path.
unfoldable pub path_of : Surroundings → List ℕ → List ℕ → List ℕ → Option (List ℕ)
path_of env kind username filename =
    if str_eq kind (codes "pub")
    then some (env.data_path ++ codes "/public/" ++ filename)
    else if str_eq kind (codes "pri")
    then some (env.data_path ++ codes "/private/" ++ username ++ codes "/" ++ filename)
    else none

-- remove, where there is a path.
abbrev pub remove : Option (List ℕ) → TaskNode → TaskNode
remove none n = n
remove (some path) n = effect (removes path) n

unfoldable pub deal_del : Surroundings → List ℕ → TaskNode → TaskNode
unfolding path_of
deal_del env line n =
    let (kind, s1) = read_word line in
    let (username, s2) = read_word s1 in
    let (filename, s3) = read_word s2 in
    effect (syncs_user username)
      (record (remove (path_of env kind username filename) n) { status = handle_complete })

-- MakeOrder(true, ...): a public file's order has no user; another kind leaves the order alone.
unfoldable pub order_of : List ℕ → List ℕ → List ℕ → RollbackLog → RollbackLog
order_of kind username filename order =
    if str_eq kind (codes "pub")
    then make_order true [] filename
    else if str_eq kind (codes "pri")
    then make_order true username filename
    else order

abbrev pub path_or_empty : Option (List ℕ) → List ℕ
path_or_empty none = []
path_or_empty (some path) = path

-- After WriteRollbackLog; `none` where it leaves its arrays. fopen is taken to succeed.
unfoldable pub upl_logged : TaskNode → Option (ℕ × RingLog) → Option TaskNode
upl_logged n none = none
upl_logged n (some (addr, ring)) =
    some (record n { status = handle_body; saved = []; log_addr = addr; ring = ring })

unfoldable pub deal_upl : Surroundings → List ℕ → TaskNode → Option TaskNode
unfolding path_of order_of upl_logged
deal_upl env line n =
    let (kind, s1) = read_word line in
    let (username, s2) = read_word s1 in
    let (filename, s3) = read_word s2 in
    let (body_len, s4) = read_number s3 in
    let (boundary, s5) = read_word s4 in
    let order = order_of kind username filename n.order in
    upl_logged
      (record n {
        username = username;
        body_len = body_len;
        boundary = boundary;
        path = path_or_empty (path_of env kind username filename);
        order = order;
      })
      (write_rollback_log env.past order n.ring)

abbrev pub deal : Surroundings → List ℕ → List ℕ → TaskNode → Option TaskNode
deal env kind line n =
    if str_eq kind (codes "NEW")
    then some (deal_new env line n)
    else if str_eq kind (codes "DEL")
    then some (deal_del env line n)
    else if str_eq kind (codes "UPL")
    then deal_upl env line n
    else some n

-- The text between the four bytes of the command and `lineEnd`, at `e`. Fewer than four bytes are an
-- abort of AddHandled, a line of three a string of negative length.
unfoldable pub head_at : Surroundings → ℕ → TaskNode → Option TaskNode
unfolding deal_new deal_del deal_upl
head_at env e n =
    let kind = take 3 n.recv in
    if e == length n.recv
    then some n
    else if ltb (length n.recv) 4
    then none
    else if str_eq kind (codes "NEW") || str_eq kind (codes "DEL") || str_eq kind (codes "UPL")
    then if ltb e 4
      then none
      else deal env kind (take (e - 4) (drop 4 n.recv)) (record n { recv = drop (e + 2) n.recv })
    else some (record n { recv = drop 4 n.recv })

unfoldable pub parse_head : Surroundings → TaskNode → Option TaskNode
unfolding head_at find
parse_head env n = head_at env (find crlf n.recv) n

-- The line of the boundary; anything else ends the task.
unfoldable pub parse_begin : TaskNode → TaskNode
unfolding init find
parse_begin n =
    let e = find crlf n.recv in
    if e == length n.recv
    then n
    else if str_eq (take e n.recv) (n.boundary ++ codes "--")
    then record n { file_status = file_head; recv = drop (e + 2) n.recv }
    else record (init n) { recv = [] }

-- The end of the file.
unfoldable pub parse_end : TaskNode → TaskNode
parse_end n = record n {
  recv = drop (length (task_mark n.boundary)) n.recv;
  status = handle_complete;
  effects = n.effects ++ saves n.path n.saved ∷ syncs_user n.username ∷ [];
  ring = free_log n.log_addr n.ring;
  order = clear_order n.order;
}

-- After the loop.
unfoldable pub content_saved : TaskNode → Option (Bool × List ℕ × List ℕ) → Option TaskNode
unfolding parse_end
content_saved n none = none
content_saved n (some (done, recv, saved)) =
    let n' = record n { recv = recv; saved = saved } in
    some (if done then parse_end (record n' { file_status = file_complete }) else n')

unfoldable pub parse_content : TaskNode → Option TaskNode
unfolding save_file content_saved
parse_content n = content_saved n (save_file crlf (task_mark n.boundary) n.recv n.saved)

abbrev pub at_file_begin : FileStatus → Bool
at_file_begin file_begin = true
at_file_begin _ = false

abbrev pub at_file_head : FileStatus → Bool
at_file_head file_head = true
at_file_head _ = false

abbrev pub at_file_complete : FileStatus → Bool
at_file_complete file_complete = true
at_file_complete _ = false

-- The parts after the line of the boundary.
unfoldable pub body_on : TaskNode → Option TaskNode
unfolding parse_content parse_end
body_on n =
    if at_file_head n.file_status
    then parse_content n
    else if at_file_complete n.file_status
    then some (parse_end n)
    else some n

unfoldable pub parse_body : TaskNode → Option TaskNode
unfolding parse_begin body_on
parse_body n = body_on (if at_file_begin n.file_status then parse_begin n else n)
