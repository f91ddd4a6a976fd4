-- ===== src/StorageNode.antt =====
-- storage/src/message/node/storagenode.cpp: the tasks for another node of the group, and the
-- sending of one task over a socket that takes part of the bytes at a time.
pub mod Sending
pub mod Tasks
pub mod Parts
pub mod Steps
pub mod Calls
pub mod Synchronise
pub mod AtOnce
mod Tests
use Prim.Native.Nat.{min}
use dfs_system.Base.{
  ℕ, zero, suc, ◌+◌, ◌-◌, ◌%◌, ◌^◌, Bool, true, false, not, List, [], ◌∷◌, ◌++◌, Option, none, some,
  if◌then◌else◌, leb, ltb, ◌==◌, length, take, drop, codes, str_eq,
}
use dfs_system.Wire.{decimal}
use dfs_system.FileBody.{task_mark}
use dfs_system.Status.{
  Status, handle_init, handle_head, handle_body, handle_complete, handle_error, FileStatus,
  file_begin, file_head, file_content, file_complete,
}

pub record SynPack : Type 0 where
  pub ring_log_id : ℕ
  pub syn_log_id : ℕ
  pub username : List ℕ
  pub filename : List ℕ
  pub is_upload : Bool

-- storTaskPack: the type is the tag of its union.
pub data StorTask : Type 0 where
  new_task : ℕ → StorTask
  syn_task : SynPack → StorTask

-- What the node uses of its surroundings: the configuration, the files by path with their contents,
-- the boundary that getMD5 gives for the next upload, and what `fstat` leaves for a file that did
-- not open.
pub record Surroundings : Type 0 where
  pub task_port : ℕ
  pub data_path : List ℕ
  pub files : List ℕ → Option (List ℕ)
  pub boundary : List ℕ
  pub no_stat : ℕ

-- `send` is what sendBuff has not yet sent, `file` the content of the file that fileMsgfd_ stands
-- for, `finish` the logs that finshTask frees; `finished` collects the logs freed.
pub record StorageNode : Type 0 where
  pub status : Status
  pub file_status : FileStatus
  pub send : List ℕ
  pub tasks : List StorTask
  pub file : Option (List ℕ)
  pub body_len : ℕ
  pub has_sent : ℕ
  pub boundary : List ℕ
  pub finish : Option SynPack
  pub finished : List SynPack

unfoldable pub init : StorageNode → StorageNode
init n = record n {
  status = handle_init;
  file_status = file_begin;
  has_sent = 0;
  body_len = 0;
  file = none;
  boundary = [];
}

unfoldable pub close : StorageNode → StorageNode
close n = record n { file = none }

-- AddTask(const storTaskPack &).
unfoldable pub add_task : StorTask → StorageNode → StorageNode
add_task task n = record n { tasks = n.tasks ++ task ∷ [] }

unfoldable pub add_new_task : ℕ → StorageNode → StorageNode
unfolding add_task
add_new_task port n = add_task (new_task port) n

-- AddTask(const synPack &): the type is NEW, so the copy takes the port from the union, which holds
-- the pack's first field.
unfoldable pub add_syn_task : SynPack → StorageNode → StorageNode
unfolding add_task
add_syn_task pack n = add_task (new_task (pack.ring_log_id % 2 ^ 16)) n

-- "pub username " or "pri <user> ".
unfoldable pub owner : List ℕ → List ℕ
owner username =
    if str_eq username [] then codes "pub username " else codes "pri " ++ username ++ codes " "

unfoldable pub file_path : List ℕ → SynPack → List ℕ
file_path data_path pack =
    if str_eq pack.username []
    then data_path ++ codes "/public/" ++ pack.filename
    else data_path ++ codes "/private/" ++ pack.username ++ codes "/" ++ pack.filename

unfoldable pub new_head : ℕ → List ℕ
new_head port = codes "NEW " ++ decimal port ++ codes "\r\n"

unfoldable pub del_head : SynPack → List ℕ
unfolding owner
del_head pack = codes "DEL " ++ owner pack.username ++ pack.filename ++ codes "\r\n"

-- The line of an upload, and the line of its boundary.
unfoldable pub upl_line : SynPack → ℕ → List ℕ → List ℕ
unfolding owner
upl_line pack size boundary =
    codes "UPL "
    ++ owner pack.username
    ++ pack.filename
    ++ codes " "
    ++ decimal size
    ++ codes " "
    ++ boundary
    ++ codes "\r\n"

unfoldable pub upl_head : SynPack → ℕ → List ℕ → List ℕ
unfolding upl_line
upl_head pack size boundary = upl_line pack size boundary ++ boundary ++ codes "--\r\n"

abbrev pub size_of : ℕ → Option (List ℕ) → ℕ
size_of no_stat none = no_stat
size_of no_stat (some content) = length content

unfoldable pub ready_new : Surroundings → StorageNode → StorageNode
unfolding new_head
ready_new env n = record n {
  send = n.send ++ new_head env.task_port;
  status = handle_head;
  finish = none;
}

unfoldable pub ready_upload : Surroundings → SynPack → StorageNode → StorageNode
unfolding upl_head file_path
ready_upload env pack n =
    let file = env.files (file_path env.data_path pack) in
    record n {
      send = n.send ++ upl_head pack (size_of env.no_stat file) env.boundary;
      file = file;
      boundary = env.boundary;
      body_len = size_of env.no_stat file;
      status = handle_head;
      file_status = file_head;
      finish = some pack;
    }

unfoldable pub ready_delete : SynPack → StorageNode → StorageNode
unfolding del_head
ready_delete pack n = record n {
  send = n.send ++ del_head pack;
  status = handle_head;
  file_status = file_head;
  finish = some pack;
}

unfoldable pub ready_syn : Surroundings → SynPack → StorageNode → StorageNode
unfolding ready_upload ready_delete
ready_syn env pack n = if pack.is_upload then ready_upload env pack n else ready_delete pack n

unfoldable pub ready : Surroundings → StorTask → StorageNode → StorageNode
unfolding ready_new ready_syn
ready env (new_task port) n = ready_new env n
ready env (syn_task pack) n = ready_syn env pack n
