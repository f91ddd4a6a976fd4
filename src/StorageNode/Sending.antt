-- ===== src/StorageNode/Sending.antt =====
-- storagenode.cpp: WriteProcess.
use Prim.Native.Nat.{min}
use mathlib.Core.Option
use dfs_system.Base.{
  ℕ, ◌+◌, Bool, true, false, ◌&&◌, List, [], ◌∷◌, ◌++◌, Option, none, some, if◌then◌else◌, leb,
  ◌==◌, length, take, drop,
}
use dfs_system.FileBody.{task_mark}
use dfs_system.Status.{
  Status, handle_init, handle_head, handle_body, handle_complete, FileStatus, file_head,
  file_content, file_complete,
}
use dfs_system.StorageNode.{StorageNode, Surroundings, ready, init, close}

-- An answer of write or sendfile: it takes up to so many of the bytes, it would block, it fails.
pub data Answer : Type 0 where
  took : ℕ → Answer
  again : Answer
  failed : Answer

-- How far a part of WriteProcess has come: the value it returns, if it does, the bytes that went
-- out, and the answers that are left.
pub record Run : Type 0 where
  pub returned : Option ℕ
  pub wire : List ℕ
  pub node : StorageNode
  pub answers : List Answer

abbrev pub returns : ℕ → StorageNode → List Answer → Run
returns value n answers = record { returned = some value; wire = []; node = n; answers = answers }

abbrev pub next_part : (List Answer → StorageNode → Run) → Run → Run
next_part part r = elim r.returned [
  | some value ↦ r
  | none ↦
      let r' = part r.answers r.node in
      record {
        returned = r'.returned;
        wire = r.wire ++ r'.wire;
        node = r'.node;
        answers = r'.answers;
      }
]

-- sendBuff.WriteFd and the tests that follow it; `done` is the state once all is sent. Where the
-- answers end the socket would block.
unfoldable pub flush : (StorageNode → StorageNode) → List Answer → StorageNode → Run
flush done [] n = returns 1 n []
flush done (again ∷ answers) n = returns 1 n answers
flush done (failed ∷ answers) n = returns 2 n answers
flush done (took m ∷ answers) n =
    let left = record n { send = drop m n.send } in
    if min m (length n.send) == 0
    then returns 2 n answers
    else if length left.send == 0
    then record { returned = none; wire = take m n.send; node = done left; answers = answers }
    else record { returned = some 1; wire = take m n.send; node = left; answers = answers }

unfoldable pub after_head : StorageNode → StorageNode
after_head n = elim n.file [
  | none ↦ record n { status = handle_complete }
  | some content ↦ record n { status = handle_body }
]

abbrev pub content_of : Option (List ℕ) → List ℕ
content_of none = []
content_of (some content) = content

-- The loop of sendfile. It ends without a result only where the answers do.
unfoldable pub send_file : List Answer → StorageNode → Run
send_file [] n = returns 1 n []
send_file (again ∷ answers) n = returns 1 n answers
send_file (failed ∷ answers) n = returns 2 n answers
send_file (took m ∷ answers) n =
    let rest = drop n.has_sent (content_of n.file) in
    let sent = record n { has_sent = n.has_sent + min m (length rest) } in
    let more = send_file answers sent in
    if leb n.body_len sent.has_sent
    then record {
      returned = none;
      wire = take m rest;
      node = record sent { send = n.send ++ task_mark n.boundary; file_status = file_content };
      answers = answers;
    }
    else record {
      returned = more.returned;
      wire = take m rest ++ more.wire;
      node = more.node;
      answers = more.answers;
    }

unfoldable pub after_content : StorageNode → StorageNode
after_content n = record n { file_status = file_complete; status = handle_complete }

-- finshTask(): FinshSyn_ frees the two logs.
abbrev pub finish_task : StorageNode → StorageNode
finish_task n = elim n.finish [
  | none ↦ n
  | some pack ↦ record n { finished = n.finished ++ pack ∷ [] }
]

abbrev pub at_head : Status → Bool
at_head handle_head = true
at_head _ = false

abbrev pub at_body : Status → Bool
at_body handle_body = true
at_body _ = false

abbrev pub at_complete : Status → Bool
at_complete handle_complete = true
at_complete _ = false

abbrev pub at_file_head : FileStatus → Bool
at_file_head file_head = true
at_file_head _ = false

abbrev pub at_file_content : FileStatus → Bool
at_file_content file_content = true
at_file_content _ = false

-- A part that is passed over.
abbrev pub passed : List Answer → StorageNode → Run
passed answers n = record { returned = none; wire = []; node = n; answers = answers }

unfoldable pub head_part : List Answer → StorageNode → Run
unfolding flush after_head
head_part answers n = if at_head n.status then flush after_head answers n else passed answers n

unfoldable pub file_part : List Answer → StorageNode → Run
unfolding send_file
file_part answers n =
    if at_body n.status && at_file_head n.file_status then send_file answers n else passed answers n

unfoldable pub content_part : List Answer → StorageNode → Run
unfolding flush after_content
content_part answers n =
    if at_body n.status && at_file_content n.file_status
    then flush after_content answers n
    else passed answers n

unfoldable pub last_part : List Answer → StorageNode → Run
unfolding init close
last_part answers n =
    if at_complete n.status
    then returns 0 (init (close (finish_task n))) answers
    else returns 2 n answers

-- WriteProcess after a task is taken.
unfoldable pub write_on : List Answer → StorageNode → Run
unfolding head_part file_part content_part last_part
write_on answers n =
    next_part last_part (next_part content_part (next_part file_part (head_part answers n)))

-- taskQue_.front() and pop(); `none` where the queue is empty.
unfoldable pub take_task : Surroundings → StorageNode → Option StorageNode
unfolding ready
take_task env n = elim n.tasks [
  | [] ↦ none
  | task ∷ tasks ↦ some (ready env task (record n { tasks = tasks }))
]

unfoldable pub write_process : Surroundings → List Answer → StorageNode → Option Run
unfolding take_task write_on
write_process env answers n = elim n.status [
  | handle_init ↦ Option.map (write_on answers) (take_task env n)
  | _ ↦ some (write_on answers n)
]
