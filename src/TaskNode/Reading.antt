-- ===== src/TaskNode/Reading.antt =====
-- storage/src/message/node/basenode.cpp: ReadProcess, for a TaskNode.
use dfs_system.Base.{ℕ, Bool, true, false, List, [], ◌∷◌, ◌++◌, Option, none, some, if◌then◌else◌}
use dfs_system.Status.{Status, handle_init, handle_body, handle_complete, handle_error}
use dfs_system.TaskNode.{TaskNode, Surroundings, init, parse_head, parse_body}

-- What ReadFd gives: bytes, the end of the connection, EAGAIN, or another error.
pub data Receipt : Type 0 where
  received : List ℕ → Receipt
  ended : Receipt
  again : Receipt
  broken : Receipt

abbrev pub at_init : Status → Bool
at_init handle_init = true
at_init _ = false

abbrev pub at_body : Status → Bool
at_body handle_body = true
at_body _ = false

abbrev pub head_if : Surroundings → TaskNode → Option TaskNode
head_if env n = if at_init n.status then parse_head env n else some n

abbrev pub body_if : TaskNode → Option TaskNode
body_if n = if at_body n.status then parse_body n else some n

abbrev pub and_then : Option TaskNode → (TaskNode → Option TaskNode) → Option TaskNode
and_then none f = none
and_then (some n) f = f n

-- One round of the loop after a receipt, up to the tests of the state.
unfoldable pub parse : Surroundings → List ℕ → TaskNode → Option TaskNode
unfolding parse_head parse_body
parse env s n = and_then (head_if env (record n { recv = n.recv ++ s })) body_if

-- The value that ReadProcess returns (0: write, 1: wait, 2: close) and the node.
unfoldable pub go_on :
    (TaskNode → Option (ℕ × TaskNode)) → Status → TaskNode → Option (ℕ × TaskNode)
unfolding init
go_on next handle_complete n = some (if n.is_out then 0 else 1, init n)
go_on next handle_error n = some (2, n)
go_on next _ n = next n

unfoldable pub read_process : Surroundings → List Receipt → TaskNode → Option (ℕ × TaskNode)
unfolding parse go_on
read_process env [] n = some (1, n)
read_process env (ended ∷ receipts) n = some (2, n)
read_process env (again ∷ receipts) n = some (1, n)
read_process env (broken ∷ receipts) n = some (2, n)
read_process env (received s ∷ receipts) n = elim (parse env s n) [
  | none ↦ none
  | some n' ↦ go_on (read_process env receipts) n'.status n'
]
