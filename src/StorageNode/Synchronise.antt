-- ===== src/StorageNode/Synchronise.antt =====
-- storagenode.cpp: what becomes of a synchronisation that UpdateLog_ hands to AddTask.
use Prim.Native.Nat.{min}
use mathlib.Core.List.{append-nil}
use dfs_system.Base.{
  ℕ, ◌≤◌, ◌≡◌, refl, ap, ◌∙◌, true, false, List, [], ◌∷◌, ◌++◌, none, some, length, arith,
  take-eq_self, ◌==◌, ◌<◌,
}
use dfs_system.Status.{handle_head, handle_complete}
use dfs_system.StorageNode.{StorageNode, SynPack, Surroundings, add_syn_task, new_head, ready_new}
use dfs_system.StorageNode.Sending.{
  Answer, took, Run, next_part, head_part, file_part, content_part, last_part, write_on,
  write_process, flush, after_head, at_head,
}
use dfs_system.StorageNode.Calls.{IsIdle}
use dfs_system.StorageNode.Parts.{drop-all}

-- A socket that takes all that is in sendBuff.
pub flush-all :
    (done : StorageNode → StorageNode) (room : ℕ) (answers : List Answer) (n : StorageNode)
    → 0 < length n.send
    → length n.send ≤ room
    → flush done (took room ∷ answers) n ≡ record {
      returned = none;
      wire = n.send;
      node = done (record n { send = [] });
      answers = answers;
    }
unfolding flush
flush-all done room answers n p h =
    let some_bytes : (min room (length n.send) == 0) ≡ false = ground (arith, p, h) in
    rw (some_bytes, drop-all room n.send h, take-eq_self room n.send h) refl

module _ (room : ℕ) (n : StorageNode) (e : n.status ≡ handle_head) (f : n.file ≡ none)
    (g : n.finish ≡ none) (p : 0 < length n.send) (h : length n.send ≤ room) where
  abbrev head_sent : Run
  head_sent = record {
    returned = none;
    wire = n.send;
    node = record n { send = []; status = handle_complete };
    answers = [];
  }

  head_at_once : head_part (took room ∷ []) n ≡ head_sent
  unfolding head_part after_head
  head_at_once =
      let b : at_head n.status ≡ true = rw e refl in
      rw b (flush-all after_head room [] n p h ∙ simp f refl)

  abbrev after : Run → Run
  after r = next_part last_part (next_part content_part (next_part file_part r))

  sent_at_once :
      ((write_on (took room ∷ []) n).returned ≡ some 0)
      × ((write_on (took room ∷ []) n).wire ≡ n.send)
      × ((write_on (took room ∷ []) n).node.finished ≡ n.finished)
  unfolding write_on file_part content_part last_part
  sent_at_once = (
    ap (λ r. (after r).returned) head_at_once,
    ap (λ r. (after r).wire) head_at_once
        ∙ append-nil (n.send ++ [] ++ [])
        ∙ append-nil (n.send ++ [])
        ∙ append-nil n.send,
    ap (λ r. (after r).node.finished) head_at_once ∙ rw g refl,
  )

-- A synchronisation that UpdateLog_ hands to AddTask of a node without another task goes out as
-- the line of a NEW task: the next call of WriteProcess on a socket with room sends the node's own
-- port, no file, and frees no log.
pub add_syn_task-new :
    (env : Surroundings) (pack : SynPack) (n : StorageNode) (room : ℕ)
    → IsIdle n
    → n.tasks ≡ []
    → length (new_head env.task_port) ≤ room
    → (r : Run) × (write_process env (took room ∷ []) (add_syn_task pack n) ≡ some r)
      × (r.returned ≡ some 0)
      × (r.wire ≡ new_head env.task_port)
      × (r.node.finished ≡ n.finished)
unfolding write_process add_syn_task
add_syn_task-new env pack n room idle none_else h =
    let (init, empty, closed, fresh) = idle in
    let n2 = ready_new env (record n { tasks = [] }) in
    let send : n2.send ≡ new_head env.task_port = ap (λ s. s ++ new_head env.task_port) empty in
    let (value, wire, finished) =
      sent_at_once room n2 refl closed refl (rw send (omega arith)) (rw send h) in
    (write_on (took room ∷ []) n2, rw (init, none_else) refl, value, wire ∙ send, finished)
