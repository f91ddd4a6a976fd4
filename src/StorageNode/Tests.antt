-- ===== src/StorageNode/Tests.antt =====
-- An upload of three bytes that a small socket takes in nine answers, over four calls.
use dfs_system.Base.{
  ◌≡◌, ◌≤◌, length, refl, List, [], ◌∷◌, ◌++◌, true, some, none, codes, arith, str_eq,
}
use dfs_system.Status.{handle_init, file_begin}
use dfs_system.Wire.{decimal}
use dfs_system.FileBody.{task_mark}
use dfs_system.StorageNode.{
  StorageNode, SynPack, Surroundings, ready_upload, add_syn_task, new_head,
}
use dfs_system.StorageNode.Sending.{Answer, took, again, Run, write_on, write_process}
use dfs_system.StorageNode.Calls.{Calls, start, call, upload_message, upload-sent}
use dfs_system.StorageNode.{upl_head}
use dfs_system.StorageNode.AtOnce.{upload-at_once}
use dfs_system.StorageNode.Synchronise.{add_syn_task-new}

abbrev idle : StorageNode
idle = record {
  status = handle_init;
  file_status = file_begin;
  send = [];
  tasks = [];
  file = none;
  body_len = 0;
  has_sent = 0;
  boundary = [];
  finish = none;
  finished = [];
}

abbrev env : Surroundings
env = record {
  task_port = 9000;
  data_path = [];
  files = λ p. some (codes "abc");
  boundary = codes "mark";
  no_stat = 0;
}

abbrev pack : SynPack
pack = record {
  ring_log_id = 64;
  syn_log_id = 0;
  username = codes "ann";
  filename = codes "f";
  is_upload = true;
}

abbrev first_answers : List Answer
first_answers = took 7 ∷ []

abbrev next_answers : List Answer
next_answers = took 50 ∷ took 2 ∷ again ∷ []

abbrev last_answers : List Answer
last_answers = took 9 ∷ took 100 ∷ []

abbrev begun : StorageNode
begun = ready_upload env pack idle

abbrev one : Run
one = write_on first_answers begun

abbrev two : Run
two = write_on next_answers one.node

abbrev three : Run
three = write_on last_answers two.node

calls : Calls begun ([] ++ one.wire ++ two.wire ++ three.wire) three.node
calls = call last_answers (call next_answers (call first_answers start))

three-done : three.node.status ≡ handle_init
unfolding write_on ready_upload str_eq decimal task_mark
three-done = refl

upload-sent_example :
    [] ++ one.wire ++ two.wire ++ three.wire ≡ upload_message pack (codes "abc") env.boundary
upload-sent_example =
    upload-sent env pack (codes "abc") idle (refl, refl, refl, refl) refl calls three-done

add_syn_task-new_example :
    (r : Run) × (write_process env (took 100 ∷ []) (add_syn_task pack idle) ≡ some r)
    × (r.returned ≡ some 0)
    × (r.wire ≡ new_head 9000)
    × (r.node.finished ≡ [])
unfolding new_head decimal
add_syn_task-new_example =
    add_syn_task-new env pack idle 100 (refl, refl, refl, refl) refl (omega arith)

fits : length (upload_message pack (codes "abc") (codes "mark")) ≤ 100
unfolding upl_head str_eq decimal task_mark
fits = omega arith

upload-at_once_example :
    ((write_on (took 100 ∷ took 100 ∷ took 100 ∷ []) (ready_upload env pack idle)).returned
      ≡ some 0)
    × ((write_on (took 100 ∷ took 100 ∷ took 100 ∷ []) (ready_upload env pack idle)).wire
        ≡ upload_message pack (codes "abc") (codes "mark"))
upload-at_once_example =
    upload-at_once env pack (codes "abc") idle 100 (refl, refl, refl, refl) refl fits
