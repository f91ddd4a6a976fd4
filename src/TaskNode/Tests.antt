-- ===== src/TaskNode/Tests.antt =====
-- A node that waits for a task gets a deletion, with the next line behind it.
use dfs_system.Base.{
  ℕ, zero, suc, ◌+◌, ◌^◌, ◌≡◌, refl, ap, List, [], ◌∷◌, ◌++◌, some, codes, true, false, arith,
  replicate, get_or,
}
use dfs_system.Status.{handle_init, handle_complete, file_begin, file_complete}
use dfs_system.ConsistLog.Format.{rollback_bit, upload_bit, bit_if, name_bytes}
use dfs_system.ConsistLog.RollbackLog.{make_order, clear_order}
use dfs_system.ConsistLog.RingLog.{RingLog, init_log_file, write_log, write_rollback_log, free_log}
use dfs_system.StorageNode.{SynPack, del_head}
use dfs_system.TaskNode.{TaskNode, Surroundings, removes, saves, syncs_user, parse_head}
use dfs_system.TaskNode.Reading.{parse}
use dfs_system.TaskNode.Received.{begun, upload-delivered}
use dfs_system.FileBody.{task_mark}
use dfs_system.FileBody.Upload.{IsClear}
use dfs_system.StorageNode.Calls.{upload_message}
use dfs_system.TaskNode.Delete.{delete-private}

abbrev pack : SynPack
pack = record {
  ring_log_id = 64;
  syn_log_id = 0;
  username = codes "ann";
  filename = codes "f";
  is_upload = false;
}

abbrev waiting : TaskNode
waiting = record {
  status = handle_init;
  file_status = file_begin;
  is_out = false;
  recv = del_head pack ++ codes "NEW";
  boundary = [];
  username = [];
  body_len = 0;
  path = [];
  saved = [];
  order = make_order true [] [];
  log_addr = 0;
  ring = init_log_file 1;
  effects = [];
}

abbrev env : Surroundings
env = record { data_path = codes "/data"; connects = λ port. true; past = λ i. 0 }

delete-private_example :
    parse_head env waiting
    ≡ some (record waiting {
      recv = codes "NEW";
      status = handle_complete;
      effects = removes (codes "/data/private/ann/f") ∷ syncs_user (codes "ann") ∷ [];
    })
delete-private_example =
    delete-private env pack waiting (codes "NEW") (omega arith, (refl, (refl, (refl, tt))))
      (omega arith, (refl, tt)) refl

abbrev idle : TaskNode
idle = record waiting { recv = [] }

abbrev bytes_of : List ℕ → ℕ → List ℕ
bytes_of name zeros = name ++ replicate zeros 0

abbrev written : ℕ × RingLog
written =
    write_log (2 ^ rollback_bit + bit_if false upload_bit) (bytes_of (codes "ann") 9)
      (bytes_of (codes "f") 11) (init_log_file 1)

written-logged :
    write_rollback_log env.past (make_order true (codes "ann") (codes "f")) idle.ring
    ≡ some (written.0, written.1)
unfolding write_rollback_log name_bytes make_order
written-logged = refl

abc-IsClear : IsClear (task_mark (codes "mark")) (codes "abc") []
unfolding task_mark
abc-IsClear zero h a = omega (arith, ap (λ l. get_or l 0 0) a)
abc-IsClear (suc zero) h a = omega (arith, ap (λ l. get_or l 0 0) a)
abc-IsClear (suc (suc zero)) h a = omega (arith, ap (λ l. get_or l 0 0) a)
abc-IsClear (suc (suc (suc i))) h a = absurd (omega arith)

abbrev saved_path : List ℕ
saved_path = codes "/data/private/ann/f"

upload-delivered_example :
    parse env (upload_message pack (codes "abc") (codes "mark")) idle
    ≡ some (record (begun env pack (codes "abc") (codes "mark") idle written.0 written.1) {
      status = handle_complete;
      file_status = file_complete;
      recv = [];
      saved = codes "abc";
      effects = saves saved_path (codes "abc") ∷ syncs_user (codes "ann") ∷ [];
      ring = free_log written.0 written.1;
      order = clear_order (make_order true (codes "ann") (codes "f"));
    })
upload-delivered_example =
    upload-delivered env pack (codes "abc") (codes "mark") idle written.0 written.1 refl refl refl
      (omega arith, (refl, (refl, (refl, tt)))) (omega arith, (refl, tt))
      (omega arith, (refl, (refl, (refl, (refl, tt))))) abc-IsClear written-logged
