-- ===== src/HttpConn/Logged.antt =====
-- httpconn.cpp: what UpdateLog_ leaves in the logs and with the other nodes.
use dfs_system.Base.{ℕ, ◌%◌, ◌^◌, ◌≤◌, ◌≡◌, List, [], ◌∷◌, ◌++◌, some, length}
use dfs_system.ConsistLog.Format.{SynLogBody}
use dfs_system.ConsistLog.RingLog.{RingLog, write_syn_log}
use dfs_system.ConsistLog.SynLog.{make_log}
use dfs_system.StorageNode.{new_task}
use dfs_system.HttpRequest.{Request}
use dfs_system.HttpResponse.Sql.{log_user, is_upload}
use dfs_system.HttpConn.{Member, HttpConn}

-- The two names that UpdateLog_ logs fit in their arrays.
abbrev pub AreShort : Request → Type 0
AreShort r = (length (log_user r.path r.username) ≤ 12) × (length r.file_name ≤ 12)

-- From the first state of ring.log to the last, each member has got one more task, whose port is made
-- of the address of the page that was written to ring.log for it, and nothing else of it has changed.
pub data AreTasked (past : ℕ → ℕ) (r : Request)
    : RingLog → List Member → List Member → RingLog → Type 0 where
  nobody : {ring : RingLog} → AreTasked past r ring [] [] ring
  one_more :
      {ring out : RingLog} {ms ns : List Member} (m : Member) (body : SynLogBody)
      → make_log past m.ip (is_upload r.behavior) (log_user r.path r.username) r.file_name
        ≡ some body
      → AreTasked past r (write_syn_log body ring).1 ms ns out
      → AreTasked past r ring
          (m ∷ ms)
          (record m {
            node = record m.node {
              tasks = m.node.tasks ++ new_task ((write_syn_log body ring).0 % 2 ^ 16) ∷ [];
            };
          }
            ∷ ns)
          out
