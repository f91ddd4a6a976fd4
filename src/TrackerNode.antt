-- ===== src/TrackerNode.antt =====
-- storage/src/message/node/trackernode.cpp: what a storage node tells the tracker.
pub mod Joining
pub mod Answer
pub mod Members
mod Tests
use dfs_system.Base.{ℕ, List, [], ◌∷◌, ◌++◌, codes}
use dfs_system.Wire.{decimal}

-- The members of Conf that ReadyNEW sends.
pub record Settings : Type 0 where
  pub group_name : List ℕ
  pub task_port : ℕ
  pub http_port : ℕ
  pub data_capacity : ℕ
  pub data_used : ℕ

unfoldable pub new_fields : Settings → List ℕ
new_fields c =
    c.group_name
    ++ (codes " "
        ++ (decimal c.task_port
            ++ (codes " "
                ++ (decimal c.http_port
                    ++ (codes " "
                        ++ (decimal c.data_capacity ++ (codes " " ++ decimal c.data_used)))))))

unfoldable pub ready_new : Settings → List ℕ → List ℕ
unfolding new_fields
ready_new c send = send ++ (codes "NEW " ++ (new_fields c ++ codes "\r\n"))

unfoldable pub ready_kep : List ℕ → List ℕ
ready_kep send = send ++ codes "KEP \r\n"

-- STORAGE_STATUS_ACTIVE is 4.
unfoldable pub ready_syn_self : List ℕ → List ℕ
ready_syn_self send = send ++ (codes "CHG self " ++ (decimal 4 ++ codes "\r\n"))

unfoldable pub user_fields : List ℕ → List ℕ
user_fields username = codes "user " ++ (username ++ (codes " " ++ decimal 4))

unfoldable pub ready_syn_user : List ℕ → List ℕ → List ℕ
unfolding user_fields
ready_syn_user username send = send ++ (codes "CHG " ++ (user_fields username ++ codes "\r\n"))
