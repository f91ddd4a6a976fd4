-- ===== src/ConsistLog/RingLog/Tests.antt =====
-- A ring of three pages behind the head is 256 bytes; the smallest that the configuration can ask
-- for, one KB, has fifteen. The witnesses of the theorems run on it.
use dfs_system.Base.{ℕ, ◌≡◌, ◌≤◌, refl, List, [], ◌∷◌, arith, length, ◌^◌, zero, suc}
use dfs_system.ConsistLog.RingLog.{
  RingLog, todo_list, free_list, write_log, init_log_file, last_page,
}
use dfs_system.ConsistLog.RingLog.Free.{Filled, start, next, pages_below, Linked, Filled-pages}
use dfs_system.ConsistLog.RingLog.Recovery.{Used}

abbrev one_log : RingLog
one_log = (write_log (2 ^ 62) [] [] (init_log_file 1)).1

abbrev two_logs : RingLog
two_logs = (write_log (2 ^ 61) [] [] one_log).1

two_logs-Filled :
    Filled 1
      ((write_log (2 ^ 61) [] [] one_log).0 ∷ (write_log (2 ^ 62) [] [] (init_log_file 1)).0 ∷ [])
      two_logs
two_logs-Filled = next (2 ^ 61) [] [] (next (2 ^ 62) [] [] start (omega arith)) (omega arith)

two_logs_state : (todo_list two_logs.head ≡ 128) × (free_list two_logs.head ≡ 192)
unfolding write_log init_log_file
two_logs_state = (refl, refl)

Filled-pages_example :
    ((write_log (2 ^ 61) [] [] one_log).0 ∷ (write_log (2 ^ 62) [] [] (init_log_file 1)).0 ∷ []
      ≡ pages_below 2)
    × Linked two_logs.file (todo_list two_logs.head) 2
Filled-pages_example = Filled-pages two_logs-Filled (omega arith)

-- The smallest ring after n logs.
filled :
    (n : ℕ)
    → n ≤ last_page 1
    → (done : List ℕ) × (r : RingLog) × Filled 1 done r × (length done ≡ n)
filled zero p = ([], init_log_file 1, start, refl)
filled (suc n) p =
    let (done, r, s, e) = filled n (omega arith) in
    (
      (write_log 0 [] [] r).0 ∷ done,
      (write_log 0 [] [] r).1,
      next 0 [] [] s (omega (arith, e)),
      ground (arith, e),
    )

abbrev all_used : (done : List ℕ) × (r : RingLog) × Filled 1 done r × (length done ≡ 15)
all_used = filled 15 (omega arith)

-- Two logs are open.
two_logs-Used : Used 1 two_logs
unfolding write_log init_log_file
two_logs-Used =
    Used.writes (2 ^ 61) [] [] (Used.writes (2 ^ 62) [] [] Used.start (omega arith)) (omega arith)
