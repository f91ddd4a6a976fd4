-- ===== src/ConsistLog/RingLog/Recovery.antt =====
-- ringlog.cpp: what is redone when the log is opened again.
use dfs_system.Base.{ℕ, ◌≡◌, ◌≢◌, refl, List, [], arith, true, Bool}
use dfs_system.ConsistLog.Format.{Page, rollback_bit, has_bit}
use dfs_system.ConsistLog.RingLog.{
  RingLog, free_list, todo_list_num, write_page, write_log, unlink, link_free, free_log,
  init_log_file, redo, init,
}

-- The states of a log in use. A write needs a free page; the caller frees no page 0.
pub data Used (capacity : ℕ) : RingLog → Type 0 where
  start : Used capacity (init_log_file capacity)
  writes :
      (status : ℕ) (user file : List ℕ) {r : RingLog}
      → Used capacity r
      → free_list r.head ≢ 0
      → Used capacity (write_log status user file r).1
  frees : (addr : ℕ) {r : RingLog} → Used capacity r → addr ≢ 0 → Used capacity (free_log addr r)

record IsUncounted (r : RingLog) : Type 0 where
  memory : todo_list_num r.head ≡ 0
  stored : todo_list_num (r.file 0) ≡ 0

start-IsUncounted : (capacity : ℕ) → IsUncounted (init_log_file capacity)
unfolding init_log_file
start-IsUncounted capacity = record { memory = refl; stored = refl }

write_log-IsUncounted :
    (status : ℕ) (user file : List ℕ) (r : RingLog)
    → free_list r.head ≢ 0
    → IsUncounted r
    → IsUncounted (write_log status user file r).1
unfolding write_log write_page
write_log-IsUncounted status user file r p u = record {
  memory = ground (arith, u.memory);
  stored = ground (arith, u.memory);
}

unlink-IsUncounted : (addr : ℕ) (r : RingLog) → IsUncounted r → IsUncounted (unlink addr r)
unfolding unlink write_page
unlink-IsUncounted addr r u = record {
  memory = ground (arith, u.memory);
  stored = ground (arith, u.stored);
}

free_log-IsUncounted : (addr : ℕ) (r : RingLog) → IsUncounted r → IsUncounted (free_log addr r)
unfolding free_log link_free write_page
free_log-IsUncounted addr r u =
    let w = unlink-IsUncounted addr r u in
    record { memory = ground (arith, w.memory); stored = ground (arith, w.stored) }

Used-IsUncounted : {capacity : ℕ} {r : RingLog} → Used capacity r → IsUncounted r
Used-IsUncounted {capacity} start = start-IsUncounted capacity
Used-IsUncounted (writes status user file {r} s p) =
    write_log-IsUncounted status user file r p (Used-IsUncounted s)
Used-IsUncounted (frees addr {r} s p) = free_log-IsUncounted addr r (Used-IsUncounted s)

module _ (path : Bool → Page → List ℕ) (syn : ℕ → ℕ × ℕ) (known : ℕ → Bool) where
  -- todoListNum is never counted up, so after any use of the log, with whatever logs open, opening
  -- it again redoes nothing.
  pub init_redoes_nothing :
      {capacity : ℕ} {r : RingLog} → Used capacity r → (init path syn known r).0 ≡ []
  unfolding init
  init_redoes_nothing s = let u = Used-IsUncounted s in ground (arith, u.stored)

  -- Redo_ removes no file for any rollback log: `status & (1ull << 58) == 0` compares first.
  pub redo_rollback :
      (todo : ℕ) (body : Page)
      → has_bit body.w0 rollback_bit ≡ true
      → redo path syn known todo body ≡ []
  unfolding redo
  redo_rollback todo body h = ground arith
