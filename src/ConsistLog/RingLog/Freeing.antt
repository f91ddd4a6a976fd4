-- ===== src/ConsistLog/RingLog/Freeing.antt =====
-- ringlog.cpp: what FreeLog leaves in the file.
use dfs_system.Base.{ℕ, ◌≡◌, ◌≢◌, refl, arith}
use dfs_system.ConsistLog.RingLog.{
  RingLog, free_list_end, free_list_num, todo_list_num, write_page, unlink, link_free, free_log,
}

module _ (addr : ℕ) (r : RingLog) where
  unlink-end : free_list_end (unlink addr r).head ≡ free_list_end r.head
  unfolding unlink
  unlink-end = ground arith

  unlink-word : ((unlink addr r).file 0).w2 ≡ (r.file 0).w2
  unfolding unlink write_page
  unlink-word = ground arith

  -- FreeLog writes the head to offset 64, over the first log, and not to offset 0, where Init reads
  -- it: in the file the end of the free list stays what it was.
  pub free_log-head :
      addr ≢ 0
      → ((free_log addr r).file 64 ≡ (free_log addr r).head)
        × (free_list_end (free_log addr r).head ≡ addr)
        × (free_list_end ((free_log addr r).file 0) ≡ free_list_end (r.file 0))
  unfolding free_log link_free write_page
  free_log-head p = (ground arith, refl, ground (arith, unlink-word))

  -- The decrement and the increment of freeListNum cancel: FreeLog leaves both counts alone, and so
  -- the count that should tell the last open log from the others is never 1.
  pub free_log-counts :
      free_list_num r.head ≡ 0
      → (free_list_num (free_log addr r).head ≡ 0)
        × (todo_list_num (free_log addr r).head ≡ todo_list_num r.head)
  unfolding free_log link_free unlink
  free_log-counts h = (ground arith, ground arith)
