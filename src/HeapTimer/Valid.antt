-- ===== src/HeapTimer/Valid.antt =====
-- heaptimer.cpp: the invariant of the timer heap, and how one change of a deadline disturbs it.
use dfs_system.Base.{ℕ, ◌≤◌, ◌<◌, ◌≡◌, ◌≢◌, Option, arith, length}
use dfs_system.HeapTimer.{TimerNode, HeapTimer, parent}
use dfs_system.HeapTimer.Heap.{Ordered, Around}
use dfs_system.HeapTimer.Sift.{keys}
use dfs_system.HeapTimer.Refs.{Agrees}
use dfs_system.HeapTimer.View.{find}

pub record IsValid (t : HeapTimer) : Type 0 where
  pub ordered : Ordered (length t.heap) (keys t)
  pub agrees : Agrees t

-- What an operation promises: a valid timer in which the ids are found as `view` says.
pub record Becomes (view : ℕ → Option TimerNode) (t : HeapTimer) : Type 0 where
  pub valid : IsValid t
  pub seen : (id : ℕ) → find id t ≡ view id

-- One timer of an ordered heap has another deadline.
pub changed-Around :
    (m n i : ℕ) (key key' : ℕ → ℕ)
    → n ≤ m
    → i < n
    → Ordered m key
    → ((j : ℕ) → j < n → j ≢ i → key' j ≡ key j)
    → Around n key' i
changed-Around m n i key key' le h o same = record {
  edges = λ c p q r s. ground (arith, same c q r, same (parent c), o c p);
  bridged = λ c p q r s. ground (arith, same c q, same (parent i), o c p, o i s);
}
