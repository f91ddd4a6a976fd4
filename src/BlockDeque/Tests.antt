-- ===== src/BlockDeque/Tests.antt =====
-- A run of the queue, and the witnesses of its theorems.
use dfs_system.Base.{ℕ, ◌≤◌, ◌≡◌, refl, [], ◌∷◌, ◌++◌, length}
use dfs_system.BlockDeque.{
  BlockDeque, create, push_back, pop, Reach, start, next, push_comes, push_waits, pops, given,
}
use dfs_system.BlockDeque.Fifo.{Reach-fifo}
use dfs_system.BlockDeque.Wakeups.{IsCalled, Reach-IsCalled}

-- Room for one: 5 goes in, 6 has to wait, 5 comes out and its producer is woken.
abbrev one : BlockDeque ℕ
one = (push_back 5 (create 1)).1

abbrev crowded : BlockDeque ℕ
crowded = (push_back 6 one).1

abbrev taken : BlockDeque ℕ
taken = (pop crowded).1

taken-Reach : Reach 1 (5 ∷ []) (5 ∷ []) taken
unfolding create push_back pop given
taken-Reach =
    next (next (next start (push_comes 5 (create 1) refl)) (push_waits 6 one refl)) (pops crowded)

taken_state : (taken.deq ≡ []) × (taken.producers_awake ≡ 1) × (taken.producers_asleep ≡ 0)
unfolding create push_back pop
taken_state = (refl, refl, refl)

Reach-fifo_example : (5 ∷ [] ≡ 5 ∷ [] ++ taken.deq) × (length taken.deq ≤ 1) × (taken.capacity ≡ 1)
Reach-fifo_example = Reach-fifo taken-Reach

Reach-IsCalled_example : IsCalled taken
Reach-IsCalled_example = Reach-IsCalled taken-Reach
