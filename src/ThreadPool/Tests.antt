-- ===== src/ThreadPool/Tests.antt =====
-- A run of a pool with one worker, and the witnesses of its theorems.
use dfs_system.Base.{ℕ, ◌<◌, ◌≤◌, ◌≡◌, ◌⊎◌, refl, true, List, [], ◌∷◌, ◌++◌, arith}
use dfs_system.ThreadPool.{
  ThreadPool, Moves, passes, begins, finishes, added, stopped, moved, Reach, start, next, Run,
  rests, goes, create, add_task, shutdown, pass, begin, finish, leaves, takes, taken_by,
}
use dfs_system.ThreadPool.Queue.{IsKept, Reach-tasks}
use dfs_system.ThreadPool.Shutdown.{left_to_do, shutdown_ends}

-- Task 7 is taken, task 8 is added, and the pool is stopped while 7 waits to be run.
abbrev one : ThreadPool ℕ
one = add_task 7 (create 1)

abbrev busy : ThreadPool ℕ
busy = (pass one).1

abbrev stopping : ThreadPool ℕ
stopping = shutdown (add_task 8 busy)

stopping-Reach : Reach 1 (7 ∷ 8 ∷ []) (7 ∷ []) stopping
unfolding create add_task shutdown pass taken_by
stopping-Reach =
    next
      (next (next (next start (added 7 (create 1) refl)) (moved (passes one (omega arith))))
        (added 8 busy refl))
      (stopped (add_task 8 busy))

Reach-tasks_example : (7 ∷ 8 ∷ [] ≡ 7 ∷ [] ++ stopping.tasks) × IsKept 1 stopping
Reach-tasks_example = Reach-tasks stopping-Reach

abbrev idle : ThreadPool ℕ
idle = finish (begin stopping)

abbrev last : ThreadPool ℕ
last = finish (begin (pass idle).1)

passes_run : ((pass idle).0 ≡ takes 8) × ((pass last).0 ≡ leaves) × ((pass last).1.free ≡ 1)
unfolding create add_task shutdown pass begin finish taken_by
passes_run = (refl, refl, refl)

drained : Run 6 (8 ∷ []) stopping (pass last).1
unfolding create add_task shutdown pass begin finish taken_by
drained =
    goes
      (goes
        (goes
          (goes
            (goes (goes (rests stopping) (begins stopping (omega arith)))
              (finishes (begin stopping) (omega arith)))
            (passes idle (omega arith)))
          (begins (pass idle).1 (omega arith)))
        (finishes (begin (pass idle).1) (omega arith)))
      (passes last (omega arith))

stopping_stop : stopping.stop ≡ true
unfolding create add_task shutdown pass taken_by
stopping_stop = refl

shutdown_ends_example :
    (6 ≤ left_to_do stopping)
    × (((o : List ℕ) × (r : ThreadPool ℕ) × Moves o (pass last).1 r)
        ⊎ (((pass last).1.gone ≡ 1) × (0 < 1 → ◌≡◌ {A = List ℕ} (7 ∷ 8 ∷ []) (7 ∷ [] ++ 8 ∷ []))))
shutdown_ends_example = shutdown_ends stopping-Reach stopping_stop drained
