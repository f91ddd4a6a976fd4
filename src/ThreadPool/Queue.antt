-- ===== src/ThreadPool/Queue.antt =====
-- threadpool.h: the tasks are taken in their order, and no worker leaves or sleeps beside one.
use mathlib.Core.List.{append_assoc, append-nil}
use dfs_system.Base.{
  ℕ, ◌+◌, ◌<◌, ◌≤◌, ◌≡◌, refl, sym, ap, ◌∙◌, Bool, true, false, List, [], ◌∷◌, ◌++◌, arith, length,
  length-append,
}
use dfs_system.ThreadPool.{
  ThreadPool, Moves, passes, begins, finishes, wakes, notifies, notifies_all, Step, added, stopped,
  moved, Reach, start, next, pass_with, create, add_task, shutdown, pass, begin, finish, wake,
  notify_added, notify_stopped, taken_by,
}

module _ {ℓ} {A : Type ℓ} where
  -- Every worker is somewhere, `free_` counts those outside a task, a worker has only left a stopped
  -- and empty pool, sleeping workers leave at most one task for each worker that is awake and each
  -- caller that has still to notify, and sleep in a stopped pool only until Shutdown notifies.
  pub record IsKept (n : ℕ) (p : ThreadPool A) : Type 0 where
    pub workers : p.asleep + p.awake + p.taken + p.working + p.gone ≡ n
    pub counted : p.free + p.working ≡ n
    pub left : 0 < p.gone → (p.stop ≡ true) × (length p.tasks ≡ 0)
    pub called : 0 < p.asleep → length p.tasks ≤ p.awake + p.notifying
    pub rung : 0 < p.asleep → p.stop ≡ true → p.closing ≡ true
    pub closes : p.closing ≡ true → p.stop ≡ true

  -- The shape that a pass gives the pool, for each of its three cases.
  pass_with-IsKept :
      {n : ℕ} (b : Bool) (xs : List A) (p : ThreadPool A)
      → p.stop ≡ b
      → p.tasks ≡ xs
      → 0 < p.awake
      → IsKept n p
      → IsKept n (pass_with b xs p).1
  unfolding pass_with
  pass_with-IsKept false [] p e f a k =
      ground (arith, k.workers, k.counted, k.left, k.called, k.rung, k.closes)
  pass_with-IsKept true [] p e f a k =
      ground (arith, k.workers, k.counted, k.left, k.called, k.rung, k.closes)
  pass_with-IsKept false (x ∷ xs) p e f a k =
      ground (arith, k.workers, k.counted, k.left, k.called, k.rung, k.closes)
  pass_with-IsKept true (x ∷ xs) p e f a k =
      ground (arith, k.workers, k.counted, k.left, k.called, k.rung, k.closes)

  pub Moves-IsKept :
      {n : ℕ} {o : List A} {p q : ThreadPool A} → Moves o p q → IsKept n p → IsKept n q
  unfolding pass begin finish wake notify_added notify_stopped
  Moves-IsKept (passes p a) k = pass_with-IsKept p.stop p.tasks p refl refl a k
  Moves-IsKept (begins p a) k =
      ground (arith, k.workers, k.counted, k.left, k.called, k.rung, k.closes)
  Moves-IsKept (finishes p a) k =
      ground (arith, k.workers, k.counted, k.left, k.called, k.rung, k.closes)
  Moves-IsKept (wakes p a) k =
      ground (arith, k.workers, k.counted, k.left, k.called, k.rung, k.closes)
  Moves-IsKept (notifies p a) k =
      ground (arith, k.workers, k.counted, k.left, k.called, k.rung, k.closes)
  Moves-IsKept (notifies_all p a) k =
      ground (arith, k.workers, k.counted, k.left, k.called, k.rung, k.closes)

  Step-IsKept : {n : ℕ} {i o : List A} {p q : ThreadPool A} → Step i o p q → IsKept n p → IsKept n q
  unfolding add_task shutdown
  Step-IsKept (added f p s) k = ground (
    arith,
    k.workers,
    k.counted,
    k.left,
    k.called,
    k.rung,
    k.closes,
    length-append p.tasks (f ∷ []),
  )
  Step-IsKept (stopped p) k =
      ground (arith, k.workers, k.counted, k.left, k.called, k.rung, k.closes)
  Step-IsKept (moved m) k = Moves-IsKept m k

  pass_with-tasks :
      (b : Bool) (xs : List A) (p : ThreadPool A)
      → p.tasks ≡ xs
      → xs ≡ taken_by (pass_with b xs p).0 ++ (pass_with b xs p).1.tasks
  unfolding pass_with taken_by
  pass_with-tasks false [] p e = sym e
  pass_with-tasks true [] p e = sym e
  pass_with-tasks false (x ∷ xs) p e = refl
  pass_with-tasks true (x ∷ xs) p e = refl

  pub Moves-tasks : {o : List A} {p q : ThreadPool A} → Moves o p q → p.tasks ≡ o ++ q.tasks
  unfolding pass begin finish wake notify_added notify_stopped
  Moves-tasks (passes p a) = pass_with-tasks p.stop p.tasks p refl
  Moves-tasks (begins p a) = refl
  Moves-tasks (finishes p a) = refl
  Moves-tasks (wakes p a) = refl
  Moves-tasks (notifies p a) = ground arith
  Moves-tasks (notifies_all p a) = refl

  Step-tasks : {i o : List A} {p q : ThreadPool A} → Step i o p q → p.tasks ++ i ≡ o ++ q.tasks
  unfolding add_task shutdown
  Step-tasks (added f p s) = ground arith
  Step-tasks (stopped p) = ground (arith, append-nil p.tasks)
  Step-tasks (moved {p = p} m) = append-nil p.tasks ∙ Moves-tasks m

  -- However the n workers and the callers interleave, the tasks taken so far are the first of those
  -- added, in their order, the queue holds the others, and the pool is kept: `free_` and the threads
  -- inside a task are n together, a worker has only returned from a stopped and empty pool, and
  -- workers asleep leave at most one task for each worker that is awake and each call of AddTask that
  -- has still to notify, and sleep in a stopped pool only until Shutdown has notified.
  pub Reach-tasks :
      {n : ℕ} {ins outs : List A} {p : ThreadPool A}
      → Reach n ins outs p
      → (ins ≡ outs ++ p.tasks) × IsKept n p
  unfolding create
  Reach-tasks start = (
    refl,
    record {
      workers = omega arith;
      counted = omega arith;
      left = λ g. absurd (omega arith);
      called = λ g. absurd (omega arith);
      rung = λ g. absurd (omega arith);
      closes = λ e. e;
    },
  )
  Reach-tasks (next {outs = outs} {i = i} {o = o} {p = p} {q = q} s st) =
      let (e, k) = Reach-tasks s in
      (
        ap (λ (xs : List A). xs ++ i) e
            ∙ append_assoc outs p.tasks i
            ∙ ap (λ (xs : List A). outs ++ xs) (Step-tasks st)
            ∙ sym (append_assoc outs o q.tasks),
        Step-IsKept st k,
      )
