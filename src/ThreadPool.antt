-- ===== src/ThreadPool.antt =====
-- tracker/src/pool/threadpool.h (storage/src/pool/threadpool.h is the same code): tasks in a queue
-- and workers that take them. Every stretch of code under `mtx_`, and every change of the atomic
-- `free_`, is one step; the workers are counted by the place where they stand.
pub mod Queue
pub mod Shutdown
mod Tests
use dfs_system.Base.{
  ℕ, suc, ◌+◌, ◌-◌, ◌<◌, ◌≡◌, Bool, true, false, List, [], ◌∷◌, ◌++◌, if◌then◌else◌, ◌==◌,
}

pub record ThreadPool {ℓ} (A : Type ℓ) : Type ℓ where
  pub stop : Bool
  pub tasks : List A
  pub free : ℕ
  -- Workers asleep in cv_, on their way to the test of the wait, with a task that `free_` does not
  -- count yet, inside a task, and returned.
  pub asleep : ℕ
  pub awake : ℕ
  pub taken : ℕ
  pub working : ℕ
  pub gone : ℕ
  -- Callers of AddTask behind its lock that have not notified yet, and whether Shutdown is there.
  pub notifying : ℕ
  pub closing : Bool

-- What one pass of a worker through the locked block comes to.
pub data Pass {ℓ} (A : Type ℓ) : Type ℓ where
  sleeps : Pass A
  leaves : Pass A
  takes : A → Pass A

module _ {ℓ} {A : Type ℓ} where
  unfoldable pub create : ℕ → ThreadPool A
  create n = record {
    stop = false;
    tasks = [];
    free = n;
    asleep = 0;
    awake = n;
    taken = 0;
    working = 0;
    gone = 0;
    notifying = 0;
    closing = false;
  }

  unfoldable pub notify_one : ThreadPool A → ThreadPool A
  notify_one p =
      if p.asleep == 0 then p else record p { asleep = p.asleep - 1; awake = p.awake + 1 }

  unfoldable pub notify_all : ThreadPool A → ThreadPool A
  notify_all p = record p { asleep = 0; awake = p.awake + p.asleep }

  -- AddTask behind its assertion, up to the end of its lock.
  unfoldable pub add_task : A → ThreadPool A → ThreadPool A
  add_task f p = record p { tasks = p.tasks ++ f ∷ []; notifying = p.notifying + 1 }

  -- The notification of AddTask, without the lock.
  unfoldable pub notify_added : ThreadPool A → ThreadPool A
  unfolding notify_one
  notify_added p = notify_one (record p { notifying = p.notifying - 1 })

  -- Shutdown up to the end of its lock; a stopped pool is left.
  unfoldable pub shutdown : ThreadPool A → ThreadPool A
  shutdown p = if p.stop then p else record p { stop = true; closing = true }

  -- Its notification, without the lock.
  unfoldable pub notify_stopped : ThreadPool A → ThreadPool A
  unfolding notify_all
  notify_stopped p = notify_all (record p { closing = false })

  unfoldable pub pass_with : Bool → List A → ThreadPool A → Pass A × ThreadPool A
  pass_with false [] p = (sleeps, record p { awake = p.awake - 1; asleep = p.asleep + 1 })
  pass_with true [] p = (leaves, record p { awake = p.awake - 1; gone = p.gone + 1 })
  pass_with _ (task ∷ rest) p =
      (takes task, record p { awake = p.awake - 1; taken = p.taken + 1; tasks = rest })

  -- The locked block of a worker: the wait's test, the way out, the task at the front.
  unfoldable pub pass : ThreadPool A → Pass A × ThreadPool A
  unfolding pass_with
  pass p = pass_with p.stop p.tasks p

  unfoldable pub begin : ThreadPool A → ThreadPool A
  begin p = record p { taken = p.taken - 1; working = p.working + 1; free = p.free - 1 }

  unfoldable pub finish : ThreadPool A → ThreadPool A
  finish p = record p { working = p.working - 1; awake = p.awake + 1; free = p.free + 1 }

  unfoldable pub wake : ThreadPool A → ThreadPool A
  wake p = record p { asleep = p.asleep - 1; awake = p.awake + 1 }

  -- The tasks that a pass has handed to its worker.
  unfoldable pub taken_by : Pass A → List A
  taken_by sleeps = []
  taken_by leaves = []
  taken_by (takes task) = task ∷ []

  -- A step of a worker with the tasks that it takes, or of a caller that has still to notify.
  pub data Moves : List A → ThreadPool A → ThreadPool A → Type ℓ where
    passes : (p : ThreadPool A) → 0 < p.awake → Moves (taken_by (pass p).0) p (pass p).1
    begins : (p : ThreadPool A) → 0 < p.taken → Moves [] p (begin p)
    finishes : (p : ThreadPool A) → 0 < p.working → Moves [] p (finish p)
    -- A wait may end without a notification.
    wakes : (p : ThreadPool A) → 0 < p.asleep → Moves [] p (wake p)
    notifies : (p : ThreadPool A) → 0 < p.notifying → Moves [] p (notify_added p)
    notifies_all : (p : ThreadPool A) → p.closing ≡ true → Moves [] p (notify_stopped p)

  -- Any step, with the tasks that come in and those that a worker takes. AddTask's assertion ends
  -- the program when the pool has been stopped.
  pub data Step : List A → List A → ThreadPool A → ThreadPool A → Type ℓ where
    added : (f : A) (p : ThreadPool A) → p.stop ≡ false → Step (f ∷ []) [] p (add_task f p)
    stopped : (p : ThreadPool A) → Step [] [] p (shutdown p)
    moved : {outs : List A} {p q : ThreadPool A} → Moves outs p q → Step [] outs p q

  -- What has been added and what has been taken, newest last, with n workers.
  pub data Reach (n : ℕ) : List A → List A → ThreadPool A → Type ℓ where
    start : Reach n [] [] (create n)
    next :
        {ins outs i o : List A} {p q : ThreadPool A}
        → Reach n ins outs p
        → Step i o p q
        → Reach n (ins ++ i) (outs ++ o) q

  -- A run of the workers and of the callers that have still to notify, with its number of steps and
  -- the tasks that it takes.
  pub data Run : ℕ → List A → ThreadPool A → ThreadPool A → Type ℓ where
    rests : (p : ThreadPool A) → Run 0 [] p p
    goes :
        {k : ℕ} {outs o : List A} {p q r : ThreadPool A}
        → Run k outs p q
        → Moves o q r
        → Run (suc k) (outs ++ o) p r
