-- ===== src/BlockDeque.antt =====
-- storage/src/log/blockqueue.h: the bounded queue between the program and its log thread. Every
-- stretch of code under `mtx_` is one step; a call that has to wait is in the counts of the threads
-- asleep in its condition variable. The overload of pop with a timeout has its own event.
pub mod Fifo
pub mod Wakeups
pub mod Closing
mod Tests
use dfs_system.Base.{
  ℕ, ◌+◌, ◌-◌, ◌<◌, ◌≤◌, ◌≡◌, Bool, true, false, List, [], ◌∷◌, ◌++◌, Option, none, some,
  if◌then◌else◌, ltb, leb, ◌==◌, length,
}

pub record BlockDeque {ℓ} (A : Type ℓ) : Type ℓ where
  pub deq : List A
  pub capacity : ℕ
  pub is_close : Bool
  -- Threads asleep in condConsumer_ and condProducer_, and those woken from them.
  pub consumers_asleep : ℕ
  pub consumers_awake : ℕ
  pub producers_asleep : ℕ
  pub producers_awake : ℕ

-- What a pass through a waiting call gives: it went to sleep, or it returned.
pub data Outcome {ℓ} (A : Type ℓ) : Type ℓ where
  sleeps : Outcome A
  refused : Outcome A
  returned : A → Outcome A

module _ {ℓ} {A : Type ℓ} where
  unfoldable pub create : ℕ → BlockDeque A
  create n = record {
    deq = [];
    capacity = n;
    is_close = false;
    consumers_asleep = 0;
    consumers_awake = 0;
    producers_asleep = 0;
    producers_awake = 0;
  }

  abbrev pub full : BlockDeque A → Bool
  full q = leb q.capacity (length q.deq)

  abbrev pub empty : BlockDeque A → Bool
  empty q = length q.deq == 0

  unfoldable pub notify_consumer : BlockDeque A → BlockDeque A
  notify_consumer q = if q.consumers_asleep == 0 then q else record q {
    consumers_asleep = q.consumers_asleep - 1;
    consumers_awake = q.consumers_awake + 1;
  }

  unfoldable pub notify_producer : BlockDeque A → BlockDeque A
  notify_producer q = if q.producers_asleep == 0 then q else record q {
    producers_asleep = q.producers_asleep - 1;
    producers_awake = q.producers_awake + 1;
  }

  -- One pass of the loop of push_back, and what follows it; `true` when the call returns.
  unfoldable pub push_back : A → BlockDeque A → Bool × BlockDeque A
  unfolding notify_consumer
  push_back item q =
      if full q
      then (false, record q { producers_asleep = q.producers_asleep + 1 })
      else (true, notify_consumer (record q { deq = q.deq ++ item ∷ [] }))

  unfoldable pub push_front : A → BlockDeque A → Bool × BlockDeque A
  unfolding notify_consumer
  push_front item q =
      if full q
      then (false, record q { producers_asleep = q.producers_asleep + 1 })
      else (true, notify_consumer (record q { deq = item ∷ q.deq }))

  -- What follows the loop of pop.
  unfoldable pub take_front : List A → BlockDeque A → Outcome A × BlockDeque A
  unfolding notify_producer
  take_front [] q = (sleeps, record q { consumers_asleep = q.consumers_asleep + 1 })
  take_front (item ∷ rest) q = (returned item, notify_producer (record q { deq = rest }))

  -- pop, from its start: the loop's test is first, `isClose_` is only read after a wait.
  unfoldable pub pop : BlockDeque A → Outcome A × BlockDeque A
  unfolding take_front
  pop q = take_front q.deq q

  -- pop, when its wait is over.
  unfoldable pub pop_woken : BlockDeque A → Outcome A × BlockDeque A
  unfolding pop
  pop_woken q = if q.is_close then (refused, q) else pop q

  -- pop with a timeout, when its wait is over: `true` if the time has passed.
  unfoldable pub pop_timed : Bool → BlockDeque A → Outcome A × BlockDeque A
  unfolding pop_woken
  pop_timed late q = if late then (refused, q) else pop_woken q

  unfoldable pub clear : BlockDeque A → BlockDeque A
  clear q = record q { deq = [] }

  unfoldable pub close : BlockDeque A → BlockDeque A
  close q = record q {
    deq = [];
    is_close = true;
    consumers_asleep = 0;
    consumers_awake = q.consumers_awake + q.consumers_asleep;
    producers_asleep = 0;
    producers_awake = q.producers_awake + q.producers_asleep;
  }

  unfoldable pub consume : BlockDeque A → BlockDeque A
  unfolding notify_consumer
  consume q = notify_consumer q

  -- A woken thread runs on, a sleeping one wakes without a notification.
  abbrev pub consumer_runs : BlockDeque A → BlockDeque A
  consumer_runs q = record q { consumers_awake = q.consumers_awake - 1 }

  abbrev pub producer_runs : BlockDeque A → BlockDeque A
  producer_runs q = record q { producers_awake = q.producers_awake - 1 }

  -- What a pass of pop has given to its caller.
  unfoldable pub given : Outcome A → List A
  given sleeps = []
  given refused = []
  given (returned item) = item ∷ []

  -- A step of the queue in use, with the items that it takes in and gives out.
  pub data Step : List A → List A → BlockDeque A → BlockDeque A → Type ℓ where
    push_comes : (x : A) (q : BlockDeque A) → full q ≡ false → Step (x ∷ []) [] q (push_back x q).1
    push_waits : (x : A) (q : BlockDeque A) → full q ≡ true → Step [] [] q (push_back x q).1
    push_goes_on :
        (x : A) (q : BlockDeque A)
        → 0 < q.producers_awake
        → full q ≡ false
        → Step (x ∷ []) [] q (push_back x (producer_runs q)).1
    push_waits_on :
        (x : A) (q : BlockDeque A)
        → 0 < q.producers_awake
        → full q ≡ true
        → Step [] [] q (push_back x (producer_runs q)).1
    pops : (q : BlockDeque A) → Step [] (given (pop q).0) q (pop q).1
    pops_on :
        (q : BlockDeque A)
        → 0 < q.consumers_awake
        → Step [] (given (pop (consumer_runs q)).0) q (pop (consumer_runs q)).1
    pokes : (q : BlockDeque A) → Step [] [] q (consume q)

  -- What has gone in and come out, newest step last.
  pub data Reach (n : ℕ) : List A → List A → BlockDeque A → Type ℓ where
    start : Reach n [] [] (create n)
    next :
        {ins outs i o : List A} {q r : BlockDeque A}
        → Reach n ins outs q
        → Step i o q r
        → Reach n (ins ++ i) (outs ++ o) r
