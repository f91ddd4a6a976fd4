-- ===== src/BlockDeque/Wakeups.antt =====
-- blockqueue.h: no wake-up is lost while the queue is in use.
use dfs_system.Base.{ℕ, ◌+◌, ◌<◌, ◌≤◌, ◌≡◌, refl, List, [], ◌∷◌, arith, length, length-append}
use dfs_system.BlockDeque.{
  BlockDeque, Step, Reach, start, next, push_comes, push_waits, push_goes_on, push_waits_on, pops,
  pops_on, pokes, push_back, take_front, consumer_runs, pop, consume, create,
}

module _ {ℓ} {A : Type ℓ} where
  -- Consumers do not sleep beside more items than there are woken consumers, nor producers beside
  -- more free places than there are woken producers.
  pub record IsCalled (q : BlockDeque A) : Type 0 where
    pub consumers : 0 < q.consumers_asleep → length q.deq ≤ q.consumers_awake
    pub producers : 0 < q.producers_asleep → q.capacity ≤ length q.deq + q.producers_awake

  take_front-IsCalled :
      (xs : List A) (q : BlockDeque A) → q.deq ≡ xs → IsCalled q → IsCalled (take_front xs q).1
  unfolding take_front
  take_front-IsCalled [] q e c = ground (arith, e, c.consumers, c.producers)
  take_front-IsCalled (x ∷ xs) q e c = ground (arith, e, c.consumers, c.producers)

  take_front-on :
      (xs : List A) (q : BlockDeque A)
      → q.deq ≡ xs
      → 0 < q.consumers_awake
      → IsCalled q
      → IsCalled (take_front xs (consumer_runs q)).1
  unfolding take_front
  take_front-on [] q e p c = ground (arith, e, c.consumers, c.producers)
  take_front-on (x ∷ xs) q e p c = ground (arith, e, c.consumers, c.producers)

  Step-IsCalled : {i o : List A} {q r : BlockDeque A} → Step i o q r → IsCalled q → IsCalled r
  unfolding push_back pop consume
  Step-IsCalled (push_comes x q f) c =
      ground (arith, c.consumers, c.producers, length-append q.deq (x ∷ []))
  Step-IsCalled (push_waits x q f) c = ground (arith, c.consumers, c.producers)
  Step-IsCalled (push_goes_on x q p f) c =
      ground (arith, c.consumers, c.producers, length-append q.deq (x ∷ []))
  Step-IsCalled (push_waits_on x q p f) c = ground (arith, c.consumers, c.producers)
  Step-IsCalled (pops q) c = take_front-IsCalled q.deq q refl c
  Step-IsCalled (pops_on q p) c = take_front-on q.deq q refl p c
  Step-IsCalled (pokes q) c = ground (arith, c.consumers, c.producers)

  -- In every reachable state, sleeping consumers leave at most one item for each consumer that was
  -- woken, and sleeping producers at most one free place for each producer that was woken.
  pub Reach-IsCalled :
      {n : ℕ} {ins outs : List A} {q : BlockDeque A} → Reach n ins outs q → IsCalled q
  unfolding create
  Reach-IsCalled start = record {
    consumers = λ p. absurd (omega arith);
    producers = λ p. absurd (omega arith);
  }
  Reach-IsCalled (next s st) = Step-IsCalled st (Reach-IsCalled s)
