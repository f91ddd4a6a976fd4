-- ===== src/BlockDeque/Fifo.antt =====
-- blockqueue.h: what comes out is what went in, in order, and the bound holds.
use mathlib.Core.List.{append_assoc, append-nil}
use dfs_system.Base.{
  ℕ, ◌≤◌, ◌≡◌, refl, sym, ap, ◌∙◌, List, [], ◌∷◌, ◌++◌, arith, length, length-append,
}
use dfs_system.BlockDeque.{
  BlockDeque, Step, Reach, start, next, push_comes, push_waits, push_goes_on, push_waits_on, pops,
  pops_on, pokes, push_back, take_front, consumer_runs, pop, given, consume, create,
}

module _ {ℓ} {A : Type ℓ} where
  -- What a pass of pop does, by the items that are there.
  take_front-deq :
      (xs : List A) (q : BlockDeque A)
      → q.deq ≡ xs
      → xs ≡ given (take_front xs q).0 ++ (take_front xs q).1.deq
  unfolding take_front given
  take_front-deq [] q e = ground (arith, e)
  take_front-deq (x ∷ xs) q e = ground arith

  take_front-bound :
      (xs : List A) (q : BlockDeque A)
      → q.deq ≡ xs
      → ((take_front xs q).1.capacity ≡ q.capacity)
        × (length (take_front xs q).1.deq ≤ length q.deq)
  unfolding take_front
  take_front-bound [] q e = ground (arith, e)
  take_front-bound (x ∷ xs) q e = ground (arith, e)

  -- A step takes items in at the back, gives them out at the front, and keeps the bound.
  Step-deq : {i o : List A} {q r : BlockDeque A} → Step i o q r → q.deq ++ i ≡ o ++ r.deq
  unfolding push_back pop consume
  Step-deq (push_comes x q f) = ground arith
  Step-deq (push_waits x q f) = ground (arith, append-nil q.deq)
  Step-deq (push_goes_on x q p f) = ground arith
  Step-deq (push_waits_on x q p f) = ground (arith, append-nil q.deq)
  Step-deq (pops q) = append-nil q.deq ∙ take_front-deq q.deq q refl
  Step-deq (pops_on q p) = append-nil q.deq ∙ take_front-deq q.deq (consumer_runs q) refl
  Step-deq (pokes q) = ground (arith, append-nil q.deq)

  Step-capacity : {i o : List A} {q r : BlockDeque A} → Step i o q r → r.capacity ≡ q.capacity
  unfolding push_back pop consume
  Step-capacity (push_comes x q f) = ground arith
  Step-capacity (push_waits x q f) = ground arith
  Step-capacity (push_goes_on x q p f) = ground arith
  Step-capacity (push_waits_on x q p f) = ground arith
  Step-capacity (pops q) = (take_front-bound q.deq q refl).0
  Step-capacity (pops_on q p) = (take_front-bound q.deq (consumer_runs q) refl).0
  Step-capacity (pokes q) = ground arith

  Step-bound :
      {i o : List A} {q r : BlockDeque A}
      → Step i o q r
      → length q.deq ≤ q.capacity
      → length r.deq ≤ q.capacity
  unfolding push_back pop consume
  Step-bound (push_comes x q f) b = ground (arith, length-append q.deq (x ∷ []))
  Step-bound (push_waits x q f) b = ground arith
  Step-bound (push_goes_on x q p f) b = ground (arith, length-append q.deq (x ∷ []))
  Step-bound (push_waits_on x q p f) b = ground arith
  Step-bound (pops q) b = omega (arith, (take_front-bound q.deq q refl).1)
  Step-bound (pops_on q p) b = omega (arith, (take_front-bound q.deq (consumer_runs q) refl).1)
  Step-bound (pokes q) b = ground arith

  -- However the threads interleave, what pop has returned is the beginning of what has gone in, the
  -- queue holds the rest in order, and never more than its capacity.
  pub Reach-fifo :
      {n : ℕ} {ins outs : List A} {q : BlockDeque A}
      → Reach n ins outs q
      → (ins ≡ outs ++ q.deq) × (length q.deq ≤ n) × (q.capacity ≡ n)
  unfolding create
  Reach-fifo start = (refl, omega arith, refl)
  Reach-fifo (next {ins = ins} {outs = outs} {i = i} {o = o} {q = q} {r = r} s st) =
      let (e, b, c) = Reach-fifo s in
      (
        ap (λ (xs : List A). xs ++ i) e
            ∙ append_assoc outs q.deq i
            ∙ ap (λ (xs : List A). outs ++ xs) (Step-deq st)
            ∙ sym (append_assoc outs o r.deq),
        omega (arith, Step-bound st (omega arith)),
        Step-capacity st ∙ c,
      )
