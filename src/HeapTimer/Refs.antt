-- ===== src/HeapTimer/Refs.antt =====
-- heaptimer.cpp: `ref_` holds the position of each timer of the heap, and nothing else.
use dfs_system.Base.{
  ℕ, ◌-◌, ◌≤◌, ◌<◌, ◌≡◌, refl, ◌∙◌, [], ◌∷◌, none, some, arith, length, set, length-set,
  length-append, length-take,
}
use dfs_system.HeapTimer.{
  TimerNode, HeapTimer, at, swap, swap_node, drop_back, push_back, sift, siftup, siftdown,
}
use dfs_system.HeapTimer.Arrays.{at-set, at-swap, at-append, at-take, length-swap}
use dfs_system.HeapTimer.Sift.{siftup_keeps, siftdown_keeps, sift_keeps}

pub record Agrees (t : HeapTimer) : Type 0 where
  pub found : (i : ℕ) → i < length t.heap → t.ref (at t.heap i).id ≡ some i
  pub back : (id i : ℕ) → t.ref id ≡ some i → (i < length t.heap) × ((at t.heap i).id ≡ id)

-- The ids of two positions differ.
pub Agrees-injective :
    (t : HeapTimer) (i j : ℕ)
    → Agrees t
    → i < length t.heap
    → j < length t.heap
    → (at t.heap i).id ≡ (at t.heap j).id
    → i ≡ j
Agrees-injective t i j a p q e = cc (a.found i p, a.found j q)

module _ (u v : ℕ) (t : HeapTimer) (p : u < length t.heap) (q : v < length t.heap)
    (a : Agrees t) where
  swap_node-found :
      (i : ℕ) → i < length t.heap → (swap_node u v t).ref (at (swap t.heap u v) i).id ≡ some i
  unfolding swap_node
  swap_node-found i h = ground (
    arith,
    at-swap t.heap u v i p q,
    at-swap t.heap u v u p q,
    at-swap t.heap u v v p q,
    a.found i h,
    a.found u p,
    a.found v q,
    Agrees-injective t i u a h p,
    Agrees-injective t i v a h q,
    Agrees-injective t u v a p q,
  )

  swap_node-back :
      (id i : ℕ)
      → (swap_node u v t).ref id ≡ some i
      → (i < length t.heap) × ((at (swap t.heap u v) i).id ≡ id)
  unfolding swap_node
  swap_node-back id i h = ground (
    arith,
    at-swap t.heap u v i p q,
    at-swap t.heap u v u p q,
    at-swap t.heap u v v p q,
    a.back id i,
    a.found u p,
    a.found v q,
  )

  pub swap_node-Agrees : Agrees (swap_node u v t)
  unfolding swap_node
  swap_node-Agrees =
      let size = length-swap t.heap u v in
      record {
        found = λ i h. swap_node-found i (omega arith);
        back = λ id i h. let (inside, same) = swap_node-back id i h in (omega arith, same);
      }

-- A new deadline or callback keeps the id.
pub set-Agrees :
    (i expires cb : ℕ) (t : HeapTimer)
    → i < length t.heap
    → Agrees t
    → Agrees (record t {
      heap = set t.heap i (record { id = (at t.heap i).id; expires = expires; cb = cb });
    })
set-Agrees i expires cb t p a =
    let node : TimerNode = record { id = (at t.heap i).id; expires = expires; cb = cb } in
    let size = length-set t.heap i node in
    record {
      found = λ j h. ground (arith, at-set t.heap i j node p, a.found j, a.found i p);
      back = λ id j h.
          let (inside, same) = a.back id j h in
          (omega arith, ground (arith, at-set t.heap i j node p));
    }

pub push_back-Agrees :
    (node : TimerNode) (t : HeapTimer) → t.ref node.id ≡ none → Agrees t → Agrees (push_back node t)
unfolding push_back
push_back-Agrees node t new a =
    let size = length-append t.heap (node ∷ []) in
    record {
      found = λ i h. ground (arith, at-append t.heap node i, a.found i);
      back = λ id i h.
          (ground (arith, a.back id i), ground (arith, at-append t.heap node i, a.back id i));
    }

pub drop_back-Agrees : (t : HeapTimer) → 0 < length t.heap → Agrees t → Agrees (drop_back t)
unfolding drop_back
drop_back-Agrees t p a =
    let n = length t.heap - 1 in
    let size = length-take n t.heap in
    record {
      found = λ i h.
          ground (
            arith,
            at-take t.heap n i,
            a.found i,
            a.found n (omega arith),
            Agrees-injective t i n a,
          );
      back = λ id i h. (
        ground (arith, a.back id i, a.found n (omega arith)),
        ground (arith, at-take t.heap n i, a.back id i, a.found n (omega arith)),
      );
    }

abbrev Kept : ℕ → HeapTimer → Type 0
Kept m t = (length t.heap ≡ m) × Agrees t

swap_node-Kept :
    (n m : ℕ)
    → n ≤ m
    → (u v : ℕ) (t : HeapTimer) → u < n
    → v < n
    → Kept m t
    → Kept m (swap_node u v t)
unfolding swap_node
swap_node-Kept n m le u v t p q (e, a) =
    (length-swap t.heap u v ∙ e, swap_node-Agrees u v t (omega arith) (omega arith) a)

-- Sifting below `n` keeps the size and the agreement.
module _ (n i : ℕ) (t : HeapTimer) (le : n ≤ length t.heap) (h : i < n) (a : Agrees t) where
  pub sift-Agrees : (length (sift i n t).heap ≡ length t.heap) × Agrees (sift i n t)
  sift-Agrees =
      sift_keeps (Kept (length t.heap)) n (swap_node-Kept n (length t.heap) le) i t h (refl, a)

  pub siftup-Agrees : (length (siftup i t).heap ≡ length t.heap) × Agrees (siftup i t)
  siftup-Agrees =
      siftup_keeps (Kept (length t.heap)) n (swap_node-Kept n (length t.heap) le) i t h (refl, a)

  pub siftdown-Agrees : (length (siftdown i n t).1.heap ≡ length t.heap) × Agrees (siftdown i n t).1
  siftdown-Agrees =
      siftdown_keeps (Kept (length t.heap)) n (swap_node-Kept n (length t.heap) le) i t h (refl, a)
