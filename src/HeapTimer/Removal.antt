-- ===== src/HeapTimer/Removal.antt =====
-- heaptimer.cpp: del_, pop and erase keep the heap in order and take one timer out of the map.
use dfs_system.Base.{
  ℕ, zero, suc, ◌+◌, ◌-◌, ◌≤◌, ◌<◌, ◌≡◌, ◌∙◌, none, some, arith, if◌then◌else◌, ◌==◌, ltb, leb,
  false, length, length-take, inl, inr, Bool-cases, Option-cases,
}
use dfs_system.HeapTimer.{
  TimerNode, HeapTimer, at, swap_node, drop_back, sift, parent, del, erase, pop,
}
use dfs_system.HeapTimer.Arrays.{at-swap, at-take, length-swap}
use dfs_system.HeapTimer.Heap.{Ordered}
use dfs_system.HeapTimer.Sift.{sift_keeps, keys}
use dfs_system.HeapTimer.Sift.Order.{sift-Ordered}
use dfs_system.HeapTimer.Refs.{Agrees, swap_node-Agrees, drop_back-Agrees, sift-Agrees}
use dfs_system.HeapTimer.View.{
  find, find-drop_back, find-sift, find-swap_node, find-none, find-some,
}
use dfs_system.HeapTimer.Valid.{IsValid, Becomes, changed-Around}

drop_back-Ordered :
    (t : HeapTimer)
    → Ordered (length t.heap - 1) (keys t)
    → Ordered (length (drop_back t).heap) (keys (drop_back t))
unfolding drop_back
drop_back-Ordered t o c p q =
    let n = length t.heap - 1 in
    let size = length-take n t.heap in
    ground (arith, at-take t.heap n c, at-take t.heap n (parent c), o c p)

-- Sifting below `n` leaves position `n` alone.
abbrev Fixed : ℕ → ℕ → TimerNode → HeapTimer → Type 0
Fixed m n x t = (length t.heap ≡ m) × (at t.heap n ≡ x)

swap_node-Fixed :
    (n m : ℕ) (x : TimerNode)
    → n < m
    → (u v : ℕ) (t : HeapTimer) → u < n
    → v < n
    → Fixed m n x t
    → Fixed m n x (swap_node u v t)
unfolding swap_node
swap_node-Fixed n m x le u v t p q (e, s) =
    (length-swap t.heap u v ∙ e, ground (arith, at-swap t.heap u v n (omega arith) (omega arith)))

module _ (i : ℕ) (t : HeapTimer) (v : IsValid t) (h : i < length t.heap - 1) where
  moved : HeapTimer
  moved = sift i (length t.heap - 1) (swap_node i (length t.heap - 1) t)

  swapped-size : length (swap_node i (length t.heap - 1) t).heap ≡ length t.heap
  unfolding swap_node
  swapped-size = length-swap t.heap i (length t.heap - 1)

  swapped-Agrees : Agrees (swap_node i (length t.heap - 1) t)
  swapped-Agrees = swap_node-Agrees i (length t.heap - 1) t (omega arith) (omega arith) v.agrees

  moved-size : length moved.heap ≡ length t.heap
  unfolding moved
  moved-size =
      (sift-Agrees (length t.heap - 1) i (swap_node i (length t.heap - 1) t)
        (omega (arith, swapped-size)) h swapped-Agrees).0
      ∙ swapped-size

  moved-Agrees : Agrees moved
  unfolding moved
  moved-Agrees =
      (sift-Agrees (length t.heap - 1) i (swap_node i (length t.heap - 1) t)
        (omega (arith, swapped-size)) h swapped-Agrees).1

  find-moved : (id : ℕ) → find id moved ≡ find id t
  unfolding moved
  find-moved id =
      find-sift (length t.heap - 1) i (swap_node i (length t.heap - 1) t) id
        (omega (arith, swapped-size)) h swapped-Agrees
      ∙ find-swap_node i (length t.heap - 1) t (omega arith) (omega arith) v.agrees id

  moved-last : at moved.heap (length t.heap - 1) ≡ at t.heap i
  unfolding moved swap_node
  moved-last =
      let n = length t.heap - 1 in
      (sift_keeps (Fixed (length t.heap) n (at t.heap i)) n
        (swap_node-Fixed n (length t.heap) (at t.heap i) (omega arith)) i (swap_node i n t) h
        (swapped-size, ground (arith, at-swap t.heap i n n (omega arith) (omega arith)))).1

  moved-Ordered : Ordered (length moved.heap - 1) (keys moved)
  unfolding moved swap_node
  moved-Ordered =
      let n = length t.heap - 1 in
      let size : length moved.heap - 1 ≡ n = omega (arith, moved-size) in
      rw size (
        sift-Ordered n i (swap_node i n t) (omega (arith, swapped-size)) h (
          changed-Around (length t.heap) n i (keys t) (keys (swap_node i n t)) (omega arith) h
            v.ordered (λ j p q. ground (arith, at-swap t.heap i n j (omega arith) (omega arith)))))

  dropped-Becomes :
      Becomes (λ id. if id == (at t.heap i).id then none else find id t) (drop_back moved)
  dropped-Becomes =
      let some_left : 0 < length moved.heap = omega (arith, moved-size) in
      record {
        valid = record {
          ordered = drop_back-Ordered moved moved-Ordered;
          agrees = drop_back-Agrees moved some_left moved-Agrees;
        };
        seen = λ id. ground (
          arith,
          find-drop_back moved id some_left moved-Agrees,
          find-moved id,
          moved-last,
          moved-size,
        );
      }

last-Becomes :
    (t : HeapTimer)
    → IsValid t
    → 0 < length t.heap
    → Becomes
        (λ id. if id == (at t.heap (length t.heap - 1)).id then none else find id t)
        (drop_back t)
last-Becomes t v p = record {
  valid = record {
    ordered = drop_back-Ordered t (λ c r s. v.ordered c r (omega arith));
    agrees = drop_back-Agrees t p v.agrees;
  };
  seen = λ id. find-drop_back t id p v.agrees;
}

-- del_ removes the timer at a position, and only that.
pub del-Becomes :
    (i : ℕ) (t : HeapTimer)
    → IsValid t
    → i < length t.heap
    → Becomes (λ id. if id == (at t.heap i).id then none else find id t) (del i t)
unfolding del moved
del-Becomes i t v h =
    let inside : leb (length t.heap) i ≡ false = ground arith in
    rw inside (elim (Bool-cases (ltb i (length t.heap - 1))) [
      | inl before ↦ rw before (dropped-Becomes i t v (ground arith))
      | inr last ↦
          let e : i ≡ length t.heap - 1 = ground arith in
          rw (last, e) (last-Becomes t v (omega arith))
    ])

length-drop_back :
    (t : HeapTimer) → 0 < length t.heap → length (drop_back t).heap + 1 ≡ length t.heap
unfolding drop_back
length-drop_back t p = omega (arith, length-take (length t.heap - 1) t.heap)

pub length-del :
    (i : ℕ) (t : HeapTimer)
    → IsValid t
    → i < length t.heap
    → length (del i t).heap + 1 ≡ length t.heap
unfolding del moved
length-del i t v h =
    let inside : leb (length t.heap) i ≡ false = ground arith in
    rw inside (elim (Bool-cases (ltb i (length t.heap - 1))) [
      | inl before ↦
          let size = moved-size i t v (ground arith) in
          rw before (length-drop_back (moved i t v (ground arith)) (omega (arith, size)) ∙ size)
      | inr last ↦ rw last (length-drop_back t (omega arith))
    ])

-- No deadline of the heap is before that of its front.
front_le : (k i n : ℕ) (key : ℕ → ℕ) → Ordered n key → i < n → i < k → key 0 ≤ key i
front_le zero i n key o h f = absurd (omega arith)
front_le (suc k) zero n key o h f = omega arith
front_le (suc k) (suc i) n key o h f = omega (
  arith,
  o (suc i) (omega arith) h,
  front_le k (parent (suc i)) n key o (omega arith) (omega arith),
)

pub find-back :
    (id : ℕ) (x : TimerNode) (t : HeapTimer)
    → Agrees t
    → find id t ≡ some x
    → (i : ℕ) × (i < length t.heap) × (at t.heap i ≡ x)
find-back id x t a h = elim (Option-cases (t.ref id)) [
  | inl e ↦ cc (find-none id t e)
  | inr (i, e) ↦ (i, (a.back id i e).0, ground (arith, find-some id i t e))
]

-- The front of the heap is a timer of the map, and none of the map expires before it.
pub front_least :
    (id : ℕ) (x : TimerNode) (t : HeapTimer)
    → IsValid t
    → find id t ≡ some x
    → (at t.heap 0).expires ≤ x.expires
front_least id x t v h =
    let (i, inside, e) = find-back id x t v.agrees h in
    rw (← e) (front_le (suc i) i (length t.heap) (keys t) v.ordered inside (omega arith))

-- pop takes out the timer that expires first, and keeps the others.
pub pop-Becomes :
    (t : HeapTimer)
    → IsValid t
    → 0 < length t.heap
    → Becomes (λ id. if id == (at t.heap 0).id then none else find id t) (pop t)
unfolding pop
pop-Becomes t v h = del-Becomes 0 t v h

-- erase takes out the timer of an id, and does nothing for an unknown one.
pub erase-Becomes :
    (key : ℕ) (t : HeapTimer)
    → IsValid t
    → (t' : HeapTimer) × (erase key t ≡ some t')
      × Becomes (λ id. if id == key then none else find id t) t'
unfolding erase
erase-Becomes key t v = elim (Option-cases (t.ref key)) [
  | inl e ↦
      (t, ground (arith, e), record { valid = v; seen = λ id. ground (arith, find-none key t e) })
  | inr (i, e) ↦
      let (inside, same) = v.agrees.back key i e in
      (del i t, ground (arith, e), rw same at (del-Becomes i t v inside))
]
