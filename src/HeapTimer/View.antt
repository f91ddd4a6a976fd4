-- ===== src/HeapTimer/View.antt =====
-- heaptimer.cpp seen from outside: a map from ids to timers. Sifting does not change the map.
use dfs_system.Base.{
  ℕ, ◌-◌, ◌≤◌, ◌<◌, ◌≡◌, refl, ◌∙◌, Option, none, some, arith, if◌then◌else◌, ◌==◌, length, set,
  inl, inr, Option-cases,
}
use dfs_system.HeapTimer.{
  TimerNode, HeapTimer, at, swap_node, drop_back, push_back, sift, siftup, siftdown,
}
use dfs_system.HeapTimer.Arrays.{at-set, at-swap, at-append, at-take, length-swap}
use dfs_system.HeapTimer.Sift.{siftup_keeps, siftdown_keeps, sift_keeps}
use dfs_system.HeapTimer.Refs.{Agrees, swap_node-Agrees}

-- The timer of an id.
unfoldable pub find : ℕ → HeapTimer → Option TimerNode
find id t = elim (t.ref id) [ none ↦ none | some i ↦ some (at t.heap i) ]

pub find-none : (id : ℕ) (t : HeapTimer) → t.ref id ≡ none → find id t ≡ none
unfolding find
find-none id t e = rw (e, find)

pub find-some : (id i : ℕ) (t : HeapTimer) → t.ref id ≡ some i → find id t ≡ some (at t.heap i)
unfolding find
find-some id i t e = rw (e, find)

pub find-at :
    (i : ℕ) (t : HeapTimer)
    → Agrees t
    → i < length t.heap
    → find (at t.heap i).id t ≡ some (at t.heap i)
find-at i t a h = find-some (at t.heap i).id i t (a.found i h)

module _ (u v : ℕ) (t : HeapTimer) (p : u < length t.heap) (q : v < length t.heap)
    (a : Agrees t) where
  pub find-swap_node : (id : ℕ) → find id (swap_node u v t) ≡ find id t
  unfolding find swap_node
  find-swap_node id = elim (Option-cases (t.ref id)) [
    | inl e ↦
        ground
          (arith, at-swap t.heap u v u p q, at-swap t.heap u v v p q, a.found u p, a.found v q, e)
    | inr (i, e) ↦ ground (
      arith,
      at-swap t.heap u v i p q,
      at-swap t.heap u v u p q,
      at-swap t.heap u v v p q,
      a.found u p,
      a.found v q,
      a.back id i e,
      e,
      a.found i,
    )
  ]

-- Another deadline and callback for the timer at `i`.
pub find-set :
    (i expires cb : ℕ) (t : HeapTimer) (id : ℕ)
    → i < length t.heap
    → Agrees t
    → let node : TimerNode = record { id = (at t.heap i).id; expires = expires; cb = cb } in
      find id (record t { heap = set t.heap i node })
      ≡ (if id == (at t.heap i).id then some node else find id t)
unfolding find
find-set i expires cb t id p a =
    let node : TimerNode = record { id = (at t.heap i).id; expires = expires; cb = cb } in
    elim (Option-cases (t.ref id)) [
      | inl e ↦ ground (arith, e, a.found i p)
      | inr (j, e) ↦ ground (arith, at-set t.heap i j node p, a.found i p, a.back id j e, e)
    ]

pub find-push_back :
    (node : TimerNode) (t : HeapTimer) (id : ℕ)
    → Agrees t
    → find id (push_back node t) ≡ (if id == node.id then some node else find id t)
unfolding find push_back
find-push_back node t id a = elim (Option-cases (t.ref id)) [
  | inl e ↦ ground (arith, at-append t.heap node (length t.heap), e)
  | inr (j, e) ↦
      ground
        (arith, at-append t.heap node (length t.heap), at-append t.heap node j, a.back id j e, e)
]

-- The last timer goes, the others stay.
pub find-drop_back :
    (t : HeapTimer) (id : ℕ)
    → 0 < length t.heap
    → Agrees t
    → find id (drop_back t) ≡ (if id == (at t.heap (length t.heap - 1)).id then none else find id t)
unfolding find drop_back
find-drop_back t id p a = elim (Option-cases (t.ref id)) [
  | inl e ↦ ground (arith, e)
  | inr (j, e) ↦
      let n = length t.heap - 1 in
      ground (arith, at-take t.heap n j, a.back id j e, a.found n (omega arith), e)
]

abbrev Seen : ℕ → ℕ → Option TimerNode → HeapTimer → Type 0
Seen m id seen t = (length t.heap ≡ m) × Agrees t × (find id t ≡ seen)

swap_node-Seen :
    (n m id : ℕ) (seen : Option TimerNode)
    → n ≤ m
    → (u v : ℕ) (t : HeapTimer) → u < n
    → v < n
    → Seen m id seen t
    → Seen m id seen (swap_node u v t)
unfolding swap_node
swap_node-Seen n m id seen le u v t p q (e, a, s) =
    let p' : u < length t.heap = omega arith in
    let q' : v < length t.heap = omega arith in
    (
      length-swap t.heap u v ∙ e,
      swap_node-Agrees u v t p' q' a,
      find-swap_node u v t p' q' a id ∙ s,
    )

module _ (n i : ℕ) (t : HeapTimer) (id : ℕ) (le : n ≤ length t.heap) (h : i < n)
    (a : Agrees t) where
  pub find-sift : find id (sift i n t) ≡ find id t
  find-sift =
      (sift_keeps (Seen (length t.heap) id (find id t)) n
        (swap_node-Seen n (length t.heap) id (find id t) le) i t h (refl, a, refl)).2

  pub find-siftup : find id (siftup i t) ≡ find id t
  find-siftup =
      (siftup_keeps (Seen (length t.heap) id (find id t)) n
        (swap_node-Seen n (length t.heap) id (find id t) le) i t h (refl, a, refl)).2

  pub find-siftdown : find id (siftdown i n t).1 ≡ find id t
  find-siftdown =
      (siftdown_keeps (Seen (length t.heap) id (find id t)) n
        (swap_node-Seen n (length t.heap) id (find id t) le) i t h (refl, a, refl)).2
