-- ===== src/HeapTimer/CloseUser.antt =====
-- heaptimer.cpp with the tracker's own callback, and update on an id that has no timer.
use dfs_system.Base.{
  ℕ, suc, ◌+◌, ◌-◌, ◌≤◌, ◌<◌, ◌≡◌, ◌≢◌, ap, ◌∙◌, none, some, arith, true, false, if◌then◌else◌,
  ◌==◌, length, length-set, set, inl, inr, Bool-cases, Option-cases,
}
use dfs_system.HeapTimer.{
  TimerNode, HeapTimer, at, put, pop, del, erase, swap_node, update, ref_index, postpone, deadline,
  siftdown,
}
use dfs_system.HeapTimer.Arrays.{at-set, at-swap, length-swap}
use dfs_system.HeapTimer.Sift.{siftdown_keeps}
use dfs_system.HeapTimer.Callbacks.{close_user, tick_loop, tick}
use dfs_system.HeapTimer.View.{find, find-at, find-some}
use dfs_system.HeapTimer.Refs.{Agrees}
use dfs_system.HeapTimer.Valid.{IsValid, Becomes}
use dfs_system.HeapTimer.Removal.{pop-Becomes, del-Becomes, length-del}
use dfs_system.HeapTimer.Tick.{runs}

-- A due front whose callback is close_user of its own id.
module _ (t : HeapTimer) (v : IsValid t) (two : 2 ≤ length t.heap) where
  closed : close_user (at t.heap 0).id t ≡ del 0 t
  unfolding close_user erase
  closed = ground (arith, v.agrees.found 0 (omega arith))

  closed-Becomes : Becomes (λ id. if id == (at t.heap 0).id then none else find id t) (del 0 t)
  closed-Becomes = del-Becomes 0 t v (omega arith)

  closed-some : 0 < length (del 0 t).heap
  closed-some = omega (arith, length-del 0 t v (omega arith), two)

  -- The timer that comes to the front when the due one is erased.
  next_up : TimerNode
  next_up = at (del 0 t).heap 0

  next_up-kept : (find next_up.id t ≡ some next_up) × (next_up.id ≢ (at t.heap 0).id)
  unfolding next_up
  next_up-kept =
      let b = closed-Becomes in
      let there = find-at 0 (del 0 t) b.valid.agrees closed-some in
      (ground (arith, b.seen next_up.id, there), λ e. ground (arith, b.seen next_up.id, there, e))

  twice-Becomes :
      Becomes (λ id. if id == next_up.id then none else find id (del 0 t)) (pop (del 0 t))
  unfolding next_up
  twice-Becomes = pop-Becomes (del 0 t) closed-Becomes.valid closed-some

  stops :
      (now : ℕ)
      → ((id : ℕ) (x : TimerNode) → find id t ≡ some x → id ≢ (at t.heap 0).id → runs now x ≡ true)
      → (k r : ℕ) → tick_loop close_user (suc k) r (λ _. now) (pop (del 0 t)) ≡ some (pop (del 0 t))
  unfolding tick_loop
  stops now others k r =
      let t2 = pop (del 0 t) in
      elim (Bool-cases (length t2.heap == 0)) [
        | inl empty ↦ rw empty
        | inr full ↦
            let x = at t2.heap 0 in
            let there : find x.id t2 ≡ some x =
              find-at 0 t2 twice-Becomes.valid.agrees (ground arith) in
            let once : find x.id (del 0 t) ≡ some x =
              ground (arith, twice-Becomes.seen x.id, there) in
            let first : find x.id t ≡ some x = ground (arith, closed-Becomes.seen x.id, once) in
            let apart : x.id ≢ (at t.heap 0).id =
              λ e. ground (arith, closed-Becomes.seen x.id, once, e) in
            rw (full, others x.id x first apart)
      ]

  two_rounds :
      (now k r : ℕ)
      → (at t.heap 0).cb ≡ (at t.heap 0).id
      → runs now (at t.heap 0) ≡ false
      → ((id : ℕ) (x : TimerNode) → find id t ≡ some x → id ≢ (at t.heap 0).id → runs now x ≡ true)
      → tick_loop close_user (suc (suc k)) r (λ _. now) t ≡ some (pop (del 0 t))
  unfolding tick_loop
  two_rounds now k r own due others =
      let full : (length t.heap == 0) ≡ false = ground arith in
      rw (full, due, own, closed) (stops now others k (r + 1))

  -- When the first timer alone is due and its callback closes its connection, tick also drops a
  -- timer that is still running: the one that comes to the front when the callback has erased the
  -- due one.
  pub tick_drops_running :
      (now : ℕ)
      → (at t.heap 0).cb ≡ (at t.heap 0).id
      → runs now (at t.heap 0) ≡ false
      → ((id : ℕ) (x : TimerNode) → find id t ≡ some x → id ≢ (at t.heap 0).id → runs now x ≡ true)
      → (y : TimerNode) × (find y.id t ≡ some y)
        × (runs now y ≡ true)
        × (t' : HeapTimer) × (tick close_user (λ _. now) t ≡ some t')
        × (find y.id t' ≡ none)
  unfolding tick
  tick_drops_running now own due others =
      let (kept, apart) = next_up-kept in
      let fuel : length t.heap + 1 ≡ suc (suc (length t.heap - 1)) = omega arith in
      (
        next_up,
        kept,
        others next_up.id next_up kept apart,
        pop (del 0 t),
        ap (λ k. tick_loop close_user k 0 (λ _. now) t) fuel
            ∙ two_rounds now (length t.heap - 1) 0 own due others,
        ground (arith, twice-Becomes.seen next_up.id),
      )

-- An id without a timer that `ref_` maps to the front.
abbrev Stray : ℕ → HeapTimer → Type 0
Stray id t = (t.ref id ≡ some 0) × ((i : ℕ) → i < length t.heap → (at t.heap i).id ≢ id)

swap_node-Stray :
    (n m id : ℕ)
    → n ≤ m
    → (u v : ℕ) (t : HeapTimer) → u < n
    → v < n
    → (length t.heap ≡ m) × Stray id t
    → (length (swap_node u v t).heap ≡ m) × Stray id (swap_node u v t)
unfolding swap_node
swap_node-Stray n m id le u v t p q (e, (r, apart)) =
    let p' : u < length t.heap = omega arith in
    let q' : v < length t.heap = omega arith in
    let size = length-swap t.heap u v in
    (
      size ∙ e,
      (
        ground (
          arith,
          r,
          at-swap t.heap u v u p' q',
          at-swap t.heap u v v p' q',
          apart u p',
          apart v q',
        ),
        λ i h. ground (arith, at-swap t.heap u v i p' q', apart i, apart u p', apart v q', size),
      ),
    )

unknown_ref : (id : ℕ) (t : HeapTimer) → find id t ≡ none → t.ref id ≡ none
unknown_ref id t h = elim (Option-cases (t.ref id)) [
  | inl e ↦ e
  | inr (i, e) ↦ cc (find-some id i t e)
]

-- update on an id that has no timer changes the first timer's deadline instead, and enters the id
-- into `ref_` with the position of a timer that is not its own.
pub update_unknown_breaks :
    (now id timeout : ℕ) (t : HeapTimer)
    → IsValid t
    → find id t ≡ none
    → 0 < length t.heap
    → (t' : HeapTimer) × (update now id timeout t ≡ some t') × ¬ Agrees t'
unfolding update ref_index postpone
update_unknown_breaks now id timeout t v unknown p =
    let missing : t.ref id ≡ none = ground (arith, unknown_ref id t unknown) in
    let n = length t.heap in
    let node : TimerNode = record {
      id = (at t.heap 0).id;
      expires = deadline now timeout;
      cb = (at t.heap 0).cb;
    } in
    let t1 : HeapTimer = record { heap = set t.heap 0 node; ref = put t.ref id 0 } in
    let size : length t1.heap ≡ n = length-set t.heap 0 node in
    let apart : (i : ℕ) → i < length t1.heap → (at t1.heap i).id ≢ id = λ i h e.
      ground (arith, at-set t.heap 0 i node p, v.agrees.found i, v.agrees.found 0 p, e, size) in
    let (size', (r, apart')) =
      siftdown_keeps (λ s. (length s.heap ≡ n) × Stray id s) n
        (swap_node-Stray n n id (omega arith)) 0 t1 p (size, (ground arith, apart)) in
    ((siftdown 0 n t1).1, ground (arith, missing), λ a. apart' 0 (omega arith) (a.back id 0 r).1)
