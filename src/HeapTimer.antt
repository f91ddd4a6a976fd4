-- ===== src/HeapTimer.antt =====
-- tracker/src/single/heaptimer.h and heaptimer.cpp: the heap of connection deadlines. `heap_` is a
-- list, `ref_` a function from ids to positions. A read of `heap_` out of range is `none`; the
-- sifting loops only touch positions below the one that was checked, so they read with a default.
-- Times are nanoseconds; a callback is a number that `run_cb`, a parameter, interprets.
pub mod Arrays
pub mod Heap
pub mod Sift
pub mod Refs
pub mod View
pub mod Valid
pub mod Removal
pub mod Insertion
pub mod Callbacks
pub mod Tick
pub mod CloseUser
mod Tests
use dfs_system.Base.{
  ℕ, zero, suc, ◌+◌, ◌-◌, ◌*◌, ◌/◌, ◌%◌, ◌^◌, Bool, true, false, ◌&&◌, List, [], ◌∷◌, ◌++◌, Option,
  none, some, if◌then◌else◌, ltb, leb, ◌==◌, length, get_or, set, take,
}

pub record TimerNode : Type 0 where
  pub id : ℕ
  pub expires : ℕ
  pub cb : ℕ

abbrev pub no_node : TimerNode
no_node = record { id = 0; expires = 0; cb = 0 }

pub record HeapTimer : Type 0 where
  pub heap : List TimerNode
  pub ref : ℕ → Option ℕ

-- heap_[i]
abbrev pub at : List TimerNode → ℕ → TimerNode
at heap i = get_or heap i no_node

-- ref_[id] = i and ref_.erase(id)
abbrev pub put : (ℕ → Option ℕ) → ℕ → ℕ → ℕ → Option ℕ
put ref id i j = if j == id then some i else ref j

abbrev pub unset : (ℕ → Option ℕ) → ℕ → ℕ → Option ℕ
unset ref id j = if j == id then none else ref j

-- TimerNode::operator<
abbrev pub less : TimerNode → TimerNode → Bool
less a b = ltb a.expires b.expires

abbrev pub swap : List TimerNode → ℕ → ℕ → List TimerNode
swap heap u v = set (set heap u (at heap v)) v (at heap u)

-- SwapNode_
unfoldable pub swap_node : ℕ → ℕ → HeapTimer → HeapTimer
swap_node u v t =
    let heap = swap t.heap u v in
    record { heap = heap; ref = put (put t.ref (at heap u).id u) (at heap v).id v }

abbrev pub parent : ℕ → ℕ
parent i = (i - 1) / 2

-- The loop of siftup_; the position falls, so the first one is fuel enough.
unfoldable pub siftup_loop : ℕ → ℕ → HeapTimer → HeapTimer
unfolding swap_node
siftup_loop zero idx t = t
siftup_loop (suc k) idx t =
    let f = parent idx in
    let risen = swap_node f idx t in
    let rest = siftup_loop k f risen in
    if less (at t.heap f) (at t.heap idx) then t else if f == 0 then risen else rest

unfoldable pub siftup : ℕ → HeapTimer → HeapTimer
unfolding siftup_loop
siftup idx t = if idx == 0 then t else siftup_loop idx idx t

-- The smaller of the two sons of `i`, if the right one exists.
unfoldable pub son : List TimerNode → ℕ → ℕ → ℕ
son heap n i =
    let j = i * 2 + 1 in if ltb (j + 1) n && less (at heap (j + 1)) (at heap j) then j + 1 else j

-- The loop of siftdown_ with the position where it ends; it climbs below `n`.
unfoldable pub siftdown_loop : ℕ → ℕ → ℕ → HeapTimer → ℕ × HeapTimer
unfolding son swap_node
siftdown_loop zero n i t = (i, t)
siftdown_loop (suc k) n i t =
    let j = son t.heap n i in
    let rest = siftdown_loop k n j (swap_node i j t) in
    if ltb (i * 2 + 1) n then if less (at t.heap i) (at t.heap j) then (i, t) else rest else (i, t)

unfoldable pub siftdown : ℕ → ℕ → HeapTimer → Bool × HeapTimer
unfolding siftdown_loop
siftdown idx n t = let (i, t') = siftdown_loop n n idx t in (ltb idx i, t')

-- `if(!siftdown_(i, n)) siftup_(i)`
unfoldable pub sift : ℕ → ℕ → HeapTimer → HeapTimer
unfolding siftdown siftup
sift i n t = let (moved, t') = siftdown i n t in if moved then t' else siftup i t'

-- ref_.erase(heap_.back().id); heap_.pop_back();
unfoldable pub drop_back : HeapTimer → HeapTimer
drop_back t =
    let n = length t.heap - 1 in record { heap = take n t.heap; ref = unset t.ref (at t.heap n).id }

unfoldable pub del : ℕ → HeapTimer → HeapTimer
unfolding sift swap_node drop_back
del idx t =
    let n = length t.heap - 1 in
    if leb (length t.heap) idx
    then t
    else drop_back (if ltb idx n then sift idx n (swap_node idx n t) else t)

-- Clock::now() + MS(timeout)
abbrev pub deadline : ℕ → ℕ → ℕ
deadline now timeout = now + timeout * 1_000_000

unfoldable pub push_back : TimerNode → HeapTimer → HeapTimer
push_back node t = record { heap = t.heap ++ node ∷ []; ref = put t.ref node.id (length t.heap) }

-- add, on a known id at position `i`.
unfoldable pub renew : ℕ → ℕ → ℕ → HeapTimer → Option HeapTimer
unfolding sift
renew i expires cb t =
    if ltb i (length t.heap)
    then some (
        sift i (length t.heap) (record t {
          heap = set t.heap i (record { id = (at t.heap i).id; expires = expires; cb = cb });
        }))
    else none

unfoldable pub add : ℕ → ℕ → ℕ → ℕ → HeapTimer → Option HeapTimer
unfolding push_back siftup renew
add now id timeout cb t = elim (t.ref id) [
  | none ↦ some (
      siftup (length t.heap)
        (push_back (record { id = id; expires = deadline now timeout; cb = cb }) t))
  | some i ↦ renew i (deadline now timeout) cb t
]

-- `ref_[id]` enters an unknown id with position 0.
unfoldable pub ref_index : ℕ → HeapTimer → ℕ × HeapTimer
ref_index id t = elim (t.ref id) [ some i ↦ (i, t) | none ↦ (0, record t { ref = put t.ref id 0 }) ]

unfoldable pub postpone : ℕ → ℕ → HeapTimer → Option HeapTimer
unfolding siftdown
postpone i expires t =
    if ltb i (length t.heap)
    then some
        (siftdown i (length t.heap) (record t {
          heap =
              set t.heap i
                (record { id = (at t.heap i).id; expires = expires; cb = (at t.heap i).cb });
        })).1
    else none

unfoldable pub update : ℕ → ℕ → ℕ → HeapTimer → Option HeapTimer
unfolding ref_index postpone
update now id timeout t = let (i, t') = ref_index id t in postpone i (deadline now timeout) t'

unfoldable pub erase : ℕ → HeapTimer → Option HeapTimer
unfolding del
erase id t = if length t.heap == 0 then some t else elim (t.ref id) [
  | some i ↦ if ltb i (length t.heap) then some (del i t) else none
  | none ↦ some t
]

abbrev pub clear : HeapTimer
clear = record { heap = []; ref = λ id. none }

unfoldable pub pop : HeapTimer → HeapTimer
unfolding del
pop t = del 0 t
