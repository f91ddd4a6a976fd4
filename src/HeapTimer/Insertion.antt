-- ===== src/HeapTimer/Insertion.antt =====
-- heaptimer.cpp: add and update keep the heap in order, and set the deadline of one id.
use dfs_system.Base.{
  ℕ, ◌+◌, ◌≤◌, ◌<◌, ◌≡◌, ◌∙◌, [], ◌∷◌, none, some, arith, if◌then◌else◌, ◌==◌, length, set,
  length-set, length-append, inl, inr, Option-cases,
}
use dfs_system.HeapTimer.{
  TimerNode, HeapTimer, at, push_back, sift, siftup, siftdown, parent, renew, add, deadline,
  postpone, update, ref_index,
}
use dfs_system.HeapTimer.Arrays.{at-set, at-append}
use dfs_system.HeapTimer.Heap.{Around, AboveIs, BelowAre}
use dfs_system.HeapTimer.Sift.{keys}
use dfs_system.HeapTimer.Sift.Order.{sift-Ordered, siftup-Ordered, siftdown-Ordered}
use dfs_system.HeapTimer.Refs.{
  Agrees, set-Agrees, push_back-Agrees, sift-Agrees, siftup-Agrees, siftdown-Agrees,
}
use dfs_system.HeapTimer.View.{
  find, find-set, find-push_back, find-sift, find-siftup, find-siftdown, find-none, find-some,
}
use dfs_system.HeapTimer.Valid.{IsValid, Becomes, changed-Around}

new-Around :
    (node : TimerNode) (t : HeapTimer)
    → IsValid t
    → Around (length t.heap + 1) (keys (push_back node t)) (length t.heap)
      × BelowAre (length t.heap + 1) (keys (push_back node t)) (length t.heap)
unfolding push_back
new-Around node t v = (
  record {
    edges = λ c p q r s.
        ground (arith, at-append t.heap node c, at-append t.heap node (parent c), v.ordered c p);
    bridged = λ c p q r s. absurd (omega arith);
  },
  λ c p q r. absurd (omega arith),
)

pushed-Becomes :
    (node : TimerNode) (t : HeapTimer)
    → IsValid t
    → t.ref node.id ≡ none
    → Becomes
        (λ j. if j == node.id then some node else find j t)
        (siftup (length t.heap) (push_back node t))
pushed-Becomes node t v new =
    let m = length t.heap in
    let t1 = push_back node t in
    let size : length t1.heap ≡ m + 1 = unfold push_back in length-append t.heap (node ∷ []) in
    let a1 : Agrees t1 = push_back-Agrees node t new v.agrees in
    let (around, below) = new-Around node t v in
    let (size', a2) = siftup-Agrees (m + 1) m t1 (omega arith) (omega arith) a1 in
    let whole : length (siftup m t1).heap ≡ m + 1 = size' ∙ size in
    record {
      valid = record {
        ordered = rw whole (siftup-Ordered (m + 1) m t1 (omega arith) (omega arith) around below);
        agrees = a2;
      };
      seen = λ j.
          find-siftup (m + 1) m t1 j (omega arith) (omega arith) a1
          ∙ find-push_back node t j v.agrees;
    }

-- The timer at `i` with another deadline and callback.
abbrev changed : ℕ → ℕ → ℕ → HeapTimer → HeapTimer
changed i expires cb t = record t {
  heap = set t.heap i (record { id = (at t.heap i).id; expires = expires; cb = cb });
}

module _ (i expires cb : ℕ) (t : HeapTimer) (v : IsValid t) (h : i < length t.heap) where
  changed-size : length (changed i expires cb t).heap ≡ length t.heap
  changed-size = length-set t.heap i (record { id = (at t.heap i).id; expires = expires; cb = cb })

  changed-edges : Around (length t.heap) (keys (changed i expires cb t)) i
  changed-edges =
      let node : TimerNode = record { id = (at t.heap i).id; expires = expires; cb = cb } in
      changed-Around (length t.heap) (length t.heap) i (keys t) (keys (changed i expires cb t))
        (omega arith) h v.ordered (λ j p q. ground (arith, at-set t.heap i j node h))

  changed-AboveIs :
      (at t.heap i).expires ≤ expires → AboveIs (length t.heap) (keys (changed i expires cb t)) i
  changed-AboveIs later p q =
      let node : TimerNode = record { id = (at t.heap i).id; expires = expires; cb = cb } in
      ground
        (arith, at-set t.heap i i node h, at-set t.heap i (parent i) node h, v.ordered i p q, later)

  renewed-Becomes :
      Becomes
        (λ j.
          if j == (at t.heap i).id
          then some (record { id = (at t.heap i).id; expires = expires; cb = cb })
          else find j t)
        (sift i (length t.heap) (changed i expires cb t))
  renewed-Becomes =
      let n = length t.heap in
      let t1 = changed i expires cb t in
      let a1 : Agrees t1 = set-Agrees i expires cb t h v.agrees in
      let le : n ≤ length t1.heap = omega (arith, changed-size) in
      let (size, a2) = sift-Agrees n i t1 le h a1 in
      let whole : length (sift i n t1).heap ≡ n = size ∙ changed-size in
      record {
        valid = record { ordered = rw whole (sift-Ordered n i t1 le h changed-edges); agrees = a2 };
        seen = λ j. find-sift n i t1 j le h a1 ∙ find-set i expires cb t j h v.agrees;
      }

  postponed-Becomes :
      (at t.heap i).expires ≤ expires
      → Becomes
          (λ j.
            if j == (at t.heap i).id
            then some (record { id = (at t.heap i).id; expires = expires; cb = cb })
            else find j t)
          (siftdown i (length t.heap) (changed i expires cb t)).1
  postponed-Becomes later =
      let n = length t.heap in
      let t1 = changed i expires cb t in
      let a1 : Agrees t1 = set-Agrees i expires cb t h v.agrees in
      let le : n ≤ length t1.heap = omega (arith, changed-size) in
      let (size, a2) = siftdown-Agrees n i t1 le h a1 in
      let whole : length (siftdown i n t1).1.heap ≡ n = size ∙ changed-size in
      record {
        valid = record {
          ordered = rw whole (siftdown-Ordered n i t1 le h changed-edges (changed-AboveIs later));
          agrees = a2;
        };
        seen = λ j. find-siftdown n i t1 j le h a1 ∙ find-set i expires cb t j h v.agrees;
      }

-- add sets the timer of its id, whether it was known or not, and keeps every other.
pub add-Becomes :
    (now id timeout cb : ℕ) (t : HeapTimer)
    → IsValid t
    → (t' : HeapTimer) × (add now id timeout cb t ≡ some t')
      × Becomes
          (λ j.
            if j == id
            then some (record { id = id; expires = deadline now timeout; cb = cb })
            else find j t)
          t'
unfolding add renew
add-Becomes now id timeout cb t v = elim (Option-cases (t.ref id)) [
  | inl e ↦
      let node : TimerNode = record { id = id; expires = deadline now timeout; cb = cb } in
      (siftup (length t.heap) (push_back node t), rw (e, add), pushed-Becomes node t v e)
  | inr (i, e) ↦
      let (inside, same) = v.agrees.back id i e in
      let renewed = renewed-Becomes i (deadline now timeout) cb t v inside in
      (
        sift i (length t.heap) (changed i (deadline now timeout) cb t),
        ground (arith, e),
        record { valid = renewed.valid; seen = λ j. ground (arith, renewed.seen j, same) },
      )
]

-- update moves the deadline of a known id to a later time, and changes nothing else.
pub update-Becomes :
    (now id timeout : ℕ) (x : TimerNode) (t : HeapTimer)
    → IsValid t
    → find id t ≡ some x
    → x.expires ≤ deadline now timeout
    → (t' : HeapTimer) × (update now id timeout t ≡ some t')
      × Becomes
          (λ j.
            if j == id
            then some (record { id = id; expires = deadline now timeout; cb = x.cb })
            else find j t)
          t'
unfolding update ref_index postpone
update-Becomes now id timeout x t v known later = elim (Option-cases (t.ref id)) [
  | inl e ↦ cc (find-none id t e)
  | inr (i, e) ↦
      let (inside, same) = v.agrees.back id i e in
      let is_x : at t.heap i ≡ x = ground (arith, find-some id i t e) in
      let later' : (at t.heap i).expires ≤ deadline now timeout = rw is_x later in
      let moved = postponed-Becomes i (deadline now timeout) (at t.heap i).cb t v inside later' in
      (
        (siftdown i (length t.heap) (changed i (deadline now timeout) (at t.heap i).cb t)).1,
        ground (arith, e),
        record { valid = moved.valid; seen = λ j. ground (arith, moved.seen j, same, is_x) },
      )
]
