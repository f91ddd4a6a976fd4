-- ===== src/HeapTimer/Sift.antt =====
-- heaptimer.cpp: siftup_ and siftdown_ only exchange timers.
pub mod Order
use mathlib.Core.Path.{fun_ext}
use dfs_system.Base.{
  ℕ, zero, suc, ◌+◌, ◌*◌, ◌≤◌, ◌<◌, ◌≡◌, refl, sym, subst, true, false, ◌⊎◌, inl, inr, arith, ◌==◌,
  ltb, length, Bool-cases, List,
}
use dfs_system.HeapTimer.{
  TimerNode, HeapTimer, at, less, swap_node, parent, siftup_loop, siftup, son, siftdown_loop,
  siftdown, sift,
}
use dfs_system.HeapTimer.Arrays.{at-swap, length-swap}
use dfs_system.HeapTimer.Heap.{
  Ordered, exchange, Around, AboveIs, BelowAre, Around-Ordered, up-Around, up-BelowAre, down-Around,
  down-AboveIs,
}

abbrev pub keys : HeapTimer → ℕ → ℕ
keys t i = (at t.heap i).expires

pub keys-swap_node :
    (u v : ℕ) (t : HeapTimer)
    → u < length t.heap
    → v < length t.heap
    → keys (swap_node u v t) ≡ exchange u v (keys t)
unfolding swap_node
keys-swap_node u v t p q = fun_ext (λ j. ground (arith, at-swap t.heap u v j p q))

pub length-swap_node : (u v : ℕ) (t : HeapTimer) → length (swap_node u v t).heap ≡ length t.heap
unfolding swap_node
length-swap_node u v t = length-swap t.heap u v

-- What the smaller son of a position with a son is.
pub record IsSon (heap : List TimerNode) (n i j : ℕ) : Type 0 where
  pub positive : 0 < j
  pub inside : j < n
  pub child : parent j ≡ i
  pub least : (c : ℕ) → 0 < c → c < n → parent c ≡ i → (at heap j).expires ≤ (at heap c).expires

son_of : (i c : ℕ) → 0 < c → parent c ≡ i → (c ≡ i * 2 + 1) ⊎ (c ≡ i * 2 + 1 + 1)
son_of i c p r = grind arith

son-least :
    (heap : List TimerNode) (n i c : ℕ)
    → i * 2 + 1 < n
    → 0 < c
    → c < n
    → parent c ≡ i
    → (at heap (son heap n i)).expires ≤ (at heap c).expires
unfolding son
son-least heap n i c h p q r = elim (son_of i c p r) [
  | inl left ↦ rw left (ground arith)
  | inr right ↦ let q' : i * 2 + 1 + 1 < n = omega arith in rw right (ground arith)
]

pub son-IsSon : (heap : List TimerNode) (n i : ℕ) → i * 2 + 1 < n → IsSon heap n i (son heap n i)
unfolding son
son-IsSon heap n i h = record {
  positive = ground arith;
  inside = ground arith;
  child = ground arith;
  least = λ c p q r. son-least heap n i c h p q r;
}

-- Whatever an exchange of two positions below `n` keeps, sifting keeps.
module _ {ℓ} (P : HeapTimer → Type ℓ) (n : ℕ)
    (keep : (u v : ℕ) (t : HeapTimer) → u < n → v < n → P t → P (swap_node u v t)) where
  siftup_loop_keeps : (k i : ℕ) (t : HeapTimer) → i < n → P t → P (siftup_loop k i t)
  unfolding siftup_loop
  siftup_loop_keeps zero i t h p = p
  siftup_loop_keeps (suc k) i t h p =
      let risen = keep (parent i) i t (omega arith) h p in
      let rest = siftup_loop_keeps k (parent i) (swap_node (parent i) i t) (omega arith) risen in
      elim (Bool-cases (less (at t.heap (parent i)) (at t.heap i))) [
        | inl stop ↦ rw stop p
        | inr go ↦
            rw go (elim (Bool-cases (parent i == 0)) [
              | inl top ↦ rw top risen
              | inr more ↦ rw more rest
            ])
      ]

  pub siftup_keeps : (i : ℕ) (t : HeapTimer) → i < n → P t → P (siftup i t)
  unfolding siftup
  siftup_keeps i t h p = elim (Bool-cases (i == 0)) [
    | inl top ↦ rw top p
    | inr more ↦ rw more (siftup_loop_keeps i i t h p)
  ]

  siftdown_loop_keeps : (k i : ℕ) (t : HeapTimer) → i < n → P t → P (siftdown_loop k n i t).1
  unfolding siftdown_loop
  siftdown_loop_keeps zero i t h p = p
  siftdown_loop_keeps (suc k) i t h p = elim (Bool-cases (ltb (i * 2 + 1) n)) [
    | inr leaf ↦ rw leaf p
    | inl has ↦ rw has (elim (Bool-cases (less (at t.heap i) (at t.heap (son t.heap n i)))) [
      | inl stop ↦ rw stop p
      | inr go ↦
          let j = son t.heap n i in
          let s : IsSon t.heap n i j = son-IsSon t.heap n i (ground arith) in
          rw go (siftdown_loop_keeps k j (swap_node i j t) s.inside (keep i j t h s.inside p))
    ])
  ]

  pub siftdown_keeps : (i : ℕ) (t : HeapTimer) → i < n → P t → P (siftdown i n t).1
  unfolding siftdown
  siftdown_keeps i t h p = siftdown_loop_keeps n i t h p

  pub sift_keeps : (i : ℕ) (t : HeapTimer) → i < n → P t → P (sift i n t)
  unfolding sift
  sift_keeps i t h p =
      let down : P (siftdown i n t).1 = siftdown_keeps i t h p in
      elim (Bool-cases (siftdown i n t).0) [
        | inl moved ↦ rw moved down
        | inr still ↦ rw still (siftup_keeps i (siftdown i n t).1 h down)
      ]
