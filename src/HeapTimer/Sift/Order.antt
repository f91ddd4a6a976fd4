-- ===== src/HeapTimer/Sift/Order.antt =====
-- heaptimer.cpp: siftup_ and siftdown_ restore the order of the heap.
use dfs_system.Base.{
  ℕ, zero, suc, ◌+◌, ◌*◌, ◌≤◌, ◌<◌, ◌≡◌, refl, sym, subst, true, false, ◌⊎◌, inl, inr, arith, ◌==◌,
  ltb, length, Bool-cases,
}
use dfs_system.HeapTimer.{
  HeapTimer, at, less, swap_node, parent, siftup_loop, siftup, son, siftdown_loop, siftdown, sift,
}
use dfs_system.HeapTimer.Heap.{
  Ordered, exchange, Around, AboveIs, BelowAre, Around-Ordered, up-Around, up-BelowAre, down-Around,
  down-AboveIs,
}
use dfs_system.HeapTimer.Sift.{keys, keys-swap_node, length-swap_node, IsSon, son-IsSon}

module _ (n : ℕ) where
  siftup_loop-Ordered :
      (k i : ℕ) (t : HeapTimer)
      → n ≤ length t.heap
      → 0 < i
      → i < n
      → i ≤ k
      → Around n (keys t) i
      → BelowAre n (keys t) i
      → Ordered n (keys (siftup_loop k i t))
  unfolding siftup_loop
  siftup_loop-Ordered zero i t size p q fuel a below = absurd (omega arith)
  siftup_loop-Ordered (suc k) i t size p q fuel a below =
      elim (Bool-cases (less (at t.heap (parent i)) (at t.heap i))) [
        | inl stop ↦ rw stop (Around-Ordered n (keys t) i a (λ r s. ground arith) below)
        | inr go ↦
            let f = parent i in
            let h : keys t i ≤ keys t f = ground arith in
            let risen = swap_node f i t in
            let e : keys risen ≡ exchange f i (keys t) =
              keys-swap_node f i t (omega arith) (omega arith) in
            let a' : Around n (keys risen) f =
              subst (λ key. Around n key f) (sym e) (up-Around n (keys t) i a below p q h) in
            let below' : BelowAre n (keys risen) f =
              subst (λ key. BelowAre n key f) (sym e) (up-BelowAre n (keys t) i a below p q h) in
            rw go (elim (Bool-cases (f == 0)) [
              | inl top ↦ rw top (Around-Ordered n (keys risen) f a' (λ r s. ground arith) below')
              | inr more ↦ rw more (
                  siftup_loop-Ordered k f risen (omega (arith, length-swap_node f i t))
                    (ground arith) (omega arith) (omega arith) a' below')
            ])
      ]

  pub siftup-Ordered :
      (i : ℕ) (t : HeapTimer)
      → n ≤ length t.heap
      → i < n
      → Around n (keys t) i
      → BelowAre n (keys t) i
      → Ordered n (keys (siftup i t))
  unfolding siftup
  siftup-Ordered i t size q a below = elim (Bool-cases (i == 0)) [
    | inl top ↦ rw top (Around-Ordered n (keys t) i a (λ r s. ground arith) below)
    | inr more ↦ rw more (siftup_loop-Ordered i i t size (ground arith) q (omega arith) a below)
  ]

  -- The exchange of a position with its smaller son, which does not have the later deadline.
  module _ (i : ℕ) (t : HeapTimer) (size : n ≤ length t.heap) (q : i < n) (a : Around n (keys t) i)
      (has : i * 2 + 1 < n) (go : less (at t.heap i) (at t.heap (son t.heap n i)) ≡ false) where
    sunk-Around :
        Around n (keys (swap_node i (son t.heap n i) t)) (son t.heap n i)
        × AboveIs n (keys (swap_node i (son t.heap n i) t)) (son t.heap n i)
    sunk-Around =
        let j = son t.heap n i in
        let s : IsSon t.heap n i j = son-IsSon t.heap n i has in
        let h : keys t j ≤ keys t i = ground arith in
        let inside : j < n = s.inside in
        let e : keys (swap_node i j t) ≡ exchange i j (keys t) =
          keys-swap_node i j t (omega arith) (omega arith) in
        (
          subst (λ key. Around n key j) (sym e)
              (down-Around n (keys t) i a j s.positive s.inside s.child h s.least),
          subst (λ key. AboveIs n key j) (sym e)
              (down-AboveIs n (keys t) i a j s.positive s.inside s.child h s.least),
        )

    siftdown_loop-sunk :
        (k : ℕ)
        → n ≤ i + suc k
        → (n ≤ son t.heap n i + k)
          × (n ≤ length (swap_node i (son t.heap n i) t).heap)
          × (i < son t.heap n i)
          × (son t.heap n i < n)
    siftdown_loop-sunk k fuel =
        let s : IsSon t.heap n i (son t.heap n i) = son-IsSon t.heap n i has in
        let child = s.child in
        let positive = s.positive in
        let inside = s.inside in
        let same = length-swap_node i (son t.heap n i) t in
        (omega arith, omega arith, omega arith, omega arith)

  leaf-BelowAre : (i : ℕ) (key : ℕ → ℕ) → ltb (i * 2 + 1) n ≡ false → BelowAre n key i
  leaf-BelowAre i key leaf c p q r = absurd (ground arith)

  stop-BelowAre :
      (i : ℕ) (t : HeapTimer)
      → i * 2 + 1 < n
      → less (at t.heap i) (at t.heap (son t.heap n i)) ≡ true
      → BelowAre n (keys t) i
  stop-BelowAre i t has stop c p q r =
      let s : IsSon t.heap n i (son t.heap n i) = son-IsSon t.heap n i has in
      ground (arith, s.least c p q r)

  siftdown_loop-Ordered :
      (k i : ℕ) (t : HeapTimer)
      → n ≤ length t.heap
      → i < n
      → n ≤ i + k
      → Around n (keys t) i
      → AboveIs n (keys t) i
      → Ordered n (keys (siftdown_loop k n i t).1) × (i ≤ (siftdown_loop k n i t).0)
  unfolding siftdown_loop
  siftdown_loop-Ordered zero i t size q fuel a above = absurd (omega arith)
  siftdown_loop-Ordered (suc k) i t size q fuel a above = elim (Bool-cases (ltb (i * 2 + 1) n)) [
    | inr leaf ↦
        rw leaf (Around-Ordered n (keys t) i a above (leaf-BelowAre i (keys t) leaf), omega arith)
    | inl has ↦ rw has (elim (Bool-cases (less (at t.heap i) (at t.heap (son t.heap n i)))) [
      | inl stop ↦
          rw stop (
            Around-Ordered n (keys t) i a above (stop-BelowAre i t (ground arith) stop),
            omega arith,
          )
      | inr go ↦
          let (a', above') = sunk-Around i t size q a (ground arith) go in
          let (fuel', size', rises, inside) =
            siftdown_loop-sunk i t size q a (ground arith) go k fuel in
          let (o, le) =
            siftdown_loop-Ordered k (son t.heap n i) (swap_node i (son t.heap n i) t) size' inside
              fuel' a' above' in
          rw go (o, omega arith)
    ])
  ]

  -- siftdown_ leaves a timer that precedes its sons, and otherwise moves it and orders the heap.
  Sunk : ℕ → HeapTimer → ℕ × HeapTimer → Type 0
  Sunk i t r = ((r ≡ (i, t)) × BelowAre n (keys t) i) ⊎ ((i < r.0) × Ordered n (keys r.1))

  siftdown_loop-Sunk :
      (k i : ℕ) (t : HeapTimer)
      → n ≤ length t.heap
      → i < n
      → n ≤ i + k
      → Around n (keys t) i
      → Sunk i t (siftdown_loop k n i t)
  unfolding siftdown_loop Sunk
  siftdown_loop-Sunk zero i t size q fuel a = absurd (omega arith)
  siftdown_loop-Sunk (suc k) i t size q fuel a = elim (Bool-cases (ltb (i * 2 + 1) n)) [
    | inr leaf ↦ rw leaf (inl (refl, leaf-BelowAre i (keys t) leaf))
    | inl has ↦ rw has (elim (Bool-cases (less (at t.heap i) (at t.heap (son t.heap n i)))) [
      | inl stop ↦ rw stop (inl (refl, stop-BelowAre i t (ground arith) stop))
      | inr go ↦
          let (a', above') = sunk-Around i t size q a (ground arith) go in
          let (fuel', size', rises, inside) =
            siftdown_loop-sunk i t size q a (ground arith) go k fuel in
          let (o, le) =
            siftdown_loop-Ordered k (son t.heap n i) (swap_node i (son t.heap n i) t) size' inside
              fuel' a' above' in
          rw go (inr (omega arith, o))
    ])
  ]

  -- `if(!siftdown_(i, n)) siftup_(i)` orders the first `n` positions.
  pub sift-Ordered :
      (i : ℕ) (t : HeapTimer)
      → n ≤ length t.heap
      → i < n
      → Around n (keys t) i
      → Ordered n (keys (sift i n t))
  unfolding sift siftdown Sunk
  sift-Ordered i t size q a = elim (siftdown_loop-Sunk n i t size q (omega arith) a) [
    | inl (e, below) ↦
        let still : ltb i i ≡ false = ground arith in
        rw (e, still) (siftup-Ordered i t size q a below)
    | inr (moved, o) ↦ let yes' : ltb i (siftdown_loop n n i t).0 ≡ true = ground arith in rw yes' o
  ]

  -- siftdown_ alone orders them where the timer is not before its parent.
  pub siftdown-Ordered :
      (i : ℕ) (t : HeapTimer)
      → n ≤ length t.heap
      → i < n
      → Around n (keys t) i
      → AboveIs n (keys t) i
      → Ordered n (keys (siftdown i n t).1)
  unfolding siftdown
  siftdown-Ordered i t size q a above = (siftdown_loop-Ordered n i t size q (omega arith) a above).0
