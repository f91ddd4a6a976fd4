-- ===== src/HeapTimer/Arrays.antt =====
-- The vector of timers: reads after a write, a swap and a removal at the end.
use dfs_system.Base.{
  ℕ, zero, suc, ◌<◌, ◌≡◌, refl, ◌∙◌, List, [], ◌∷◌, ◌++◌, arith, if◌then◌else◌, ◌==◌, length, set,
  take, length-set,
}
use dfs_system.HeapTimer.{TimerNode, at, swap}

pub at-set :
    (heap : List TimerNode) (i j : ℕ) (x : TimerNode)
    → i < length heap
    → at (set heap i x) j ≡ (if j == i then x else at heap j)
at-set [] i j x h = absurd (omega arith)
at-set (a ∷ heap) zero zero x h = refl
at-set (a ∷ heap) zero (suc j) x h = ground arith
at-set (a ∷ heap) (suc i) zero x h = ground arith
at-set (a ∷ heap) (suc i) (suc j) x h = ground (arith, at-set heap i j x)

pub length-swap : (heap : List TimerNode) (u v : ℕ) → length (swap heap u v) ≡ length heap
length-swap heap u v =
    length-set (set heap u (at heap v)) v (at heap u) ∙ length-set heap u (at heap v)

pub at-swap :
    (heap : List TimerNode) (u v j : ℕ)
    → u < length heap
    → v < length heap
    → at (swap heap u v) j ≡ (if j == v then at heap u else if j == u then at heap v else at heap j)
at-swap heap u v j p q = ground (
  arith,
  at-set (set heap u (at heap v)) v j (at heap u),
  at-set heap u j (at heap v),
  length-set heap u (at heap v),
)

pub at-append :
    (heap : List TimerNode) (x : TimerNode) (j : ℕ)
    → at (heap ++ x ∷ []) j ≡ (if j == length heap then x else at heap j)
at-append [] x zero = refl
at-append [] x (suc j) = ground arith
at-append (a ∷ heap) x zero = ground arith
at-append (a ∷ heap) x (suc j) = ground (arith, at-append heap x j)

pub at-take : (heap : List TimerNode) (n j : ℕ) → j < n → at (take n heap) j ≡ at heap j
at-take heap zero j h = absurd (omega arith)
at-take [] (suc n) j h = refl
at-take (a ∷ heap) (suc n) zero h = refl
at-take (a ∷ heap) (suc n) (suc j) h = at-take heap n j (omega arith)
