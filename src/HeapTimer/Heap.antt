-- ===== src/HeapTimer/Heap.antt =====
-- The order of the heap, as a property of the deadlines by position, and one exchange of the
-- sifting loops of heaptimer.cpp.
use dfs_system.Base.{ℕ, ◌≤◌, ◌<◌, ◌≡◌, ◌≢◌, arith, if◌then◌else◌, ◌==◌}
use dfs_system.HeapTimer.{parent}

abbrev pub Ordered : ℕ → (ℕ → ℕ) → Type 0
Ordered n key = (c : ℕ) → 0 < c → c < n → key (parent c) ≤ key c

abbrev pub exchange : ℕ → ℕ → (ℕ → ℕ) → ℕ → ℕ
exchange u v key c = if c == v then key u else if c == u then key v else key c

-- Only the edges at `i` may be out of order.
pub record Around (n : ℕ) (key : ℕ → ℕ) (i : ℕ) : Type 0 where
  pub edges : (c : ℕ) → 0 < c → c < n → c ≢ i → parent c ≢ i → key (parent c) ≤ key c
  pub bridged : (c : ℕ) → 0 < c → c < n → parent c ≡ i → 0 < i → key (parent i) ≤ key c

abbrev pub AboveIs : ℕ → (ℕ → ℕ) → ℕ → Type 0
AboveIs n key i = 0 < i → i < n → key (parent i) ≤ key i

abbrev pub BelowAre : ℕ → (ℕ → ℕ) → ℕ → Type 0
BelowAre n key i = (c : ℕ) → 0 < c → c < n → parent c ≡ i → key i ≤ key c

pub Around-Ordered :
    (n : ℕ) (key : ℕ → ℕ) (i : ℕ)
    → Around n key i
    → AboveIs n key i
    → BelowAre n key i
    → Ordered n key
Around-Ordered n key i a up down c p q = ground (arith, a.edges c, up, down c)

pub Ordered-Around : (n : ℕ) (key : ℕ → ℕ) (i : ℕ) → i < n → Ordered n key → Around n key i
Ordered-Around n key i h o = record {
  edges = λ c p q r s. o c p q;
  bridged = λ c p q r s. ground (arith, o c p q, o i s);
}

module _ (n : ℕ) (key : ℕ → ℕ) (i : ℕ) (a : Around n key i) where
  -- `i` rises above its parent.
  module _ (below : BelowAre n key i) (p : 0 < i) (q : i < n) (h : key i ≤ key (parent i)) where
    pub up-Around : Around n (exchange (parent i) i key) (parent i)
    up-Around = record {
      edges = λ c r s t u. ground (arith, a.edges c r s, a.bridged c r s);
      bridged = λ c r s t u. ground (arith, a.edges c r s, a.edges (parent i) u);
    }

    pub up-BelowAre : BelowAre n (exchange (parent i) i key) (parent i)
    up-BelowAre c r s t = ground (arith, a.edges c r s)

  -- `i` sinks below its smaller son `j`.
  module _ (j : ℕ) (p : 0 < j) (q : j < n) (son : parent j ≡ i) (h : key j ≤ key i)
      (least : (c : ℕ) → 0 < c → c < n → parent c ≡ i → key j ≤ key c) where
    pub down-Around : Around n (exchange i j key) j
    down-Around = record {
      edges = λ c r s t u. ground (arith, a.edges c r s, a.bridged j p q son, least c r s);
      bridged = λ c r s t u. ground (arith, a.edges c r s);
    }

    pub down-AboveIs : AboveIs n (exchange i j key) j
    down-AboveIs r s = ground arith
