-- ===== src/Buffer/Queue.antt =====
-- The calls that a connection makes on its buffer (buffer.cpp), and the queue of bytes that is the
-- abstract view of them.
use Prim.Native.Nat.{min}
use dfs_system.Base.{
  ℕ, List, [], ◌∷◌, ◌++◌, Option, some, none, leb, length, take, drop, if◌then◌else◌,
}
use dfs_system.Buffer.{Received, received, failed}

-- `sends n`: the socket takes at most `n` of the bytes offered.
pub data Call : Type 0 where
  appends : List ℕ → Call
  handles : ℕ → Call
  clears : Call
  reads : Received → Call
  sends : ℕ → Call

-- The new queue and the bytes given out; `none` is an abort.
unfoldable pub step : List ℕ → Call → Option (List ℕ × List ℕ)
step q (appends s) = some (q ++ s, [])
step q (handles n) = if leb n (length q) then some (drop n q, take n q) else none
step q clears = some ([], q)
step q (reads (received s)) = some (q ++ s, [])
step q (reads failed) = some (q, [])
step q (sends n) = some (drop (min n (length q)) q, take (min n (length q)) q)

-- The bytes that each call gives out, up to the first abort.
unfoldable pub run : List ℕ → List Call → List (List ℕ)
run q [] = []
run q (c ∷ cs) = elim (step q c) [ some (r, out) ↦ out ∷ run r cs | none ↦ [] ]
