-- ===== src/HeapTimer/Tick.antt =====
-- heaptimer.cpp: what tick leaves of the timers, with the tracker's own callback.
use dfs_system.Base.{
  ℕ, zero, suc, ◌+◌, ◌-◌, ◌/◌, ◌≤◌, ◌<◌, ◌≡◌, refl, Option, some, arith, true, Bool, leb, ltb,
  length,
}
use dfs_system.Base.Int.{pos, negsuc}
use dfs_system.HeapTimer.{TimerNode, HeapTimer, at}
use dfs_system.HeapTimer.Callbacks.{millis, is_positive, next_tick, to_int}
use dfs_system.HeapTimer.View.{find}
use dfs_system.HeapTimer.Valid.{IsValid}

-- A timer still runs when at least a millisecond is left.
abbrev pub runs : ℕ → TimerNode → Bool
runs now x = is_positive (millis x.expires now)

is_positive-pos : (q : ℕ) → is_positive (pos q) ≡ ltb 0 q
is_positive-pos zero = refl
is_positive-pos (suc q) = ground arith

pub runs-leb : (now : ℕ) (x : TimerNode) → runs now x ≡ leb (now + 1_000_000) x.expires
unfolding millis
runs-leb now x = ground (arith, is_positive-pos ((x.expires - now) / 1_000_000))

-- Every timer of the second is one of the first.
abbrev pub AreFrom : HeapTimer → HeapTimer → Type 0
AreFrom t s = (id : ℕ) (x : TimerNode) → find id s ≡ some x → find id t ≡ some x

-- A valid timer that is smaller by `n` timers at least, all of them from the first.
record IsLeft (n : ℕ) (t s : HeapTimer) : Type 0 where
  valid : IsValid s
  smaller : length s.heap + n ≤ length t.heap
  from : AreFrom t s

-- The timers after tick, at one reading of the clock.
abbrev pub Ticked : ℕ → HeapTimer → Option HeapTimer → Type 0
Ticked now t r =
    (t' : HeapTimer) × (r ≡ some t')
    × IsValid t'
    × AreFrom t t'
    × ((id : ℕ) (x : TimerNode) → find id t' ≡ some x → runs now x ≡ true)

-- Where the front's deadline passes between tick and the next reading of the clock, GetNextTick
-- returns a negative number: its test `res < 0` cannot hold of a size_t.
pub next_tick_overdue :
    (now : ℕ) (t : HeapTimer)
    → 0 < length t.heap
    → (at t.heap 0).expires + 1_000_000 ≤ now
    → now < (at t.heap 0).expires + 2_000_000_000_000_000
    → next_tick now t ≡ negsuc ((now - (at t.heap 0).expires) / 1_000_000 - 1)
unfolding next_tick millis to_int
next_tick_overdue now t p late recent = ground arith
