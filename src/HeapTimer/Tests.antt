-- ===== src/HeapTimer/Tests.antt =====
-- Runs of the timer heap, and the witnesses of its theorems.
use dfs_system.Base.{
  ℕ, zero, suc, ◌<◌, ◌≡◌, ◌≢◌, refl, [], ◌∷◌, none, some, arith, true, if◌then◌else◌, ◌==◌,
}
use mathlib.Core.Option as Option
use dfs_system.HeapTimer.{TimerNode, HeapTimer, at, put, add, erase, pop}
use dfs_system.HeapTimer.Callbacks.{close_user, tick, millis}
use dfs_system.HeapTimer.View.{find}
use dfs_system.HeapTimer.Sift.{keys}
use dfs_system.HeapTimer.Heap.{Ordered}
use dfs_system.HeapTimer.Valid.{IsValid, Becomes}
use dfs_system.HeapTimer.Insertion.{add-Becomes}
use dfs_system.HeapTimer.Removal.{pop-Becomes}
use dfs_system.HeapTimer.Tick.{runs}
use dfs_system.HeapTimer.CloseUser.{tick_drops_running}

abbrev timer : ℕ → ℕ → TimerNode
timer id expires = record { id = id; expires = expires; cb = id }

-- Connection 7 is due at 0; connections 8 and 9 run for two and three milliseconds.
abbrev three : HeapTimer
three = record {
  heap = timer 7 0 ∷ timer 9 3_000_000 ∷ timer 8 2_000_000 ∷ [];
  ref = put (put (put (λ id. none) 7 0) 9 1) 8 2;
}

three-Ordered : Ordered 3 (keys three)
three-Ordered zero p q = absurd (omega arith)
three-Ordered (suc zero) p q = omega arith
three-Ordered (suc (suc zero)) p q = omega arith
three-Ordered (suc (suc (suc c))) p q = absurd (omega arith)

three-found : (i : ℕ) → i < 3 → three.ref (at three.heap i).id ≡ some i
three-found zero h = refl
three-found (suc zero) h = refl
three-found (suc (suc zero)) h = refl
three-found (suc (suc (suc i))) h = absurd (omega arith)

three-IsValid : IsValid three
three-IsValid = record {
  ordered = three-Ordered;
  agrees = record { found = three-found; back = λ id i h. (ground arith, ground arith) };
}

-- A new timer rises over the one with the later deadline.
add_rises :
    Option.map (λ t. t.heap) (add 0 4 1 4 three)
    ≡ some (timer 7 0 ∷ timer 4 1_000_000 ∷ timer 8 2_000_000 ∷ timer 9 3_000_000 ∷ [])
unfolding add
add_rises = refl

-- The tracker's callback makes tick drop connection 8 besides 7.
tick_run : Option.map (λ t. t.heap) (tick close_user (λ _. 0) three) ≡ some (timer 9 3_000_000 ∷ [])
unfolding tick close_user erase pop millis
tick_run = refl

add-Becomes_example :
    (t' : HeapTimer) × (add 0 4 1 4 three ≡ some t')
    × Becomes (λ j. if j == 4 then some (timer 4 1_000_000) else find j three) t'
add-Becomes_example = add-Becomes 0 4 1 4 three three-IsValid

pop-Becomes_example : Becomes (λ id. if id == 7 then none else find id three) (pop three)
pop-Becomes_example = pop-Becomes three three-IsValid (omega arith)

three_others : (id : ℕ) (x : TimerNode) → find id three ≡ some x → id ≢ 7 → runs 0 x ≡ true
unfolding find millis
three_others id x h apart = ground arith

tick_drops_running_example :
    (y : TimerNode) × (find y.id three ≡ some y)
    × (runs 0 y ≡ true)
    × (t' : HeapTimer) × (tick close_user (λ _. 0) three ≡ some t')
    × (find y.id t' ≡ none)
unfolding millis
tick_drops_running_example =
    tick_drops_running three three-IsValid (omega arith) 0 refl refl three_others
