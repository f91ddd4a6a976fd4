-- ===== src/TrackerGroup/Flag.antt =====
-- tracker/src/message/storagemess.h: synPULGroup's flag, and the thread that is to lower it.
use dfs_system.Base.{
  ℕ, ◌+◌, ◌-◌, ◌%◌, ◌^◌, ◌≤◌, ◌<◌, ◌≡◌, refl, Bool, true, false, List, [], ◌∷◌, Option, none, some,
  arith, if◌then◌else◌, ltb,
}

-- threadIsRun and the flag.
pub record Flag : Type 0 where
  pub flag : Bool
  pub thread_is_run : Bool

-- threadGO: `true` when a thread is started.
unfoldable pub thread_go : Flag → Bool × Flag
thread_go f = if f.thread_is_run then (false, f) else (true, record f { thread_is_run = true })

-- `timeUnitl - Now + 1` on 64 bits.
unfoldable pub sleep_time : ℕ → ℕ → ℕ
sleep_time until now = (until + 2 ^ 64 - now + 1) % 2 ^ 64

-- The loop of updateFlag_ on the values of timeUnitl that its rounds read: `Now` is that of the
-- start of the thread, since the reading of the clock inside the loop goes to another variable.
-- `none` when the values end before the loop does.
unfoldable pub update_loop : ℕ → List ℕ → Flag → Option Flag
unfolding sleep_time
update_loop now [] f = none
update_loop now (until ∷ untils) f =
    let more = update_loop now untils f in
    if ltb 0 (sleep_time until now)
    then more
    else some (record f { flag = false; thread_is_run = false })

-- The readings are at least `now`, and not so far ahead that 64 bits do not hold the difference.
abbrev pub AreAhead : ℕ → List ℕ → Type 0
AreAhead now [] = Unit
AreAhead now (until ∷ untils) = (now ≤ until) × (until + 1 < now + 2 ^ 64) × AreAhead now untils

-- However long the thread of updateFlag_ runs, if timeUnitl never lies before its start, its loop
-- does not end: the flag is never lowered, and threadGO starts no other thread.
pub update_loop-endless :
    (now : ℕ) (untils : List ℕ) (f : Flag)
    → AreAhead now untils
    → (update_loop now untils f ≡ none) × ((thread_go (thread_go f).1).0 ≡ false)
unfolding update_loop thread_go
update_loop-endless now [] f h = (refl, ground arith)
update_loop-endless now (until ∷ untils) f h =
    let more = update_loop-endless now untils f h.2 in
    let s : ltb 0 (sleep_time until now) ≡ true = ground arith in (rw s more.0, more.1)
