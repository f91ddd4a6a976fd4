-- ===== src/RwLock/Safety.antt =====
-- rwlock.h: exclusion, no lost wake-up, and the preference for writers.
use dfs_system.Base.{
  ◌+◌, ◌<◌, ◌≤◌, ◌≡◌, true, false, if◌then◌else◌, ltb, ◌⊎◌, inl, inr, arith, Bool-cases,
}
use dfs_system.RwLock.{
  RwLock, reader_waits, writer_waits, reader_try, reader_release, writer_try, writer_enter,
  writer_release, Step, reader_comes, reader_goes_on, reader_leaves, writer_comes, writer_goes_on,
  writer_leaves, reader_stirs, writer_stirs, Reach, start, next,
}

pub record IsSound (l : RwLock) : Type 0 where
  -- `reader` counts the threads that read, `writer` tells whether one writes.
  pub readers : l.reader ≡ l.reading
  pub writers : l.writing ≡ (if l.writer then 1 else 0)
  -- A writer holds the lock alone.
  pub alone : l.writer ≡ true → l.reader ≡ 0
  -- `writeQuest` counts the writers that wait.
  pub counted : l.write_quest ≡ l.writers_asleep + l.writers_awake
  -- Writers do not sleep beside a free lock unless one of them was woken.
  pub writer_called : l.reader ≡ 0 → l.writer ≡ false → 0 < l.writers_asleep → 0 < l.writers_awake
  -- Readers do not sleep where the lock is open to them.
  pub readers_called : l.write_quest ≡ 0 → l.writer ≡ false → l.readers_asleep ≡ 0

-- Every step keeps the lock sound.
pub Step-IsSound : {l m : RwLock} → Step l m → IsSound l → IsSound m
unfolding reader_try reader_release writer_try writer_enter writer_release
Step-IsSound (reader_comes l) s = ground arith
Step-IsSound (reader_goes_on l p) s = ground arith
Step-IsSound (reader_leaves l p) s = ground arith
Step-IsSound (writer_comes l) s = ground arith
Step-IsSound (writer_goes_on l p) s = ground arith
Step-IsSound (writer_leaves l p) s = ground arith
Step-IsSound (reader_stirs l p) s = ground arith
Step-IsSound (writer_stirs l p) s = ground arith

pub Reach-IsSound : {l : RwLock} → Reach l → IsSound l
Reach-IsSound start = ground arith
Reach-IsSound (next r st) = Step-IsSound st (Reach-IsSound r)

progress :
    (l : RwLock)
    → IsSound l
    → 0 < l.readers_asleep + l.readers_awake + l.writers_asleep + l.writers_awake
    → (0 < l.reading + l.writing)
      ⊎ (((0 < l.writers_awake) × (writer_waits l ≡ false))
          ⊎ ((0 < l.readers_awake) × (reader_waits l ≡ false)))
progress l s w = elim (Bool-cases l.writer) [
  | inl held ↦ inl (ground (arith, s.writers))
  | inr unheld ↦ elim (Bool-cases (ltb 0 l.reader)) [
    | inl held ↦ inl (ground (arith, s.readers))
    | inr free ↦ elim (Bool-cases (ltb 0 l.write_quest)) [
      | inl asked ↦ inr (inl (ground (arith, s.counted, s.writer_called), ground arith))
      | inr quiet ↦ inr (inr (ground (arith, s.counted, s.readers_called), ground arith))
    ]
  ]
]

-- In every reachable state at most one thread writes, and none reads meanwhile. When threads wait,
-- either the lock is held or a thread that was woken takes it at its next pass: no wake-up is lost.
pub exclusion_and_progress :
    {l : RwLock}
    → Reach l
    → (l.writing ≤ 1)
      × (0 < l.writing → l.reading ≡ 0)
      × (0 < l.readers_asleep + l.readers_awake + l.writers_asleep + l.writers_awake
          → (0 < l.reading + l.writing)
            ⊎ (((0 < l.writers_awake) × (writer_waits l ≡ false))
                ⊎ ((0 < l.readers_awake) × (reader_waits l ≡ false))))
exclusion_and_progress {l} r =
    let s = Reach-IsSound r in
    (ground (arith, s.writers), ground (arith, s.writers, s.alone, s.readers), progress l s)

-- While a writer waits, no step lets a reader in.
pub Step-reader_le : {l m : RwLock} → Step l m → 0 < l.write_quest → m.reader ≤ l.reader
unfolding reader_try reader_release writer_try writer_enter writer_release
Step-reader_le (reader_comes l) w = ground arith
Step-reader_le (reader_goes_on l p) w = ground arith
Step-reader_le (reader_leaves l p) w = ground arith
Step-reader_le (writer_comes l) w = ground arith
Step-reader_le (writer_goes_on l p) w = ground arith
Step-reader_le (writer_leaves l p) w = ground arith
Step-reader_le (reader_stirs l p) w = ground arith
Step-reader_le (writer_stirs l p) w = ground arith
