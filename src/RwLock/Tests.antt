-- ===== src/RwLock/Tests.antt =====
-- A run of the lock, and the witnesses of its theorems.
use dfs_system.Base.{◌+◌, ◌<◌, ◌≤◌, ◌≡◌, refl, false, arith, ◌⊎◌}
use dfs_system.RwLock.{
  RwLock, fresh, reader_waits, writer_waits, reader_try, writer_enter, reader_release, reader_comes,
  writer_comes, reader_leaves, Reach, start, next,
}
use dfs_system.RwLock.Safety.{exclusion_and_progress}

-- A reader reads, a writer waits for it, and a second reader waits for the writer.
abbrev queued : RwLock
queued = reader_try (writer_enter (reader_try fresh))

queued-Reach : Reach queued
queued-Reach = next (next (next start (reader_comes fresh)) (writer_comes _)) (reader_comes _)

-- When the reader has left, the writer is woken.
abbrev handed : RwLock
handed = reader_release queued

handed-Reach : Reach handed
unfolding reader_try writer_enter
handed-Reach = next queued-Reach (reader_leaves queued (omega arith))

handed_state : (handed.writers_awake ≡ 1) × (handed.readers_asleep ≡ 1) × (handed.reader ≡ 0)
unfolding reader_try writer_enter reader_release
handed_state = (refl, refl, refl)

exclusion_and_progress_example :
    (handed.writing ≤ 1)
    × (0 < handed.writing → handed.reading ≡ 0)
    × (0
          < handed.readers_asleep + handed.readers_awake + handed.writers_asleep
            + handed.writers_awake
        → (0 < handed.reading + handed.writing)
          ⊎ (((0 < handed.writers_awake) × (writer_waits handed ≡ false))
              ⊎ ((0 < handed.readers_awake) × (reader_waits handed ≡ false))))
exclusion_and_progress_example = exclusion_and_progress handed-Reach

queued_quest : 0 < queued.write_quest
unfolding reader_try writer_enter
queued_quest = omega arith
