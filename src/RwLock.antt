-- ===== src/RwLock.antt =====
-- tracker/src/lock/rwlock.h: the reader-writer lock that prefers writers. Every stretch of code
-- under `mtx` is one step. The threads are counted, not named: those that sleep in a condition
-- variable, those that were woken and have not yet run, and those that hold the lock. The counts stay below 2^31.
pub mod Safety
mod Tests
use dfs_system.Base.{ℕ, ◌+◌, ◌-◌, ◌<◌, Bool, true, false, ◌||◌, if◌then◌else◌, ltb, ◌==◌}

pub record RwLock : Type 0 where
  pub reader : ℕ
  pub write_quest : ℕ
  pub writer : Bool
  -- The threads asleep in readCV and writeCV, and those woken from them.
  pub readers_asleep : ℕ
  pub readers_awake : ℕ
  pub writers_asleep : ℕ
  pub writers_awake : ℕ
  -- The threads between a constructor and its destructor.
  pub reading : ℕ
  pub writing : ℕ

abbrev pub fresh : RwLock
fresh = record {
  reader = 0;
  write_quest = 0;
  writer = false;
  readers_asleep = 0;
  readers_awake = 0;
  writers_asleep = 0;
  writers_awake = 0;
  reading = 0;
  writing = 0;
}

-- The condition of the reader's loop, and of the writer's.
abbrev pub reader_waits : RwLock → Bool
reader_waits l = ltb 0 l.write_quest || l.writer

abbrev pub writer_waits : RwLock → Bool
writer_waits l = ltb 0 l.reader || l.writer

-- One pass of the loop of ReaderLockRAII(): sleep, or take the lock.
unfoldable pub reader_try : RwLock → RwLock
reader_try l =
    if reader_waits l
    then record l { readers_asleep = l.readers_asleep + 1 }
    else record l { reader = l.reader + 1; reading = l.reading + 1 }

-- notify_one and notify_all.
unfoldable pub notify_writer : RwLock → RwLock
notify_writer l =
    if l.writers_asleep == 0
    then l
    else record l { writers_asleep = l.writers_asleep - 1; writers_awake = l.writers_awake + 1 }

unfoldable pub notify_readers : RwLock → RwLock
notify_readers l = record l {
  readers_asleep = 0;
  readers_awake = l.readers_awake + l.readers_asleep;
}

-- ~ReaderLockRAII()
unfoldable pub reader_release : RwLock → RwLock
unfolding notify_writer
reader_release l =
    let left = record l { reader = l.reader - 1; reading = l.reading - 1 } in
    if left.reader == 0 then notify_writer left else left

-- One pass of the loop of WriterLockRAII(), and what follows it.
unfoldable pub writer_try : RwLock → RwLock
writer_try l =
    if writer_waits l
    then record l { writers_asleep = l.writers_asleep + 1 }
    else record l { write_quest = l.write_quest - 1; writer = true; writing = l.writing + 1 }

-- WriterLockRAII(), from its start.
unfoldable pub writer_enter : RwLock → RwLock
unfolding writer_try
writer_enter l = writer_try (record l { write_quest = l.write_quest + 1 })

-- ~WriterLockRAII()
unfoldable pub writer_release : RwLock → RwLock
unfolding notify_writer notify_readers
writer_release l =
    let left = record l { writer = false; writing = l.writing - 1 } in
    if ltb 0 left.write_quest then notify_writer left else notify_readers left

-- What the threads may do: a thread arrives, a woken one runs on, a holder releases, and a
-- sleeping one wakes without being notified.
pub data Step : RwLock → RwLock → Type 0 where
  reader_comes : (l : RwLock) → Step l (reader_try l)
  reader_goes_on :
      (l : RwLock)
      → 0 < l.readers_awake
      → Step l (reader_try (record l { readers_awake = l.readers_awake - 1 }))
  reader_leaves : (l : RwLock) → 0 < l.reading → Step l (reader_release l)
  writer_comes : (l : RwLock) → Step l (writer_enter l)
  writer_goes_on :
      (l : RwLock)
      → 0 < l.writers_awake
      → Step l (writer_try (record l { writers_awake = l.writers_awake - 1 }))
  writer_leaves : (l : RwLock) → 0 < l.writing → Step l (writer_release l)
  reader_stirs :
      (l : RwLock)
      → 0 < l.readers_asleep
      → Step l
          (record l { readers_asleep = l.readers_asleep - 1; readers_awake = l.readers_awake + 1 })
  writer_stirs :
      (l : RwLock)
      → 0 < l.writers_asleep
      → Step l
          (record l { writers_asleep = l.writers_asleep - 1; writers_awake = l.writers_awake + 1 })

pub data Reach : RwLock → Type 0 where
  start : Reach fresh
  next : {l m : RwLock} → Reach l → Step l m → Reach m
