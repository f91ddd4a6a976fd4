-- ===== src/Log/Tests.antt =====
-- Logs of a day, and the witnesses of the theorems.
use dfs_system.Base.{
  ℕ, ◌≤◌, ◌≡◌, refl, true, false, List, [], ◌∷◌, ◌++◌, Option, none, some, arith, leb→le, length,
  codes,
}
use dfs_system.BlockDeque.{BlockDeque, create, push_back, pop}
use dfs_system.Log.{
  Log, Time, init, file_name, title, line_in, rotate, write, log_base, async_pass, shut_down,
}
use dfs_system.Log.Lines.{Messages, log_all, lines_from, log_all-lines_from}
use dfs_system.Log.Overtaking.{write-overtakes}

abbrev today : Time
today = record { day = 3; stamp = codes "2024-02-03 04:05:06.000789"; date = codes "2024_02_03" }

abbrev later : Time
later = record today { stamp = codes "2024-02-03 14:05:07.000001" }

abbrev tomorrow : Time
tomorrow = record { day = 4; stamp = codes "2024-02-04 04:05:06.000789"; date = codes "2024_02_04" }

abbrev blank : Log
blank = record {
  path = [];
  suffix = [];
  line_count = 0;
  to_day = 0;
  is_open = false;
  level = 0;
  is_async = false;
  room = 1024;
  file = none;
  deque = none;
  disk = [];
}

abbrev opened : ℕ → Log
opened capacity = init 1 (codes "../Log") (codes ".log") capacity today blank

abbrev messages : Messages
messages = (today, 1, codes "up") ∷ (later, 3, codes "down") ∷ []

abbrev or_blank : Option Log → Log
or_blank none = blank
or_blank (some l) = l

-- The next day has its own file.
next_day_run :
    (or_blank (write tomorrow 1 (codes "up") (opened 0))).file
    ≡ some (codes "../Log/2024_02_04-0.log")
unfolding write init file_name
next_day_run = refl

-- So has line 500001.
next_file_run :
    (or_blank (write today 1 (codes "up") (record (opened 0) { line_count = 500_001 }))).file
    ≡ some (codes "../Log/2024_02_03-1.log")
unfolding write init file_name
next_file_run = refl

-- A line below the level is not written.
level_run : (or_blank (log_base today 0 (codes "up") (opened 0))).line_count ≡ 0
unfolding log_base init
level_run = refl

-- A message that is longer than the room leaves the buffer.
long_run : line_in 40 today.stamp 1 (codes "12345678") ≡ none
unfolding line_in
long_run = refl

name_size : length (file_name (codes "../Log") today.date 0 (codes ".log")) ≤ 183
unfolding file_name
name_size = leb→le (length (file_name (codes "../Log") today.date 0 (codes ".log"))) 183 refl

log_all-lines_from_example :
    (l' : Log) × (log_all messages (opened 0) ≡ some l')
    × (l'.disk ≡ [] ++ lines_from (codes "../Log") (codes ".log") today 0 messages)
log_all-lines_from_example =
    log_all-lines_from today 1 (codes "../Log") (codes ".log") messages blank
      ((refl, refl, refl), ((refl, refl, refl), tt)) name_size (omega arith)
      (omega arith, (omega arith, tt))

abbrev first_line : List ℕ
first_line = codes "first"

-- A queue of one line that is full.
abbrev queue : BlockDeque (List ℕ)
queue = (push_back first_line (create 1)).1

abbrev waiting : Log
waiting = record (opened 1) { deque = some queue }

abbrev line : List ℕ
line = today.stamp ++ (title 1 ++ codes "up\n")

write-overtakes_example :
    (l' : Log) × (write today 1 (codes "up") waiting ≡ some l')
    × (l'.deque ≡ some queue)
    × ((async_pass (pop queue) l').1.disk
        ≡ [] ++ ((waiting.file, line) ∷ (waiting.file, first_line) ∷ []))
unfolding init rotate create push_back line_in title
write-overtakes_example =
    write-overtakes today 1 (codes "up") first_line line 1024 waiting queue [] refl refl refl refl
      refl

-- The thread ends when the queue is closed, and ShutDown waits for it to be empty.
shut_down_run : (shut_down (some queue) waiting).0 ≡ true
unfolding shut_down create push_back
shut_down_run = refl
