-- ===== src/Log.antt =====
-- storage/src/log/log.cpp, log.h and the tracker's copy: the log of a program, its files by date and
-- number of lines, and the queue to the thread that writes them. fopen is taken to succeed.
pub mod Lines
pub mod Overtaking
mod Tests
use dfs_system.Base.{
  ℕ, zero, suc, ◌+◌, ◌-◌, ◌/◌, Bool, true, false, not, ◌&&◌, ◌||◌, List, [], ◌∷◌, ◌++◌, Option,
  none, some, if◌then◌else◌, ltb, leb, ◌==◌, length, take, codes,
}
use dfs_system.Wire.{decimal}
use dfs_system.BlockDeque.{
  BlockDeque, Outcome, sleeps, refused, returned, create, full, empty, push_back, close, consume,
}

-- The members of Log. `file` is the name that fp_ was opened with, `room` the size of buff_, which is
-- empty between two calls; `disk` is what fputs has been given, with the file.
pub record Log : Type 0 where
  pub path : List ℕ
  pub suffix : List ℕ
  pub line_count : ℕ
  pub to_day : ℕ
  pub is_open : Bool
  pub level : ℕ
  pub is_async : Bool
  pub room : ℕ
  pub file : Option (List ℕ)
  pub deque : Option (BlockDeque (List ℕ))
  pub disk : List (Option (List ℕ) × List ℕ)

-- The time: tm_mday, and as snprintf writes it in front of a line (26 bytes) and into a file's name.
pub record Time : Type 0 where
  pub day : ℕ
  pub stamp : List ℕ
  pub date : List ℕ

-- MAX_LINES
abbrev pub max_lines : ℕ
max_lines = 500_000

abbrev pub consumed : Option (BlockDeque (List ℕ)) → Option (BlockDeque (List ℕ))
consumed none = none
consumed (some q) = some (consume q)

unfoldable pub flush : Log → Log
unfolding consume
flush l = if l.is_async then record l { deque = consumed l.deque } else l

unfoldable pub file_name : List ℕ → List ℕ → ℕ → List ℕ → List ℕ
unfolding decimal
file_name path date number suffix =
    path ++ (codes "/" ++ (date ++ (codes "-" ++ (decimal number ++ suffix))))

abbrev pub flush_if_open : Option (List ℕ) → Log → Log
flush_if_open none l = l
flush_if_open (some name) l = flush l

abbrev pub queue_made : Option (BlockDeque (List ℕ)) → Option (BlockDeque (List ℕ))
queue_made none = some (create 1000)
queue_made (some q) = some q

-- The queue of Init; the constructor takes its own capacity.
unfoldable pub with_queue : ℕ → Log → Log
with_queue capacity l =
    if ltb 0 capacity
    then record l { is_async = true; deque = queue_made l.deque }
    else record l { is_async = false }

unfoldable pub init : ℕ → List ℕ → List ℕ → ℕ → Time → Log → Log
unfolding with_queue flush file_name
init level path suffix capacity t l =
    let l1 = with_queue capacity (record l { is_open = true; level = level }) in
    let l2 = record l1 { line_count = 0; path = path; suffix = suffix; to_day = t.day } in
    record (flush_if_open l.file l2) { file = some (take 254 (file_name path t.date 0 suffix)) }

-- flush, fclose and fopen.
unfoldable pub reopen : ℕ → Time → Log → Log
unfolding flush file_name
reopen number t l = record (flush l) {
  file = some (take 183 (file_name l.path t.date number l.suffix));
}

-- The first part of write: another day of the month, or too many lines.
unfoldable pub rotate : Time → Log → Log
unfolding reopen
rotate t l =
    if not (l.to_day == t.day)
    then reopen 0 t (record l { to_day = t.day; line_count = 0 })
    else if ltb max_lines l.line_count
    then reopen (l.line_count / max_lines) t l
    else l

-- AppendLogLevetitle_
unfoldable pub title : ℕ → List ℕ
title level =
    if level == 0
    then codes "[debg]:"
    else if level == 2
    then codes "[warn]:"
    else if level == 3
    then codes "[erro]:"
    else codes "[info]:"

-- The line in buff_ up to its first NUL, and the size of buff_ behind it. vsnprintf gives the length
-- of the whole message: if it is above the room, HasWritten leaves the buffer, which is `none`; if it
-- is the room, the last byte is NUL. The line's end makes the buffer grow.
unfoldable pub line_in : ℕ → List ℕ → ℕ → List ℕ → Option (List ℕ × ℕ)
unfolding title
line_in room stamp level message =
    let used = length stamp + 7 in
    let m = length message in
    let text =
      if m == room - used && ltb 0 m then take (m - 1) message else message ++ codes "\n" in
    if ltb (room - used) m
    then none
    else some
        (stamp ++ (title level ++ text), if ltb (room - used - m) 2 then used + m + 3 else room)

abbrev pub put : List ℕ → Log → Log
put text l = record l { disk = l.disk ++ (l.file, text) ∷ [] }

-- push_back of a queue that is not full, or fputs.
unfoldable pub queue_or_put : List ℕ → Option (BlockDeque (List ℕ)) → Log → Log
unfolding push_back flush
queue_or_put text none l = put text l
queue_or_put text (some q) l =
    if l.is_async && not (full q)
    then record l { deque = some (push_back text (consume q)).1 }
    else put text l

abbrev pub line_out : Log → Option (List ℕ × ℕ) → Option Log
line_out l none = none
line_out l (some (text, room)) =
    some (queue_or_put text l.deque (record l { line_count = l.line_count + 1; room = room }))

unfoldable pub write : Time → ℕ → List ℕ → Log → Option Log
unfolding rotate line_in queue_or_put
write t level message l = let l' = rotate t l in line_out l' (line_in l'.room t.stamp level message)

abbrev pub and_flush : Option Log → Option Log
and_flush none = none
and_flush (some l) = some (flush l)

-- LOG_BASE
unfoldable pub log_base : Time → ℕ → List ℕ → Log → Option Log
unfolding write flush
log_base t level message l =
    if l.is_open && leb l.level level then and_flush (write t level message l) else some l

-- A pass of AsyncWrite's loop with what pop has given; `true` when the loop goes on.
unfoldable pub async_pass : Outcome (List ℕ) × BlockDeque (List ℕ) → Log → Bool × Log
async_pass (sleeps, q) l = (true, record l { deque = some q })
async_pass (refused, q) l = (false, record l { deque = some q })
async_pass (returned text, q) l = (true, put text (record l { deque = some q }))

-- A round of ShutDown's loop, or what follows it; `true` when the loop goes on.
unfoldable pub shut_down : Option (BlockDeque (List ℕ)) → Log → Bool × Log
unfolding consume close
shut_down none l = (false, l)
shut_down (some q) l =
    if empty q
    then (false, record l { deque = some (close q) })
    else (true, record l { deque = some (consume q) })
