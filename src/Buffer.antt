-- ===== src/Buffer.antt =====
-- storage/src/buffer/buffer.cpp: the byte buffer of every connection. `buffer_` is a std::vector,
-- `LPos_` and `RPos_` bound the bytes that were received (or queued) and not yet handled.
-- A failed `assert` aborts, which is `none`. Sizes do not wrap: a vector is far below 2^64 bytes.
pub mod Content
pub mod Space
pub mod Queue
pub mod Refine
mod Tests
use dfs_system.Base.{
  ℕ, ◌+◌, ◌-◌, ◌≤◌, Bool, ◌≡◌, List, [], ◌∷◌, ◌++◌, Option, none, some, if◌then◌else◌, ltb, leb,
  length, take, drop, replicate,
}
use mathlib.Core.Option as Option

pub record Buffer : Type 0 where
  pub bytes : List ℕ
  pub lpos : ℕ
  pub rpos : ℕ

-- Buffer::Buffer(int); std::vector's constructor fills with zeros.
unfoldable pub create : ℕ → Buffer
create n = record { bytes = replicate n 0; lpos = 0; rpos = 0 }

-- Buffer::operator=(const Buffer&): the body only returns `*this`.
unfoldable pub assign : Buffer → Buffer → Buffer
assign b other = b

abbrev pub free_bytes : Buffer → ℕ
free_bytes b = length b.bytes - b.rpos

abbrev pub unhandle_bytes : Buffer → ℕ
unhandle_bytes b = b.rpos - b.lpos

abbrev pub handled_bytes : Buffer → ℕ
handled_bytes b = b.lpos

-- The bytes from Peek() up to BeginWriteConst().
abbrev pub peek : Buffer → List ℕ
peek b = take (b.rpos - b.lpos) (drop b.lpos b.bytes)

unfoldable pub add_handled : ℕ → Buffer → Option Buffer
add_handled len b =
    if leb len (unhandle_bytes b) then some (record b { lpos = b.lpos + len }) else none

-- `end` is an index into the vector.
unfoldable pub add_handled_until : ℕ → Buffer → Option Buffer
unfolding add_handled
add_handled_until end b = if leb b.lpos end then add_handled (end - b.lpos) b else none

unfoldable pub add_handled_all : Buffer → Buffer
add_handled_all b = record { bytes = replicate (length b.bytes) 0; lpos = 0; rpos = 0 }

unfoldable pub has_written : ℕ → Buffer → Buffer
has_written len b = record b { rpos = b.rpos + len }

-- std::vector::resize
abbrev pub resize : ℕ → List ℕ → List ℕ
resize n xs = take n xs ++ replicate (n - length xs) 0

-- std::copy of the unhandled bytes to the front of the vector.
abbrev pub move_to_front : Buffer → List ℕ
move_to_front b = peek b ++ drop (b.rpos - b.lpos) b.bytes

unfoldable pub make_space : ℕ → Buffer → Buffer
make_space len b =
    if ltb (free_bytes b + handled_bytes b) len
    then record b { bytes = resize (b.rpos + len + 1) b.bytes }
    else record { bytes = move_to_front b; lpos = 0; rpos = b.rpos - b.lpos }

abbrev pub check_free : ℕ → Buffer → Option Buffer
check_free len b = if leb len (free_bytes b) then some b else none

unfoldable pub ensure_free_bytes : ℕ → Buffer → Option Buffer
unfolding make_space
ensure_free_bytes len b =
    if ltb (free_bytes b) len then check_free len (make_space len b) else check_free len b

-- std::copy of `s` to BeginWrite(), then HasWritten.
unfoldable pub write_at_end : List ℕ → Buffer → Buffer
write_at_end s b = record b {
  bytes = take b.rpos b.bytes ++ s ++ drop (b.rpos + length s) b.bytes;
  rpos = b.rpos + length s;
}

unfoldable pub append : List ℕ → Buffer → Option Buffer
unfolding ensure_free_bytes write_at_end
append s b = Option.map (write_at_end s) (ensure_free_bytes (length s) b)

-- What readv(2) and write(2) give back: a count with the bytes moved, or a failure.
pub data Received : Type 0 where
  received : List ℕ → Received
  failed : Received

-- ReadFd: readv fills the free space of the vector first, then the 65535 bytes on the stack.
unfoldable pub read_fd : Received → Buffer → Option Buffer
unfolding write_at_end append
read_fd failed b = some b
read_fd (received s) b =
    if leb (length s) (free_bytes b)
    then some (write_at_end s b)
    else append (drop (free_bytes b) s) (write_at_end (take (free_bytes b) s) b)

-- WriteFd: the kernel took `n` bytes of peek(b); a failure or 0 leaves the buffer alone.
unfoldable pub write_fd : Option ℕ → Buffer → Buffer
write_fd none b = b
write_fd (some n) b = record b { lpos = b.lpos + n }

unfoldable pub unhandle_to_str : Buffer → List ℕ × Buffer
unfolding add_handled_all
unhandle_to_str b = (peek b, add_handled_all b)
