-- ===== src/FileBody.antt =====
-- storage/src/message/node/tasknode.cpp (ParseBody_) and storage/src/http/httprequest.cpp
-- (ParseFile_): the loop that saves the content of a file up to its end mark. The two copies differ
-- in what they search for, CRLF and CR, and in the mark.
pub mod Round
pub mod Receive
pub mod Upload
pub mod Whole
pub mod Split
mod Tests
use dfs_system.Base.{
  ℕ, zero, suc, ◌+◌, ◌-◌, Bool, true, false, List, [], ◌∷◌, ◌++◌, Option, none, some, if◌then◌else◌,
  ◌&&◌, leb, ltb, ◌==◌, length, take, drop, codes, str_eq,
}

-- std::search: the position of the first `sep`, or the end.
unfoldable pub find : List ℕ → List ℕ → ℕ
find sep [] = 0
find sep (a ∷ s) =
    let rest = find sep s in if str_eq (take (length sep) (a ∷ s)) sep then 0 else suc rest

-- HttpMessage::CR and HttpMessage::CRLF.
abbrev pub cr : List ℕ
cr = 13 ∷ []

abbrev pub crlf : List ℕ
crlf = 13 ∷ 10 ∷ []

-- What a round of the loop does: the mark is at the front, more bytes are needed, or so many bytes
-- are the file's.
pub data Chunk : Type 0 where
  complete : Chunk
  stop : Chunk
  save : ℕ → Chunk

unfoldable pub beside : List ℕ → List ℕ → ℕ → Chunk
unfolding find
beside sep s e =
    let e2 = e + length sep + find sep (drop (e + length sep) s) in
    if ltb (e + length sep) (length s) && ltb e2 (length s) then save e2 else save (length s)

unfoldable pub round : List ℕ → List ℕ → List ℕ → Chunk
unfolding find beside
round sep mark s =
    let e = find sep s in
    if length s == 0
    then stop
    else if e == length s
    then save (length s)
    else if leb (length mark) (length s - e)
    then if str_eq (take (length mark) (drop e s)) mark
      then if e == 0 then complete else save e
      else beside sep s e
    else if e == 0
    then stop
    else save e

-- The loop, with the bytes left in the buffer and the file so far; `true` when the mark is reached.
unfoldable pub save_loop : ℕ → List ℕ → List ℕ → List ℕ → List ℕ → Option (Bool × List ℕ × List ℕ)
unfolding round
save_loop zero sep mark s file = none
save_loop (suc k) sep mark s file = elim (round sep mark s) [
  | complete ↦ some (true, s, file)
  | stop ↦ some (false, s, file)
  | save m ↦ save_loop k sep mark (drop m s) (file ++ take m s)
]

-- A round saves at least one byte, so this fuel is enough.
unfoldable pub save_file : List ℕ → List ℕ → List ℕ → List ℕ → Option (Bool × List ℕ × List ℕ)
unfolding save_loop
save_file sep mark s file = save_loop (length s + 1) sep mark s file

-- After a receipt: the next one, unless the mark is reached.
abbrev pub proceed :
    (List ℕ → List ℕ → Option (Bool × List ℕ × List ℕ))
    → Option (Bool × List ℕ × List ℕ)
    → Option (Bool × List ℕ × List ℕ)
proceed next none = none
proceed next (some (true, s, file)) = some (true, s, file)
proceed next (some (false, s, file)) = next s file

-- The file over several receipts.
unfoldable pub receive :
    List ℕ → List ℕ → List (List ℕ) → List ℕ → List ℕ → Option (Bool × List ℕ × List ℕ)
unfolding save_file
receive sep mark [] s file = some (false, s, file)
receive sep mark (chunk ∷ chunks) s file =
    proceed (receive sep mark chunks) (save_file sep mark (s ++ chunk) file)

abbrev pub join : List (List ℕ) → List ℕ
join [] = []
join (chunk ∷ chunks) = chunk ++ join chunks

-- The end marks of the two copies.
unfoldable pub task_mark : List ℕ → List ℕ
task_mark boundary = codes "\r\n--" ++ boundary ++ codes "\r\n"

unfoldable pub form_mark : List ℕ → List ℕ
form_mark boundary = codes "\r\n--" ++ boundary ++ codes "--\r\n"
