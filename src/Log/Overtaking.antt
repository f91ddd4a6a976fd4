-- ===== src/Log/Overtaking.antt =====
-- log.cpp with blockqueue.h: a line that finds the queue full.
use mathlib.Core.List.{append_assoc}
use dfs_system.Base.{
  ℕ, ◌+◌, ◌≡◌, refl, ap, ◌∙◌, Bool, true, false, not, ◌&&◌, List, [], ◌∷◌, ◌++◌, Option, some,
  if◌then◌else◌,
}
use dfs_system.BlockDeque.{BlockDeque, pop, take_front, full, push_back, consume}
use dfs_system.Log.{Log, Time, put, queue_or_put, line_out, line_in, rotate, write, async_pass}

and_false : (b : Bool) → (b && false) ≡ false
and_false true = refl
and_false false = refl

queue_or_put-full :
    (text : List ℕ) (q : BlockDeque (List ℕ)) (l : Log)
    → full q ≡ true
    → queue_or_put text (some q) l ≡ put text l
unfolding queue_or_put
queue_or_put-full text q l f =
    let there : Log = record l { deque = some (push_back text (consume q)).1 } in
    let no : (l.is_async && not (full q)) ≡ false =
      ap (λ (b : Bool). l.is_async && not b) f ∙ and_false l.is_async in
    ap (λ (b : Bool). if b then there else put text l) no

-- When the queue of a log is full and no new file is due, the line of write goes to the file at once,
-- and the first line that waits in the queue goes there behind it, though it was written before.
pub write-overtakes :
    (t : Time) (level : ℕ) (message text line : List ℕ) (room : ℕ) (l : Log)
    (q : BlockDeque (List ℕ)) (rest : List (List ℕ))
    → rotate t l ≡ l
    → l.deque ≡ some q
    → full q ≡ true
    → q.deq ≡ text ∷ rest
    → line_in l.room t.stamp level message ≡ some (line, room)
    → (l' : Log) × (write t level message l ≡ some l')
      × (l'.deque ≡ some q)
      × ((async_pass (pop q) l').1.disk ≡ l.disk ++ ((l.file, line) ∷ (l.file, text) ∷ []))
unfolding write queue_or_put async_pass pop take_front
write-overtakes t level message text line room l q rest c d f e m =
    let l2 : Log = record l { line_count = l.line_count + 1; room = room } in
    let l' = put line l2 in
    (
      l',
      ap (λ (x : Log). line_out x (line_in x.room t.stamp level message)) c
          ∙ ap (line_out l) m
          ∙ ap (λ (o : Option (BlockDeque (List ℕ))). some (queue_or_put line o l2)) d
          ∙ ap some (queue_or_put-full line q l2 f),
      d,
      ap (λ (xs : List (List ℕ)). (async_pass (take_front xs q) l').1.disk) e
          ∙ append_assoc l.disk ((l.file, line) ∷ []) ((l.file, text) ∷ []),
    )
