-- ===== src/Log/Lines.antt =====
-- log.cpp: the files that the lines of a day go to.
use mathlib.Core.List.{append_assoc, append-nil}
use dfs_system.Base.{
  ℕ, zero, suc, ◌+◌, ◌-◌, ◌/◌, ◌≤◌, ◌<◌, ◌≡◌, refl, sym, ap, ◌∙◌, Bool, true, false, List, [], ◌∷◌,
  ◌++◌, Option, none, some, arith, if◌then◌else◌, ltb, ◌==◌, length, take, codes, Bool-cases, inl,
  inr,
}
use dfs_system.BlockDeque.{BlockDeque}
use dfs_system.Log.{
  Log, Time, max_lines, consumed, with_queue, flush_if_open, flush, file_name, init, reopen, rotate,
  title, line_in, put, queue_or_put, line_out, write,
}

abbrev pub Messages : Type 0
Messages = List (Time × ℕ × List ℕ)

abbrev and_all : (Log → Option Log) → Option Log → Option Log
and_all next none = none
and_all next (some l) = next l

-- Calls of write.
unfoldable pub log_all : Messages → Log → Option Log
unfolding write
log_all [] l = some l
log_all ((t, level, message) ∷ messages) l = and_all (log_all messages) (write t level message l)

-- The number of the file for the line with this number, both from 0.
unfoldable pub number_of : ℕ → ℕ
number_of n = if ltb max_lines n then n / max_lines else 0

abbrev pub name_of : List ℕ → List ℕ → Time → ℕ → List ℕ
name_of path suffix t n = take 183 (file_name path t.date (number_of n) suffix)

-- The whole lines, each with its file, from the line with the number `n` on.
unfoldable pub lines_from : List ℕ → List ℕ → Time → ℕ → Messages → List (Option (List ℕ) × List ℕ)
unfolding number_of file_name title
lines_from path suffix t n [] = []
lines_from path suffix t n ((u, level, message) ∷ messages) =
    (some (name_of path suffix t n), u.stamp ++ (title level ++ (message ++ codes "\n")))
    ∷ lines_from path suffix t (n + 1) messages

-- Every message leaves a byte of the room.
abbrev pub AreShort : ℕ → Messages → Type 0
AreShort room [] = Unit
AreShort room ((t, level, message) ∷ messages) =
    (33 + length message < room) × AreShort room messages

-- A time of the same day, with a stamp of its 26 bytes.
abbrev pub IsOn : Time → Time → Type 0
IsOn t u = (u.day ≡ t.day) × (u.date ≡ t.date) × (length u.stamp ≡ 26)

abbrev pub AreOn : Time → Messages → Type 0
AreOn t [] = Unit
AreOn t ((u, level, message) ∷ messages) = IsOn t u × AreOn t messages

-- A log whose lines go straight to the file that the next line but for the rotation belongs to.
record IsReady (t : Time) (n : ℕ) (l : Log) : Type 0 where
  counted : l.line_count ≡ n
  today : l.to_day ≡ t.day
  direct : l.is_async ≡ false
  roomy : 1024 ≤ l.room
  named : l.file ≡ some (name_of l.path l.suffix t (n - 1))

queue_or_put-put :
    (text : List ℕ) (q : Option (BlockDeque (List ℕ))) (l : Log)
    → l.is_async ≡ false
    → queue_or_put text q l ≡ put text l
unfolding queue_or_put
queue_or_put-put text none l h = refl
queue_or_put-put text (some q) l h = rw h refl

flush_direct : (l : Log) → l.is_async ≡ false → flush l ≡ l
unfolding flush
flush_direct l h = ap (λ (b : Bool). if b then record l { deque = consumed l.deque } else l) h

number_of-same : (n : ℕ) → ltb max_lines n ≡ false → number_of (n - 1) ≡ number_of n
unfolding number_of
number_of-same n h =
    let before : ltb max_lines (n - 1) ≡ false = ground arith in rw (h, before) refl

number_of-many :
    (t : Time) (n : ℕ) (l : Log)
    → IsReady t n l
    → ltb max_lines n ≡ true
    → l.line_count / max_lines ≡ number_of n
unfolding number_of
number_of-many t n l h b = rw b (ap (λ (k : ℕ). k / max_lines) h.counted)

-- The file after the rotation.
rotate_ready :
    (t : Time) (n : ℕ) (l : Log)
    → IsReady t n l
    → rotate t l ≡ record l { file = some (name_of l.path l.suffix t n) }
unfolding rotate reopen
rotate_ready t n l h =
    let d : (l.to_day == t.day) ≡ true = ground (arith, h.today) in
    elim (Bool-cases (ltb max_lines n)) [
      | inl b ↦
          let more : ltb max_lines l.line_count ≡ true = ap (ltb max_lines) h.counted ∙ b in
          let number : l.line_count / max_lines ≡ number_of n = number_of-many t n l h b in
          rw (d, more, flush_direct l h.direct)
            (ap
              (λ (k : ℕ). record l { file = some (take 183 (file_name l.path t.date k l.suffix)) })
              number)
      | inr b ↦
          let few : ltb max_lines l.line_count ≡ false = ap (ltb max_lines) h.counted ∙ b in
          rw (d, few)
            (ap (λ (f : Option (List ℕ)). record l { file = f })
              (h.named
                ∙ ap (λ (k : ℕ). some (take 183 (file_name l.path t.date k l.suffix)))
                    (number_of-same n b)))
    ]

line_in_short :
    (room : ℕ) (stamp : List ℕ) (level : ℕ) (message : List ℕ)
    → length stamp ≡ 26
    → 1024 ≤ room
    → 33 + length message < room
    → (room' : ℕ) × (line_in room stamp level message
        ≡ some (stamp ++ (title level ++ (message ++ codes "\n")), room'))
      × (room ≤ room')
unfolding line_in
line_in_short room stamp level message s r h =
    let fits : ltb (room - (length stamp + 7)) (length message) ≡ false = ground (arith, s) in
    let whole : (length message == room - (length stamp + 7)) ≡ false = ground (arith, s) in
    elim (Bool-cases (ltb (room - (length stamp + 7) - length message) 2)) [
      | inl b ↦ (length stamp + 7 + length message + 3, rw (fits, whole, b) refl, ground (arith, b))
      | inr b ↦ (room, rw (fits, whole, b) refl, omega arith)
    ]

-- A call of write on a log that is ready.
write-IsReady :
    (t : Time) (n level : ℕ) (message : List ℕ) (l : Log)
    → length t.stamp ≡ 26
    → 33 + length message < l.room
    → IsReady t n l
    → (l' : Log) × (write t level message l ≡ some l')
      × IsReady t (n + 1) l'
      × (l'.path ≡ l.path)
      × (l'.suffix ≡ l.suffix)
      × (l.room ≤ l'.room)
      × (l'.disk
          ≡ l.disk
            ++ (
              some (name_of l.path l.suffix t n),
              t.stamp ++ (title level ++ (message ++ codes "\n")),
            )
              ∷ [])
unfolding write
write-IsReady t n level message l s m h =
    let l1 : Log = record l { file = some (name_of l.path l.suffix t n) } in
    let (room, line, more) = line_in_short l.room t.stamp level message s h.roomy m in
    let text = t.stamp ++ (title level ++ (message ++ codes "\n")) in
    let l2 : Log = record l1 { line_count = l.line_count + 1; room = room } in
    let same : n + 1 - 1 ≡ n = omega arith in
    (
      put text l2,
      ap (λ (x : Log). line_out x (line_in x.room t.stamp level message)) (rotate_ready t n l h)
          ∙ ap (line_out l1) line
          ∙ ap some (queue_or_put-put text l2.deque l2 h.direct),
      record {
        counted = ap (λ (k : ℕ). k + 1) h.counted;
        today = h.today;
        direct = h.direct;
        roomy = omega (arith, h.roomy, more);
        named = ap (λ (k : ℕ). some (name_of l.path l.suffix t k)) (sym same);
      },
      refl,
      refl,
      more,
      refl,
    )

AreShort-le : (a b : ℕ) (messages : Messages) → a ≤ b → AreShort a messages → AreShort b messages
AreShort-le a b [] h s = tt
AreShort-le a b ((t, level, message) ∷ messages) h (m, s) =
    (omega arith, AreShort-le a b messages h s)

name_of-on :
    (path suffix : List ℕ) (t u : Time) (n : ℕ)
    → u.date ≡ t.date
    → name_of path suffix u n ≡ name_of path suffix t n
name_of-on path suffix t u n h =
    ap (λ (d : List ℕ). take 183 (file_name path d (number_of n) suffix)) h

IsReady-on :
    (t u : Time) (n : ℕ) (l : Log) → u.day ≡ t.day → u.date ≡ t.date → IsReady t n l → IsReady u n l
IsReady-on t u n l d e h = record {
  counted = h.counted;
  today = h.today ∙ sym d;
  direct = h.direct;
  roomy = h.roomy;
  named = h.named ∙ ap some (sym (name_of-on l.path l.suffix t u (n - 1) e));
}

log_all_ready :
    (t : Time) (n : ℕ) (messages : Messages) (l : Log)
    → AreOn t messages
    → AreShort l.room messages
    → IsReady t n l
    → (l' : Log) × (log_all messages l ≡ some l')
      × (l'.disk ≡ l.disk ++ lines_from l.path l.suffix t n messages)
unfolding log_all lines_from
log_all_ready t n [] l s m h = (l, refl, sym (append-nil l.disk))
log_all_ready t n ((u, level, message) ∷ messages) l ((d, e, k), s) (m, ms) h =
    let (l1, run, ready, p, q, more, out) =
      write-IsReady u n level message l k m (IsReady-on t u n l d e h) in
    let (l', runs, outs) =
      log_all_ready t (n + 1) messages l1 s (AreShort-le l.room l1.room messages more ms)
        (IsReady-on u t (n + 1) l1 (sym d) (sym e) ready) in
    let line = u.stamp ++ (title level ++ (message ++ codes "\n")) in
    let first : List (Option (List ℕ) × List ℕ) = (some (name_of l.path l.suffix t n), line) ∷ [] in
    let named : l1.disk ≡ l.disk ++ first =
      out
      ∙ ap (λ (f : List ℕ). l.disk ++ (some f, line) ∷ []) (name_of-on l.path l.suffix t u n e) in
    let rest : lines_from l1.path l1.suffix t (n + 1) messages
        ≡ lines_from l.path l.suffix t (n + 1) messages =
      ap (λ (a : List ℕ). lines_from a l1.suffix t (n + 1) messages) p
      ∙ ap (λ (a : List ℕ). lines_from l.path a t (n + 1) messages) q in
    (
      l',
      ap (and_all (log_all messages)) run ∙ runs,
      outs
          ∙ ap
              (λ (d : List (Option (List ℕ) × List ℕ)).
                d ++ lines_from l1.path l1.suffix t (n + 1) messages)
              named
          ∙ ap (λ (d : List (Option (List ℕ) × List ℕ)). (l.disk ++ first) ++ d) rest
          ∙ append_assoc l.disk first (lines_from l.path l.suffix t (n + 1) messages),
    )

take_none : (m : ℕ) → ◌≡◌ {A = List ℕ} (take m []) []
take_none zero = refl
take_none (suc m) = refl

take_most : (n m : ℕ) (xs : List ℕ) → n ≤ m → length xs ≤ n → take m xs ≡ take n xs
take_most zero m [] h k = take_none m
take_most zero m (x ∷ xs) h k = absurd (omega arith)
take_most (suc n) m [] h k = take_none m
take_most (suc n) zero (x ∷ xs) h k = absurd (omega arith)
take_most (suc n) (suc m) (x ∷ xs) h k = ap (◌∷◌ x) (take_most n m xs (omega arith) (omega arith))

flush_if_open_direct : (o : Option (List ℕ)) (l : Log) → l.is_async ≡ false → flush_if_open o l ≡ l
flush_if_open_direct none l h = refl
flush_if_open_direct (some name) l h = flush_direct l h

-- When Init makes a log without a queue whose buffer has at least 1024 bytes, and the name of its
-- first file has at most 183 bytes, then calls of write on the same day, each at its own time and
-- with a message that leaves a byte of the buffer behind the time and the title, all succeed, and put
-- each line whole and in order into its file: the lines 0 to 500000 of the day into the file with the number 0, each later line n
-- into that with the number n / 500000.
pub log_all-lines_from :
    (t : Time) (level : ℕ) (path suffix : List ℕ) (messages : Messages) (l : Log)
    → AreOn t messages
    → length (file_name path t.date 0 suffix) ≤ 183
    → 1024 ≤ l.room
    → AreShort l.room messages
    → (l' : Log) × (log_all messages (init level path suffix 0 t l) ≡ some l')
      × (l'.disk ≡ l.disk ++ lines_from path suffix t 0 messages)
unfolding init with_queue number_of
log_all-lines_from t level path suffix messages l s f r m =
    let l2 : Log = record l {
      is_open = true;
      level = level;
      is_async = false;
      line_count = 0;
      path = path;
      suffix = suffix;
      to_day = t.day;
    } in
    let first = file_name path t.date 0 suffix in
    let l3 : Log = record l2 { file = some (take 254 first) } in
    let made : init level path suffix 0 t l ≡ l3 =
      ap (λ (x : Log). record x { file = some (take 254 first) })
        (flush_if_open_direct l.file l2 refl) in
    let ready : IsReady t 0 l3 = record {
      counted = refl;
      today = refl;
      direct = refl;
      roomy = r;
      named = ap some (take_most 183 254 first (omega arith) f);
    } in
    let (l', run, out) = log_all_ready t 0 messages l3 s m ready in
    (l', ap (log_all messages) made ∙ run, out)
