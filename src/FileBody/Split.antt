-- ===== src/FileBody/Split.antt =====
-- ParseBody_ of tasknode.cpp when the CR and the LF before the end mark come in two receipts.
use mathlib.Core.List.{append_assoc}
use dfs_system.Base.{
  ℕ, suc, ◌+◌, ◌-◌, ◌<◌, ◌≡◌, ◌≢◌, refl, sym, ap, ◌∙◌, List, [], ◌∷◌, ◌++◌, arith, true, false,
  length, take, drop, some, length-append, take-length, drop-length, drop-append_left,
  take-append_left, codes, leb, ◌==◌, str_eq,
}
use dfs_system.FileBody.Receive.{continue}
use dfs_system.FileBody.{
  find, stop, save, round, save_loop, save_file, receive, proceed, crlf, task_mark,
}

abbrev pub NoCr : List ℕ → Type 0
NoCr [] = Unit
NoCr (x ∷ l) = (x ≢ 13) × NoCr l

pub find-append : (l r : List ℕ) → NoCr l → find crlf (l ++ r) ≡ length l + find crlf r
unfolding find str_eq
find-append [] r h = omega arith
find-append (x ∷ l) r (ne, h) =
    let rest = find-append l r h in
    let no : (x == 13) ≡ false = ground (arith, ne) in rw no (omega (arith, rest))

module _ (mark : List ℕ) where
  save_step :
      (k m : ℕ) (s file : List ℕ)
      → round crlf mark s ≡ save m
      → save_loop (suc k) crlf mark s file ≡ save_loop k crlf mark (drop m s) (file ++ take m s)
  unfolding save_loop
  save_step k m s file e = ap (continue (save_loop k crlf mark) s file) e

  stop_step :
      (k : ℕ) (s file : List ℕ)
      → round crlf mark s ≡ stop
      → save_loop (suc k) crlf mark s file ≡ some (false, s, file)
  unfolding save_loop
  stop_step k s file e = ap (continue (save_loop k crlf mark) s file) e

  -- Two rounds, the second of which finds nothing more to save.
  save_file-stop :
      (m : ℕ) (s file : List ℕ)
      → 0 < length s
      → round crlf mark s ≡ save m
      → round crlf mark (drop m s) ≡ stop
      → save_file crlf mark s file ≡ some (false, drop m s, file ++ take m s)
  unfolding save_file
  save_file-stop m s file p e f =
      let k : length s + 1 ≡ suc (suc (length s - 1)) = omega arith in
      ap (λ k. save_loop k crlf mark s file) k
      ∙ save_step (suc (length s - 1)) m s file e
      ∙ stop_step (length s - 1) (drop m s) (file ++ take m s) f

  round-empty : (s : List ℕ) → length s ≡ 0 → round crlf mark s ≡ stop
  unfolding round
  round-empty s e = rw e refl

  round-all :
      (s : List ℕ) → 0 < length s → find crlf s ≡ length s → round crlf mark s ≡ save (length s)
  unfolding round
  round-all s p e =
      let some_bytes : (length s == 0) ≡ false = ground (arith, p) in
      let end : (find crlf s == length s) ≡ true = ground (arith, e) in rw (some_bytes, end) refl

  round-short :
      (s : List ℕ)
      → find crlf s < length s
      → length s - find crlf s < length mark
      → 0 < find crlf s
      → round crlf mark s ≡ save (find crlf s)
  unfolding round
  round-short s i h p =
      let some_bytes : (length s == 0) ≡ false = ground (arith, i) in
      let inner : (find crlf s == length s) ≡ false = ground (arith, i) in
      let short : leb (length mark) (length s - find crlf s) ≡ false = ground (arith, h) in
      let later : (find crlf s == 0) ≡ false = ground (arith, p) in
      rw (some_bytes, inner, short, later) refl

first-part :
    (mark content : List ℕ)
    → NoCr content
    → save_file crlf mark (content ++ 13 ∷ []) [] ≡ some (false, [], content ++ 13 ∷ [])
unfolding find str_eq
first-part mark content h =
    let s = content ++ 13 ∷ [] in
    let n : length s ≡ length content + 1 = length-append content (13 ∷ []) in
    let e : find crlf s ≡ length s = find-append content (13 ∷ []) h ∙ sym n in
    save_file-stop mark (length s) s [] (omega arith) (round-all mark s (omega arith) e)
      (round-empty mark (drop (length s) s) (rw (drop-length s) refl))
    ∙ rw (drop-length s, take-length s) refl

round-crlf : (mark : List ℕ) → 2 < length mark → round crlf mark crlf ≡ stop
unfolding round find str_eq
round-crlf mark h = let short : leb (length mark) 2 ≡ false = ground (arith, h) in rw short refl

-- `l` is the rest of the mark before its last CRLF.
second-part :
    (mark l file : List ℕ)
    → NoCr l
    → 0 < length l
    → 2 < length mark
    → save_file crlf mark (l ++ crlf) file ≡ some (false, crlf, file ++ l)
unfolding find str_eq
second-part mark l file h p q =
    let s = l ++ crlf in
    let n : length s ≡ length l + 2 = length-append l crlf in
    let e : find crlf s ≡ length l = find-append l crlf h ∙ omega arith in
    let r : round crlf mark s ≡ save (length l) =
      round-short mark s (omega arith) (omega arith) (omega arith) ∙ ap save e in
    save_file-stop mark (length l) s file (omega arith) r
      (rw (drop-append_left l crlf) (round-crlf mark q))
    ∙ rw (drop-append_left l crlf, take-append_left l crlf) refl

-- A file whose end mark is received up to its first byte, the CR, and then on from its second is not
-- seen to end: everything but the last CRLF of the mark is saved as if it were the file's, whatever
-- the boundary and the content, as long as neither has a CR.
pub receive-split :
    (b content : List ℕ)
    → NoCr b
    → NoCr content
    → receive crlf (task_mark b) ((content ++ 13 ∷ []) ∷ drop 1 (task_mark b) ∷ []) [] []
      ≡ some (false, crlf, content ++ codes "\r\n--" ++ b)
unfolding receive task_mark
receive-split b content hb hc =
    let mark = task_mark b in
    ap (proceed (receive crlf mark (drop 1 mark ∷ []))) (first-part mark content hc)
    ∙ ap (proceed (receive crlf mark [])) (
        second-part mark (10 ∷ 45 ∷ 45 ∷ b) (content ++ 13 ∷ [])
          ((λ e. omega (arith, e)), ((λ e. omega (arith, e)), ((λ e. omega (arith, e)), hb)))
          (omega arith) (omega arith))
    ∙ rw
        (append_assoc content (13 ∷ []) (10 ∷ 45 ∷ 45 ∷ b), append_assoc content (codes "\r\n--") b)
        refl
