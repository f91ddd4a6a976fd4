-- ===== src/FileBody/Whole.antt =====
-- ParseFile_ takes a file from any receipts, ParseBody_ one that is received as a whole.
use mathlib.Core.List.{append-nil}
use dfs_system.Base.{
  ℕ, ◌+◌, ◌≤◌, ◌<◌, ◌≡◌, refl, ap, ◌∙◌, inl, inr, List, [], ◌∷◌, ◌++◌, arith, true, length, take,
  drop, some, length-append, drop-drop, drop-append_left, take-append_left, Bool-cases, ltb, get_or,
}
use dfs_system.FileBody.{save_file, receive, join, cr, crlf, form_mark, task_mark}
use dfs_system.FileBody.Round.{At, IsCut, IsMark}
use dfs_system.FileBody.Receive.{save_file-Saved}
use dfs_system.FileBody.Upload.{IsClear, receive_lem}

At-mark : (mark content rest : List ℕ) → At mark (length content) (content ++ (mark ++ rest))
At-mark mark content rest =
    rw (drop-append_left content (mark ++ rest)) (take-append_left mark rest)

At-cr : (b content rest : List ℕ) → At cr (length content) (content ++ (form_mark b ++ rest))
unfolding form_mark
At-cr b content rest = rw (drop-append_left content (form_mark b ++ rest)) refl

form_mark-IsMark : (b : List ℕ) → IsMark cr (form_mark b)
unfolding form_mark
form_mark-IsMark b = record { some_sep = omega arith; longer = omega arith }

-- A file that an HTTP client uploads is saved byte for byte however the bytes are split into
-- receipts, and its end is seen, if its end mark stands nowhere before its end.
pub receive-file :
    (b content rest : List ℕ) (chunks : List (List ℕ))
    → IsClear (form_mark b) content rest
    → join chunks ≡ content ++ (form_mark b ++ rest)
    → (s : List ℕ) × (receive cr (form_mark b) chunks [] [] ≡ some (true, s, content))
unfolding form_mark
receive-file b content rest chunks clear all =
    let cut : IsCut cr (form_mark b) (length content) [] (join chunks) = record {
      starts = rw all (At-cr b content rest);
      ends = rw all (At-mark (form_mark b) content rest);
      clear = λ i h a. clear i h (rw (← all) a);
      apart = λ i h a. omega arith;
      whole = inl (omega arith);
    } in
    let (s, e) = receive_lem (form_mark-IsMark b) refl chunks [] cut (omega arith) in
    (s, e ∙ rw (all, take-append_left content (form_mark b ++ rest)) refl)

At-crlf : (b content rest : List ℕ) → At crlf (length content) (content ++ (task_mark b ++ rest))
unfolding task_mark
At-crlf b content rest = rw (drop-append_left content (task_mark b ++ rest)) refl

task_mark-IsMark : (b : List ℕ) → IsMark crlf (task_mark b)
unfolding task_mark
task_mark-IsMark b = record { some_sep = omega arith; longer = omega arith }

overlap : (l : List ℕ) → take 2 l ≡ crlf → take 2 (drop 1 l) ≡ crlf → ⊥
overlap [] h k = cc
overlap (x ∷ []) h k = cc
overlap (x ∷ y ∷ l) h k =
    let a : y ≡ 10 = ap (λ s. get_or s 1 0) h in
    let b : y ≡ 13 = ap (λ s. get_or s 0 0) k in omega (arith, a, b)

apart-crlf : (T : List ℕ) (p i : ℕ) → At crlf p T → i < p → At crlf i T → i + 2 ≤ p
apart-crlf T p i e h a = elim (Bool-cases (ltb (i + 1) p)) [
  | inl far ↦ ground (arith, far)
  | inr near ↦
      let q : p ≡ i + 1 = ground (arith, near, h) in
      let next : take 2 (drop 1 (drop i T)) ≡ crlf = rw (drop-drop i 1 T, ← q) e in
      absurd (overlap (drop i T) a next)
]

-- A storage node that has a whole file in its buffer, whatever follows it, saves it byte for byte and
-- sees its end, if its end mark stands nowhere before its end.
pub save_file-whole :
    (b content rest : List ℕ)
    → IsClear (task_mark b) content rest
    → save_file crlf (task_mark b) (content ++ (task_mark b ++ rest)) []
      ≡ some (true, task_mark b ++ rest, content)
unfolding task_mark
save_file-whole b content rest clear =
    let s = content ++ (task_mark b ++ rest) in
    let n : s ++ [] ≡ s = append-nil s in
    let starts = At-crlf b content rest in
    let cut : IsCut crlf (task_mark b) (length content) s [] = record {
      starts = rw n starts;
      ends = rw n (At-mark (task_mark b) content rest);
      clear = λ i h a. clear i h (rw (← n) a);
      apart = λ i h a. apart-crlf s (length content) i starts h (rw (← n) a);
      whole = inr (omega (arith, length-append content (task_mark b ++ rest)));
    } in
    let r = save_file-Saved [] (task_mark-IsMark b) cut in
    elim (Bool-cases r.done) [
      | inl finished ↦
          let m = r.finished finished in
          r.is
          ∙ rw
              (
                finished,
                m,
                drop-append_left content (task_mark b ++ rest),
                take-append_left content (task_mark b ++ rest),
              )
              refl
      | inr waiting ↦
          let short = r.waiting waiting in
          let before = r.before in
          absurd (
            omega (
              arith,
              short,
              before,
              length-append content (task_mark b ++ rest),
              length-append (task_mark b) rest,
            ))
    ]
