-- ===== src/FileBody/Tests.antt =====
-- The save loop on a file with CR and LF in it, in one receipt and in several.
use dfs_system.Base.{
  ℕ, zero, suc, ap, get_or, ◌≡◌, refl, List, [], ◌∷◌, ◌++◌, arith, true, false, drop, some, codes,
}
use dfs_system.FileBody.{receive, cr, crlf, form_mark, task_mark}
use dfs_system.FileBody.Upload.{IsClear}
use dfs_system.FileBody.Whole.{receive-file}
use dfs_system.FileBody.Split.{receive-split}

abbrev text : List ℕ
text = codes "a\r\nb"

abbrev text_body : List ℕ
text_body = codes "ab"

abbrev next_task : List ℕ
next_task = codes "DEL"

-- The mark of the boundary "x" stands nowhere in the text.
text-IsClear : IsClear (task_mark (codes "x")) text next_task
unfolding task_mark
text-IsClear zero h a = omega (arith, ap (λ l. get_or l 0 0) a)
text-IsClear (suc zero) h a = omega (arith, ap (λ l. get_or l 2 0) a)
text-IsClear (suc (suc zero)) h a = omega (arith, ap (λ l. get_or l 0 0) a)
text-IsClear (suc (suc (suc zero))) h a = omega (arith, ap (λ l. get_or l 0 0) a)
text-IsClear (suc (suc (suc (suc i)))) h a = absurd (omega arith)

form-IsClear : IsClear (form_mark (codes "x")) text []
unfolding form_mark
form-IsClear zero h a = omega (arith, ap (λ l. get_or l 0 0) a)
form-IsClear (suc zero) h a = omega (arith, ap (λ l. get_or l 2 0) a)
form-IsClear (suc (suc zero)) h a = omega (arith, ap (λ l. get_or l 0 0) a)
form-IsClear (suc (suc (suc zero))) h a = omega (arith, ap (λ l. get_or l 0 0) a)
form-IsClear (suc (suc (suc (suc i)))) h a = absurd (omega arith)

-- Five receipts, one of which ends between the CR and the LF of the mark.
abbrev receipts : List (List ℕ)
receipts = codes "a\r" ∷ codes "\nb\r" ∷ codes "\n--x" ∷ codes "--\r" ∷ codes "\n" ∷ []

receive-file_example :
    (s : List ℕ) × (receive cr (form_mark (codes "x")) receipts [] [] ≡ some (true, s, text))
unfolding form_mark
receive-file_example = receive-file (codes "x") text [] receipts form-IsClear refl

receive-split_example :
    receive crlf
      (task_mark (codes "x"))
      ((text_body ++ 13 ∷ []) ∷ drop 1 (task_mark (codes "x")) ∷ [])
      []
      []
    ≡ some (false, crlf, text_body ++ codes "\r\n--" ++ codes "x")
receive-split_example =
    receive-split (codes "x") text_body ((λ e. omega (arith, e)), tt)
      ((λ e. omega (arith, e)), ((λ e. omega (arith, e)), tt))
