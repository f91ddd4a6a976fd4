-- ===== src/StorageNode/Calls.antt =====
-- storagenode.cpp: a task over any number of calls of WriteProcess.
use mathlib.Core.List.{append_assoc, append-nil}
use dfs_system.Base.{
  ℕ, ◌≡◌, refl, sym, ap, ◌∙◌, inl, inr, List, [], ◌++◌, Option, none, some, length, arith,
  Option-cases,
}
use dfs_system.FileBody.{task_mark}
use dfs_system.Status.{handle_init}
use dfs_system.StorageNode.{StorageNode, SynPack, Surroundings, ready_upload, upl_head, file_path}
use dfs_system.StorageNode.Sending.{
  Answer, Run, next_part, head_part, file_part, content_part, last_part, write_on,
}
use dfs_system.StorageNode.Tasks.{remaining, IsGood, Kept}
use dfs_system.StorageNode.Steps.{head_part-Kept, file_part-Kept, content_part-Kept, last_part-Kept}

next_part-Kept :
    (part : List Answer → StorageNode → Run) (n : StorageNode) (r : Run)
    → ((answers : List Answer) (m : StorageNode) → IsGood m → Kept m (part answers m))
    → Kept n r
    → Kept n (next_part part r)
next_part-Kept part n r keep (w, g) = elim (Option-cases r.returned) [
  | inr (value, e) ↦ rw e (w, g)
  | inl e ↦
      let (w', g') = keep r.answers r.node g in
      rw e (
        append_assoc r.wire (part r.answers r.node).wire (remaining (part r.answers r.node).node)
            ∙ ap (λ s. r.wire ++ s) w'
            ∙ w,
        g',
      )
]

write_on-Kept : (answers : List Answer) (n : StorageNode) → IsGood n → Kept n (write_on answers n)
unfolding write_on
write_on-Kept answers n g =
    let r1 = head_part answers n in
    let r2 = next_part file_part r1 in
    let r3 = next_part content_part r2 in
    next_part-Kept last_part n r3 last_part-Kept (
      next_part-Kept content_part n r2 content_part-Kept
        (next_part-Kept file_part n r1 file_part-Kept (head_part-Kept answers n g)))

-- Calls of WriteProcess on one task, each with the answers of the kernel: what went out in all, and
-- the state after them.
pub data Calls (n : StorageNode) : List ℕ → StorageNode → Type 0 where
  start : Calls n [] n
  call :
      {out : List ℕ} {m : StorageNode} (answers : List Answer)
      → Calls n out m
      → Calls n (out ++ (write_on answers m).wire) (write_on answers m).node

Calls-Kept :
    {n : StorageNode} {out : List ℕ} {m : StorageNode}
    → Calls n out m
    → IsGood n
    → (out ++ remaining m ≡ remaining n) × IsGood m
Calls-Kept start g = (refl, g)
Calls-Kept (call {out} {m} answers c) g =
    let (w, g') = Calls-Kept c g in
    let (w', g'') = write_on-Kept answers m g' in
    (
      append_assoc out (write_on answers m).wire (remaining (write_on answers m).node)
          ∙ ap (λ s. out ++ s) w'
          ∙ w,
      g'',
    )

-- Between two tasks.
abbrev pub IsIdle : StorageNode → Type 0
IsIdle n = (n.status ≡ handle_init) × (n.send ≡ []) × (n.file ≡ none) × (n.has_sent ≡ 0)

abbrev or_else : List ℕ → Option (List ℕ) → List ℕ
or_else d none = d
or_else d (some s) = s

-- The message of an upload.
abbrev pub upload_message : SynPack → List ℕ → List ℕ → List ℕ
upload_message pack content boundary =
    upl_head pack (length content) boundary ++ (content ++ task_mark boundary)

module _ (env : Surroundings) (pack : SynPack) (content : List ℕ) (n : StorageNode)
    (idle : IsIdle n) (found : env.files (file_path env.data_path pack) ≡ some content) where
  ready-remaining : remaining (ready_upload env pack n) ≡ upload_message pack content env.boundary
  unfolding ready_upload
  ready-remaining = let (init, empty, closed, fresh) = idle in rw (found, empty, fresh) refl

  ready-IsGood : IsGood (ready_upload env pack n)
  unfolding ready_upload
  ready-IsGood =
      let (init, empty, closed, fresh) = idle in
      record {
        place = rw found refl;
        sized = λ c e.
            rw (found, fresh)
              (let same : content ≡ c = ap (or_else content) (sym found ∙ e) in
                (ap length same, omega arith));
      }

-- From the start of an upload between two tasks, of a file that opens, and after any calls of
-- WriteProcess with any answers of the socket: what has gone out is a beginning of the head, the
-- file and its end mark, and the node holds what is left of them.
pub upload-remaining :
    (env : Surroundings) (pack : SynPack) (content : List ℕ) (n : StorageNode) {out : List ℕ}
    {m : StorageNode}
    → IsIdle n
    → env.files (file_path env.data_path pack) ≡ some content
    → Calls (ready_upload env pack n) out m
    → out ++ remaining m ≡ upload_message pack content env.boundary
upload-remaining env pack content n idle found c =
    (Calls-Kept c (ready-IsGood env pack content n idle found)).0
    ∙ ready-remaining env pack content n idle found

-- When WriteProcess is done with an upload that it began between two tasks, of a file that opens,
-- and is ready for the next task, the head, the file and its end mark have gone out, in this order
-- and nothing else, however the socket split them over the calls.
pub upload-sent :
    (env : Surroundings) (pack : SynPack) (content : List ℕ) (n : StorageNode) {out : List ℕ}
    {m : StorageNode}
    → IsIdle n
    → env.files (file_path env.data_path pack) ≡ some content
    → Calls (ready_upload env pack n) out m
    → m.status ≡ handle_init
    → out ≡ upload_message pack content env.boundary
upload-sent env pack content n {out} {m} idle found c done =
    let none_left : remaining m ≡ [] = rw done refl in
    sym (append-nil out) ∙ rw (← none_left) (upload-remaining env pack content n idle found c)
