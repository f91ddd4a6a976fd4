-- ===== src/StorageNode/Steps.antt =====
-- storagenode.cpp: every part of WriteProcess keeps what is left to be sent.
use Prim.Native.Nat.{min}
use mathlib.Core.List.{append-nil}
use dfs_system.Base.{
  ℕ, ◌≡◌, refl, subst, ◌∙◌, inl, inr, Bool, true, false, ◌&&◌, List, [], ◌∷◌, some, ◌==◌, length,
  take, drop, take-append-drop, Bool-cases, Option-cases,
}
use dfs_system.Status.{
  Status, handle_init, handle_head, handle_body, handle_complete, handle_error, FileStatus,
  file_begin, file_head, file_content, file_complete,
}
use dfs_system.StorageNode.{StorageNode, init, close}
use dfs_system.StorageNode.Sending.{
  Answer, took, again, failed, flush, after_content, head_part, file_part, content_part, last_part,
  at_head, at_body, at_complete, at_file_head, at_file_content,
}
use dfs_system.StorageNode.Tasks.{IsPlace, IsGood, Kept, no_bytes, take-all, head-Kept}
use dfs_system.StorageNode.Parts.{file-Kept}

content-Kept :
    (answers : List Answer) (n : StorageNode)
    → n.status ≡ handle_body
    → n.file_status ≡ file_content
    → IsGood n
    → Kept n (flush after_content answers n)
unfolding flush after_content
content-Kept [] n e h g = (refl, g)
content-Kept (again ∷ answers) n e h g = (refl, g)
content-Kept (failed ∷ answers) n e h g = (refl, g)
content-Kept (took m ∷ answers) n e h g = elim (Bool-cases (min m (length n.send) == 0)) [
  | inl nothing ↦ rw nothing (refl, g)
  | inr some_bytes ↦ rw some_bytes (elim (Bool-cases (length (drop m n.send) == 0)) [
    | inl all ↦ rw all (
      append-nil (take m n.send)
          ∙ take-all m n.send (no_bytes (drop m n.send) all)
          ∙ rw (e, h) refl,
      record { place = tt; sized = g.sized },
    )
    | inr more ↦
        rw more
          (rw (e, h) (take-append-drop m n.send), record { place = rw (e, h) tt; sized = g.sized })
  ])
]

at_head→eq : (s : Status) → at_head s ≡ true → s ≡ handle_head
at_head→eq handle_init h = cc
at_head→eq handle_head h = refl
at_head→eq handle_body h = cc
at_head→eq handle_complete h = cc
at_head→eq handle_error h = cc

at_body→eq : (s : Status) → at_body s ≡ true → s ≡ handle_body
at_body→eq handle_init h = cc
at_body→eq handle_head h = cc
at_body→eq handle_body h = refl
at_body→eq handle_complete h = cc
at_body→eq handle_error h = cc

at_complete→eq : (s : Status) → at_complete s ≡ true → s ≡ handle_complete
at_complete→eq handle_init h = cc
at_complete→eq handle_head h = cc
at_complete→eq handle_body h = cc
at_complete→eq handle_complete h = refl
at_complete→eq handle_error h = cc

at_file_head→eq : (s : FileStatus) → at_file_head s ≡ true → s ≡ file_head
at_file_head→eq file_begin h = cc
at_file_head→eq file_head h = refl
at_file_head→eq file_content h = cc
at_file_head→eq file_complete h = cc

at_file_content→eq : (s : FileStatus) → at_file_content s ≡ true → s ≡ file_content
at_file_content→eq file_begin h = cc
at_file_content→eq file_head h = cc
at_file_content→eq file_content h = refl
at_file_content→eq file_complete h = cc

both : (a b : Bool) → a && b ≡ true → (a ≡ true) × (b ≡ true)
both false b h = cc
both true b h = (refl, h)

pub head_part-Kept :
    (answers : List Answer) (n : StorageNode) → IsGood n → Kept n (head_part answers n)
unfolding head_part
head_part-Kept answers n g = elim (Bool-cases (at_head n.status)) [
  | inl here ↦ rw here (head-Kept answers n (at_head→eq n.status here) g)
  | inr not_here ↦ rw not_here (refl, g)
]

with_file :
    (n : StorageNode)
    → n.status ≡ handle_body
    → n.file_status ≡ file_head
    → IsGood n
    → (content : List ℕ) × (n.file ≡ some content)
with_file n e h g = elim (Option-cases n.file) [
  | inr found ↦ found
  | inl missing ↦ absurd (
      subst (λ o. IsPlace handle_body file_head n.send o) missing
        (subst (λ p. IsPlace handle_body p n.send n.file) h
          (subst (λ s. IsPlace s n.file_status n.send n.file) e g.place)))
]

pub file_part-Kept :
    (answers : List Answer) (n : StorageNode) → IsGood n → Kept n (file_part answers n)
unfolding file_part
file_part-Kept answers n g = elim (Bool-cases (at_body n.status && at_file_head n.file_status)) [
  | inl here ↦
      let (b, f) = both (at_body n.status) (at_file_head n.file_status) here in
      let e = at_body→eq n.status b in
      let h = at_file_head→eq n.file_status f in
      let (content, found) = with_file n e h g in rw here (file-Kept answers n content found e h g)
  | inr not_here ↦ rw not_here (refl, g)
]

pub content_part-Kept :
    (answers : List Answer) (n : StorageNode) → IsGood n → Kept n (content_part answers n)
unfolding content_part
content_part-Kept answers n g =
    elim (Bool-cases (at_body n.status && at_file_content n.file_status)) [
      | inl here ↦
          let (b, f) = both (at_body n.status) (at_file_content n.file_status) here in
          rw here
            (content-Kept answers n (at_body→eq n.status b) (at_file_content→eq n.file_status f) g)
      | inr not_here ↦ rw not_here (refl, g)
    ]

pub last_part-Kept :
    (answers : List Answer) (n : StorageNode) → IsGood n → Kept n (last_part answers n)
unfolding last_part init close
last_part-Kept answers n g = elim (Bool-cases (at_complete n.status)) [
  | inl here ↦
      let e = at_complete→eq n.status here in
      rw here (rw e refl, record { place = tt; sized = λ c h. cc })
  | inr not_here ↦ rw not_here (refl, g)
]
