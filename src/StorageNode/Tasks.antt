-- ===== src/StorageNode/Tasks.antt =====
-- storagenode.cpp: what WriteProcess sends of a task, over any number of calls.
use Prim.Native.Nat.{min}
use mathlib.Core.List.{append_assoc, append-nil}
use dfs_system.Base.{
  ℕ, ◌≤◌, ◌≡◌, refl, sym, subst, ◌∙◌, inl, inr, true, List, [], ◌∷◌, ◌++◌, Option, none, some, ◌==◌,
  length, take, drop, take-append-drop, arith, Bool-cases,
}
use dfs_system.FileBody.{task_mark}
use dfs_system.Status.{
  Status, handle_init, handle_head, handle_body, handle_complete, handle_error, FileStatus,
  file_begin, file_head, file_content, file_complete,
}
use dfs_system.StorageNode.{StorageNode}
use dfs_system.StorageNode.Sending.{Answer, took, again, failed, Run, flush, after_head}

-- The bytes that are still to go out after the head.
abbrev pub body_left : StorageNode → List ℕ
body_left n = elim n.file [
  | none ↦ []
  | some content ↦ drop n.has_sent content ++ task_mark n.boundary
]

-- The bytes of the task that are still to go out.
abbrev pub left_of : Status → FileStatus → StorageNode → List ℕ
left_of handle_init f n = []
left_of handle_head f n = n.send ++ body_left n
left_of handle_body file_begin n = []
left_of handle_body file_head n = body_left n
left_of handle_body file_content n = n.send
left_of handle_body file_complete n = []
left_of handle_complete f n = []
left_of handle_error f n = []

abbrev pub remaining : StorageNode → List ℕ
remaining n = left_of n.status n.file_status n

-- The file that is being sent is as long as its head says.
abbrev pub IsSized : StorageNode → Type 0
IsSized n =
    (content : List ℕ)
    → n.file ≡ some content
    → (n.body_len ≡ length content) × (n.has_sent ≤ length content)

-- Where the node can be.
abbrev pub IsPlace : Status → FileStatus → List ℕ → Option (List ℕ) → Type 0
IsPlace handle_head f send none = Unit
IsPlace handle_head f send (some content) = f ≡ file_head
IsPlace handle_body file_head send none = ⊥
IsPlace handle_body file_head send (some content) = send ≡ []
IsPlace handle_body file_content send file = Unit
IsPlace handle_body file_begin send file = ⊥
IsPlace handle_body file_complete send file = ⊥
IsPlace handle_error f send file = ⊥
IsPlace handle_init f send file = Unit
IsPlace handle_complete f send file = Unit

pub record IsGood (n : StorageNode) : Type 0 where
  pub place : IsPlace n.status n.file_status n.send n.file
  pub sized : IsSized n

-- Whatever a part sends is the beginning of what was left, and it leaves the rest.
abbrev pub Kept : StorageNode → Run → Type 0
Kept n r = (r.wire ++ remaining r.node ≡ remaining n) × IsGood r.node

abbrev left_after : StorageNode → ℕ → StorageNode
left_after n m = record n { send = drop m n.send }

pub no_bytes : (s : List ℕ) → (length s == 0) ≡ true → s ≡ []
no_bytes [] h = refl
no_bytes (x ∷ s) h = absurd (ground (arith, h))

pub take-all : (m : ℕ) (s : List ℕ) → drop m s ≡ [] → take m s ≡ s
take-all m s e = sym (append-nil (take m s)) ∙ rw (← e) (take-append-drop m s)

after_head-Kept :
    (m : ℕ) (n : StorageNode) (answers : List Answer) (file : Option (List ℕ))
    → n.file ≡ file
    → n.status ≡ handle_head
    → IsGood n
    → drop m n.send ≡ []
    → Kept n (record {
      returned = none;
      wire = take m n.send;
      node = after_head (left_after n m);
      answers = answers;
    })
unfolding after_head
after_head-Kept m n answers none f e g d =
    let w : take m n.send ++ remaining (after_head (left_after n m)) ≡ remaining n =
      rw (f, e, take-all m n.send d) refl in
    let sized : IsSized (after_head (left_after n m)) = rw f (λ content h. cc) in
    (w, record { place = rw f tt; sized = sized })
after_head-Kept m n answers (some content) f e g d =
    let there : IsPlace handle_head n.file_status n.send (some content) =
      subst (λ o. IsPlace handle_head n.file_status n.send o) f
        (subst (λ s. IsPlace s n.file_status n.send n.file) e g.place) in
    let w : take m n.send ++ remaining (after_head (left_after n m)) ≡ remaining n =
      rw (f, e, there, take-all m n.send d) refl in
    let sized : IsSized (after_head (left_after n m)) = rw f (λ c h. g.sized c (f ∙ h)) in
    (w, record { place = rw (f, there) d; sized = sized })

head-IsPlace :
    (s : Status) (f : FileStatus) (send send' : List ℕ) (file : Option (List ℕ))
    → s ≡ handle_head
    → IsPlace s f send file
    → IsPlace s f send' file
head-IsPlace s f send send' none e g = rw e tt
head-IsPlace s f send send' (some content) e g =
    let there : IsPlace handle_head f send (some content) =
      subst (λ s. IsPlace s f send (some content)) e g in
    rw e there

-- Sending the bytes of the head.
pub head-Kept :
    (answers : List Answer) (n : StorageNode)
    → n.status ≡ handle_head
    → IsGood n
    → Kept n (flush after_head answers n)
unfolding flush
head-Kept [] n e g = (refl, g)
head-Kept (again ∷ answers) n e g = (refl, g)
head-Kept (failed ∷ answers) n e g = (refl, g)
head-Kept (took m ∷ answers) n e g = elim (Bool-cases (min m (length n.send) == 0)) [
  | inl nothing ↦ rw nothing (refl, g)
  | inr some_bytes ↦ rw some_bytes (elim (Bool-cases (length (drop m n.send) == 0)) [
    | inl all ↦ rw all (after_head-Kept m n answers n.file refl e g (no_bytes (drop m n.send) all))
    | inr more ↦
        let w : take m n.send ++ remaining (left_after n m) ≡ remaining n = rw e (
          sym (append_assoc (take m n.send) (drop m n.send) (body_left n))
          ∙ rw (take-append-drop m n.send) refl) in
        let place : IsPlace n.status n.file_status (drop m n.send) n.file =
          head-IsPlace n.status n.file_status n.send (drop m n.send) n.file e g.place in
        rw more (w, record { place = place; sized = g.sized })
  ])
]
