-- ===== src/StorageNode/Parts.antt =====
-- storagenode.cpp: the parts of WriteProcess after the head, and what they leave to be sent.
use Prim.Native.Nat.{min}
use mathlib.Core.List.{append_assoc, append-nil}
use dfs_system.Base.{
  ℕ, zero, suc, ◌+◌, ◌≤◌, ◌≡◌, refl, sym, ap, subst, ◌∙◌, inl, inr, List, [], ◌∷◌, ◌++◌, some, leb,
  length, take, drop, take-append-drop, length-drop, drop-drop, arith, Bool-cases, drop-length,
  drop-nil, take-eq_self,
}
use dfs_system.FileBody.{task_mark}
use dfs_system.Status.{handle_body, file_head, file_content}
use dfs_system.StorageNode.{StorageNode}
use dfs_system.StorageNode.Sending.{Answer, took, again, failed, content_of, send_file}
use dfs_system.StorageNode.Tasks.{body_left, remaining, IsPlace, IsGood, Kept}

pub drop-all : (k : ℕ) (s : List ℕ) → length s ≤ k → drop k s ≡ []
drop-all k [] h = drop-nil k
drop-all zero (x ∷ s) h = absurd (omega arith)
drop-all (suc k) (x ∷ s) h = drop-all k s (omega arith)

cut :
    (m h : ℕ) (c : List ℕ) → take m (drop h c) ++ drop (h + min m (length (drop h c))) c ≡ drop h c
cut m h c =
    let s = drop h c in
    rw (← (drop-drop h (min m (length s)) c)) (elim (Bool-cases (leb m (length s))) [
      | inl part ↦
          let k : min m (length s) ≡ m = ground (arith, part) in rw k (take-append-drop m s)
      | inr all ↦
          let k : min m (length s) ≡ length s = ground (arith, all) in
          rw (k, drop-length s, take-eq_self m s (ground (arith, all))) (append-nil s)
    ])

abbrev sent_on : StorageNode → ℕ → StorageNode
sent_on n k = record n { has_sent = n.has_sent + k }

module _ (n : StorageNode) (content : List ℕ) (f : n.file ≡ some content) where
  left_is : body_left n ≡ drop n.has_sent (content_of n.file) ++ task_mark n.boundary
  left_is = rw f refl

  module _ (e : n.status ≡ handle_body) (h : n.file_status ≡ file_head) (g : IsGood n) where
    nothing_else : n.send ≡ []
    nothing_else =
        subst (λ o. IsPlace handle_body file_head n.send o) f
          (subst (λ p. IsPlace handle_body p n.send n.file) h
            (subst (λ s. IsPlace s n.file_status n.send n.file) e g.place))

    IsGood-sent_on : (k : ℕ) → n.has_sent + k ≤ length content → IsGood (sent_on n k)
    IsGood-sent_on k b = record {
      place = g.place;
      sized = λ c t.
          let (size, inside) = g.sized c t in
          let (size', inside') = g.sized content f in (size, omega (arith, size, size', b));
    }

abbrev whole_sent : StorageNode → ℕ → StorageNode
whole_sent n k = record n {
  has_sent = n.has_sent + k;
  send = n.send ++ task_mark n.boundary;
  file_status = file_content;
}

pub file-Kept :
    (answers : List Answer) (n : StorageNode) (content : List ℕ)
    → n.file ≡ some content
    → n.status ≡ handle_body
    → n.file_status ≡ file_head
    → IsGood n
    → Kept n (send_file answers n)
unfolding send_file
file-Kept [] n content f e h g = (refl, g)
file-Kept (again ∷ answers) n content f e h g = (refl, g)
file-Kept (failed ∷ answers) n content f e h g = (refl, g)
file-Kept (took m ∷ answers) n content f e h g =
    let c : List ℕ = content_of n.file in
    let same : c ≡ content = rw f refl in
    let rest : List ℕ = drop n.has_sent c in
    let k : ℕ = min m (length rest) in
    let (size, inside) = g.sized content f in
    let bound : n.has_sent + k ≤ length content =
      omega (arith, inside, length-drop n.has_sent c, ap length same) in
    let now : remaining n ≡ rest ++ task_mark n.boundary = rw (e, h) (left_is n content f) in
    let good : IsGood (sent_on n k) = IsGood-sent_on n content f e h g k bound in
    let (w, good') = file-Kept answers (sent_on n k) content f e h good in
    elim (Bool-cases (leb n.body_len (n.has_sent + k))) [
      | inl whole ↦
          let gone : drop (n.has_sent + k) c ≡ [] =
            drop-all (n.has_sent + k) c (ground (arith, whole, size, ap length same)) in
          let all : take m rest ≡ rest =
            sym (append-nil (take m rest)) ∙ rw (← gone) (cut m n.has_sent c) in
          let w' : take m rest ++ remaining (whole_sent n k) ≡ remaining n =
            rw e (
              ap (λ s. take m rest ++ (s ++ task_mark n.boundary)) (nothing_else n content f e h g)
              ∙ ap (λ s. s ++ task_mark n.boundary) all)
            ∙ sym now in
          rw whole (w', record { place = rw e tt; sized = good.sized })
      | inr more ↦
          let now' : remaining (sent_on n k) ≡ drop (n.has_sent + k) c ++ task_mark n.boundary =
            rw (e, h) (left_is (sent_on n k) content f) in
          rw more (
            (append_assoc (take m rest) (send_file answers (sent_on n k)).wire
                  (remaining (send_file answers (sent_on n k)).node)
                ∙ ap (λ s. take m rest ++ s) (w ∙ now')
                ∙ sym (append_assoc (take m rest) (drop (n.has_sent + k) c) (task_mark n.boundary))
                ∙ ap (λ s. s ++ task_mark n.boundary) (cut m n.has_sent c)
                ∙ sym now),
            good',
          )
    ]
