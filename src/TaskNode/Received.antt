-- ===== src/TaskNode/Received.antt =====
-- storagenode.cpp and tasknode.cpp: an upload, from the node that sends it to the one that saves it.
use mathlib.Core.List.{append_assoc, append-nil}
use dfs_system.Base.{
  ℕ, zero, suc, ◌+◌, ◌/◌, ◌%◌, ◌≡◌, ◌≢◌, refl, ap, ◌∙◌, true, List, [], ◌∷◌, ◌++◌, some, length,
  codes, str_eq, arith, Bool-cases, inl, inr, ltb,
}
use dfs_system.Wire.{decimal, digits}
use dfs_system.Wire.Words.{IsWord, read_word-next, read_word-last}
use dfs_system.Wire.Decimal.{read_number-next}
use dfs_system.FileBody.{task_mark}
use dfs_system.FileBody.Split.{NoCr}
use dfs_system.FileBody.Upload.{IsClear}
use dfs_system.ConsistLog.RollbackLog.{make_order, clear_order}
use dfs_system.ConsistLog.RingLog.{RingLog, write_rollback_log, free_log}
use dfs_system.Status.{handle_init, handle_body, handle_complete, file_begin, file_complete}
use dfs_system.StorageNode.{SynPack, upl_head}
use dfs_system.StorageNode.Calls.{upload_message}
use dfs_system.TaskNode.{TaskNode, Surroundings, saves, syncs_user, deal_upl, deal}
use dfs_system.TaskNode.Reading.{parse, and_then, head_if, body_if, at_init}
use dfs_system.TaskNode.Delete.{
  NoSpace-NoCr, NoCr-append, no_cr→NoCr, parse_head-line, pri_words, owner-private, IsCommand,
}
use dfs_system.TaskNode.Upload.{first_line, parse_body-whole}

-- The digits of a number are no CR.
pub digits-NoCr : (k n : ℕ) (s : List ℕ) → NoCr s → NoCr (digits k n s)
unfolding digits
digits-NoCr zero n s h = h
digits-NoCr (suc k) n s h = elim (Bool-cases (ltb n 10)) [
  | inl one ↦ rw one ((λ e. omega (arith, e)), h)
  | inr more ↦ rw more (digits-NoCr k (n / 10) ((48 + n % 10) ∷ s) ((λ e. omega (arith, e)), h))
]

abbrev line_of : SynPack → ℕ → List ℕ → List ℕ
line_of pack size b =
    codes "pri " ++ (pack.username ++ 32 ∷ (pack.filename ++ 32 ∷ (decimal size ++ 32 ∷ b)))

abbrev rest_of : List ℕ → List ℕ → List ℕ
rest_of b content = first_line b ++ 13 ∷ 10 ∷ (content ++ (task_mark b ++ []))

message-is :
    (pack : SynPack) (content b : List ℕ)
    → IsWord pack.username
    → upload_message pack content b
      ≡ 85 ∷ 80 ∷ 76 ∷ 32 ∷ (line_of pack (length content) b ++ 13 ∷ 10 ∷ rest_of b content)
unfolding upl_head
message-is pack content b h =
    rw (owner-private pack.username h, append-nil (task_mark b)) (simp append_assoc refl)

upl-IsCommand : IsCommand (85 ∷ 80 ∷ 76 ∷ [])
unfolding str_eq
upl-IsCommand = refl

deal_is :
    (env : Surroundings) (line : List ℕ) (n : TaskNode)
    → deal env (85 ∷ 80 ∷ 76 ∷ []) line n ≡ deal_upl env line n
unfolding str_eq
deal_is env line n = refl

module _ (env : Surroundings) (pack : SynPack) (content b : List ℕ) (n : TaskNode) (addr : ℕ)
    (ring : RingLog) where
  -- The node when the head is read.
  abbrev pub begun : TaskNode
  begun = record n {
    status = handle_body;
    recv = rest_of b content;
    boundary = b;
    username = pack.username;
    body_len = length content;
    path = env.data_path ++ codes "/private/" ++ pack.username ++ codes "/" ++ pack.filename;
    saved = [];
    order = make_order true pack.username pack.filename;
    log_addr = addr;
    ring = ring;
  }

module _ (env : Surroundings) (pack : SynPack) (content b : List ℕ) (n : TaskNode) (addr : ℕ)
    (ring : RingLog) (hu : IsWord pack.username) (hf : IsWord pack.filename) (hb : IsWord b)
    (logged : write_rollback_log env.past (make_order true pack.username pack.filename) n.ring
      ≡ some (addr, ring)) where
  deal_upl-line :
      deal_upl env (line_of pack (length content) b) (record n { recv = rest_of b content })
      ≡ some (begun env pack content b n addr ring)
  unfolding deal_upl str_eq
  deal_upl-line =
      let user = pack.username in
      let file = pack.filename in
      let size = length content in
      let w1 = pri_words user (32 ∷ (file ++ 32 ∷ (decimal size ++ 32 ∷ b))) in
      let w2 = read_word-next user (file ++ 32 ∷ (decimal size ++ 32 ∷ b)) hu in
      let w3 = read_word-next file (decimal size ++ 32 ∷ b) hf in
      let w4 = read_number-next size b in
      let w5 = read_word-last b hb in rw (w1, w2, w3, w4, w5, logged) refl

  line-NoCr : NoCr (85 ∷ 80 ∷ 76 ∷ 32 ∷ line_of pack (length content) b)
  unfolding decimal
  line-NoCr =
      let ne : 32 ≢ 13 = λ e. omega (arith, e) in
      NoCr-append (codes "UPL pri ")
        (pack.username ++ 32 ∷ (pack.filename ++ 32 ∷ (decimal (length content) ++ 32 ∷ b)))
        (no_cr→NoCr (codes "UPL pri ") refl)
        (NoCr-append pack.username
          (32 ∷ (pack.filename ++ 32 ∷ (decimal (length content) ++ 32 ∷ b)))
          (NoSpace-NoCr pack.username hu.1)
          (
            ne,
            NoCr-append pack.filename (32 ∷ (decimal (length content) ++ 32 ∷ b))
                (NoSpace-NoCr pack.filename hf.1)
                (
                  ne,
                  NoCr-append (decimal (length content)) (32 ∷ b)
                      (digits-NoCr (length content + 1) (length content) [] tt)
                      (ne, NoSpace-NoCr b hb.1),
                ),
          ))

-- A private file that one storage node uploads to another, whose head, content and end mark a node
-- that waits for a task receives in one piece, is saved by that node under the same user and name
-- byte for byte; it reports the user and frees the log that it wrote. User, name and boundary are
-- words without spaces, the names fit the log, and the end mark stands nowhere in the content.
pub upload-delivered :
    (env : Surroundings) (pack : SynPack) (content b : List ℕ) (n : TaskNode) (addr : ℕ)
    (ring : RingLog)
    → n.status ≡ handle_init
    → n.file_status ≡ file_begin
    → n.recv ≡ []
    → IsWord pack.username
    → IsWord pack.filename
    → IsWord b
    → IsClear (task_mark b) content []
    → write_rollback_log env.past (make_order true pack.username pack.filename) n.ring
      ≡ some (addr, ring)
    → parse env (upload_message pack content b) n
      ≡ some (record (begun env pack content b n addr ring) {
        status = handle_complete;
        file_status = file_complete;
        recv = [];
        saved = content;
        effects =
            n.effects
            ++ saves
                (env.data_path ++ codes "/private/" ++ pack.username ++ codes "/" ++ pack.filename)
                content
              ∷ syncs_user pack.username
              ∷ [];
        ring = free_log addr ring;
        order = clear_order (make_order true pack.username pack.filename);
      })
unfolding parse
upload-delivered env pack content b n addr ring init begin empty hu hf hb clear logged =
    let s = upload_message pack content b in
    let n0 = record n { recv = n.recv ++ s } in
    let r : n0.recv
        ≡ 85 ∷ 80 ∷ 76 ∷ 32 ∷ (line_of pack (length content) b ++ 13 ∷ 10 ∷ rest_of b content) =
      ap (λ l. l ++ s) empty ∙ message-is pack content b hu in
    let start : at_init n.status ≡ true = rw init refl in
    let known : IsCommand (85 ∷ 80 ∷ 76 ∷ []) = upl-IsCommand in
    let head : head_if env n0 ≡ some (begun env pack content b n addr ring) = rw start (
      parse_head-line env n0 85 80 76 (line_of pack (length content) b) (rest_of b content) r
        (line-NoCr env pack content b n addr ring hu hf hb logged) known
      ∙ deal_is env (line_of pack (length content) b) (record n { recv = rest_of b content })
      ∙ deal_upl-line env pack content b n addr ring hu hf hb logged) in
    ap (λ o. and_then o body_if) head
    ∙ parse_body-whole (begun env pack content b n addr ring) content [] begin refl
        (NoSpace-NoCr b hb.1) clear refl
