-- ===== src/TaskNode/Upload.antt =====
-- tasknode.cpp: the parts of an upload that a node receives whole.
use dfs_system.Base.{
  ℕ, ◌+◌, ◌≡◌, refl, sym, ap, ◌∙◌, true, false, List, [], ◌∷◌, ◌++◌, some, if◌then◌else◌, ◌==◌,
  length, take, drop, codes, str_eq, str_eq_refl, arith, length-append, take-append_left,
  drop-append_left, drop-drop,
}
use dfs_system.FileBody.{find, crlf, task_mark, save_file}
use dfs_system.FileBody.Split.{NoCr, find-append}
use dfs_system.FileBody.Upload.{IsClear}
use dfs_system.FileBody.Whole.{save_file-whole}
use dfs_system.ConsistLog.RollbackLog.{clear_order}
use dfs_system.ConsistLog.RingLog.{free_log}
use dfs_system.Status.{handle_complete, file_begin, file_head, file_complete}
use dfs_system.TaskNode.{
  TaskNode, saves, syncs_user, parse_begin, body_on, content_saved, parse_content, parse_body,
  parse_end, at_file_begin,
}
use dfs_system.TaskNode.Delete.{NoCr-append, no_cr→NoCr}

-- The line of the boundary that begins a body.
abbrev pub first_line : List ℕ → List ℕ
first_line boundary = boundary ++ codes "--"

pub end_of : (line rest : List ℕ) → NoCr line → find crlf (line ++ 13 ∷ 10 ∷ rest) ≡ length line
unfolding find str_eq
end_of line rest h = find-append line (13 ∷ 10 ∷ rest) h ∙ omega arith

begin_lem :
    (n : TaskNode) (rest : List ℕ)
    → NoCr n.boundary
    → n.recv ≡ first_line n.boundary ++ 13 ∷ 10 ∷ rest
    → parse_begin n ≡ record n { file_status = file_head; recv = rest }
unfolding parse_begin
begin_lem n rest h e =
    let line : List ℕ = first_line n.boundary in
    let clear : NoCr line = NoCr-append n.boundary (codes "--") h (no_cr→NoCr (codes "--") refl) in
    let p : find crlf n.recv ≡ length line = rw e (end_of line rest clear) in
    let size : length n.recv ≡ length line + 2 + length rest =
      ap length e ∙ omega (arith, length-append line (13 ∷ 10 ∷ rest)) in
    let inner : (length line == length n.recv) ≡ false = ground (arith, size) in
    let t : take (length line) n.recv ≡ line = rw e (take-append_left line (13 ∷ 10 ∷ rest)) in
    let same : str_eq line line ≡ true = str_eq_refl line in
    let d : drop (length line + 2) n.recv ≡ rest = rw e (
      sym (drop-drop (length line) 2 (line ++ 13 ∷ 10 ∷ rest))
      ∙ ap (drop 2) (drop-append_left line (13 ∷ 10 ∷ rest))) in
    rw (p, inner, t, same, d) refl

-- The body of an upload that is received as a whole, its boundary line first: the content and
-- nothing else is saved, the user is reported, the log is freed, and the bytes of the next task
-- are kept.
pub parse_body-whole :
    (n : TaskNode) (content rest : List ℕ)
    → n.file_status ≡ file_begin
    → n.saved ≡ []
    → NoCr n.boundary
    → IsClear (task_mark n.boundary) content rest
    → n.recv ≡ first_line n.boundary ++ 13 ∷ 10 ∷ (content ++ (task_mark n.boundary ++ rest))
    → parse_body n
      ≡ some (record n {
        status = handle_complete;
        file_status = file_complete;
        recv = rest;
        saved = content;
        effects = n.effects ++ saves n.path content ∷ syncs_user n.username ∷ [];
        ring = free_log n.log_addr n.ring;
        order = clear_order n.order;
      })
unfolding parse_body body_on parse_content content_saved parse_end
parse_body-whole n content rest b s h clear e =
    let begun : at_file_begin n.file_status ≡ true = rw b refl in
    let first = begin_lem n (content ++ (task_mark n.boundary ++ rest)) h e in
    let saved = save_file-whole n.boundary content rest clear in
    let begun_node = record n {
      file_status = file_head;
      recv = content ++ (task_mark n.boundary ++ rest);
    } in
    let start : (if at_file_begin n.file_status then parse_begin n else n) ≡ begun_node =
      rw begun first in
    let loop : save_file crlf (task_mark n.boundary) (content ++ (task_mark n.boundary ++ rest))
          n.saved
        ≡ some (true, task_mark n.boundary ++ rest, content) =
      rw s saved in
    ap body_on start
    ∙ ap (content_saved begun_node) loop
    ∙ rw (drop-append_left (task_mark n.boundary) rest) refl
