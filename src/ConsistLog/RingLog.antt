-- ===== src/ConsistLog/RingLog.antt =====
-- storage/src/consistlog/ringlog/ringlog.cpp: the ring of 64-byte pages. Page 0 is the head; a free
-- list and a todo list run through the others. `file` is a function from offsets to pages: every
-- offset is a multiple of 64 below 2^31, so no two accesses overlap and `int offest` does not wrap.
-- Reads past the end of the file do not occur: a zero link reads page 0, the head itself.
pub mod Free
pub mod Freeing
pub mod Recovery
mod Tests
use dfs_system.Base.{
  ℕ, zero, suc, ◌+◌, ◌-◌, ◌*◌, ◌/◌, ◌%◌, ◌^◌, Bool, true, false, List, [], ◌∷◌, ◌++◌, Option, none,
  some, if◌then◌else◌, ltb, ◌==◌, take, drop,
}
use mathlib.Core.Option as Option
use dfs_system.ConsistLog.Format.{
  Page, blank, pack, SynLogBody, rollback_bit, syn_bit, syn_addr_bit, initiative_bit, upload_bit,
  username_bit, syn_upload_bit, syn_username_bit, bit_if, has_bit, name_bytes,
}
use dfs_system.ConsistLog.RollbackLog.{RollbackLog}

abbrev pub todo_list : Page → ℕ
todo_list h = h.w0

abbrev pub free_list : Page → ℕ
free_list h = h.w1

abbrev pub free_list_end : Page → ℕ
free_list_end h = h.w2

abbrev pub todo_list_num : Page → ℕ
todo_list_num h = h.w3

abbrev pub free_list_num : Page → ℕ
free_list_num h = h.w4

abbrev pub pre : Page → ℕ
pre b = b.w6

abbrev pub nxt : Page → ℕ
nxt b = b.w7

-- `head_` and the file; `body_` is scratch.
pub record RingLog : Type 0 where
  pub file : ℕ → Page
  pub head : Page

unfoldable pub write_page : ℕ → Page → RingLog → RingLog
write_page offset page r = record r { file = λ o. if o == offset then page else r.file o }

-- GetFreebody_: the body and its address.
unfoldable pub get_free_body : RingLog → (Page × ℕ) × RingLog
unfolding write_page
get_free_body r =
    let ret = free_list r.head in
    let body = r.file ret in
    let head = record r.head { w0 = ret; w1 = nxt body } in
    (
      (record body { w6 = nxt body; w7 = todo_list r.head }, ret),
      write_page 0 head (record r { head = head }),
    )

-- The 24 bytes of the two names, as the words that hold them.
abbrev pub with_names : List ℕ → List ℕ → Page → Page
with_names user file p =
    let names = user ++ file in
    record p {
      w3 = pack (take 8 names);
      w4 = pack (take 8 (drop 8 names));
      w5 = pack (drop 16 names);
    }

-- bzero of the first 48 bytes, then the status.
abbrev pub with_status : ℕ → Page → Page
with_status status p = record p { w0 = status; w1 = 0; w2 = 0; w3 = 0; w4 = 0; w5 = 0 }

-- The tail of WriteRollbackLog and of WriteSynLog.
unfoldable pub write_log : ℕ → List ℕ → List ℕ → RingLog → ℕ × RingLog
unfolding get_free_body
write_log status user file r =
    let ((body, ret), r') = get_free_body r in
    (ret, write_page ret (with_names user file (with_status status body)) r')

-- `none` where a name of more than 12 bytes is written past its array.
unfoldable pub write_rollback_log : (ℕ → ℕ) → RollbackLog → RingLog → Option (ℕ × RingLog)
unfolding write_log
write_rollback_log past log r = elim (name_bytes past log.username) [
  | none ↦ none
  | some user ↦
      Option.map
        (λ file. write_log (2 ^ rollback_bit + bit_if log.is_upload upload_bit) user file r)
        (name_bytes past log.filename)
]

unfoldable pub write_syn_log : SynLogBody → RingLog → ℕ × RingLog
unfolding write_log
write_syn_log log r =
    write_log
      (2 ^ syn_bit
        + 2 ^ syn_addr_bit
        + 2 ^ initiative_bit
        + bit_if (has_bit log.control_head syn_upload_bit) upload_bit
        + bit_if (has_bit log.control_head syn_username_bit) username_bit)
      log.username log.filename r

-- FreeLog, its first half: `addr` leaves the todo list.
unfoldable pub unlink : ℕ → RingLog → RingLog
unfolding write_page
unlink addr r =
    let cur = r.file addr in
    let set_pre = write_page (nxt cur) (record (r.file (nxt cur)) { w6 = pre cur }) r in
    let set_nxt = write_page (pre cur) (record (set_pre.file (pre cur)) { w7 = nxt cur }) set_pre in
    if todo_list r.head == addr
    then if free_list_num r.head == 1
      then record r { head = record r.head { w0 = 0 } }
      else record set_pre { head = record r.head { w0 = nxt cur } }
    else set_nxt

-- `freeListNum --` and `++` on a uint64_t.
abbrev pub dec : ℕ → ℕ
dec n = (n + 2 ^ 64 - 1) % 2 ^ 64

abbrev pub inc : ℕ → ℕ
inc n = (n + 1) % 2 ^ 64

-- FreeLog, its second half: `addr` goes to the end of the free list.
unfoldable pub link_free : ℕ → RingLog → RingLog
unfolding write_page
link_free addr r =
    let last = free_list_end r.head in
    let r1 = write_page last (record (r.file last) { w7 = addr }) r in
    let r2 = write_page addr (record blank { w6 = last }) r1 in
    let head = record r.head { w2 = addr; w4 = inc (free_list_num r.head) } in
    write_page 64 head (record r2 { head = head })

unfoldable pub free_log : ℕ → RingLog → RingLog
unfolding unlink link_free
free_log addr r =
    let r1 = unlink addr r in
    link_free addr (record r1 { head = record r1.head { w4 = dec (free_list_num r1.head) } })

-- InitLogFile_: the pages 1 to `last`, linked both ways.
abbrev pub last_page : ℕ → ℕ
last_page capacity = capacity * 1024 / 64 - 1

unfoldable pub init_body : ℕ → ℕ → Page
init_body last i = record blank {
  w6 = if i == 1 then 0 else (i - 1) * 64;
  w7 = if i == last then 0 else (i + 1) * 64;
}

unfoldable pub init_head : ℕ → Page
init_head capacity = record blank { w1 = 64; w2 = capacity * 1024 - 64 }

unfoldable pub init_log_file : ℕ → RingLog
unfolding init_body init_head
init_log_file capacity = record {
  file = λ o. if o == 0 then init_head capacity else init_body (last_page capacity) (o / 64);
  head = init_head capacity;
}

-- What Redo_ does outside the log: it removes a file, or hands the task of a log (by its address
-- and body) to the node of an ip.
pub data Effect : Type 0 where
  removes : List ℕ → Effect
  requeues : ℕ → ℕ → Page → Effect

-- `status & (1ull << RINGLOG_HEAD_UPLOAD) == 0`: the comparison binds tighter, so the mask is 0 or 1.
abbrev pub masked_upload : ℕ → Bool
masked_upload status = if (2 ^ upload_bit) == 0 then status % 2 == 1 else false

-- Redo_, with the path that a log names and what syn.log holds (controlHead and ip) at an address.
module _ (path : Bool → Page → List ℕ) (syn : ℕ → ℕ × ℕ) (known : ℕ → Bool) where
  unfoldable pub redo : ℕ → Page → List Effect
  redo todo body =
      if has_bit body.w0 rollback_bit
      then if masked_upload body.w0
        then removes (path (has_bit body.w0 username_bit) body) ∷ []
        else []
      else if has_bit body.w0 syn_bit
      then if has_bit (syn body.w2).0 31
        then []
        else if known (syn body.w2).1
        then requeues (syn body.w2).1 todo body ∷ []
        else []
      else []

  -- The loop of RedoTask_, one round for each unit of todoListNum.
  unfoldable pub redo_loop : ℕ → ℕ → (ℕ → Page) → List Effect × ℕ
  unfolding redo
  redo_loop zero todo file = ([], todo)
  redo_loop (suc n) todo file =
      let (rest, end) = redo_loop n (nxt (file todo)) file in (redo todo (file todo) ++ rest, end)

  -- The tail of Init: reads the head from the file and redoes what it counts.
  unfoldable pub init : RingLog → List Effect × RingLog
  unfolding redo_loop
  init r =
      let head = r.file 0 in
      let (effects, todo) = redo_loop (todo_list_num head) (todo_list head) r.file in
      if todo_list_num head == 0
      then ([], record r { head = head })
      else (effects, record r { head = record head { w0 = todo; w3 = 0 } })
