-- ===== src/HttpRequest/Process.antt =====
-- httprequest.cpp: Verify and process.
use dfs_system.Base.{
  ℕ, Bool, true, false, ◌||◌, List, [], ◌∷◌, ◌++◌, Option, none, some, if◌then◌else◌, ◌==◌, length,
  codes, str_eq,
}
use dfs_system.Status.{Status, handle_init, handle_head, handle_body, handle_complete, handle_error}
use dfs_system.ConsistLog.RollbackLog.{make_order}
use dfs_system.ConsistLog.RingLog.{write_rollback_log}
use dfs_system.HttpRequest.{
  Request, Method, post, PathKind, public_path, Behavior, upload, delete, lookup,
}
use dfs_system.HttpRequest.Line.{parse_quest_line}
use dfs_system.HttpRequest.Header.{parse_head_lines}
use dfs_system.HttpRequest.File.{Result, goes_on, parsed, refused, parse_file}

-- `user_of` is the answer of the database to a cookie, `md5` is getMD5(name, 4).
pub record Surroundings : Type 0 where
  pub data_path : List ℕ
  pub opens : List ℕ → Bool
  pub user_of : List ℕ → Option (List ℕ)
  pub md5 : List ℕ → List ℕ
  pub past : ℕ → ℕ

abbrev pub no_user : Request → Request
no_user r = record r { username = []; password = [] }

unfoldable pub verify : Surroundings → Request → Request
verify env r =
    if r.is_private_user || length r.username == 0 || length r.password == 0
    then r
    else elim (env.user_of r.password) [
      | none ↦ no_user r
      | some name ↦
          if str_eq (env.md5 name) r.username
          then record r { username = name; logged_in = true; is_private_user = true }
          else no_user r
    ]

abbrev pub is_upload : Behavior → Bool
is_upload upload = true
is_upload _ = false

abbrev pub changes_files : Behavior → Bool
changes_files upload = true
changes_files delete = true
changes_files _ = false

abbrev pub owner_of : PathKind → List ℕ → List ℕ
owner_of public_path username = []
owner_of _ username = username

-- The rollback log; `none` where a name is longer than its array.
unfoldable pub log_order : Surroundings → Request → Option Request
log_order env r =
    let order = make_order (is_upload r.behavior) (owner_of r.path r.username) r.file_name in
    if changes_files r.behavior
    then elim (write_rollback_log env.past order r.ring) [
      | none ↦ none
      | some (addr, ring) ↦ some (record r { order = order; log_addr = addr; ring = ring })
    ]
    else some r

abbrev pub at_init : Status → Bool
at_init handle_init = true
at_init _ = false

abbrev pub at_head : Status → Bool
at_head handle_head = true
at_head _ = false

abbrev pub at_body : Status → Bool
at_body handle_body = true
at_body _ = false

abbrev pub at_error : Status → Bool
at_error handle_error = true
at_error _ = false

abbrev pub is_post : Method → Bool
is_post post = true
is_post _ = false

-- What a receipt leads to: another recv, or a value that process returns.
pub data Turn : Type 0 where
  loops : Request → Turn
  returns : ℕ → Request → Turn

abbrev pub end_turn : Request → Turn
end_turn r = if at_error r.head_status then returns 2 r else loops r

abbrev pub file_turn : Result × Request → Turn
file_turn (goes_on, r) = loops r
file_turn (parsed, r) = returns 0 r
file_turn (refused, r) = returns 2 r

unfoldable pub body_turn : Surroundings → Request → Option Turn
unfolding parse_file
body_turn env r =
    if at_body r.head_status
    then if is_post r.method
      then if str_eq (lookup (codes "Content-Type") r.headers) (codes "multipart/form-data")
        then elim (parse_file env.data_path env.opens r) [
          | none ↦ none
          | some t ↦ some (file_turn t)
        ]
        else some (end_turn r)
      else some (returns 0 (record r { head_status = handle_complete }))
    else some (end_turn r)

abbrev pub then_do : Option Request → (Request → Option Turn) → Option Turn
then_do none f = none
then_do (some r) f = f r

abbrev pub verify_if : Surroundings → Request → Request
verify_if env r = if r.logged_in then r else verify env r

-- One round of the loop, after a receipt.
unfoldable pub turn : Surroundings → List ℕ → Request → Option Turn
unfolding parse_quest_line parse_head_lines verify log_order body_turn
turn env s r =
    let r1 = record r { recv = r.recv ++ s } in
    let r2 = if at_init r1.head_status then parse_quest_line r1 else r1 in
    let r3 : Option Request = if at_head r2.head_status then parse_head_lines r2 else some r2 in
    then_do r3 (λ r4. then_do (log_order env (verify_if env r4)) (body_turn env))

-- What recv gives.
pub data Receipt : Type 0 where
  received : List ℕ → Receipt
  ended : Receipt
  again : Receipt
  broken : Receipt

abbrev pub take_turn : (Request → Option (ℕ × Request)) → Option Turn → Option (ℕ × Request)
take_turn next none = none
take_turn next (some (loops r)) = next r
take_turn next (some (returns value r)) = some (value, r)

unfoldable pub process : Surroundings → List Receipt → Request → Option (ℕ × Request)
unfolding turn
process env [] r = some (1, r)
process env (ended ∷ receipts) r = some (2, r)
process env (again ∷ receipts) r = some (1, r)
process env (broken ∷ receipts) r = some (2, r)
process env (received s ∷ receipts) r = take_turn (process env receipts) (turn env s r)
