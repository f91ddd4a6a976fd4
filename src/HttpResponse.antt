-- ===== src/HttpResponse.antt =====
-- storage/src/http/httpresponse.cpp: the answer to a user; and what httpconn.cpp changes in the
-- database once a request is parsed.
pub mod Sql
pub mod Download
mod Tests
use Prim.Native.Nat.{min}
use dfs_system.Base.{
  ℕ, zero, suc, ◌+◌, ◌-◌, Bool, true, false, List, [], ◌∷◌, ◌++◌, Option, none, some, if◌then◌else◌,
  leb, ◌==◌, length, take, drop, codes, str_eq,
}
use dfs_system.Wire.{decimal}
use dfs_system.Status.{Status, handle_init, handle_head, handle_body, handle_complete}
use dfs_system.StorageNode.Sending.{Answer, took, again, failed, content_of}
use dfs_system.HttpRequest.{
  Request, PathKind, public_path, private_path, path_other, Behavior, upload, download, delete,
  behavior_other, lookup,
}

-- CODE_STATUS; another code becomes 400.
unfoldable pub status_of : ℕ → ℕ × List ℕ
status_of code =
    if code == 200
    then (code, codes "Ok")
    else if code == 302
    then (code, codes "Moved Temporarily")
    else if code == 403
    then (code, codes "Forbidden")
    else if code == 404
    then (code, codes "Not Found")
    else (400, codes "Bad Request")

-- AddStateLine_, AddHeader_ and AddContent_.
unfoldable pub state_line : ℕ → List ℕ
unfolding status_of
state_line code =
    let (number, text) = status_of code in
    codes "HTTP/1.1 " ++ decimal number ++ codes " " ++ text ++ codes "\r\n"

abbrev pub is_download : Behavior → Bool
is_download download = true
is_download _ = false

abbrev pub location : PathKind → List ℕ → List ℕ
location public_path origin = codes "Location: " ++ origin ++ codes "/public\r\n"
location private_path origin = codes "Location: " ++ origin ++ codes "/private\r\n"
location path_other origin = []

unfoldable pub header : Request → List ℕ
unfolding lookup
header r =
    (if is_download r.behavior then codes "Content-Type: application/octet-stream\r\n" else [])
    ++ codes "Connection: keep-alive\r\n"
    ++ (if (status_of r.code).0 == 302
        then location r.path (lookup (codes "Origin") r.headers)
        else [])

unfoldable pub content_head : Behavior → ℕ → List ℕ
content_head b size =
    if is_download b then codes "Content-length: " ++ decimal size ++ codes "\r\n\r\n" else []

-- The file that Parse_ opens for a download, and the one that it removes for a deletion.
unfoldable pub download_path : List ℕ → Request → Option (List ℕ)
download_path data_path r = elim r.path [
  | public_path ↦ some (data_path ++ codes "/public/" ++ r.file_name)
  | private_path ↦ some (data_path ++ codes "/rivate/" ++ r.username ++ codes "/" ++ r.file_name)
  | path_other ↦ none
]

unfoldable pub delete_path : List ℕ → Request → Option (List ℕ)
delete_path data_path r = elim r.path [
  | public_path ↦ some (data_path ++ codes "/public/" ++ r.file_name)
  | private_path ↦ some (data_path ++ codes "/private/" ++ r.username ++ codes "/" ++ r.file_name)
  | path_other ↦ none
]

-- `files` gives the contents by path, `no_stat` the size that fstat leaves without a file.
pub record Surroundings : Type 0 where
  pub data_path : List ℕ
  pub files : List ℕ → Option (List ℕ)
  pub no_stat : ℕ

pub record Response : Type 0 where
  pub status : Status
  pub before : List ℕ
  pub file : Option (List ℕ)
  pub body_len : ℕ
  pub has_sent : ℕ
  pub removed : List (List ℕ)

unfoldable pub init : Response → Response
init p = record p { status = handle_init; has_sent = 0; body_len = 0 }

abbrev pub open_path : Surroundings → Option (List ℕ) → Option (List ℕ)
open_path env none = none
open_path env (some path) = env.files path

abbrev pub removed_path : Option (List ℕ) → List (List ℕ)
removed_path none = []
removed_path (some path) = path ∷ []

abbrev pub size_of : ℕ → Option (List ℕ) → ℕ
size_of no_stat none = no_stat
size_of no_stat (some content) = length content

-- Parse_.
unfoldable pub parse : Surroundings → Request → Response → Response
unfolding download_path delete_path
parse env r p = elim r.behavior [
  | download ↦ record p { file = open_path env (download_path env.data_path r) }
  | delete ↦ record p { removed = p.removed ++ removed_path (delete_path env.data_path r) }
  | upload ↦ p
  | behavior_other ↦ p
]

-- The head of the answer.
unfoldable pub start : Surroundings → Request → Response → Response
unfolding parse state_line header content_head
start env r p =
    let p' = parse env r p in
    let size = size_of env.no_stat p'.file in
    record p' {
      before = p'.before ++ state_line r.code ++ header r ++ content_head r.behavior size;
      body_len = if is_download r.behavior then size else p'.body_len;
      status = handle_head;
    }

-- The value that process returns, the bytes sent and the state.
abbrev pub Outcome : Type 0
Outcome = ℕ × List ℕ × Response

abbrev pub after_bytes : List ℕ → Outcome → Outcome
after_bytes s (value, wire, p) = (value, s ++ wire, p)

-- The loop of process in HANDLE_BODY, for a download. Where the answers end the socket would block.
unfoldable pub send_file : List Answer → Response → Outcome
send_file [] p = (1, [], p)
send_file (again ∷ answers) p = (1, [], p)
send_file (failed ∷ answers) p = (2, [], p)
send_file (took m ∷ answers) p =
    let rest = drop p.has_sent (content_of p.file) in
    let sent = record p { has_sent = p.has_sent + min m (length rest) } in
    let more = after_bytes (take m rest) (send_file answers sent) in
    if leb p.body_len sent.has_sent
    then (0, take m rest, record sent { status = handle_complete })
    else more

-- Without a download BodyMsgLen is 0, and the first round ends the answer.
unfoldable pub send_body : Behavior → List Answer → Response → Outcome
unfolding send_file
send_body b answers p =
    if is_download b then send_file answers p else (0, [], record p { status = handle_complete })

-- The loop of process from HANDLE_HEAD on.
unfoldable pub send_head : Behavior → List Answer → Response → Outcome
unfolding send_body
send_head b [] p = (1, [], p)
send_head b (again ∷ answers) p = (1, [], p)
send_head b (failed ∷ answers) p = (2, [], p)
send_head b (took m ∷ answers) p =
    let left = record p { before = drop m p.before } in
    let more = after_bytes (take m p.before) (send_head b answers left) in
    let body =
      after_bytes (take m p.before) (send_body b answers (record left { status = handle_body })) in
    if length left.before == 0 then body else more

unfoldable pub process : Surroundings → Request → List Answer → Response → Outcome
unfolding start send_head send_body
process env r answers p = elim p.status [
  | handle_init ↦ send_head r.behavior answers (start env r p)
  | handle_body ↦ send_body r.behavior answers p
  | _ ↦ send_head r.behavior answers p
]
