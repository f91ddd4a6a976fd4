-- ===== src/TrackerResponse/Sending.antt =====
-- httpresponse.cpp of the tracker: the loop of process.
use Prim.Native.Nat.{min}
use dfs_system.Base.{
  ℕ, ◌+◌, List, [], ◌∷◌, ◌++◌, Option, none, some, if◌then◌else◌, leb, ◌==◌, length, take, drop,
}
use dfs_system.Status.{handle_init, handle_body, handle_complete}
use dfs_system.StorageNode.Sending.{Answer, took, again, failed}
use dfs_system.TrackerGroup.{Tracker}
use dfs_system.TrackerRequest.{Request}
use dfs_system.TrackerResponse.{Surroundings, Response}
use dfs_system.TrackerResponse.Page.{start}

-- The value that process returns, the bytes sent and the state.
abbrev pub Outcome : Type 0
Outcome = ℕ × List ℕ × Response

abbrev pub after_bytes : List ℕ → Outcome → Outcome
after_bytes s (value, wire, p) = (value, s ++ wire, p)

-- The loop in HANDLE_BODY. Where the answers of the kernel end the socket would block.
unfoldable pub send_body : List Answer → Response → Outcome
send_body [] p = (1, [], p)
send_body (again ∷ answers) p = (1, [], p)
send_body (failed ∷ answers) p = (2, [], p)
send_body (took m ∷ answers) p =
    let sent = record p { body = drop m p.body; has_sent = p.has_sent + min m (length p.body) } in
    let more = after_bytes (take m p.body) (send_body answers sent) in
    if leb p.body_len sent.has_sent
    then (0, take m p.body, record sent { status = handle_complete })
    else more

-- The loop from HANDLE_HEAD on.
unfoldable pub send_head : List Answer → Response → Outcome
unfolding send_body
send_head [] p = (1, [], p)
send_head (again ∷ answers) p = (1, [], p)
send_head (failed ∷ answers) p = (2, [], p)
send_head (took m ∷ answers) p =
    let left = record p { before = drop m p.before } in
    let more = after_bytes (take m p.before) (send_head answers left) in
    let body =
      after_bytes (take m p.before) (send_body answers (record left { status = handle_body })) in
    if length left.before == 0 then body else more

abbrev pub and_send :
    List Answer → Option (Request × Tracker × Response) → Option (Outcome × Request × Tracker)
and_send answers none = none
and_send answers (some (r, t, p)) = some (send_head answers p, r, t)

unfoldable pub process :
    Surroundings → List Answer → Request → Tracker → Response → Option (Outcome × Request × Tracker)
unfolding start send_head send_body
process env answers r t p = elim p.status [
  | handle_init ↦ and_send answers (start env r t p)
  | handle_body ↦ some (send_body answers p, r, t)
  | _ ↦ some (send_head answers p, r, t)
]
