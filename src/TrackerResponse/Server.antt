-- ===== src/TrackerResponse/Server.antt =====
-- httpresponse.cpp and httpmessage.h of the tracker: HeaderAddPubAddr_, HeaderAddPriAddr_ and
-- updateServer. A descriptor without a node is a null pointer, and gives `none`.
use dfs_system.Base.{
  ℕ, Bool, true, false, List, [], ◌∷◌, ◌++◌, Option, none, some, if◌then◌else◌, ◌==◌, codes,
}
use dfs_system.Wire.{decimal}
use dfs_system.Status.{Status, handle_init, handle_head, handle_body, handle_complete, handle_error}
use dfs_system.ConsistentHash.{get_group}
use dfs_system.TrackerGroup.{
  Node, Tracker, active, set_node, with_status, set_report, set_reports, reports_of, change_flag,
}
use dfs_system.TrackerResponse.{Surroundings}

-- STORAGE_STATUS_SYNC_RCVD.
abbrev pub sync_rcvd : ℕ
sync_rcvd = 2

-- The numbers that the compiler gives to MSGSTATUS.
abbrev pub status_number : Status → ℕ
status_number handle_init = 0
status_number handle_head = 1
status_number handle_body = 2
status_number handle_complete = 3
status_number handle_error = 4

abbrev pub first_here :
    (ℕ → Node → Bool) → ℕ → Option (Option (ℕ × Node)) → Option Node → Option (Option (ℕ × Node))
first_here test fd rest none = none
first_here test fd rest (some node) = if test fd node then some (some (fd, node)) else rest

-- The loop over a group: its first member that passes the test.
unfoldable pub first_with :
    (ℕ → Node → Bool) → (ℕ → Option Node) → List ℕ → Option (Option (ℕ × Node))
first_with test nodes [] = some none
first_with test nodes (fd ∷ fds) = first_here test fd (first_with test nodes fds) (nodes fd)

-- HeaderAddAddr_.
unfoldable pub address : Surroundings → Node → List ℕ
unfolding decimal
address env node = codes "http://" ++ env.ntop node.ip ++ codes ":" ++ decimal node.http_port

abbrev pub set_here : ℕ → ℕ → (Tracker → Option Tracker) → Option Node → Tracker → Option Tracker
set_here status fd next none t = none
set_here status fd next (some node) t = next (set_node fd (with_status status (some node)) t)

-- The loop of synPULGroup.
unfoldable pub set_all : ℕ → List ℕ → Tracker → Option Tracker
set_all status [] t = some t
set_all status (fd ∷ fds) t = set_here status fd (set_all status fds) (t.nodes fd) t

abbrev pub is_active : ℕ → Node → Bool
is_active fd node = node.status == active

abbrev pub public_members : Tracker → List ℕ
public_members t = t.group (codes "public")

-- synPULGroup, and the answering node's own status behind it.
abbrev pub chosen : Surroundings → ℕ → Node → Option Tracker → Option (List ℕ × Tracker)
chosen env fd node none = none
chosen env fd node (some t) = some (
  address env node,
  set_node fd (with_status active (t.nodes fd)) (change_flag env.now env.time_out t),
)

unfoldable pub public_found :
    Surroundings → Tracker → Option (Option (ℕ × Node)) → Option (List ℕ × Tracker)
unfolding set_all address change_flag
public_found env t none = none
public_found env t (some none) = some ([], t)
public_found env t (some (some (fd, node))) =
    chosen env fd node (set_all sync_rcvd (public_members t) t)

-- The answer to /get_public_server: the address, and the maps behind it.
unfoldable pub public_answer : Surroundings → Tracker → Option (List ℕ × Tracker)
unfolding first_with public_found
public_answer env t = public_found env t (first_with is_active t.nodes (public_members t))

abbrev pub is_gone : Option Node → Bool
is_gone none = true
is_gone (some node) = false

-- The first loop of updateServer: an entry without a node is erased when the next one is reached.
unfoldable pub drop_gone : (ℕ → Option Node) → List (ℕ × ℕ) → List (ℕ × ℕ)
drop_gone nodes [] = []
drop_gone nodes (report ∷ []) = report ∷ []
drop_gone nodes (report ∷ next ∷ reports) =
    let rest = drop_gone nodes (next ∷ reports) in
    if is_gone (nodes report.0) then rest else report ∷ rest

unfoldable pub has_report : ℕ → List (ℕ × ℕ) → Bool
has_report fd [] = false
has_report fd ((f, s) ∷ reports) =
    let rest = has_report fd reports in if f == fd then true else rest

-- Its second loop: the members of the user's group that have no entry.
unfoldable pub add_members : (ℕ → Option Node) → List ℕ → List (ℕ × ℕ) → Option (List (ℕ × ℕ))
unfolding has_report
add_members nodes [] reports = some reports
add_members nodes (fd ∷ fds) reports =
    let kept = add_members nodes fds reports in
    let added : Option (List (ℕ × ℕ)) = elim (nodes fd) [
      | none ↦ none
      | some node ↦ add_members nodes fds (set_report fd node.status reports)
    ] in
    if has_report fd reports then kept else added

abbrev pub with_reports : List ℕ → Tracker → Option (List (ℕ × ℕ)) → Option Tracker
with_reports user t none = none
with_reports user t (some reports) = some (set_reports user (some reports) t)

unfoldable pub update_server : Surroundings → List ℕ → Tracker → Option Tracker
unfolding get_group drop_gone add_members
update_server env user t = with_reports user t (
    add_members t.nodes (t.group (get_group env.hasher user t.ring))
      (drop_gone t.nodes (reports_of (t.user_server user))))

-- The test of HeaderAddPriAddr_, which reads `status` and not `Status`.
abbrev pub is_4 : Surroundings → ℕ → Node → Bool
is_4 env fd node = status_number (env.msg_status fd) == active

unfoldable pub private_found :
    Surroundings → List ℕ → Tracker → Option (Option (ℕ × Node)) → Option (List ℕ × Tracker)
unfolding address change_flag
private_found env user t none = none
private_found env user t (some none) = some ([], t)
private_found env user t (some (some (fd, node))) = some (
  address env node,
  change_flag env.now env.time_out
      (set_reports user (some (set_report fd active (reports_of (t.user_server user)))) t),
)

abbrev pub private_in : Surroundings → List ℕ → Option Tracker → Option (List ℕ × Tracker)
private_in env user none = none
private_in env user (some t) =
    private_found env user t (first_with (is_4 env) t.nodes (t.group user))

-- The answer to /get_private_server; synPRIGroup changes copies of the entries only.
unfoldable pub private_answer : Surroundings → List ℕ → Tracker → Option (List ℕ × Tracker)
unfolding first_with update_server private_found
private_answer env user t =
    private_in env user (if t.flag then update_server env user t else some t)
