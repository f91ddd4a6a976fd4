-- ===== src/TrackerConn.antt =====
-- tracker/src/http/httpconn.cpp and tracker/src/message/node/listennode.cpp: a connection of a user to
-- the tracker, from its acceptance over the parsed request to the answer, with the timer and the maps.
pub mod Entered
pub mod Online
mod Tests
use dfs_system.Base.{
  ℕ, zero, suc, ◌+◌, ◌-◌, Bool, true, false, not, ◌&&◌, List, [], ◌∷◌, Option, none, some,
  if◌then◌else◌, ◌==◌, length, str_eq,
}
use dfs_system.ConsistentHash.{get_group}
use dfs_system.HeapTimer.{HeapTimer, add, update, erase}
use dfs_system.StorageNode.Sending.{Answer}
use dfs_system.HttpRequest.Process.{Receipt}
use dfs_system.TrackerGroup.{
  Node, Tracker, wait_sync, set_node, set_report, set_reports, reports_of,
}
use dfs_system.TrackerRequest as Request
use dfs_system.TrackerRequest.{
  Request, Login, unknown, logged_in, wrong_password, no_such_user, is_keep_alive,
}
use dfs_system.TrackerRequest.Verify as Parser
use dfs_system.TrackerResponse as Response
use dfs_system.TrackerResponse.{Response}
use dfs_system.TrackerResponse.Sending as Sender

pub record HttpConn : Type 0 where
  pub request : Request
  pub response : Response
  pub is_close : Bool

-- The maps of Message and HttpMessage, HeapTimer::Instance() and userCount.
pub record Shared : Type 0 where
  pub tracker : Tracker
  pub timer : HeapTimer
  pub user_count : ℕ

-- A reading of Clock::now() and Conf::timeOut.
pub record Clock : Type 0 where
  pub now : ℕ
  pub time_out : ℕ

-- Init of a new connection.
unfoldable pub init : HttpConn → Shared → HttpConn × Shared
unfolding Request.init
init c sh = (
  record c { is_close = false; request = Request.init c.request },
  record sh { user_count = sh.user_count + 1 },
)

unfoldable pub close : HttpConn → Shared → HttpConn × Shared
close c sh =
    if c.is_close
    then (c, sh)
    else (record c { is_close = true }, record sh { user_count = sh.user_count - 1 })

abbrev pub with_timer : Shared → Option HeapTimer → Option Shared
with_timer sh none = none
with_timer sh (some timer) = some (record sh { timer = timer })

abbrev pub with_tracker : Shared → Option Tracker → Option Shared
with_tracker sh none = none
with_tracker sh (some t) = some (record sh { tracker = t })

abbrev pub set_online : List ℕ → Bool → Tracker → Tracker
set_online user b t = record t { online = λ u. if str_eq u user then b else t.online u }

-- onlieUser.erase of a user with a name.
unfoldable pub go_off : List ℕ → Tracker → Tracker
go_off user t = if length user == 0 then t else set_online user false t

abbrev pub and_close : HttpConn → Option Shared → Option Shared
and_close c none = none
and_close c (some sh) = some (close c sh).1

-- ~HttpConn of the connection at `fd`.
unfoldable pub destroy : ℕ → HttpConn → Shared → Option Shared
unfolding go_off erase close
destroy fd c sh =
    and_close c (
      with_timer (record sh { tracker = go_off c.request.username sh.tracker }) (erase fd sh.timer))

-- A member with its status; a descriptor without a node is past the end of the map.
abbrev pub entered :
    List ℕ → ℕ → (Tracker → Option Tracker) → Option Node → Tracker → Option Tracker
entered user fd next none t = none
entered user fd next (some node) t =
    next (set_reports user (some (set_report fd node.status (reports_of (t.user_server user)))) t)

-- The loop of addUserServer.
unfoldable pub enter_members : List ℕ → List ℕ → Tracker → Option Tracker
enter_members user [] t = some t
enter_members user (fd ∷ fds) t = entered user fd (enter_members user fds) (t.nodes fd) t

-- `userServer.count(user) != 0`
abbrev pub is_entered : Option (List (ℕ × ℕ)) → Bool
is_entered none = false
is_entered (some reports) = true

unfoldable pub add_user_server : (List ℕ → ℕ) → List ℕ → Tracker → Option Tracker
unfolding get_group enter_members
add_user_server hasher user t =
    if is_entered (t.user_server user)
    then some (set_online user true t)
    else enter_members user (t.group (get_group hasher user t.ring)) (set_online user true t)

abbrev pub is_logged_in : Login → Bool
is_logged_in logged_in = true
is_logged_in _ = false

-- What ReadProcess does for a user who is logged in.
unfoldable pub enter : (List ℕ → ℕ) → Request → Tracker → Option Tracker
unfolding add_user_server
enter hasher r t =
    if is_logged_in r.login_status && not (is_entered (t.user_server r.username))
    then add_user_server hasher r.username t
    else some t

abbrev pub request_read : ℕ → HttpConn → Option Shared → Option (ℕ × HttpConn × Shared)
request_read value c none = none
request_read zero c (some sh) = some (0, record c { response = Response.init c.response }, sh)
request_read (suc v) c (some sh) = some (suc v, c, sh)

abbrev pub processed :
    (List ℕ → ℕ) → HttpConn → Shared → Option (ℕ × Request) → Option (ℕ × HttpConn × Shared)
processed hasher c sh none = none
processed hasher c sh (some (value, r)) =
    request_read value (record c { request = r }) (with_tracker sh (enter hasher r sh.tracker))

abbrev pub and_process :
    Parser.Surroundings → List Receipt → HttpConn → Option Shared → Option (ℕ × HttpConn × Shared)
and_process env receipts c none = none
and_process env receipts c (some sh) =
    processed env.hasher c sh
      (Parser.process (record env { ring = sh.tracker.ring }) receipts c.request)

-- ReadProcess: 0 when the request is parsed, 1 to wait, 2 to close.
unfoldable pub read_process :
    Parser.Surroundings
    → Clock
    → ℕ
    → List Receipt
    → HttpConn
    → Shared
    → Option (ℕ × HttpConn × Shared)
unfolding update Parser.process enter Response.init
read_process env clock fd receipts c sh =
    and_process env receipts c (with_timer sh (update clock.now fd clock.time_out sh.timer))

-- The value of WriteProcess, the bytes that have gone out, the connection and what it shares.
abbrev pub Written : Type 0
Written = ℕ × List ℕ × HttpConn × Shared

-- A sent answer ends the connection, or makes it ready for the next request.
abbrev pub written : HttpConn → Shared → Sender.Outcome × Request × Tracker → Written
written c sh ((zero, wire, p), r, t) =
    if is_keep_alive r
    then (0, wire, record c { response = p; request = Request.init r }, record sh { tracker = t })
    else (2, wire, record c { response = p; request = r }, record sh { tracker = t })
written c sh ((suc v, wire, p), r, t) =
    (suc v, wire, record c { response = p; request = r }, record sh { tracker = t })

abbrev pub maybe_written :
    HttpConn → Shared → Option (Sender.Outcome × Request × Tracker) → Option Written
maybe_written c sh none = none
maybe_written c sh (some o) = some (written c sh o)

abbrev pub and_write :
    Response.Surroundings → List Answer → HttpConn → Option Shared → Option Written
and_write env answers c none = none
and_write env answers c (some sh) =
    maybe_written c sh (Sender.process env answers c.request sh.tracker c.response)

unfoldable pub write_process :
    Response.Surroundings → Clock → ℕ → List Answer → HttpConn → Shared → Option Written
unfolding update Sender.process is_keep_alive Request.init
write_process env clock fd answers c sh =
    and_write env answers c (with_timer sh (update clock.now fd clock.time_out sh.timer))

abbrev pub and_listed : ℕ → HttpConn → Option Shared → Option (Option (ℕ × HttpConn) × Shared)
and_listed fd c none = none
and_listed fd c (some sh) = some (some (fd, c), sh)

-- ListenHttp::ReadProcess with what accept gives and what the constructor makes; the callback of the
-- timer is known by the descriptor.
unfoldable pub accept_http :
    Clock → HttpConn → Option ℕ → Shared → Option (Option (ℕ × HttpConn) × Shared)
unfolding init add
accept_http clock fresh none sh = some (none, sh)
accept_http clock fresh (some fd) sh =
    let (c, sh') = init fresh sh in
    and_listed fd c (with_timer sh' (add clock.now fd clock.time_out fd sh'.timer))

-- ListenTask::ReadProcess with what accept gives: the descriptor and the address; `fresh` has the
-- members that the constructor does not set.
unfoldable pub accept_task : Node → Option (ℕ × ℕ) → Tracker → Tracker
accept_task fresh none t = t
accept_task fresh (some (fd, ip)) t =
    set_node fd (some (record fresh { ip = ip; status = wait_sync })) t
