-- ===== src/HttpConn.antt =====
-- storage/src/http/httpconn.cpp: a connection of a user to a storage node, from the parsed request
-- over the logs and the tasks for the other nodes to the answer.
pub mod Logged
mod Tests
use dfs_system.Base.{
  ℕ, zero, suc, ◌+◌, ◌-◌, Bool, true, false, List, [], ◌∷◌, ◌++◌, Option, none, some, if◌then◌else◌,
}
use dfs_system.ConsistLog.Format.{Page, SynLogBody}
use dfs_system.ConsistLog.RollbackLog.{rollback_order, clear_order}
use dfs_system.ConsistLog.RingLog.{RingLog, write_syn_log, free_log}
use dfs_system.ConsistLog.SynLog.{SynLog, get_page_idx, make_log}
use dfs_system.StorageNode.{StorageNode, SynPack, add_syn_task}
use dfs_system.StorageNode.Sending.{Answer}
use dfs_system.HttpRequest as Request
use dfs_system.HttpRequest.{Request}
use dfs_system.HttpRequest.Process as Parser
use dfs_system.HttpRequest.Process.{Receipt}
use dfs_system.HttpResponse as Response
use dfs_system.HttpResponse.{Response}
use dfs_system.HttpResponse.Sql.{update_sql, log_user, changes, is_upload}

-- StorageNode::group by descriptor, each node with its ip.
pub record Member : Type 0 where
  pub fd : ℕ
  pub ip : ℕ
  pub node : StorageNode

-- What the connections share, beside the ring log of their requests; `orders` are those given to the
-- database. `blank`, an argument below, is the page that SynLog keeps as its `body_`.
pub record Shared : Type 0 where
  pub syn : SynLog
  pub group : List Member
  pub user_count : ℕ
  pub orders : List (List ℕ)

pub record HttpConn : Type 0 where
  pub request : Request
  pub response : Response
  pub is_close : Bool

-- Init of a new connection.
unfoldable pub init : HttpConn → Shared → HttpConn × Shared
unfolding Request.init
init c sh = (
  record c { is_close = false; request = Request.init c.request },
  record sh { user_count = sh.user_count + 1 },
)

unfoldable pub close : HttpConn → Shared → HttpConn × Shared
close c sh =
    if c.is_close
    then (c, sh)
    else (record c { is_close = true }, record sh { user_count = sh.user_count - 1 })

abbrev pub give : Option (List ℕ) → Shared → Shared
give none sh = sh
give (some order) sh = record sh { orders = sh.orders ++ order ∷ [] }

-- ~HttpConn: an unfinished request is rolled back.
unfoldable pub destroy : HttpConn → Shared → Shared
unfolding close rollback_order
destroy c sh = let (c', sh') = close c sh in give (rollback_order c'.request.order) sh'

-- The state of the loop of UpdateLog_: the logs, and the members with their tasks.
pub record Logs : Type 0 where
  pub syn : SynLog
  pub ring : RingLog
  pub group : List Member

-- The pack of a request for the two logs.
abbrev pub pack_of : Request → ℕ → ℕ → SynPack
pack_of r ring_id syn_id = record {
  ring_log_id = ring_id;
  syn_log_id = syn_id;
  username = log_user r.path r.username;
  filename = r.file_name;
  is_upload = is_upload r.behavior;
}

abbrev pub with_task : SynPack → Member → Member
with_task pack m = record m { node = add_syn_task pack m.node }

-- A round of UpdateLog_ behind MakeLog; `none` where a name is longer than its array.
abbrev pub logged :
    Request
    → Member
    → (Logs → Option Logs)
    → ℕ × SynLog
    → RingLog
    → Option SynLogBody
    → List Member
    → Option Logs
logged r m next (syn_id, syn) ring none before = none
logged r m next (syn_id, syn) ring (some body) before =
    let (ring_id, ring') = write_syn_log body ring in
    next (record {
      syn = syn;
      ring = ring';
      group = before ++ with_task (pack_of r ring_id syn_id) m ∷ [];
    })

-- The loop over the group; `group` of the state has the members that it is done with.
unfoldable pub log_loop : (ℕ → ℕ) → Page → Request → List Member → Logs → Option Logs
unfolding get_page_idx make_log write_syn_log add_syn_task
log_loop past blank r [] l = some l
log_loop past blank r (m ∷ ms) l =
    logged r m (log_loop past blank r ms) (get_page_idx blank l.syn) l.ring
      (make_log past m.ip (is_upload r.behavior) (log_user r.path r.username) r.file_name) l.group

-- FreeLog of the rollback log, and ClearOrder.
abbrev pub log_done : HttpConn → Shared → Option Logs → Option (HttpConn × Shared)
log_done c sh none = none
log_done c sh (some l) = some (
  record c {
    request = record c.request {
      ring = free_log c.request.log_addr l.ring;
      order = clear_order c.request.order;
    };
  },
  record sh { syn = l.syn; group = l.group },
)

unfoldable pub update_log : (ℕ → ℕ) → Page → HttpConn → Shared → Option (HttpConn × Shared)
unfolding log_loop free_log clear_order
update_log past blank c sh =
    if changes c.request.behavior
    then log_done c sh (
        log_loop past blank c.request sh.group
          (record { syn = sh.syn; ring = c.request.ring; group = [] }))
    else some (c, sh)

-- UpdateSql_ and the start of the answer.
abbrev pub answer_begun : Option (HttpConn × Shared) → Option (ℕ × HttpConn × Shared)
answer_begun none = none
answer_begun (some (c, sh)) =
    some (0, record c { response = Response.init c.response }, give (update_sql c.request) sh)

abbrev pub request_read :
    (ℕ → ℕ) → Page → HttpConn → Shared → Option (ℕ × Request) → Option (ℕ × HttpConn × Shared)
request_read past blank c sh none = none
request_read past blank c sh (some (zero, r)) =
    answer_begun (update_log past blank (record c { request = r }) sh)
request_read past blank c sh (some (suc v, r)) = some (suc v, record c { request = r }, sh)

-- ReadProcess: 0 when the request is parsed, 1 to wait, 2 to close.
unfoldable pub read_process :
    Parser.Surroundings → Page → List Receipt → HttpConn → Shared → Option (ℕ × HttpConn × Shared)
unfolding Parser.process update_log update_sql Response.init
read_process env blank receipts c sh =
    request_read env.past blank c sh (Parser.process env receipts c.request)

-- WriteProcess: a sent answer ends the connection.
abbrev pub response_sent : HttpConn → Response.Outcome → ℕ × List ℕ × HttpConn
response_sent c (zero, wire, p) =
    (2, wire, record c { response = p; request = Request.init c.request })
response_sent c (suc v, wire, p) = (suc v, wire, record c { response = p })

unfoldable pub write_process :
    Response.Surroundings → List Answer → HttpConn → ℕ × List ℕ × HttpConn
unfolding Response.process Request.init
write_process env answers c = response_sent c (Response.process env c.request answers c.response)
