-- ===== src/TrackerConn/Tests.antt =====
-- The user ann on the connection 9, in whose group is the storage node 7, and the witnesses.
use dfs_system.Base.{
  ℕ, ◌≡◌, refl, true, false, List, [], ◌∷◌, Option, none, some, if◌then◌else◌, ◌==◌, length, codes,
  str_eq,
}
use dfs_system.Status.{handle_init}
use dfs_system.HeapTimer.{HeapTimer, update, erase}
use dfs_system.ConsistentHash.{get_group, hash}
use dfs_system.StorageNode.Sending.{Answer, took}
use dfs_system.HttpRequest.{get}
use dfs_system.HttpRequest.Process.{Receipt, received}
use dfs_system.TrackerGroup.{Node, Tracker, reports_of}
use dfs_system.TrackerRequest as Request
use dfs_system.TrackerRequest.{
  Request, other_page, public_page, version_other, unknown, logged_in, is_keep_alive,
}
use dfs_system.HttpRequest.{method_other}
use dfs_system.TrackerRequest.Verify as Parser
use dfs_system.TrackerResponse as Response
use dfs_system.TrackerResponse.{Response}
use dfs_system.TrackerResponse.Sending as Sender
use dfs_system.TrackerConn.{
  HttpConn, Shared, Clock, read_process, write_process, destroy, accept_http, accept_task,
}
use dfs_system.TrackerConn.Entered.{report, has_member, status_of, read_process-entered}
use dfs_system.TrackerConn.Online.{write_process-keeps}

abbrev ann : List ℕ
ann = codes "ann"

abbrev world : Parser.Surroundings
world = record {
  row = λ os o. if str_eq o (Parser.select_user ann) then some (ann, codes "pw") else none;
  fails = λ os o. false;
  md5 = λ s. s;
  new_cookie = λ os. codes "k7";
  hasher = length;
  ring = [];
}

abbrev pages : Response.Surroundings
pages = record {
  texts = λ h. codes "<p>";
  md5 = λ s. s;
  cookie_out = 60;
  time_out = 30;
  ntop = λ ip. codes "10.0.0.1";
  rows = λ os o. codes "a.txt" ∷ [];
  hasher = length;
  now = 1000;
  msg_status = λ fd. handle_init;
}

abbrev node : Node
node = record {
  ip = 1;
  status = 4;
  group_name = codes "g";
  task_port = 1;
  http_port = 80;
  total_size = 0;
  used_size = 0;
}

abbrev tracker : Tracker
tracker = record {
  group = λ g. if str_eq g (codes "g") then 7 ∷ [] else [];
  nodes = λ fd. if fd == 7 then some node else none;
  ring = (5, codes "g") ∷ [];
  user_server = λ u. none;
  online = λ u. false;
  time_until = 0;
  flag = false;
}

abbrev blank : Request
blank = record {
  head_status = handle_init;
  recv = [];
  body = [];
  msg_body = [];
  body_len = 0;
  login_status = unknown;
  method = method_other;
  path = other_page;
  version = version_other;
  is_set_cookie = false;
  code = 200;
  username = [];
  password = [];
  group_name = [];
  headers = [];
  orders = [];
}

abbrev conn : HttpConn
conn = record {
  request = blank;
  response = record { status = handle_init; before = []; body = []; body_len = 0; has_sent = 0 };
  is_close = false;
}

abbrev clock : Clock
clock = record { now = 1000; time_out = 30 }

abbrev shared : Shared
shared = record {
  tracker = tracker;
  timer = record {
    heap = record { id = 9; expires = 1; cb = 9 } ∷ [];
    ref = λ id. if id == 9 then some 0 else none;
  };
  user_count = 1;
}

abbrev receipts : List Receipt
receipts =
    received (codes "POST /login HTTP/1.1\r\nContent-Length: 24\r\n\r\nusername=ann&password=pw")
    ∷ []

abbrev timer_in : Option HeapTimer → HeapTimer
timer_in none = shared.timer
timer_in (some t) = t

abbrev renewed : HeapTimer
renewed = timer_in (update 1000 9 30 shared.timer)

abbrev request_in : Option (ℕ × Request) → Request
request_in none = blank
request_in (some (value, r)) = r

abbrev logged : Request
logged = request_in (Parser.process (record world { ring = tracker.ring }) receipts blank)

read_process-entered_example :
    (c' : HttpConn) × (sh' : Shared) × (read_process world clock 9 receipts conn shared
      ≡ some (0, c', sh'))
    × (sh'.tracker.online ann ≡ true)
    × ((f : ℕ)
        → report f (reports_of (sh'.tracker.user_server ann)) ≡ (
            if has_member f (tracker.group (get_group length ann tracker.ring))
            then status_of (tracker.nodes f)
            else none))
unfolding update Parser.process Request.init str_eq Parser.select_user get_group hash
read_process-entered_example =
    read_process-entered world clock 9 receipts conn shared renewed 0 logged refl refl refl refl
      ((node, refl), tt)

-- A request for the public files that keeps the connection alive, by ann who is online.
abbrev asking : HttpConn
asking = record conn {
  request = record blank {
    method = get;
    path = public_page;
    username = ann;
    headers = (codes "Connection", codes "keep-alive") ∷ [];
  };
}

abbrev in_use : Shared
in_use = record shared { tracker = record tracker { online = λ u. str_eq u ann } }

abbrev answers : List Answer
answers = took 2000 ∷ took 2000 ∷ []

abbrev Sent : Type 0
Sent = Sender.Outcome × Request × Tracker

abbrev sent_in : Option Sent → Sent
sent_in none = ((1, [], conn.response), blank, tracker)
sent_in (some s) = s

abbrev sent : Sent
sent = sent_in (Sender.process pages answers asking.request in_use.tracker asking.response)

abbrev left : HeapTimer
left = timer_in (erase 9 renewed)

write_process-keeps_example :
    (c' : HttpConn) × (sh' gone : Shared) × (write_process pages clock 9 answers asking in_use
      ≡ some (0, sent.0.1, c', sh'))
    × (destroy 9 c' sh' ≡ some gone)
    × (gone.tracker.online ≡ sent.2.online)
unfolding update erase Sender.process str_eq is_keep_alive
write_process-keeps_example =
    write_process-keeps pages clock 9 answers asking in_use renewed left sent.0.1 sent.0.2 sent.1
      sent.2 refl refl refl refl

abbrev listed : Option (Option (ℕ × HttpConn) × Shared) → ℕ × ℕ
listed none = (0, 0)
listed (some (c, sh)) = (sh.user_count, length sh.timer.heap)

-- An accepted connection has its timer.
accept_run : listed (accept_http clock conn (some 12) shared) ≡ (2, 2)
unfolding accept_http
accept_run = refl

accept_task_run : status_of ((accept_task node (some (8, 5)) tracker).nodes 8) ≡ some 1
unfolding accept_task
accept_task_run = refl
