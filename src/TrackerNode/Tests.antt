-- ===== src/TrackerNode/Tests.antt =====
-- A storage node of group g1.
use dfs_system.Base.{
  ℕ, ◌+◌, ◌++◌, ◌≡◌, refl, List, [], ◌∷◌, codes, Option, none, some, true, false, arith,
  if◌then◌else◌, ◌==◌, length, str_eq,
}
use dfs_system.Wire.{decimal}
use dfs_system.Status.{handle_init, handle_complete, file_begin}
use dfs_system.ConsistLog.RingLog.{init_log_file}
use dfs_system.ConsistLog.RingLog as Log
use dfs_system.StorageNode.{StorageNode}
use dfs_system.TaskNode.Reading.{received}
use dfs_system.TrackerNode.{Settings, new_fields, ready_new}
use dfs_system.TrackerNode.Answer as Answer
use dfs_system.TrackerNode.Members.{
  members_of, members_for, node_at, newcomer, met, told, parse_head-join_group,
}
use dfs_system.TrackerGroup.{Node, Tracker, join_group}
use dfs_system.TrackerGroup.Reading as Reading
use dfs_system.TrackerGroup.Reading.{read_process}
use dfs_system.TrackerGroup.Greeting.{with_settings, IsJoined, read_process-ready_new}
use dfs_system.TrackerGroup.Flag.{update_loop, thread_go, update_loop-endless}

abbrev settings : Settings
settings = record {
  group_name = codes "g1";
  task_port = 9000;
  http_port = 80;
  data_capacity = 500;
  data_used = 0;
}

abbrev unknown : Node
unknown = record {
  ip = 1;
  status = 0;
  group_name = [];
  task_port = 0;
  http_port = 0;
  total_size = 0;
  used_size = 0;
}

new_fields_text : new_fields settings ≡ codes "g1 9000 80 500 0"
unfolding new_fields decimal
new_fields_text = refl

abbrev member : Node
member = record unknown { ip = 7; task_port = 9001 }

abbrev tracker : Tracker
tracker = record {
  group = λ g. [];
  nodes = λ fd. none;
  ring = [];
  user_server = λ u. none;
  online = λ u. false;
  time_until = 0;
  flag = false;
}

-- A member with a task port joins the group of the node at descriptor 5.
abbrev crowded : Tracker
crowded = record tracker {
  group = λ g. if str_eq g (codes "g1") then 5 ∷ [] else [];
  nodes = λ fd. if fd == 5 then some member else if fd == 6 then some unknown else none;
}

abbrev idle : StorageNode
idle = record {
  status = handle_init;
  file_status = file_begin;
  send = [];
  tasks = [];
  file = none;
  body_len = 0;
  has_sent = 0;
  boundary = [];
  finish = none;
  finished = [];
}

abbrev world : Answer.Surroundings
world = record {
  connect = λ i ip port. some (i + 10);
  fresh = idle;
  task_port = 9000;
  log_path = λ b p. [];
  log_syn = λ a. (0, 0);
  known = λ ip. false;
}

abbrev here : Answer.Local
here = record { group = []; trackers = (4, []) ∷ []; ring = init_log_file 1; effects = [] }

abbrev conn : Answer.Conn
conn = record { status = handle_init; is_out = false; recv = [] }

abbrev joining : Node
joining = with_settings settings unknown

abbrev answer : List ℕ
answer = codes "new 1 7 9001 \r\n"

abbrev after : Tracker
after = behind (join_group length 6 joining crowded)
  where
    behind : Option (List ℕ × Tracker) → Tracker
    behind none = tracker
    behind (some (text, t)) = t

answer_run : join_group length 6 joining crowded ≡ some (answer, after)
unfolding join_group str_eq decimal
answer_run = refl

parse_head-join_group_example :
    (l' : Answer.Local) × (Answer.parse_head world (record conn { recv = answer }) here
      ≡ some (record conn { status = handle_complete; is_out = true; recv = [] }, l'))
    × ((f : ℕ) → node_at f l'.group ≡ met world 0 (members_for joining crowded) f (node_at f []))
    × (l'.trackers ≡ told here.trackers)
    × (l'.ring ≡ (Log.init world.log_path world.log_syn world.known here.ring).1)
    × (l'.effects ≡ [] ++ (Log.init world.log_path world.log_syn world.known here.ring).0)
unfolding members_of str_eq
parse_head-join_group_example =
    parse_head-join_group length 6 joining crowded after answer world conn here answer_run
      (omega arith, omega arith, tt)

-- The only member, at the descriptor 10, is to get the task.
met_run : met world 0 (members_for joining crowded) 10 none ≡ some (newcomer world)
unfolding met members_of str_eq
met_run = refl

abbrev greeter : Reading.Surroundings
greeter = record { hasher = length; now = 100; time_out = 30 }

abbrev line_conn : Reading.Conn
line_conn = record { status = handle_init; is_out = false; recv = []; send = [] }

read_process-ready_new_example :
    (text : List ℕ) × (t' : Tracker) × (read_process greeter 6
        (received (ready_new settings []) ∷ [])
        line_conn
        crowded
      ≡ some (0, (record line_conn { send = [] ++ text }, t')))
    × IsJoined length 6 joining crowded text t'
unfolding str_eq
read_process-ready_new_example =
    read_process-ready_new greeter 6 settings line_conn unknown crowded []
      ((omega arith, (refl, (refl, tt))), omega arith, omega arith, omega arith, omega arith) refl
      refl refl ((member, refl), tt)

-- The flag is set at second 100 until 135, and set again while the thread sleeps.
update_loop-endless_example :
    (update_loop 100 (135 ∷ 135 ∷ 170 ∷ []) (record { flag = true; thread_is_run = true }) ≡ none)
    × ((thread_go (thread_go (record { flag = true; thread_is_run = true })).1).0 ≡ false)
update_loop-endless_example =
    update_loop-endless 100 (135 ∷ 135 ∷ 170 ∷ []) (record { flag = true; thread_is_run = true })
      (omega arith, omega arith, (omega arith, omega arith, (omega arith, omega arith, tt)))
