-- ===== src/HttpConn/Tests.antt =====
-- A private upload of the user ann at a node with another node in its group.
use dfs_system.Base.{◌≡◌, refl, true, false, [], ◌∷◌, none, codes}
use dfs_system.Status.{handle_init, file_begin}
use dfs_system.ConsistLog.Format.{Page}
use dfs_system.ConsistLog.RollbackLog.{make_order}
use dfs_system.ConsistLog.RingLog.{RingLog, init_log_file}
use dfs_system.StorageNode.{StorageNode}
use dfs_system.HttpRequest.{Request, post, private_path, upload}
use dfs_system.HttpConn.{Shared, HttpConn, init, close}

abbrev ann : Request
ann = record {
  head_status = handle_init;
  file_status = file_begin;
  recv = [];
  body = [];
  msg_body = [];
  body_len = 0;
  recv_file_name = codes "f";
  logged_in = true;
  method = post;
  path = private_path;
  behavior = upload;
  is_private_user = true;
  code = 200;
  username = codes "ann";
  password = [];
  file_name = codes "f";
  headers = [];
  order = make_order true (codes "ann") (codes "f");
  log_addr = 64;
  ring = init_log_file 1;
  files = [];
}

abbrev conn : HttpConn
conn = record {
  request = ann;
  response = record {
    status = handle_init;
    before = [];
    file = none;
    body_len = 0;
    has_sent = 0;
    removed = [];
  };
  is_close = false;
}

abbrev blank : Page
blank = record { w0 = 0; w1 = 0; w2 = 0; w3 = 0; w4 = 0; w5 = 0; w6 = 0; w7 = 0 }

abbrev other : StorageNode
other = record {
  status = handle_init;
  file_status = file_begin;
  send = [];
  tasks = [];
  file = none;
  body_len = 0;
  has_sent = 0;
  boundary = [];
  finish = none;
  finished = [];
}

abbrev shared : Shared
shared = record {
  syn = record { file = λ o. blank; file_end = 0 };
  group = record { fd = 9; ip = 7; node = other } ∷ [];
  user_count = 1;
  orders = [];
}

-- A connection counts until it is closed.
count_run : (close (init conn shared).0 (init conn shared).1).1.user_count ≡ 1
unfolding init close
count_run = refl
