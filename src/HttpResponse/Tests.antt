-- ===== src/HttpResponse/Tests.antt =====
-- A private upload of the user ann.
use dfs_system.Base.{◌≡◌, refl, [], true, codes, arith}
use dfs_system.Status.{handle_init, file_begin}
use dfs_system.ConsistLog.RollbackLog.{make_order, rollback_order}
use dfs_system.ConsistLog.RingLog.{init_log_file}
use dfs_system.HttpRequest.{Request, post, private_path, upload}
use dfs_system.HttpResponse.Sql.{update_sql, rollback-opposite, flipped}

abbrev ann : Request
ann = record {
  head_status = handle_init;
  file_status = file_begin;
  recv = [];
  body = [];
  msg_body = [];
  body_len = 0;
  recv_file_name = codes "f";
  logged_in = true;
  method = post;
  path = private_path;
  behavior = upload;
  is_private_user = true;
  code = 200;
  username = codes "ann";
  password = [];
  file_name = codes "f";
  headers = [];
  order = make_order true [] [];
  log_addr = 0;
  ring = init_log_file 1;
  files = [];
}

rollback-opposite_example :
    rollback_order (make_order true (codes "ann") (codes "f"))
    ≡ update_sql (record ann { behavior = flipped upload })
rollback-opposite_example = rollback-opposite ann refl (omega arith)
