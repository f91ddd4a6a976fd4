-- ===== src/Status.antt =====
-- storage/src/message/enumstatus.h: the states of a message and of a file in it.
pub data Status : Type 0 where
  handle_init : Status
  handle_head : Status
  handle_body : Status
  handle_complete : Status
  handle_error : Status

pub data FileStatus : Type 0 where
  file_begin : FileStatus
  file_head : FileStatus
  file_content : FileStatus
  file_complete : FileStatus
