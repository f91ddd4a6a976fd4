-- ===== src/HttpRequest.antt =====
-- storage/src/http/httprequest.cpp and httpmessage.h: the request of a user at a storage node. Lines,
-- headers and forms are parsed in the child modules, the whole request in Process.
pub mod Line
pub mod Header
pub mod Form
pub mod File
pub mod Process
use dfs_system.Base.{
  ℕ, zero, suc, ◌+◌, ◌-◌, Bool, true, false, ◌&&◌, List, [], ◌∷◌, ◌++◌, Option, none, some,
  if◌then◌else◌, ◌==◌, length, take, drop, codes, str_eq,
}
use dfs_system.FileBody.{find}
use dfs_system.ConsistLog.RollbackLog.{RollbackLog}
use dfs_system.ConsistLog.RingLog.{RingLog}
use dfs_system.Status.{Status, handle_init, FileStatus, file_begin}

pub data Method : Type 0 where
  get : Method
  post : Method
  method_other : Method

pub data PathKind : Type 0 where
  public_path : PathKind
  private_path : PathKind
  path_other : PathKind

pub data Behavior : Type 0 where
  upload : Behavior
  download : Behavior
  delete : Behavior
  behavior_other : Behavior

-- std::unordered_map<std::string, std::string>: no key twice.
abbrev pub Dict : Type 0
Dict = List (List ℕ × List ℕ)

-- `map[key]`; the empty string for a missing key.
unfoldable pub lookup : List ℕ → Dict → List ℕ
lookup key [] = []
lookup key ((k, v) ∷ d) = let rest = lookup key d in if str_eq key k then v else rest

-- `map[key] = value`
unfoldable pub assign : List ℕ → List ℕ → Dict → Dict
assign key value [] = (key, value) ∷ []
assign key value ((k, v) ∷ d) =
    let rest = assign key value d in if str_eq key k then (key, value) ∷ d else (k, v) ∷ rest

-- HttpRequest with the HttpMessage that it fills; `files` collects what is appended to files.
pub record Request : Type 0 where
  pub head_status : Status
  pub file_status : FileStatus
  pub recv : List ℕ
  pub body : List ℕ
  pub msg_body : Dict
  pub body_len : ℕ
  pub recv_file_name : List ℕ
  pub logged_in : Bool
  pub method : Method
  pub path : PathKind
  pub behavior : Behavior
  pub is_private_user : Bool
  pub code : ℕ
  pub username : List ℕ
  pub password : List ℕ
  pub file_name : List ℕ
  pub headers : Dict
  pub order : RollbackLog
  pub log_addr : ℕ
  pub ring : RingLog
  pub files : List (List ℕ × List ℕ)

-- HttpRequest::Init and HttpMessage::Init.
unfoldable pub init : Request → Request
init r = record r {
  method = method_other;
  path = path_other;
  behavior = behavior_other;
  is_private_user = false;
  username = [];
  password = [];
  file_name = [];
  headers = [];
  code = 200;
  body = [];
  logged_in = false;
  head_status = handle_init;
  file_status = file_begin;
  msg_body = [];
  recv = [];
}

-- std::string::find of one byte from a position; `none` is npos.
unfoldable pub find_byte : ℕ → ℕ → List ℕ → Option ℕ
unfolding find
find_byte c from s =
    let i = find (c ∷ []) (drop from s) in
    if i == length (drop from s) then none else some (from + i)
