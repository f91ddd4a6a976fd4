-- ===== src/TrackerRequest.antt =====
-- tracker/src/http/httprequest.cpp and httpmessage.h: the request of a user at the tracker. The line,
-- the headers and the form are parsed in Parse, the user is verified in Verify.
pub mod Parse
pub mod Verify
pub mod Form
pub mod Entitled
pub mod Cookies
mod Tests
use dfs_system.Base.{ℕ, Bool, true, false, List, [], ◌∷◌, ◌&&◌, ◌||◌, if◌then◌else◌, codes, str_eq}
use dfs_system.Status.{Status, handle_init}
use dfs_system.HttpRequest.{Dict, Method, method_other, lookup}

-- PATH
pub data Page : Type 0 where
  root : Page
  public_page : Page
  private_page : Page
  login : Page
  register : Page
  logout : Page
  welcome : Page
  name_error : Page
  password_error : Page
  public_server : Page
  private_server : Page
  other_page : Page

-- VERSION; only the last is ever assigned.
pub data Version : Type 0 where
  v0_9 : Version
  v1_0 : Version
  v1_1 : Version
  v2_0 : Version
  version_other : Version

-- LoginStatus_: -1, 0, 1 and 2.
pub data Login : Type 0 where
  unknown : Login
  logged_in : Login
  wrong_password : Login
  no_such_user : Login

-- HttpRequest with the HttpMessage that it fills; `orders` are those given to the database so far.
pub record Request : Type 0 where
  pub head_status : Status
  pub recv : List ℕ
  pub body : List ℕ
  pub msg_body : Dict
  pub body_len : ℕ
  pub login_status : Login
  pub method : Method
  pub path : Page
  pub version : Version
  pub is_set_cookie : Bool
  pub code : ℕ
  pub username : List ℕ
  pub password : List ℕ
  pub group_name : List ℕ
  pub headers : Dict
  pub orders : List (List ℕ)

-- HttpRequest::Init and HttpMessage::Init; BodyLen stays.
unfoldable pub init : Request → Request
init r = record r {
  method = method_other;
  path = other_page;
  version = version_other;
  is_set_cookie = false;
  username = [];
  password = [];
  group_name = [];
  headers = [];
  code = 200;
  body = [];
  login_status = unknown;
  head_status = handle_init;
  msg_body = [];
  recv = [];
}

-- `map.count(key) != 0`
unfoldable pub has : List ℕ → Dict → Bool
has key [] = false
has key ((k, v) ∷ d) = str_eq key k || has key d

-- `map.erase(key)`
unfoldable pub erase : List ℕ → Dict → Dict
erase key [] = []
erase key ((k, v) ∷ d) = let rest = erase key d in if str_eq key k then rest else (k, v) ∷ rest

abbrev pub is_1_1 : Version → Bool
is_1_1 v1_1 = true
is_1_1 _ = false

unfoldable pub is_keep_alive : Request → Bool
unfolding has lookup
is_keep_alive r =
    has (codes "Connection") r.headers
    && (str_eq (lookup (codes "Connection") r.headers) (codes "keep-alive")
        || str_eq (lookup (codes "Connection") r.headers) (codes "Keep-Alive")
        || is_1_1 r.version)
