-- ===== src/TrackerRequest/Tests.antt =====
-- Requests to log in, and the witnesses of the theorems.
use dfs_system.Base.{
  ℕ, ◌≡◌, refl, false, List, [], ◌∷◌, ◌++◌, Option, none, some, arith, if◌then◌else◌, length, codes,
  str_eq,
}
use dfs_system.Status.{handle_complete}
use dfs_system.FileBody.{crlf}
use dfs_system.HttpRequest.{method_other}
use dfs_system.HttpRequest.Process.{received, again}
use dfs_system.TrackerRequest.{Request, other_page, register, version_other, unknown, init}
use dfs_system.TrackerRequest.Verify.{Surroundings, select_user, verify, process}
use dfs_system.TrackerRequest.Entitled.{IsVerified, verify-IsVerified}
use dfs_system.TrackerRequest.Form.{credentials}
use dfs_system.TrackerRequest.Cookies.{reading, process-late_cookie}

abbrev ann : List ℕ
ann = codes "ann"

abbrev pw : List ℕ
pw = codes "pw"

-- A database with one user.
abbrev world : Surroundings
world = record {
  row = λ os o. if str_eq o (select_user ann) then some (ann, pw) else none;
  fails = λ os o. false;
  md5 = λ s. s;
  new_cookie = λ os. codes "k7";
  hasher = length;
  ring = [];
}

abbrev blank : Request
blank = init (record {
  head_status = handle_complete;
  recv = [];
  body = [];
  msg_body = [];
  body_len = 0;
  login_status = unknown;
  method = method_other;
  path = other_page;
  version = version_other;
  is_set_cookie = false;
  code = 200;
  username = [];
  password = [];
  group_name = [];
  headers = [];
  orders = [];
})

abbrev user_of : Option (ℕ × Request) → Option (ℕ × List ℕ)
user_of none = none
user_of (some (value, r)) = some (value, r.username)

login_run :
    user_of (
      process world
        (received (codes "POST /login HTTP/1.1\r\nContent-Le")
          ∷ received (codes "ngth: 24\r\n\r\nusername=ann&")
          ∷ received (codes "password=pw")
          ∷ [])
        blank)
    ≡ some (0, ann)
unfolding process init str_eq select_user
login_run = refl

wrong_password_run :
    user_of (
      process world
        (received
            (codes "POST /login HTTP/1.1\r\nContent-Length: 24\r\n\r\nusername=ann&password=px")
          ∷ [])
        blank)
    ≡ some (0, [])
unfolding process init str_eq select_user
wrong_password_run = refl

-- Another method is never answered.
other_method_run :
    user_of (process world (received (codes "HEAD / HTTP/1.1\r\n\r\n") ∷ again ∷ []) blank)
    ≡ some (1, [])
unfolding process init str_eq
other_method_run = refl

-- A new user registers.
abbrev newcomer : Request
newcomer = record blank { path = register; msg_body = credentials (codes "bob") pw }

verify-IsVerified_example : IsVerified world newcomer (verify world newcomer)
unfolding init verify str_eq select_user
verify-IsVerified_example = verify-IsVerified world newcomer refl refl

-- After the cookie of `bob`, whose verification found him, the name becomes `bobby`.
process-late_cookie_example :
    process world
      (received (((codes "Cookie: " ++ codes "by") ++ crlf) ++ crlf) ∷ [])
      (reading (record blank { username = codes "bob" }))
    ≡ some (
      0,
      record (reading (record blank { username = codes "bob" })) {
        username = codes "bob" ++ codes "by";
        is_set_cookie = false;
        head_status = handle_complete;
      },
    )
process-late_cookie_example =
    process-late_cookie world (codes "by") (record blank { username = codes "bob" }) []
      (ground arith)
