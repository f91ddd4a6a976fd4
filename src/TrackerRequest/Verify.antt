-- ===== src/TrackerRequest/Verify.antt =====
-- httprequest.cpp of the tracker: Verify, Login_ and process.
use dfs_system.Base.{
  ℕ, Bool, true, false, not, ◌&&◌, ◌||◌, List, [], ◌∷◌, ◌++◌, Option, none, some, if◌then◌else◌,
  ◌==◌, length, take, codes, str_eq,
}
use dfs_system.Status.{handle_complete}
use dfs_system.ConsistentHash.{Ring, get_group}
use dfs_system.HttpRequest.{Method, get, post, method_other, lookup}
use dfs_system.HttpRequest.Process.{
  at_init, at_head, at_body, at_error, Receipt, received, ended, again, broken,
}
use dfs_system.TrackerRequest.{
  Request, Page, login, register, welcome, name_error, password_error, Login, unknown, logged_in,
  wrong_password, no_such_user, has, erase,
}
use dfs_system.TrackerRequest.Parse.{parse_quest_line, parse_head_lines, parse_user}

-- What the tracker relies on: the first row that MySQL gives for an order after those before it, with
-- its two columns, and whether an order fails; getMD5(name, 4); the value that getCookieValue draws
-- after so many orders; std::hash and the ring.
pub record Surroundings : Type 0 where
  pub row : List (List ℕ) → List ℕ → Option (List ℕ × List ℕ)
  pub fails : List (List ℕ) → List ℕ → Bool
  pub md5 : List ℕ → List ℕ
  pub new_cookie : List (List ℕ) → List ℕ
  pub hasher : List ℕ → ℕ
  pub ring : Ring

-- snprintf(order, 256, ...)
abbrev pub order : List ℕ → List ℕ
order s = take 255 s

unfoldable pub select_cookie : List ℕ → List ℕ
select_cookie cookie =
    order (codes "SELECT username FROM user WHERE cookie = '" ++ cookie ++ codes "' LIMIT 1")

unfoldable pub select_user : List ℕ → List ℕ
select_user name =
    order
      (codes "SELECT username, password FROM user WHERE username = '" ++ name ++ codes "' LIMIT 1;")

unfoldable pub insert_user : List ℕ → List ℕ → List ℕ
insert_user name pass = order (
    codes "INSERT INTO user(username, password) VALUE('"
    ++ name
    ++ codes "', '"
    ++ pass
    ++ codes "');")

unfoldable pub update_cookie : List ℕ → List ℕ → List ℕ
update_cookie cookie name = order (
    codes "UPDATE user SET cookie = '"
    ++ cookie
    ++ codes "' WHERE username = '"
    ++ name
    ++ codes "'")

-- mysql_query
abbrev pub query : List ℕ → Request → Request
query o r = record r { orders = r.orders ++ o ∷ [] }

-- AddCookie_
abbrev pub add_cookie : Surroundings → Request → Request
add_cookie env r = record r { password = env.new_cookie r.orders }

-- Login_
unfoldable pub log_in : Surroundings → Request → Request
unfolding get_group
log_in env r = add_cookie env (record r {
  login_status = logged_in;
  is_set_cookie = true;
  path = welcome;
  group_name = get_group env.hasher r.username env.ring;
})

abbrev pub no_user : Request → Request
no_user r = record r { username = []; password = [] }

-- The outcome of the order for a cookie: `true` when Verify returns there.
unfoldable pub cookie_row : Surroundings → Option (List ℕ × List ℕ) → Request → Bool × Request
unfolding get_group
cookie_row env none r = (false, no_user r)
cookie_row env (some (name, _)) r =
    if str_eq (env.md5 name) r.username
    then (
      true,
      record r {
        username = name;
        login_status = logged_in;
        group_name = get_group env.hasher name env.ring;
        is_set_cookie = true;
      },
    )
    else (false, no_user r)

unfoldable pub verify_cookie : Surroundings → Request → Bool × Request
unfolding select_cookie cookie_row
verify_cookie env r =
    if r.is_set_cookie || length r.username == 0 || length r.password == 0
    then (false, r)
    else cookie_row env (env.row r.orders (select_cookie r.password))
        (query (select_cookie r.password) r)

abbrev pub forget_name : Request → Request
forget_name r = record r { msg_body = erase (codes "username") r.msg_body }

abbrev pub is_login : Page → Bool
is_login login = true
is_login _ = false

abbrev pub is_register : Page → Bool
is_register register = true
is_register _ = false

unfoldable pub no_row : Surroundings → List ℕ → List ℕ → Request → Request
unfolding insert_user log_in erase
no_row env name pass r =
    if is_login r.path
    then forget_name (record r { login_status = no_such_user; path = name_error })
    else if is_register r.path
    then log_in env (record (query (insert_user name pass) r) { username = name })
    else record r { login_status = no_such_user }

-- The outcome of the order for a name.
unfoldable pub user_row :
    Surroundings → List ℕ → List ℕ → Option (List ℕ × List ℕ) → Request → Request
unfolding log_in no_row erase
user_row env name pass none r = no_row env name pass r
user_row env name pass (some (_, pwd)) r =
    if str_eq pwd pass
    then log_in env (record r { username = name })
    else forget_name (record r { login_status = wrong_password; path = password_error })

unfoldable pub store_cookie : Request → Request
unfolding update_cookie
store_cookie r = if length r.password == 0 then r else query (update_cookie r.password r.username) r

unfoldable pub verify_form : Surroundings → Request → Request
unfolding has lookup select_user user_row store_cookie
verify_form env r =
    let name = lookup (codes "username") r.msg_body in
    let pass = lookup (codes "password") r.msg_body in
    if not (has (codes "username") r.msg_body && has (codes "password") r.msg_body)
    then r
    else if length name == 0 || length pass == 0
    then r
    else if env.fails r.orders (select_user name)
    then query (select_user name) r
    else store_cookie
        (user_row env name pass (env.row r.orders (select_user name)) (query (select_user name) r))

abbrev pub unless_done : Surroundings → Bool × Request → Request
unless_done env (true, r) = r
unless_done env (false, r) = verify_form env r

unfoldable pub verify : Surroundings → Request → Request
unfolding verify_cookie verify_form
verify env r = unless_done env (verify_cookie env r)

abbrev pub is_unknown : Login → Bool
is_unknown unknown = true
is_unknown _ = false

-- What a receipt leads to: another recv, or a value that process returns.
pub data Turn : Type 0 where
  loops : Request → Turn
  returns : ℕ → Request → Turn

abbrev pub end_turn : Request → Turn
end_turn r = if at_error r.head_status then returns 2 r else loops r

abbrev pub user_turn : Surroundings → Bool × Request → Turn
user_turn env (true, r) = returns 0 (verify env r)
user_turn env (false, r) = loops r

unfoldable pub method_turn : Surroundings → Method → Request → Turn
unfolding parse_user verify
method_turn env get r = returns 0 (record r { head_status = handle_complete })
method_turn env post r = user_turn env (parse_user r)
method_turn env method_other r = end_turn r

unfoldable pub body_turn : Surroundings → Request → Turn
unfolding method_turn
body_turn env r = if at_body r.head_status then method_turn env r.method r else end_turn r

abbrev pub verify_if : Surroundings → Request → Request
verify_if env r = if is_unknown r.login_status then verify env r else r

abbrev pub after_heads : Surroundings → Option Request → Option Turn
after_heads env none = none
after_heads env (some r) = some (body_turn env (verify_if env r))

-- One round of the loop, after a receipt.
unfoldable pub turn : Surroundings → List ℕ → Request → Option Turn
unfolding parse_quest_line parse_head_lines verify body_turn
turn env s r =
    let r1 = record r { recv = r.recv ++ s } in
    let r2 = if at_init r1.head_status then parse_quest_line r1 else r1 in
    after_heads env (if at_head r2.head_status then parse_head_lines r2 else some r2)

abbrev pub take_turn : (Request → Option (ℕ × Request)) → Option Turn → Option (ℕ × Request)
take_turn next none = none
take_turn next (some (loops r)) = next r
take_turn next (some (returns value r)) = some (value, r)

unfoldable pub process : Surroundings → List Receipt → Request → Option (ℕ × Request)
unfolding turn
process env [] r = some (1, r)
process env (ended ∷ receipts) r = some (2, r)
process env (again ∷ receipts) r = some (1, r)
process env (broken ∷ receipts) r = some (2, r)
process env (received s ∷ receipts) r = take_turn (process env receipts) (turn env s r)
