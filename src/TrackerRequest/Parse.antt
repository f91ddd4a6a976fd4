-- ===== src/TrackerRequest/Parse.antt =====
-- httprequest.cpp of the tracker: ParseQuestLine_, ParseHeadLine_, ParseCookie_ and ParseUser_.
use Prim.Native.Nat.{min}
use dfs_system.Base.{
  ℕ, zero, suc, ◌+◌, ◌-◌, Bool, true, false, List, [], ◌∷◌, ◌++◌, Option, none, some, if◌then◌else◌,
  ltb, ◌==◌, length, take, drop, codes, str_eq,
}
use dfs_system.FileBody.{find, crlf}
use dfs_system.Status.{handle_head, handle_body, handle_error}
use dfs_system.HttpRequest.{Dict, assign, find_byte}
use dfs_system.HttpRequest.Line.{pieces, method_of}
use dfs_system.HttpRequest.Header.{stoi, value_of, is_error}
use dfs_system.HttpRequest.Form.{form_loop}
use dfs_system.TrackerRequest.{
  Request, Page, root, public_page, private_page, login, register, logout, welcome, name_error,
  password_error, public_server, private_server, other_page,
}

-- DEFAULT_PATH.
abbrev pub default_path : List (List ℕ × Page)
default_path =
    (codes "/index", root)
    ∷ (codes "/register", register)
    ∷ (codes "/login", login)
    ∷ (codes "/welcome", welcome)
    ∷ (codes "/public", public_page)
    ∷ (codes "/private", private_page)
    ∷ (codes "/namerr", name_error)
    ∷ (codes "/pwderr", password_error)
    ∷ (codes "/get_public_server", public_server)
    ∷ (codes "/get_private_server", private_server)
    ∷ []

unfoldable pub page_in : List (List ℕ × Page) → List ℕ → Page
page_in [] resource = other_page
page_in ((name, page) ∷ more) resource =
    let rest = page_in more resource in if str_eq name resource then page else rest

unfoldable pub parse_resource : List ℕ → Request → Request
unfolding page_in
parse_resource resource r =
    if str_eq resource (codes "/")
    then record r { path = root }
    else if str_eq resource (codes "/logout")
    then record r { is_set_cookie = false; path = logout }
    else record r { path = page_in default_path resource }

unfoldable pub parse_words : List ℕ × List (List ℕ) → Request → Request
unfolding method_of parse_resource
parse_words (first, resource ∷ version ∷ []) r =
    parse_resource resource (record r { method = method_of first })
parse_words (first, _) r = record r { head_status = handle_error }

unfoldable pub parse_quest_line : Request → Request
unfolding find pieces parse_words
parse_quest_line r =
    let e = find crlf r.recv in
    if e == length r.recv
    then r
    else parse_words (pieces (take e r.recv))
        (record r { recv = drop (e + 2) r.recv; head_status = handle_head })

-- ParseCookie_ up to a NUL, from the name and the password that there are.
unfoldable pub parse_cookie : Bool → List ℕ → List ℕ × List ℕ → List ℕ × List ℕ
parse_cookie flag [] (name, pass) = (name, pass)
parse_cookie flag (c ∷ s) (name, pass) =
    let at_sign = parse_cookie true s (name, pass) in
    let to_pass = parse_cookie flag s (name, pass ++ c ∷ []) in
    let to_name = parse_cookie flag s (name ++ c ∷ [], pass) in
    if c == 0 then (name, pass) else if c == 61 then at_sign else if flag then to_pass else to_name

abbrev pub set_cookie : List ℕ → Request → Request
set_cookie value r =
    let (name, pass) = parse_cookie false value (r.username, r.password) in
    record r { is_set_cookie = false; username = name; password = pass }

-- A Content-Type with a parameter, which is entered under its own name; `none` is an exception.
unfoldable pub content_type : List ℕ → Dict → Option Dict
unfolding find_byte assign
content_type value d = elim (find_byte 59 0 value) [
  | none ↦ some (assign (codes "Content-Type") value d)
  | some sem ↦
      let d' = assign (codes "Content-Type") (take sem value) d in
      if ltb (length value) (sem + 2) then none else elim (find_byte 61 sem value) [
        | none ↦ some (assign (drop (sem + 2) value) value d')
        | some eq ↦
            let key =
              if ltb eq (sem + 2)
              then drop (sem + 2) value
              else take (eq - sem - 2) (drop (sem + 2) value) in
            some (assign key (drop (eq + 1) value) d')
      ]
]

-- ParseHeadLine_(Line) with the place of the colon; `none` is an exception.
unfoldable pub header_at : List ℕ → Option ℕ → Request → Option Request
unfolding stoi content_type parse_cookie assign
header_at line none r = some (record r { head_status = handle_error })
header_at line (some colon) r =
    let key = take colon line in
    let value = value_of colon line in
    if str_eq key (codes "Content-Length")
    then elim (stoi value) [ none ↦ none | some n ↦ some (record r { body_len = n }) ]
    else if str_eq key (codes "Content-Type")
    then elim (content_type value r.headers) [
      | none ↦ none
      | some d ↦ some (record r { headers = d })
    ]
    else if str_eq key (codes "Cookie")
    then some (set_cookie value r)
    else some (record r { headers = assign key value r.headers })

unfoldable pub parse_header : List ℕ → Request → Option Request
unfolding find_byte header_at
parse_header line r = header_at line (find_byte 58 0 line) r

abbrev pub unless_error : (Request → Option Request) → Option Request → Option Request
unless_error next none = none
unless_error next (some r) = if is_error r.head_status then some r else next r

-- A round of ParseHeadLine_() with the place of CRLF, before the rounds `next`.
unfoldable pub head_round : (Request → Option Request) → ℕ → Request → Option Request
unfolding parse_header
head_round next e r =
    let line = take (e + 2) r.recv in
    let r' = record r { recv = drop (e + 2) r.recv } in
    if e == length r.recv
    then some r
    else if str_eq line crlf
    then some (record r' { head_status = handle_body })
    else unless_error next (parse_header line r')

-- A line has two bytes at least, so the length is fuel enough.
unfoldable pub head_loop : ℕ → Request → Option Request
unfolding find head_round
head_loop zero r = some r
head_loop (suc k) r = head_round (head_loop k) (find crlf r.recv) r

unfoldable pub parse_head_lines : Request → Option Request
unfolding head_loop
parse_head_lines r = head_loop (length r.recv) r

unfoldable pub parse_body_line : Request → Request
unfolding form_loop
parse_body_line r = record r { msg_body = form_loop r.body false [] [] r.msg_body }

-- ParseUser_: `true` when the body is there.
unfoldable pub parse_user : Request → Bool × Request
unfolding parse_body_line
parse_user r =
    let mn = min r.body_len (length r.recv) in
    let r' = record r {
      body = r.body ++ take mn r.recv;
      recv = drop mn r.recv;
      body_len = r.body_len - mn;
    } in
    if r'.body_len == 0 then (true, parse_body_line r') else (false, r')
