-- ===== src/TrackerResponse/Page.antt =====
-- httpresponse.cpp of the tracker: the line, the headers and the pages.
use dfs_system.Base.{
  ℕ, Bool, true, false, List, [], ◌∷◌, ◌++◌, Option, none, some, if◌then◌else◌, ◌==◌, length, take,
  codes,
}
use dfs_system.Wire.{decimal}
use dfs_system.Status.{handle_head}
use dfs_system.HttpResponse.{state_line, status_of}
use dfs_system.TrackerGroup.{Tracker}
use dfs_system.TrackerRequest.{
  Request, Page, root, public_page, private_page, login, register, logout, welcome, name_error,
  password_error, public_server, private_server, other_page,
}
use dfs_system.TrackerRequest.Verify.{query}
use dfs_system.TrackerResponse.{
  Html, html_404, html_head, html_head_in, html_index, html_login, html_logout, html_namerr,
  html_pwderr, html_public, html_private, html_register, html_title, html_welcome, html_listend,
  html_htmlend, html_jsend, html_publicjs, html_privatejs, Surroundings, Response,
}
use dfs_system.TrackerResponse.Server.{public_answer, private_answer}

-- HTML_RESOURCE: the page of logging out is the title, and html_jsend is missing.
unfoldable pub resource : Html → Option Html
resource html_logout = some html_title
resource html_jsend = none
resource h = some h

abbrev pub text_of : Surroundings → Option Html → List ℕ
text_of env none = []
text_of env (some h) = env.texts h ++ codes "\n"

-- AddFileStream_.
unfoldable pub file_stream : Surroundings → Html → List ℕ
unfolding resource
file_stream env h = text_of env (resource h)

abbrev pub is_logout : Page → Bool
is_logout logout = true
is_logout _ = false

-- Parse_, and what AddStateLine_ makes of the code.
unfoldable pub parse : Request → Request
unfolding status_of
parse r =
    let code = if is_logout r.path then 302 else r.code in record r { code = (status_of code).0 }

abbrev pub location : Page → List ℕ
location logout = codes "Location: /\r\n"
location public_page = codes "Location: /public\r\n"
location private_page = codes "Location: /private\r\n"
location _ = []

unfoldable pub cookie_line : Surroundings → Request → List ℕ
unfolding decimal
cookie_line env r =
    codes "Set-Cookie: "
    ++ env.md5 r.username
    ++ codes "="
    ++ r.password
    ++ codes "; Max-Age="
    ++ (if is_logout r.path then codes "0" else decimal env.cookie_out)
    ++ codes "\r\n"

-- AddHeader_.
unfoldable pub header : Surroundings → Request → List ℕ
unfolding cookie_line
header env r =
    codes "Content-Type: text/html\r\n"
    ++ codes "Connection: keep-alive\r\n"
    ++ (if r.code == 302 then location r.path else [])
    ++ (if r.is_set_cookie then cookie_line env r else [])

-- Three words of the pages, in UTF-8: to sign out, to download, to delete.
abbrev pub sign_out : List ℕ
sign_out = 231 ∷ 153 ∷ 187 ∷ 229 ∷ 135 ∷ 186 ∷ []

abbrev pub to_download : List ℕ
to_download = 228 ∷ 184 ∷ 139 ∷ 232 ∷ 189 ∷ 189 ∷ []

abbrev pub to_delete : List ℕ
to_delete = 229 ∷ 136 ∷ 160 ∷ 233 ∷ 153 ∷ 164 ∷ []

unfoldable pub user_bar : List ℕ → List ℕ
user_bar name =
    codes "        <div class=\"User\"><ul><li><a class=\"navigation\" href=\"/private\">"
    ++ name
    ++ codes "</a></li><li><a class=\"navigation\" href=\"/logout\">"
    ++ sign_out
    ++ codes "</a></li></ul></div></div>"

unfoldable pub file_row : List ℕ → List ℕ
file_row name =
    codes " <tr><td>"
    ++ name
    ++ codes "</td> <td> <a href=\"#\" onclick=\"DownLoad('"
    ++ name
    ++ codes "')\">"
    ++ to_download
    ++ codes "</a>"
    ++ codes "</td><td> <a href=\"#\" onclick=\"Delete('"
    ++ name
    ++ codes "')\">"
    ++ to_delete
    ++ codes "</a> </td> </tr>\n"

unfoldable pub file_rows : List (List ℕ) → List ℕ
unfolding file_row
file_rows [] = []
file_rows (name ∷ names) = file_row name ++ file_rows names

unfoldable pub select_public : List ℕ
select_public = codes "SELECT filename FROM public"

unfoldable pub select_private : List ℕ → List ℕ
select_private user =
    take 255 (codes "SELECT filename FROM private WHERE username = '" ++ user ++ codes "'")

-- GetFileListPage_ behind the order for the files.
unfoldable pub list_page : Surroundings → Html → Html → List ℕ → Request → List ℕ × Request
unfolding file_stream file_rows
list_page env page script order r = (
  file_stream env page
      ++ file_rows (env.rows r.orders order)
      ++ file_stream env html_listend
      ++ file_stream env script
      ++ file_stream env html_htmlend,
  query order r,
)

-- A visitor who is not logged in sees the page of logging in for the private files.
abbrev pub page_for : List ℕ → Page → Page
page_for [] private_page = login
page_for _ page = page

unfoldable pub page_body : Surroundings → Request → Page → List ℕ × Request
unfolding list_page select_public select_private file_stream
page_body env r root = (file_stream env html_index, r)
page_body env r public_page = list_page env html_public html_publicjs select_public r
page_body env r private_page =
    list_page env html_private html_privatejs (select_private r.username) r
page_body env r login = (file_stream env html_login, r)
page_body env r register = (file_stream env html_register, r)
page_body env r logout = (file_stream env html_404, r)
page_body env r welcome = (file_stream env html_welcome, r)
page_body env r name_error = (file_stream env html_namerr, r)
page_body env r password_error = (file_stream env html_pwderr, r)
page_body env r public_server = (file_stream env html_404, r)
page_body env r private_server = (file_stream env html_404, r)
page_body env r other_page = (file_stream env html_404, r)

unfoldable pub page_top : Surroundings → List ℕ → List ℕ
unfolding file_stream user_bar
page_top env [] = file_stream env html_title ++ file_stream env html_head
page_top env (c ∷ name) =
    file_stream env html_title ++ file_stream env html_head_in ++ user_bar (c ∷ name)

abbrev pub put_before : List ℕ → List ℕ × Request → List ℕ × Request
put_before s (t, r) = (s ++ t, r)

-- GetHtmlPage_.
unfoldable pub html_page : Surroundings → Request → List ℕ × Request
unfolding page_top page_body
html_page env r =
    put_before (page_top env r.username)
      (page_body env (record r { path = page_for r.username r.path }) (page_for r.username r.path))

-- AddContent_ for a page: what is left in BodyMsg is dropped.
unfoldable pub with_page : List ℕ × Request → Tracker → Response → Request × Tracker × Response
unfolding decimal
with_page (page, r) t p = (
  r,
  t,
  record p {
    before = p.before ++ codes "Content-length: " ++ decimal (length page) ++ codes "\r\n\r\n";
    body = page;
    body_len = length page;
    status = handle_head;
  },
)

-- AddContent_ for an address, which comes behind what is left in BodyMsg; BodyMsgLen stays.
unfoldable pub with_address :
    Option (List ℕ × Tracker) → Request → Response → Option (Request × Tracker × Response)
unfolding decimal
with_address none r p = none
with_address (some (text, t)) r p = some (
  r,
  t,
  record p {
    before =
        p.before
        ++ codes "Content-length: "
        ++ decimal (length (p.body ++ text))
        ++ codes "\r\n\r\n";
    body = p.body ++ text;
    status = handle_head;
  },
)

unfoldable pub content :
    Surroundings → Page → Request → Tracker → Response → Option (Request × Tracker × Response)
unfolding html_page with_page with_address public_answer private_answer
content env public_server r t p = with_address (public_answer env t) r p
content env private_server r t p = with_address (private_answer env r.username t) r p
content env _ r t p = some (with_page (html_page env r) t p)

-- What process does in HANDLE_INIT; `none` is a null pointer.
unfoldable pub start :
    Surroundings → Request → Tracker → Response → Option (Request × Tracker × Response)
unfolding parse state_line header content
start env r t p =
    let r' = parse r in
    content env r'.path r' t (record p { before = p.before ++ state_line r'.code ++ header env r' })
