-- ===== src/TrackerResponse/Tests.antt =====
-- Answers of a tracker with two storage nodes, and the witnesses of the theorems.
use dfs_system.Base.{
  ℕ, ◌≤◌, ◌≡◌, refl, false, List, [], ◌∷◌, ◌++◌, Option, none, some, leb→le, if◌then◌else◌, ◌==◌,
  length, drop, take, codes, str_eq,
}
use dfs_system.Status.{handle_init, handle_complete}
use dfs_system.HttpResponse.{state_line}
use dfs_system.StorageNode.Sending.{took, again}
use dfs_system.HttpRequest.{get}
use dfs_system.TrackerGroup.{Node, Tracker}
use dfs_system.TrackerRequest.{Request, public_page, version_other, unknown}
use dfs_system.TrackerResponse.{Surroundings, Response, init}
use dfs_system.TrackerResponse.Server.{public_answer, private_answer, update_server}
use dfs_system.TrackerResponse.Page.{start, parse, header, html_page}
use dfs_system.TrackerResponse.Sending.{process}
use dfs_system.TrackerResponse.Public.{public_answer-again}
use dfs_system.TrackerResponse.Private.{private_answer-nobody}
use dfs_system.TrackerResponse.Whole.{fresh, page_of, page_head, process-page}
use dfs_system.TrackerResponse.Leftover.{asking, holding, address_head, process-leftover}

abbrev world : Surroundings
world = record {
  texts = λ h. codes "<p>";
  md5 = λ s. s;
  cookie_out = 60;
  time_out = 30;
  ntop = λ ip. codes "10.0.0.1";
  rows = λ os o. codes "a.txt" ∷ [];
  hasher = length;
  now = 1000;
  msg_status = λ fd. handle_init;
}

abbrev node : ℕ → Node
node port = record {
  ip = 1;
  status = 4;
  group_name = codes "public";
  task_port = 1;
  http_port = port;
  total_size = 0;
  used_size = 0;
}

-- The descriptors 5 and 6 are active in the group "public".
abbrev tracker : Tracker
tracker = record {
  group = λ g. if str_eq g (codes "public") then 5 ∷ 6 ∷ [] else [];
  nodes = λ fd. if fd == 5 then some (node 80) else if fd == 6 then some (node 81) else none;
  ring = [];
  user_server = λ u. none;
  online = λ u. false;
  time_until = 0;
  flag = false;
}

abbrev first_text : List ℕ
first_text = codes "http://10.0.0.1:80"

abbrev text_in : Option (List ℕ × Tracker) → List ℕ
text_in none = []
text_in (some (text, t)) = text

abbrev behind : Option (List ℕ × Tracker) → Tracker
behind none = tracker
behind (some (text, t)) = t

abbrev after_one : Tracker
after_one = behind (public_answer world tracker)

abbrev after_two : Tracker
after_two = behind (public_answer world after_one)

public_run : text_in (public_answer world tracker) ≡ first_text
unfolding public_answer str_eq
public_run = refl

one_answer : public_answer world tracker ≡ some (first_text, after_one)
unfolding public_answer str_eq
one_answer = refl

two_answers : public_answer world after_one ≡ some (first_text, after_two)
unfolding public_answer str_eq
two_answers = refl

public_answer-again_example : (t : Tracker) × (public_answer world after_one ≡ some (first_text, t))
public_answer-again_example = public_answer-again world tracker after_one first_text one_answer

private_answer-nobody_example :
    (◌≡◌ {A = List ℕ} [] [])
    × ((if tracker.flag then update_server world (codes "public") tracker else some tracker)
        ≡ some tracker)
unfolding private_answer str_eq
private_answer-nobody_example =
    private_answer-nobody world (codes "public") [] tracker tracker (λ fd. refl) refl

abbrev request : Request
request = record {
  head_status = handle_complete;
  recv = [];
  body = [];
  msg_body = [];
  body_len = 0;
  login_status = unknown;
  method = get;
  path = public_page;
  version = version_other;
  is_set_cookie = false;
  code = 200;
  username = [];
  password = [];
  group_name = [];
  headers = [];
  orders = [];
}

abbrev idle : Response
idle = record { status = handle_complete; before = []; body = []; body_len = 0; has_sent = 0 }

process-page_example :
    (value : ℕ) × (wire : List ℕ) × (q : Response) × (r : Request) × (process world
        (took 20 ∷ again ∷ [])
        request
        tracker
        (fresh idle)
      ≡ some ((value, wire, q), r, tracker))
    × (wire ++ (q.before ++ q.body) ≡ page_head world request ++ page_of world request)
    × (value ≡ 0 → wire ≡ page_head world request ++ page_of world request)
process-page_example = process-page world (took 20 ∷ again ∷ []) request tracker idle refl

head_size : length (page_head world request) ≤ 4096
unfolding page_head state_line header parse html_page
head_size = leb→le (length (page_head world request)) 4096 refl

page_size : length (page_of world request) ≤ 4096
unfolding page_of parse html_page
page_size = leb→le (length (page_of world request)) 4096 refl

address_size : length (address_head world request first_text) ≤ 4096
unfolding address_head state_line header parse
address_size = leb→le (length (address_head world request first_text)) 4096 refl

process-leftover_example :
    (q q' : Response) × (process world
        (took 4096 ∷ took 7 ∷ [])
        (asking request)
        tracker
        (holding [] idle)
      ≡ some (
        (0, address_head world request first_text ++ take 7 first_text, q),
        parse (asking request),
        after_one,
      ))
    × (start world (asking request) after_one (init q)
        ≡ some (parse (asking request), after_two, q'))
    × (q'.body ≡ drop 7 first_text ++ first_text)
process-leftover_example =
    process-leftover world 4096 7 [] request request tracker after_one after_two idle first_text
      first_text one_answer two_answers address_size
