-- ===== src/TrackerResponse/Whole.antt =====
-- httpresponse.cpp of the tracker: a page goes out as it was made, with its length in front.
use Prim.Native.Nat.{min}
use mathlib.Core.List.{append_assoc}
use dfs_system.Base.{
  ℕ, ◌+◌, ◌≤◌, ◌≡◌, refl, sym, ap, subst, ◌∙◌, Bool, true, false, List, [], ◌∷◌, ◌++◌, some, arith,
  leb, ◌==◌, length, length-drop, take, drop, take-append-drop, take-eq_self, Bool-cases,
  Bool-contra, nil_of_length, inl, inr, codes,
}
use dfs_system.Wire.{decimal}
use dfs_system.Status.{handle_init, handle_head, handle_body, handle_complete}
use dfs_system.HttpResponse.{state_line}
use dfs_system.StorageNode.Sending.{Answer, took, again, failed}
use dfs_system.TrackerGroup.{Tracker}
use dfs_system.TrackerRequest.{
  Request, Page, root, public_page, private_page, login, register, logout, welcome, name_error,
  password_error, public_server, private_server, other_page,
}
use dfs_system.TrackerResponse.{Surroundings, Response}
use dfs_system.TrackerResponse.Page.{parse, header, html_page, with_page, content, start}
use dfs_system.TrackerResponse.Sending.{
  Outcome, after_bytes, send_body, send_head, and_send, process,
}

-- What has gone out and what is left are the message, and value 0 means that nothing is left.
abbrev IsSent : List ℕ → Outcome → Type 0
IsSent message (value, wire, q) =
    (wire ++ (q.before ++ q.body) ≡ message) × (value ≡ 0 → wire ≡ message)

IsSent-after : (s t : List ℕ) (o : Outcome) → IsSent t o → IsSent (s ++ t) (after_bytes s o)
IsSent-after s t (value, wire, q) (e, z) = (
  append_assoc s wire (q.before ++ q.body) ∙ ap (λ (x : List ℕ). s ++ x) e,
  λ v. ap (λ (x : List ℕ). s ++ x) (z v),
)

send_body-IsSent :
    (answers : List Answer) (p : Response)
    → p.before ≡ []
    → p.body_len ≡ p.has_sent + length p.body
    → IsSent p.body (send_body answers p)
unfolding send_body
send_body-IsSent [] p b l = (ap (λ (x : List ℕ). x ++ p.body) b, λ v. absurd (omega (arith, v)))
send_body-IsSent (again ∷ answers) p b l =
    (ap (λ (x : List ℕ). x ++ p.body) b, λ v. absurd (omega (arith, v)))
send_body-IsSent (failed ∷ answers) p b l =
    (ap (λ (x : List ℕ). x ++ p.body) b, λ v. absurd (omega (arith, v)))
send_body-IsSent (took m ∷ answers) p b l =
    let sent : Response = record p {
      body = drop m p.body;
      has_sent = p.has_sent + min m (length p.body);
    } in
    let parts = take-append-drop m p.body in
    elim (Bool-cases (leb p.body_len sent.has_sent)) [
      | inl f ↦
          let all : length p.body ≤ m = ground (arith, f, l) in
          rw f (
            ap (λ (x : List ℕ). take m p.body ++ (x ++ drop m p.body)) b ∙ parts,
            λ v. take-eq_self m p.body all,
          )
      | inr f ↦ rw f (
          subst (λ (x : List ℕ). IsSent x (after_bytes (take m p.body) (send_body answers sent)))
            parts
            (IsSent-after (take m p.body) (drop m p.body) (send_body answers sent)
              (send_body-IsSent answers sent b (omega (arith, l, length-drop m p.body)))))
    ]

send_head-IsSent :
    (answers : List Answer) (p : Response)
    → p.body_len ≡ p.has_sent + length p.body
    → IsSent (p.before ++ p.body) (send_head answers p)
unfolding send_head
send_head-IsSent [] p l = (refl, λ v. absurd (omega (arith, v)))
send_head-IsSent (again ∷ answers) p l = (refl, λ v. absurd (omega (arith, v)))
send_head-IsSent (failed ∷ answers) p l = (refl, λ v. absurd (omega (arith, v)))
send_head-IsSent (took m ∷ answers) p l =
    let left : Response = record p { before = drop m p.before } in
    let parts =
      sym (append_assoc (take m p.before) (drop m p.before) p.body)
      ∙ ap (λ (x : List ℕ). x ++ p.body) (take-append-drop m p.before) in
    elim (Bool-cases (length left.before == 0)) [
      | inl f ↦
          let z : length (drop m p.before) ≡ 0 = ground (arith, f) in
          let all : take m p.before ≡ p.before =
            take-eq_self m p.before (omega (arith, z, length-drop m p.before)) in
          let on : Response = record left { status = handle_body } in
          rw f (
            subst
              (λ (x : List ℕ).
                IsSent (x ++ p.body) (after_bytes (take m p.before) (send_body answers on)))
              all
              (IsSent-after (take m p.before) p.body (send_body answers on)
                (send_body-IsSent answers on (nil_of_length (drop m p.before) z) l)))
      | inr f ↦ rw f (
          subst (λ (x : List ℕ). IsSent x (after_bytes (take m p.before) (send_head answers left)))
            parts
            (IsSent-after (take m p.before) (drop m p.before ++ p.body) (send_head answers left)
              (send_head-IsSent answers left l)))
    ]

abbrev pub is_server : Page → Bool
is_server public_server = true
is_server private_server = true
is_server _ = false

-- The answer to a request for a page: its head, and the page.
unfoldable pub page_of : Surroundings → Request → List ℕ
page_of env r = (html_page env (parse r)).0

unfoldable pub page_head : Surroundings → Request → List ℕ
unfolding page_of
page_head env r =
    state_line (parse r).code
    ++ header env (parse r)
    ++ codes "Content-length: "
    ++ decimal (length (page_of env r))
    ++ codes "\r\n\r\n"

content-page :
    (env : Surroundings) (path : Page) (r : Request) (t : Tracker) (p : Response)
    → is_server path ≡ false
    → content env path r t p ≡ some (with_page (html_page env r) t p)
unfolding content
content-page env root r t p s = refl
content-page env public_page r t p s = refl
content-page env private_page r t p s = refl
content-page env login r t p s = refl
content-page env register r t p s = refl
content-page env logout r t p s = refl
content-page env welcome r t p s = refl
content-page env name_error r t p s = refl
content-page env password_error r t p s = refl
content-page env public_server r t p s = Bool-contra true refl s
content-page env private_server r t p s = Bool-contra true refl s
content-page env other_page r t p s = refl

-- The state in which an answer begins: nothing waits to be sent.
abbrev pub fresh : Response → Response
fresh p = record p { status = handle_init; before = []; has_sent = 0; body_len = 0 }

abbrev pub made : Surroundings → Request → Response → Response
made env r p = record (fresh p) {
  before = page_head env r;
  body = page_of env r;
  body_len = length (page_of env r);
  status = handle_head;
}

start-page :
    (env : Surroundings) (r : Request) (t : Tracker) (p : Response)
    → is_server r.path ≡ false
    → start env r t (fresh p) ≡ some ((html_page env (parse r)).1, t, made env r p)
unfolding start parse with_page page_head page_of
start-page env r t p s =
    content-page env r.path (parse r) t
      (record (fresh p) { before = state_line (parse r).code ++ header env (parse r) }) s

-- Whatever the kernel answers to the writes of an answer with a page, what has gone out and what is
-- left to send are together the head, with the length of the page in it, and the page; and process
-- returns 0 only when all of it has gone out.
pub process-page :
    (env : Surroundings) (answers : List Answer) (r : Request) (t : Tracker) (p : Response)
    → is_server r.path ≡ false
    → (value : ℕ) × (wire : List ℕ) × (q : Response) × (r' : Request) × (process env answers r t
          (fresh p)
        ≡ some ((value, wire, q), r', t))
      × (wire ++ (q.before ++ q.body) ≡ page_head env r ++ page_of env r)
      × (value ≡ 0 → wire ≡ page_head env r ++ page_of env r)
unfolding process
process-page env answers r t p s =
    let sent = send_head-IsSent answers (made env r p) (omega arith) in
    let (value, wire, q) = send_head answers (made env r p) in
    (
      value,
      wire,
      q,
      (html_page env (parse r)).1,
      ap (and_send answers) (start-page env r t p s),
      sent.0,
      sent.1,
    )

send_body-at_once :
    (n : ℕ) (answers : List Answer) (p : Response)
    → length p.body ≤ n
    → p.body_len ≤ p.has_sent + length p.body
    → (q : Response) × (send_body (took n ∷ answers) p ≡ (0, p.body, q))
unfolding send_body
send_body-at_once n answers p a l =
    let all : leb p.body_len (p.has_sent + min n (length p.body)) ≡ true = ground (arith, a, l) in
    let w = take-eq_self n p.body a in
    let q : Response = record p {
      status = handle_complete;
      body = drop n p.body;
      has_sent = p.has_sent + min n (length p.body);
    } in
    (q, rw (all, w) refl)

-- Where the socket takes the head of an answer with a page in one write and the page in another,
-- process returns 0 at once, and both have gone out.
pub process-page_at_once :
    (env : Surroundings) (m n : ℕ) (answers : List Answer) (r : Request) (t : Tracker)
    (p : Response)
    → is_server r.path ≡ false
    → length (page_head env r) ≤ m
    → length (page_of env r) ≤ n
    → (q : Response) × (r' : Request) × (process env (took m ∷ took n ∷ answers) r t (fresh p)
        ≡ some ((0, page_head env r ++ page_of env r, q), r', t))
unfolding process send_head
process-page_at_once env m n answers r t p s a b =
    let on : Response = record (made env r p) {
      before = drop m (page_head env r);
      status = handle_body;
    } in
    let (q, e) = send_body-at_once n answers on b (omega arith) in
    let gone : (length (drop m (page_head env r)) == 0) ≡ true =
      ground (arith, a, length-drop m (page_head env r)) in
    (
      q,
      (html_page env (parse r)).1,
      ap (and_send (took m ∷ took n ∷ answers)) (start-page env r t p s)
          ∙ rw (gone, take-eq_self m (page_head env r) a)
              (ap
                (λ (o : Outcome).
                  some (after_bytes (page_head env r) o, (html_page env (parse r)).1, t))
                e),
    )
