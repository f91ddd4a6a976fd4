-- ===== src/TrackerResponse/Leftover.antt =====
-- httpresponse.cpp of the tracker: the answers with an address leave BodyMsgLen at 0.
use Prim.Native.Nat.{min}
use dfs_system.Base.{
  ℕ, ◌+◌, ◌≤◌, ◌≡◌, refl, ap, ◌∙◌, true, List, [], ◌∷◌, ◌++◌, Option, some, arith, leb, ◌==◌,
  length, length-drop, take, drop, take-eq_self, nil_of_length, codes,
}
use dfs_system.Wire.{decimal}
use dfs_system.Status.{handle_init, handle_body, handle_complete, handle_head}
use dfs_system.HttpResponse.{state_line}
use dfs_system.StorageNode.Sending.{Answer, took}
use dfs_system.TrackerGroup.{Tracker}
use dfs_system.TrackerRequest.{Request, public_server}
use dfs_system.TrackerResponse.{Surroundings, Response, init}
use dfs_system.TrackerResponse.Server.{public_answer}
use dfs_system.TrackerResponse.Page.{parse, header, content, with_address, start}
use dfs_system.TrackerResponse.Sending.{
  Outcome, after_bytes, send_body, send_head, and_send, process,
}

-- A request for the node of the public files, and an answer that begins with `rest` still unsent.
abbrev pub asking : Request → Request
asking r = record r { path = public_server }

abbrev pub holding : List ℕ → Response → Response
holding rest p = record p {
  status = handle_init;
  before = [];
  body = rest;
  has_sent = 0;
  body_len = 0;
}

unfoldable pub address_head : Surroundings → Request → List ℕ → List ℕ
address_head env r body =
    state_line (parse (asking r)).code
    ++ header env (parse (asking r))
    ++ codes "Content-length: "
    ++ decimal (length body)
    ++ codes "\r\n\r\n"

start-address :
    (env : Surroundings) (r : Request) (t t' : Tracker) (p : Response) (rest text : List ℕ)
    → public_answer env t ≡ some (text, t')
    → start env (asking r) t (holding rest p)
      ≡ some (
        parse (asking r),
        t',
        record (holding (rest ++ text) p) {
          before = address_head env r (rest ++ text);
          status = handle_head;
        },
      )
unfolding start content with_address address_head parse
start-address env r t t' p rest text e =
    ap
      (λ (o : Option (List ℕ × Tracker)).
        with_address o (parse (asking r)) (record (holding rest p) {
          before = state_line (parse (asking r)).code ++ header env (parse (asking r));
        }))
      e

send_body-first :
    (m : ℕ) (answers : List Answer) (p : Response)
    → p.body_len ≡ 0
    → send_body (took m ∷ answers) p ≡ (
      0,
      take m p.body,
      record p {
        status = handle_complete;
        body = drop m p.body;
        has_sent = p.has_sent + min m (length p.body);
      },
    )
unfolding send_body
send_body-first m answers p z =
    let all : leb p.body_len (p.has_sent + min m (length p.body)) ≡ true = ground (arith, z) in
    rw all refl

-- When the socket takes the head of an answer to /get_public_server in one write, and of the body
-- the first m bytes in the next, process returns 0, as if the answer were complete. The head gives
-- the length of the whole body, and what is left of it stays in BodyMsg, in front of the address that
-- the next request of the connection for the node is answered with.
pub process-leftover :
    (env : Surroundings) (k m : ℕ) (answers : List Answer) (r next : Request) (t t' t'' : Tracker)
    (p : Response) (text text' : List ℕ)
    → public_answer env t ≡ some (text, t')
    → public_answer env t' ≡ some (text', t'')
    → length (address_head env r text) ≤ k
    → (q q' : Response) × (process env (took k ∷ took m ∷ answers) (asking r) t (holding [] p)
        ≡ some ((0, address_head env r text ++ take m text, q), parse (asking r), t'))
      × (start env (asking next) t' (init q) ≡ some (parse (asking next), t'', q'))
      × (q'.body ≡ drop m text ++ text')
unfolding process send_head init
process-leftover env k m answers r next t t' t'' p text text' e e' a =
    let head = address_head env r text in
    let on : Response = record (holding text p) { before = drop k head; status = handle_body } in
    let z : length (drop k head) ≡ 0 = omega (arith, a, length-drop k head) in
    let gone : (length (drop k head) == 0) ≡ true = ground (arith, z) in
    let q : Response = record on {
      before = [];
      status = handle_complete;
      body = drop m text;
      has_sent = 0 + min m (length text);
    } in
    (
      q,
      record (holding (drop m text ++ text') p) {
        before = address_head env next (drop m text ++ text');
        status = handle_head;
      },
      ap (and_send (took k ∷ took m ∷ answers)) (start-address env r t t' p [] text e)
          ∙ rw (gone, take-eq_self k head a)
              (ap (λ (o : Outcome). some (after_bytes head o, parse (asking r), t'))
                  (send_body-first m answers on refl)
                ∙ rw (nil_of_length (drop k head) z) refl),
      start-address env next t' t'' (init q) (drop m text) text' e',
      refl,
    )
