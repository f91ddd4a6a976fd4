-- ===== src/TrackerRequest/Cookies.antt =====
-- httprequest.cpp of the tracker: the header of a cookie, also behind the verification.
use mathlib.Core.List.{append_assoc, append-nil}
use dfs_system.Base.{
  ℕ, suc, ◌+◌, ◌-◌, ◌≡◌, ◌<◌, refl, ap, subst, ◌∙◌, false, List, [], ◌∷◌, ◌++◌, Option, some, arith,
  ltb, ◌==◌, length, length-append, take, drop, take-append_left, drop-append_left, codes, str_eq,
}
use dfs_system.Status.{handle_head, handle_body, handle_complete}
use dfs_system.FileBody.{find, crlf}
use dfs_system.FileBody.Split.{NoCr, find-append}
use dfs_system.HttpRequest.{get, find_byte}
use dfs_system.HttpRequest.Header.{value_of}
use dfs_system.HttpRequest.Process.{Receipt, received}
use dfs_system.TrackerRequest.{Request, logged_in}
use dfs_system.TrackerRequest.Parse.{
  parse_cookie, set_cookie, header_at, parse_header, unless_error, head_round, head_loop,
}
use dfs_system.TrackerRequest.Verify.{Surroundings, process, take_turn, after_heads}

-- Without NUL, '=' and CR.
abbrev pub IsName : List ℕ → Type 0
IsName [] = Unit
IsName (c ∷ s) = ((c == 0) ≡ false) × ((c == 61) ≡ false) × ((c == 13) ≡ false) × IsName s

IsName-NoCr : (w : List ℕ) → IsName w → NoCr w
IsName-NoCr [] h = tt
IsName-NoCr (c ∷ w) h = ((λ e. ground (arith, h.2, e)), IsName-NoCr w h.3)

parse_cookie-name :
    (w name pass : List ℕ) → IsName w → parse_cookie false w (name, pass) ≡ (name ++ w, pass)
unfolding parse_cookie
parse_cookie-name [] name pass h = rw (append-nil name) refl
parse_cookie-name (c ∷ w) name pass h =
    rw (h.0, h.1)
      (parse_cookie-name w (name ++ c ∷ []) pass h.3 ∙ rw (append_assoc name (c ∷ []) w) refl)

abbrev cookie_text : List ℕ → List ℕ
cookie_text w = codes "Cookie: " ++ w

value_of-cookie : (w : List ℕ) → value_of 6 (cookie_text w ++ crlf) ≡ w
value_of-cookie w =
    let n = length-append w crlf in
    let l : ltb (length (cookie_text w ++ crlf)) 10 ≡ false = ground (arith, n) in
    let m : length (cookie_text w ++ crlf) - 8 - 2 ≡ length w = omega (arith, n) in
    rw (l, m) (take-append_left w crlf)

colon_in-cookie : (w : List ℕ) → find_byte 58 0 (cookie_text w ++ crlf) ≡ some 6
unfolding find_byte find str_eq
colon_in-cookie w =
    let f : (6 == length (cookie_text w ++ crlf)) ≡ false = ground (arith, length-append w crlf) in
    rw f refl

parse_header-cookie :
    (w : List ℕ) (r : Request) → parse_header (cookie_text w ++ crlf) r ≡ some (set_cookie w r)
unfolding parse_header str_eq
parse_header-cookie w r =
    ap (λ (c : Option ℕ). header_at (cookie_text w ++ crlf) c r) (colon_in-cookie w)
    ∙ ap (λ (v : List ℕ). some (set_cookie v r)) (value_of-cookie w)

cookie_text-NoCr : (w : List ℕ) → IsName w → NoCr (cookie_text w)
cookie_text-NoCr w h = (
  ground arith,
  (
    ground arith,
    (
      ground arith,
      (
        ground arith,
        (ground arith, (ground arith, (ground arith, (ground arith, IsName-NoCr w h)))),
      ),
    ),
  ),
)

-- The end of the cookie's line, behind which the head ends.
cookie_end :
    (w : List ℕ) → IsName w → find crlf ((cookie_text w ++ crlf) ++ crlf) ≡ length (cookie_text w)
unfolding find str_eq
cookie_end w h =
    ap (find crlf) (append_assoc (cookie_text w) crlf crlf)
    ∙ find-append (cookie_text w) (crlf ++ crlf) (cookie_text-NoCr w h)
    ∙ omega arith

no_end : (t : List ℕ) → NoCr t → 0 < length t → str_eq (t ++ crlf) crlf ≡ false
unfolding str_eq
no_end [] h p = absurd (omega (arith, p))
no_end (c ∷ t) h p = let no : (c == 13) ≡ false = ground (arith, h.0) in rw no refl

-- A round over a line that is not empty.
head_round-line :
    (next : Request → Option Request) (t rest : List ℕ) (r : Request)
    → NoCr t
    → 0 < length t
    → head_round next (length t) (record r { recv = (t ++ crlf) ++ rest })
      ≡ unless_error next (parse_header (t ++ crlf) (record r { recv = rest }))
unfolding head_round
head_round-line next t rest r h p =
    let n = length-append t crlf in
    let m = length-append (t ++ crlf) rest in
    let e : length (t ++ crlf) ≡ length t + 2 = omega (arith, n) in
    let z : (length t == length ((t ++ crlf) ++ rest)) ≡ false = ground (arith, n, m) in
    let a : take (length t + 2) ((t ++ crlf) ++ rest) ≡ t ++ crlf =
      subst (λ (i : ℕ). take i ((t ++ crlf) ++ rest) ≡ t ++ crlf) e
        (take-append_left (t ++ crlf) rest) in
    let b : drop (length t + 2) ((t ++ crlf) ++ rest) ≡ rest =
      subst (λ (i : ℕ). drop i ((t ++ crlf) ++ rest) ≡ rest) e
        (drop-append_left (t ++ crlf) rest) in
    rw (z, a, b, no_end t h p) refl

head_end :
    (k : ℕ) (r : Request)
    → head_loop (suc k) (record r { recv = crlf })
      ≡ some (record r { head_status = handle_body; recv = [] })
unfolding head_loop find head_round str_eq
head_end k r = refl

unless_error_lem :
    (next : Request → Option Request) (r : Request)
    → r.head_status ≡ handle_head
    → unless_error next (some r) ≡ next r
unless_error_lem next r s = rw s refl

head_loop-cookie :
    (k : ℕ) (w : List ℕ) (r : Request)
    → IsName w
    → r.head_status ≡ handle_head
    → head_loop (suc (suc k)) (record r { recv = (cookie_text w ++ crlf) ++ crlf })
      ≡ some (record (set_cookie w r) { head_status = handle_body; recv = [] })
unfolding head_loop
head_loop-cookie k w r h s =
    let t = cookie_text w in
    let q : Request = record r { recv = (t ++ crlf) ++ crlf } in
    let next = head_loop (suc k) in
    ap (λ (i : ℕ). head_round next i q) (cookie_end w h)
    ∙ head_round-line next t crlf r (cookie_text-NoCr w h) (omega arith)
    ∙ ap (unless_error next) (parse_header-cookie w (record r { recv = crlf }))
    ∙ unless_error_lem next (set_cookie w (record r { recv = crlf })) s
    ∙ head_end k (set_cookie w r)

-- A GET request of a user who is logged in, whose head is still being read.
abbrev pub reading : Request → Request
reading r = record r {
  head_status = handle_head;
  recv = [];
  login_status = logged_in;
  method = get;
}

-- When, for such a request, the next receipt has another line of a cookie and ends the head, its
-- bytes, none of them NUL, '=' or CR, are put behind the user's name. The name is not verified again:
-- process returns 0, and the answer is made for the longer name, with the login and the group of the
-- user who was verified.
pub process-late_cookie :
    (env : Surroundings) (w : List ℕ) (r : Request) (receipts : List Receipt)
    → IsName w
    → process env (received (((codes "Cookie: " ++ w) ++ crlf) ++ crlf) ∷ receipts) (reading r)
      ≡ some (
        0,
        record (reading r) {
          username = r.username ++ w;
          is_set_cookie = false;
          head_status = handle_complete;
        },
      )
unfolding process
process-late_cookie env w r receipts h =
    let s = (cookie_text w ++ crlf) ++ crlf in
    let k = suc (suc (suc (suc (suc (suc (length ((w ++ crlf) ++ crlf))))))) in
    ap (λ (o : Option Request). take_turn (process env receipts) (after_heads env o))
      (head_loop-cookie k w (reading r) h refl)
    ∙ ap
        (λ (u : List ℕ × List ℕ). some (
          0,
          record (reading r) {
            username = u.0;
            password = u.1;
            is_set_cookie = false;
            head_status = handle_complete;
          },
        ))
        (parse_cookie-name w r.username r.password h)
