-- ===== src/TrackerRequest/Form.antt =====
-- httprequest.cpp of the tracker: logging in by a form, and requests that are never answered.
use dfs_system.Base.{ℕ, ◌<◌, false, List, [], ◌∷◌, ◌++◌, arith, length, codes}
use dfs_system.Status.{handle_body}
use dfs_system.HttpRequest.{Dict, post}
use dfs_system.HttpRequest.Form.Pairs.{IsPlain, IsForm}
use dfs_system.HttpRequest.Process.{Receipt, received}
use dfs_system.TrackerRequest.{Request, unknown}

-- The name and the password of a form.
abbrev pub credentials : List ℕ → List ℕ → Dict
credentials name pass = (codes "username", name) ∷ (codes "password", pass) ∷ []

-- A request without a cookie whose head is read: `body` is there, `n` bytes are to come.
abbrev pub waiting : List ℕ → ℕ → Request → Request
waiting body n r = record r {
  head_status = handle_body;
  method = post;
  recv = [];
  body = body;
  body_len = n;
  msg_body = [];
  is_set_cookie = false;
  username = [];
  password = [];
  login_status = unknown;
}

pub credentials-IsForm :
    (name pass : List ℕ) → IsPlain name → IsPlain pass → IsForm (credentials name pass)
credentials-IsForm name pass hn hp =
    (omega arith, ground arith, hn, (omega arith, ground arith, hp, tt))

-- Receipts of the pieces, before others, and the pieces behind a text.
unfoldable pub received_all : List (List ℕ) → List Receipt → List Receipt
received_all [] receipts = receipts
received_all (s ∷ pieces) receipts = received s ∷ received_all pieces receipts

unfoldable pub followed_by : List ℕ → List (List ℕ) → List ℕ
followed_by body [] = body
followed_by body (s ∷ pieces) = followed_by (body ++ s) pieces

abbrev pub AreSome : List (List ℕ) → Type 0
AreSome [] = Unit
AreSome (s ∷ pieces) = (0 < length s) × AreSome pieces
