-- ===== src/HttpRequest/Form.antt =====
-- httprequest.cpp: ParseBodyLine_ and ParseUser_, which the tracker's copy has too.
pub mod Pairs
use Prim.Native.Nat.{min}
use dfs_system.Base.{
  ℕ, ◌-◌, Bool, true, false, not, List, [], ◌∷◌, ◌++◌, if◌then◌else◌, ◌==◌, length, take, drop,
}
use dfs_system.HttpRequest.{Request, Dict, assign}

-- The last pair is entered unless it is empty.
abbrev pub last_pair : List ℕ → List ℕ → Dict → Dict
last_pair [] [] d = d
last_pair key value d = assign key value d

-- The loop of ParseBodyLine_; `flag` is false in a key and true in a value.
unfoldable pub form_loop : List ℕ → Bool → List ℕ → List ℕ → Dict → Dict
unfolding assign
form_loop [] flag key value d = last_pair key value d
form_loop (c ∷ s) flag key value d =
    let turned = form_loop s (not flag) key value d in
    let entered = form_loop s (not flag) [] [] (assign key value d) in
    let in_value = form_loop s flag key (value ++ c ∷ []) d in
    let in_key = form_loop s flag (key ++ c ∷ []) value d in
    if c == 61 then turned else if c == 38 then entered else if flag then in_value else in_key

unfoldable pub parse_body_line : Request → Request
unfolding form_loop
parse_body_line r = record r { msg_body = form_loop r.body false [] [] r.msg_body }

-- ParseUser_: `true` when the body is there.
unfoldable pub parse_user : Request → Bool × Request
unfolding parse_body_line
parse_user r =
    let mn = min r.body_len (length r.recv) in
    let r' = record r {
      body = r.body ++ take mn r.recv;
      recv = drop mn r.recv;
      body_len = r.body_len - mn;
    } in
    if r'.body_len == 0 then (true, parse_body_line r') else (false, r')
