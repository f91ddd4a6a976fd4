-- ===== src/TrackerNode/Joining.antt =====
-- trackernode.cpp and the tracker's storagenode.cpp: the tracker reads what the storage node wrote.
use mathlib.Core.List.{append-nil}
use dfs_system.Base.{
  ℕ, ◌<◌, ◌≤◌, ◌≡◌, refl, sym, ap, ◌∙◌, true, false, List, [], ◌∷◌, ◌++◌, some, codes, arith, leb,
  ◌==◌, length, str_eq,
}
use dfs_system.Wire.{read_word, read_number, decimal, take_word, take_digits, is_digit, skip_spaces}
use dfs_system.Wire.Words.{IsWord, read_word-append, read_word-next}
use dfs_system.Wire.Decimal.{read_number-next, read_number-end, skip_spaces-number}
use dfs_system.TrackerNode.{Settings, new_fields, user_fields}
use dfs_system.TrackerGroup.{
  Node, Tracker, extract_word, fitted, extracted, extract_number, read_new, wait_sync, deal_chg,
  user_changed,
}

extracted-digit :
    (most old n c : ℕ) (rest after : List ℕ) (xs : List ℕ)
    → xs ≡ c ∷ rest
    → is_digit c ≡ true
    → take_digits 0 xs ≡ (n, after)
    → n ≤ most
    → extracted most old xs ≡ (n, some after)
extracted-digit most old n c rest after xs e d r h =
    let fits : leb n most ≡ true = ground arith in
    let found : fitted most (take_digits 0 (c ∷ rest)) ≡ (n, some after) =
      ap (fitted most) (ap (take_digits 0) (sym e) ∙ r) ∙ rw fits refl in
    ap (extracted most old) e ∙ rw d found

extract_number-next :
    (most old n : ℕ) (s : List ℕ)
    → n ≤ most
    → extract_number most old (some (32 ∷ (decimal n ++ 32 ∷ s))) ≡ (n, some (32 ∷ s))
unfolding extract_number read_number
extract_number-next most old n s h =
    let (c, rest, e, d) = skip_spaces-number n (32 ∷ s) in
    extracted-digit most old n c rest (32 ∷ s) (skip_spaces (32 ∷ (decimal n ++ 32 ∷ s))) e d
      (read_number-next n s) h

extract_number-end :
    (most old n : ℕ) → n ≤ most → extract_number most old (some (32 ∷ decimal n)) ≡ (n, some [])
unfolding extract_number read_number
extract_number-end most old n h =
    let (c, rest, e, d) = skip_spaces-number n [] in
    extracted-digit most old n c rest [] (skip_spaces (32 ∷ decimal n))
      (ap (λ (x : List ℕ). skip_spaces (32 ∷ x)) (sym (append-nil (decimal n))) ∙ e) d
      (read_number-end n) h

extract_word-append :
    (old word s : List ℕ)
    → IsWord word
    → extract_word old (some (word ++ 32 ∷ s)) ≡ (word, some (32 ∷ s))
unfolding extract_word
extract_word-append old word s h =
    let some_letters : (length word == 0) ≡ false = ground (arith, h.0) in
    rw (read_word-append word s h, some_letters) refl

-- What the settings of a storage node fit in: ports of 16 bits, sizes of 32, and a name of one word.
abbrev pub AreFit : Settings → Type 0
AreFit c =
    IsWord c.group_name
    × (c.task_port < 65_536)
    × (c.http_port < 65_536)
    × (c.data_capacity < 4_294_967_296)
    × (c.data_used < 4_294_967_296)

-- The tracker reads from the line of a storage node that joins exactly the settings of that node, if
-- they fit.
pub read_new-fields :
    (c : Settings) (node : Node)
    → AreFit c
    → read_new (new_fields c) node ≡ record node {
      status = wait_sync;
      group_name = c.group_name;
      task_port = c.task_port;
      http_port = c.http_port;
      total_size = c.data_capacity;
      used_size = c.data_used;
    }
unfolding read_new new_fields
read_new-fields c node (w, p, q, t, u) =
    let s4 = 32 ∷ decimal c.data_used in
    let s3 = 32 ∷ (decimal c.data_capacity ++ s4) in
    let s2 = 32 ∷ (decimal c.http_port ++ s3) in
    let r1 = extract_word-append node.group_name c.group_name (decimal c.task_port ++ s2) w in
    let r2 =
      extract_number-next 65_535 node.task_port c.task_port (decimal c.http_port ++ s3)
        (omega arith) in
    let r3 =
      extract_number-next 65_535 node.http_port c.http_port (decimal c.data_capacity ++ s4)
        (omega arith) in
    let r4 =
      extract_number-next 4_294_967_295 node.total_size c.data_capacity (decimal c.data_used)
        (omega arith) in
    let r5 = extract_number-end 4_294_967_295 node.used_size c.data_used (omega arith) in
    rw (r1, r2, r3, r4, r5) refl

user_word : (s : List ℕ) → read_word (codes "user " ++ s) ≡ (codes "user", 32 ∷ s)
unfolding read_word take_word skip_spaces
user_word s = refl

-- The tracker takes the line that a storage node sends when the file of a user, whose name is one
-- word, is in place as the report of that node, active, for that user.
pub deal_chg-user :
    (now time_out fd : ℕ) (username : List ℕ) (t : Tracker)
    → IsWord username
    → deal_chg now time_out fd (user_fields username) t ≡ user_changed fd username 4 t
unfolding deal_chg user_fields str_eq
deal_chg-user now time_out fd username t h =
    rw
      (
        user_word (username ++ 32 ∷ decimal 4),
        read_word-next username (decimal 4) h,
        read_number-end 4,
      )
      refl
