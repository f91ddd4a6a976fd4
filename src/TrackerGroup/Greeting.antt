-- ===== src/TrackerGroup/Greeting.antt =====
-- trackernode.cpp of a storage node and storagenode.cpp of the tracker: a node presents itself.
use mathlib.Core.List.{append_assoc}
use dfs_system.Base.{
  ℕ, ◌+◌, ◌-◌, ◌≡◌, refl, ap, ◌∙◌, true, false, not, ◌&&◌, if◌then◌else◌, str_eq_refl, List, [],
  ◌∷◌, ◌++◌, Option, none, some, arith, ltb, ◌==◌, length, length-append, take-append_left,
  drop-length, codes, str_eq,
}
use dfs_system.Status.{handle_init}
use dfs_system.Wire.{decimal}
use dfs_system.Wire.Words.{IsWord}
use dfs_system.FileBody.{find, crlf}
use dfs_system.FileBody.Split.{NoCr}
use dfs_system.TaskNode.Reading.{Receipt, received}
use dfs_system.TaskNode.Delete.{NoSpace-NoCr, NoCr-append, no_cr→NoCr}
use dfs_system.TaskNode.Upload.{end_of}
use dfs_system.TaskNode.Received.{digits-NoCr}
use dfs_system.TrackerNode.{Settings, new_fields, ready_new}
use dfs_system.TrackerNode.Joining.{AreFit, read_new-fields}
use dfs_system.TrackerNode.Members.{members_of, text_of, members_text-text_of}
use dfs_system.ConsistentHash.{add_node}
use dfs_system.TrackerGroup.{
  Node, Tracker, wait_sync, member_text, both, members_text, join_ring, answer_new, join_group,
  deal_new,
}
use dfs_system.TrackerGroup.Reading.{
  Conn, Surroundings, State, answered, new_from, command, head_at, parse_head, parse_if, go_on,
  and_go_on, read_process,
}

decimal-NoCr : (n : ℕ) → NoCr (decimal n)
unfolding decimal
decimal-NoCr n = digits-NoCr (n + 1) n [] tt

-- A number behind a blank, before a text.
number-NoCr : (n : ℕ) (s : List ℕ) → NoCr s → NoCr (codes " " ++ (decimal n ++ s))
number-NoCr n s h = ((λ e. omega (arith, e)), NoCr-append (decimal n) s (decimal-NoCr n) h)

fields-NoCr : (c : Settings) → IsWord c.group_name → NoCr (codes "NEW " ++ new_fields c)
unfolding new_fields
fields-NoCr c h =
    let s4 : List ℕ = codes " " ++ decimal c.data_used in
    let s3 : List ℕ = codes " " ++ (decimal c.data_capacity ++ s4) in
    let s2 : List ℕ = codes " " ++ (decimal c.http_port ++ s3) in
    let s1 : List ℕ = codes " " ++ (decimal c.task_port ++ s2) in
    NoCr-append (codes "NEW ") (c.group_name ++ s1) (no_cr→NoCr (codes "NEW ") refl) (
      NoCr-append c.group_name s1 (NoSpace-NoCr c.group_name h.1) (
        number-NoCr c.task_port s2 (
          number-NoCr c.http_port s3
            (number-NoCr c.data_capacity s4 ((λ e. omega (arith, e)), decimal-NoCr c.data_used)))))

-- The node with the settings that it has sent.
abbrev pub with_settings : Settings → Node → Node
with_settings c node = record node {
  status = wait_sync;
  group_name = c.group_name;
  task_port = c.task_port;
  http_port = c.http_port;
  total_size = c.data_capacity;
  used_size = c.data_used;
}

abbrev greeted : Conn → Option (List ℕ × Tracker) → Option (ℕ × State)
greeted c none = none
greeted c (some (text, t)) =
    some
      (0, (record c { send = c.send ++ text; is_out = false; status = handle_init; recv = [] }, t))

-- A line of the command NEW that is in the buffer as a whole.
head_at-new :
    (env : Surroundings) (fd : ℕ) (fields : List ℕ) (c : Conn) (t : Tracker)
    → NoCr (codes "NEW " ++ fields)
    → c.recv ≡ (codes "NEW " ++ fields) ++ crlf
    → parse_head env fd c t ≡ new_from env fd fields (t.nodes fd) (record c { recv = [] }) t
unfolding parse_head head_at command str_eq
head_at-new env fd fields c t h e =
    let line = codes "NEW " ++ fields in
    let n = length-append fields crlf in
    let f : find crlf c.recv ≡ length line = rw e (end_of line [] h) in
    let z : (length line == length (line ++ crlf)) ≡ false = ground (arith, n) in
    let m : ltb (length line) 4 ≡ false = ground arith in
    let b : ltb (length (line ++ crlf)) 4 ≡ false = ground (arith, n) in
    let w : length line - 4 ≡ length fields = omega arith in
    let k : length line + 2 ≡ length (line ++ crlf) = omega (arith, n) in
    rw (f, e, z, b, m, w, k, take-append_left fields crlf, drop-length (line ++ crlf)) refl

answered-greeted :
    (next : Conn → Tracker → Option (ℕ × State)) (c : Conn) (o : Option (List ℕ × Tracker))
    → and_go_on next (answered (record c { recv = [] }) o) ≡ greeted c o
unfolding go_on
answered-greeted next c none = refl
answered-greeted next c (some (text, t)) = refl

-- Every descriptor has its node.
abbrev pub AreNodes : (ℕ → Option Node) → List ℕ → Type 0
AreNodes nodes [] = Unit
AreNodes nodes (fd ∷ fds) = ((node : Node) × (nodes fd ≡ some node)) × AreNodes nodes fds

member_text-some : (node : Node) → (text : List ℕ) × (member_text (some node) ≡ some text)
unfolding member_text
member_text-some node = (decimal node.ip ++ codes " " ++ decimal node.task_port ++ codes " ", refl)

members_text-some :
    (nodes : ℕ → Option Node) (fds : List ℕ)
    → AreNodes nodes fds
    → (text : List ℕ) × (members_text nodes fds ≡ some text)
unfolding members_text member_text
members_text-some nodes [] h = ([], refl)
members_text-some nodes (fd ∷ fds) ((node, e), h) =
    let (rest, r) = members_text-some nodes fds h in
    let (line, o) = member_text-some node in
    (
      line ++ rest,
      ap (λ (n : Option Node). both (member_text n) (members_text nodes fds)) e
          ∙ ap (λ (x : Option (List ℕ)). both x (members_text nodes fds)) o
          ∙ ap (both (some line)) r,
    )

-- What the tracker knows when the node at `fd` has joined, and what it answers.
abbrev pub IsJoined : (List ℕ → ℕ) → ℕ → Node → Tracker → List ℕ → Tracker → Type 0
IsJoined hasher fd node t text t' =
    let members = t.group node.group_name in
    (text
      ≡ codes "new "
        ++ (decimal (length members) ++ 32 ∷ text_of (members_of t.nodes members) (codes "\r\n")))
    × (t'.nodes fd ≡ some node)
    × ((f : ℕ) → (f == fd) ≡ false → t'.nodes f ≡ t.nodes f)
    × (t'.group node.group_name ≡ members ++ fd ∷ [])
    × ((g : List ℕ) → str_eq g node.group_name ≡ false → t'.group g ≡ t.group g)
    × (t'.ring ≡ (
        if length members == 0 && not (str_eq node.group_name (codes "public"))
        then add_node hasher node.group_name t.ring
        else t.ring))

join_group-IsJoined :
    (hasher : List ℕ → ℕ) (fd : ℕ) (node : Node) (t : Tracker)
    → AreNodes t.nodes (t.group node.group_name)
    → (text : List ℕ) × (t' : Tracker) × (join_group hasher fd node t ≡ some (text, t'))
      × IsJoined hasher fd node t text t'
unfolding join_group answer_new join_ring
join_group-IsJoined hasher fd node t h =
    let members = t.group node.group_name in
    let (body, e) = members_text-some t.nodes members h in
    let (same, size) = members_text-text_of t.nodes members body (codes "\r\n") e in
    let self : (fd == fd) ≡ true = ground arith in
    (
      _,
      _,
      ap (answer_new hasher fd node t members) e,
      (
        simp append_assoc refl
            ∙ ap (λ (x : List ℕ). codes "new " ++ (decimal (length members) ++ 32 ∷ x)) same,
        rw self refl,
        λ f d. rw d refl,
        rw (str_eq_refl node.group_name) refl,
        λ g d. rw d refl,
        refl,
      ),
    )

-- When a storage node whose settings fit presents itself to the tracker, on a connection that nothing
-- has been read from, its line comes in one receipt, and every member of its group has a node, then
-- ReadProcess returns 0: the node is known with just the settings that it has sent and is the last
-- member of its group, every other node and group is as it was, the group has entered the ring if it
-- had no member and is not "public", and the answer with the members before it waits to be written.
pub read_process-ready_new :
    (env : Surroundings) (fd : ℕ) (c : Settings) (conn : Conn) (node : Node) (t : Tracker)
    (receipts : List Receipt)
    → AreFit c
    → conn.status ≡ handle_init
    → conn.recv ≡ []
    → t.nodes fd ≡ some node
    → AreNodes t.nodes (t.group c.group_name)
    → (text : List ℕ) × (t' : Tracker) × (read_process env fd
          (received (ready_new c []) ∷ receipts)
          conn
          t
        ≡ some (
          0,
          (
            record conn {
              send = conn.send ++ text;
              is_out = false;
              status = handle_init;
              recv = [];
            },
            t',
          ),
        ))
      × IsJoined env.hasher fd (with_settings c node) t text t'
unfolding read_process ready_new deal_new new_from
read_process-ready_new env fd c conn node t receipts h s e n k =
    let fields = new_fields c in
    let line = (codes "NEW " ++ fields) ++ crlf in
    let next = read_process env fd receipts in
    let bare : Conn = record conn { recv = [] } in
    let begin : parse_if env fd (record conn { recv = conn.recv ++ line }) t
        ≡ parse_head env fd (record conn { recv = line }) t =
      ap (λ (r : List ℕ). parse_if env fd (record conn { recv = r ++ line }) t) e ∙ rw s refl in
    let (text, t', joined, rest) = join_group-IsJoined env.hasher fd (with_settings c node) t k in
    (
      text,
      t',
      ap (and_go_on next) (
            begin
            ∙ head_at-new env fd fields (record conn { recv = line }) t (fields-NoCr c h.0) refl
            ∙ ap (λ (o : Option Node). new_from env fd fields o bare t) n
            ∙ ap (λ (m : Node). answered bare (join_group env.hasher fd m t))
                (read_new-fields c node h))
          ∙ answered-greeted next conn (join_group env.hasher fd (with_settings c node) t)
          ∙ ap (greeted conn) joined,
      rest,
    )
