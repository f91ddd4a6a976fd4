-- ===== src/TrackerGroup/Healthy.antt =====
-- basenode.cpp and storagenode.cpp of the tracker: a connection never enters the state of an error.
use dfs_system.Base.{
  ℕ, ◌+◌, ◌-◌, ◌≡◌, refl, ap, true, false, List, [], ◌∷◌, ◌++◌, Option, none, some, ◌||◌, ◌&&◌, ltb,
  ◌==◌, length, take, drop, codes, str_eq, Bool-cases, Bool-contra, inl, inr,
}
use dfs_system.Status.{Status, handle_init, handle_head, handle_body, handle_complete, handle_error}
use dfs_system.FileBody.{find, crlf}
use dfs_system.HttpRequest.Process.{at_error}
use dfs_system.TaskNode.Reading.{Receipt, received, ended, again, broken, at_init}
use dfs_system.TrackerGroup.{Node, Tracker, deal_new}
use dfs_system.TrackerGroup.Reading.{
  Conn, Surroundings, State, answered, new_from, command, is_known, head_at, parse_head, parse_if,
  go_on, and_go_on, read_process,
}

-- A result whose connection is not in the state of an error.
abbrev pub IsHealthy : Option State → Type 0
IsHealthy none = Unit
IsHealthy (some (c, t)) = at_error c.status ≡ false

answered-IsHealthy : (c : Conn) (o : Option (List ℕ × Tracker)) → IsHealthy (answered c o)
answered-IsHealthy c none = tt
answered-IsHealthy c (some (text, t)) = refl

new_from-IsHealthy :
    (env : Surroundings) (fd : ℕ) (line : List ℕ) (o : Option Node) (c : Conn) (t : Tracker)
    → IsHealthy (new_from env fd line o c t)
unfolding new_from
new_from-IsHealthy env fd line none c t = tt
new_from-IsHealthy env fd line (some node) c t =
    answered-IsHealthy c (deal_new env.hasher fd line node t)

command-IsHealthy :
    (env : Surroundings) (fd : ℕ) (name line rest : List ℕ) (c : Conn) (t : Tracker)
    → at_error c.status ≡ false
    → IsHealthy (command env fd name line rest c t)
unfolding command
command-IsHealthy env fd name line rest c t h = elim (Bool-cases (str_eq name (codes "NEW"))) [
  | inl a ↦ rw a (new_from-IsHealthy env fd line (t.nodes fd) (record c { recv = rest }) t)
  | inr a ↦ elim (Bool-cases (str_eq name (codes "KEP"))) [
    | inl b ↦ rw (a, b) refl
    | inr b ↦ elim (Bool-cases (str_eq name (codes "CHG"))) [
      | inl d ↦ rw (a, b, d) refl
      | inr d ↦ rw (a, b, d) h
    ]
  ]
]

head_at-IsHealthy :
    (env : Surroundings) (fd e : ℕ) (c : Conn) (t : Tracker)
    → at_error c.status ≡ false
    → IsHealthy (head_at env fd e c t)
unfolding head_at
head_at-IsHealthy env fd e c t h = elim (Bool-cases (e == length c.recv)) [
  | inl a ↦ rw a h
  | inr a ↦ elim (Bool-cases (ltb (length c.recv) 4 || (ltb e 4 && is_known (take 3 c.recv)))) [
    | inl b ↦ rw (a, b) tt
    | inr b ↦
        rw (a, b)
          (command-IsHealthy env fd (take 3 c.recv) (take (e - 4) (drop 4 c.recv))
            (drop (e + 2) c.recv) c t h)
  ]
]

parse_if-IsHealthy :
    (env : Surroundings) (fd : ℕ) (c : Conn) (t : Tracker)
    → at_error c.status ≡ false
    → IsHealthy (parse_if env fd c t)
unfolding parse_head
parse_if-IsHealthy env fd c t h = elim (Bool-cases (at_init c.status)) [
  | inl a ↦ rw a (head_at-IsHealthy env fd (find crlf c.recv) c t h)
  | inr a ↦ rw a h
]

-- The value and the state of ReadProcess, after a test that the state is not that of an error.
abbrev pub IsOpen : Option (ℕ × State) → Type 0
IsOpen none = Unit
IsOpen (some (value, (c, t))) = at_error c.status ≡ false

go_on-IsOpen :
    (next : Conn → Tracker → Option (ℕ × State)) (s : Status) (c : Conn) (t : Tracker)
    → ((c : Conn) (t : Tracker) → at_error c.status ≡ false → IsOpen (next c t))
    → c.status ≡ s
    → at_error s ≡ false
    → IsOpen (go_on next s c t)
unfolding go_on
go_on-IsOpen next handle_init c t n e h = n c t (ap at_error e)
go_on-IsOpen next handle_head c t n e h = n c t (ap at_error e)
go_on-IsOpen next handle_body c t n e h = n c t (ap at_error e)
go_on-IsOpen next handle_complete c t n e h = refl
go_on-IsOpen next handle_error c t n e h = Bool-contra true refl h

and_go_on-IsOpen :
    (next : Conn → Tracker → Option (ℕ × State)) (o : Option State)
    → ((c : Conn) (t : Tracker) → at_error c.status ≡ false → IsOpen (next c t))
    → IsHealthy o
    → IsOpen (and_go_on next o)
and_go_on-IsOpen next none n h = tt
and_go_on-IsOpen next (some (c, t)) n h = go_on-IsOpen next c.status c t n refl h

-- Whatever a storage node sends, and however it comes, ReadProcess leaves the connection in another
-- state than that of an error when it was so before.
pub read_process-IsOpen :
    (env : Surroundings) (fd : ℕ) (receipts : List Receipt) (c : Conn) (t : Tracker)
    → at_error c.status ≡ false
    → IsOpen (read_process env fd receipts c t)
unfolding read_process
read_process-IsOpen env fd [] c t h = h
read_process-IsOpen env fd (ended ∷ receipts) c t h = h
read_process-IsOpen env fd (again ∷ receipts) c t h = h
read_process-IsOpen env fd (broken ∷ receipts) c t h = h
read_process-IsOpen env fd (received s ∷ receipts) c t h =
    and_go_on-IsOpen (read_process env fd receipts)
      (parse_if env fd (record c { recv = c.recv ++ s }) t) (read_process-IsOpen env fd receipts)
      (parse_if-IsHealthy env fd (record c { recv = c.recv ++ s }) t h)
