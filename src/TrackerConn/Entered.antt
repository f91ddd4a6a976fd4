-- ===== src/TrackerConn/Entered.antt =====
-- httpconn.cpp of the tracker: what ReadProcess enters for a user who logs in.
use dfs_system.Base.{
  ℕ, zero, suc, ◌≡◌, refl, sym, ap, ◌∙◌, Bool, true, false, List, [], ◌∷◌, ◌||◌, Option, none, some,
  arith, if◌then◌else◌, ◌==◌, str_eq_refl, Bool-cases, inl, inr,
}
use dfs_system.ConsistentHash.{get_group}
use dfs_system.HeapTimer.{HeapTimer, update}
use dfs_system.HttpRequest.Process.{Receipt}
use dfs_system.TrackerGroup.{Node, Tracker, set_report, set_reports, reports_of}
use dfs_system.TrackerRequest.{Request, logged_in}
use dfs_system.TrackerRequest.Verify as Parser
use dfs_system.TrackerResponse as Response
use dfs_system.TrackerConn.{
  HttpConn, Shared, Clock, set_online, with_timer, with_tracker, enter_members, add_user_server,
  enter, request_read, processed, and_process, read_process,
}

-- The report of a node, and membership of a list.
unfoldable pub report : ℕ → List (ℕ × ℕ) → Option ℕ
report fd [] = none
report fd ((f, s) ∷ reports) = let rest = report fd reports in if fd == f then some s else rest

unfoldable pub has_member : ℕ → List ℕ → Bool
has_member fd [] = false
has_member fd (f ∷ fds) = (fd == f) || has_member fd fds

abbrev pub status_of : Option Node → Option ℕ
status_of none = none
status_of (some node) = some node.status

-- Every descriptor has its node.
abbrev pub AreNodes : (ℕ → Option Node) → List ℕ → Type 0
AreNodes nodes [] = Unit
AreNodes nodes (fd ∷ fds) = ((node : Node) × (nodes fd ≡ some node)) × AreNodes nodes fds

report-set_report :
    (f fd s : ℕ) (reports : List (ℕ × ℕ))
    → report f (set_report fd s reports) ≡ (if f == fd then some s else report f reports)
unfolding report
report-set_report f fd s [] = refl
report-set_report f fd s ((g, r) ∷ reports) = ground (arith, report-set_report f fd s reports)

-- A report that is written before the others, which may write it again.
report_first :
    (nodes : ℕ → Option Node) (f fd : ℕ) (node : Node) (b : Bool) (rest old : Option ℕ)
    → nodes fd ≡ some node
    → rest ≡ (if f == fd then some node.status else old)
    → (if b then status_of (nodes f) else rest)
      ≡ (if (f == fd) || b then status_of (nodes f) else old)
report_first nodes f fd node true rest old n e = elim (Bool-cases (f == fd)) [
  | inl a ↦ rw a refl
  | inr a ↦ rw a refl
]
report_first nodes f fd node false rest old n e = elim (Bool-cases (f == fd)) [
  | inr a ↦ e ∙ rw a refl
  | inl a ↦
      let same : f ≡ fd = ground (arith, a) in
      e ∙ rw a (sym (ap (λ g. status_of (nodes g)) same ∙ ap status_of n))
]

-- A loop over the members leaves every one of them with its status.
enter_members-report :
    (user : List ℕ) (fds : List ℕ) (t : Tracker)
    → AreNodes t.nodes fds
    → (t' : Tracker) × (enter_members user fds t ≡ some t')
      × (t'.online ≡ t.online)
      × ((f : ℕ)
          → report f (reports_of (t'.user_server user)) ≡ (
              if has_member f fds
              then status_of (t.nodes f)
              else report f (reports_of (t.user_server user))))
unfolding enter_members has_member
enter_members-report user [] t h = (t, refl, refl, λ f. refl)
enter_members-report user (fd ∷ fds) t ((node, e), h) =
    let mine = set_report fd node.status (reports_of (t.user_server user)) in
    let t1 = set_reports user (some mine) t in
    let (t', run, on, found) = enter_members-report user fds t1 h in
    let own : reports_of (t1.user_server user) ≡ mine = rw (str_eq_refl user) refl in
    (
      t',
      rw e run,
      on,
      λ f.
          found f
          ∙ report_first t.nodes f fd node (has_member f fds)
              (report f (reports_of (t1.user_server user)))
              (report f (reports_of (t.user_server user))) e
              (ap (report f) own
                ∙ report-set_report f fd node.status (reports_of (t.user_server user))),
    )

request_read-some :
    (value : ℕ) (c : HttpConn) (sh : Shared)
    → (c' : HttpConn) × (request_read value c (some sh) ≡ some (value, c', sh))
request_read-some zero c sh = (record c { response = Response.init c.response }, refl)
request_read-some (suc v) c sh = (c, refl)

-- When the call of process inside ReadProcess ends with the user logged in, userServer has no entry
-- for the user, the timer of the connection can be updated, and every member of the group that
-- consistent hashing gives for the user has its node, then ReadProcess ends with the same value, the
-- user is online, and the entry of the user has the members of that group, each with its status, and
-- nothing else.
pub read_process-entered :
    (env : Parser.Surroundings) (clock : Clock) (fd : ℕ) (receipts : List Receipt) (c : HttpConn)
    (sh : Shared) (timer : HeapTimer) (value : ℕ) (r : Request)
    → update clock.now fd clock.time_out sh.timer ≡ some timer
    → Parser.process (record env { ring = sh.tracker.ring }) receipts c.request ≡ some (value, r)
    → r.login_status ≡ logged_in
    → sh.tracker.user_server r.username ≡ none
    → AreNodes sh.tracker.nodes (sh.tracker.group (get_group env.hasher r.username sh.tracker.ring))
    → (c' : HttpConn) × (sh' : Shared) × (read_process env clock fd receipts c sh
        ≡ some (value, c', sh'))
      × (sh'.tracker.online r.username ≡ true)
      × ((f : ℕ)
          → report f (reports_of (sh'.tracker.user_server r.username)) ≡ (
              if has_member f (sh.tracker.group (get_group env.hasher r.username sh.tracker.ring))
              then status_of (sh.tracker.nodes f)
              else none))
unfolding read_process enter add_user_server report
read_process-entered env clock fd receipts c sh timer value r u p l n h =
    let t1 = set_online r.username true sh.tracker in
    let members = sh.tracker.group (get_group env.hasher r.username sh.tracker.ring) in
    let (t', run, on, found) = enter_members-report r.username members t1 h in
    let sh1 : Shared = record sh { timer = timer } in
    let sh' : Shared = record sh1 { tracker = t' } in
    let e : enter env.hasher r sh.tracker ≡ some t' = rw (l, n) run in
    let (c', q) = request_read-some value (record c { request = r }) sh' in
    (
      c',
      sh',
      ap (λ (o : Option HeapTimer). and_process env receipts c (with_timer sh o)) u
          ∙ ap (processed env.hasher c sh1) p
          ∙ ap
              (λ (o : Option Tracker).
                request_read value (record c { request = r }) (with_tracker sh1 o))
              e
          ∙ q,
      ap (λ (o : List ℕ → Bool). o r.username) on ∙ rw (str_eq_refl r.username) refl,
      λ f. found f ∙ rw n refl,
    )
