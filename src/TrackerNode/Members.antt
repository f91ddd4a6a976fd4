-- ===== src/TrackerNode/Members.antt =====
-- The tracker's storagenode.cpp and the storage node's trackernode.cpp: the members of a group.
use mathlib.Core.List.{append_assoc}
use Prim.Native.Nat.{min}
use dfs_system.Base.{
  ℕ, suc, ◌+◌, ◌<◌, ◌≡◌, refl, sym, ap, ◌∙◌, true, false, List, [], ◌∷◌, ◌++◌, Option, none, some,
  arith, if◌then◌else◌, ◌==◌, ltb, length, codes, str_eq, Option-cases, inl, inr, none-some,
  some_inj,
}
use dfs_system.Wire.{decimal}
use dfs_system.Wire.Decimal.{read_number-append, read_number-next}
use dfs_system.Status.{handle_complete}
use dfs_system.ConsistLog.RingLog as Log
use dfs_system.StorageNode.{StorageNode, new_task, add_new_task}
use dfs_system.TrackerNode.{ready_syn_self}
use dfs_system.TrackerGroup.{Node, Tracker, both, member_text, members_text, answer_new, join_group}
use dfs_system.TrackerNode.Answer.{
  Local, Surroundings, Conn, joined, join_ip, join_port, join_loop, joined_all, deal_tranew,
  assign_node, sync_self, parse_head,
}

abbrev with_member : Option Node → List (ℕ × ℕ) → List (ℕ × ℕ)
with_member none members = members
with_member (some node) members = (node.ip, node.task_port) ∷ members

-- The addresses and ports of a group's members.
unfoldable pub members_of : (ℕ → Option Node) → List ℕ → List (ℕ × ℕ)
members_of nodes [] = []
members_of nodes (fd ∷ fds) = with_member (nodes fd) (members_of nodes fds)

-- An address has 32 bits and a port 16.
abbrev pub AreAddresses : List (ℕ × ℕ) → Type 0
AreAddresses [] = Unit
AreAddresses ((ip, port) ∷ members) = (ip < 4_294_967_296) × (port < 65_536) × AreAddresses members

-- Every member is connected to in its turn.
unfoldable pub join_all :
    Surroundings → ℕ → List (ℕ × ℕ) → List (ℕ × StorageNode) → List (ℕ × StorageNode)
unfolding joined
join_all env i [] group = group
join_all env i ((ip, port) ∷ members) group =
    join_all env (i + 1) members (joined env (env.connect i ip port) group)

-- The text of the members with what stands behind it.
unfoldable pub text_of : List (ℕ × ℕ) → List ℕ → List ℕ
text_of [] s = s
text_of ((ip, port) ∷ members) s = decimal ip ++ 32 ∷ (decimal port ++ 32 ∷ text_of members s)

join_loop-text_of :
    (env : Surroundings) (i : ℕ) (members : List (ℕ × ℕ)) (s : List ℕ)
    (group : List (ℕ × StorageNode))
    → AreAddresses members
    → join_loop env (length members) i (32 ∷ text_of members s) group ≡ join_all env i members group
unfolding join_loop join_all text_of
join_loop-text_of env i [] s group h = refl
join_loop-text_of env i ((ip, port) ∷ members) s group h =
    let a = read_number-next ip (decimal port ++ 32 ∷ text_of members s) in
    let b = read_number-next port (text_of members s) in
    let m : min ip 4_294_967_295 ≡ ip = omega (arith, h.0) in
    let n : min port 65_535 ≡ port = omega (arith, h.1) in
    let next = join_loop env (length members) (i + 1) in
    ap (λ (w : ℕ × List ℕ). join_ip env next i w group) a
    ∙ ap (λ (w : ℕ × List ℕ). join_port env next i ip w group) b
    ∙ ap
        (λ (j : ℕ).
          next (32 ∷ text_of members s) (joined env (env.connect i j (min port 65_535)) group))
        m
    ∙ ap (λ (j : ℕ). next (32 ∷ text_of members s) (joined env (env.connect i ip j) group)) n
    ∙ join_loop-text_of env (i + 1) members s (joined env (env.connect i ip port) group) h.2

-- What the tracker writes of the members is their text.
pub members_text-text_of :
    (nodes : ℕ → Option Node) (fds text s : List ℕ)
    → members_text nodes fds ≡ some text
    → (text ++ s ≡ text_of (members_of nodes fds) s) × (length (members_of nodes fds) ≡ length fds)
unfolding members_text members_of text_of member_text
members_text-text_of nodes [] text s e = (ap (λ (x : List ℕ). x ++ s) (sym (some_inj e)), refl)
members_text-text_of nodes (fd ∷ fds) text s e = elim (Option-cases (nodes fd)) [
  | inl n ↦ absurd (
      none-some
        (sym (ap (λ (o : Option Node). both (member_text o) (members_text nodes fds)) n) ∙ e))
  | inr (m, n) ↦
      let e1 =
        sym (ap (λ (o : Option Node). both (member_text o) (members_text nodes fds)) n) ∙ e in
      elim (Option-cases (members_text nodes fds)) [
        | inl k ↦ absurd (none-some (sym (ap (both (member_text (some m))) k) ∙ e1))
        | inr (rest, k) ↦
            let (same, size) = members_text-text_of nodes fds rest s k in
            let line = decimal m.ip ++ codes " " ++ decimal m.task_port ++ codes " " in
            let whole : line ++ rest ≡ text =
              some_inj (sym (ap (both (member_text (some m))) k) ∙ e1) in
            let all = ap (λ (o : Option Node). with_member o (members_of nodes fds)) n in
            (
              ap (λ (x : List ℕ). x ++ s) (sym whole)
                  ∙ append_assoc line rest s
                  ∙ ap (λ (x : List ℕ). line ++ x) same
                  ∙ simp append_assoc refl
                  ∙ ap (λ (ms : List (ℕ × ℕ)). text_of ms s) (sym all),
              ap length all ∙ ap suc size,
            )
      ]
]

-- The members of the group of a node that joins.
abbrev pub members_for : Node → Tracker → List (ℕ × ℕ)
members_for node t = members_of t.nodes (t.group node.group_name)

pair_eq : {a b : ℕ} {s u : List ℕ} → a ≡ b → s ≡ u → ◌≡◌ {A = ℕ × List ℕ} (a, s) (b, u)
pair_eq p q = rw (p, q) refl

-- The text of an answer.
pub answer_is :
    (hasher : List ℕ → ℕ) (fd : ℕ) (node : Node) (t t' : Tracker) (text : List ℕ) (members : List ℕ)
    (o : Option (List ℕ))
    → answer_new hasher fd node t members o ≡ some (text, t')
    → (body : List ℕ) × (o ≡ some body)
      × (text ≡ codes "new " ++ (decimal (length members) ++ 32 ∷ (body ++ codes "\r\n")))
unfolding answer_new
answer_is hasher fd node t t' text members none e = absurd (none-some e)
answer_is hasher fd node t t' text members (some body) e =
    (body, refl, sym (ap (λ (x : List ℕ × Tracker). x.0) (some_inj e)) ∙ simp append_assoc refl)

parse_head-new :
    (env : Surroundings) (c : Conn) (l : Local) (s : List ℕ)
    → parse_head env (record c { recv = codes "new " ++ s }) l
      ≡ some (record c { status = handle_complete; is_out = true; recv = [] }, deal_tranew env s l)
unfolding parse_head str_eq
parse_head-new env c l s =
    let m : ltb (length (codes "new " ++ s)) 4 ≡ false = ground arith in rw m refl

-- The node at a descriptor.
unfoldable pub node_at : ℕ → List (ℕ × StorageNode) → Option StorageNode
node_at fd [] = none
node_at fd ((f, node) ∷ group) = let rest = node_at fd group in if fd == f then some node else rest

-- A node that has only been constructed and has one more task: to present itself with the own port.
abbrev pub newcomer : Surroundings → StorageNode
newcomer env = record env.fresh { tasks = env.fresh.tasks ++ new_task env.task_port ∷ [] }

abbrev pub met_by : Surroundings → Option ℕ → ℕ → Option StorageNode → Option StorageNode
met_by env none fd old = old
met_by env (some f) fd old = if fd == f then some (newcomer env) else old

-- What is at a descriptor when the members, from the one with the number `i` on, have been connected
-- to: a newcomer if the connection to one of them got it, and else what was there.
unfoldable pub met : Surroundings → ℕ → List (ℕ × ℕ) → ℕ → Option StorageNode → Option StorageNode
met env i [] fd old = old
met env i ((ip, port) ∷ members) fd old =
    met env (i + 1) members fd (met_by env (env.connect i ip port) fd old)

-- Each tracker is to get the line of an active node.
unfoldable pub told : List (ℕ × List ℕ) → List (ℕ × List ℕ)
told [] = []
told ((fd, send) ∷ trackers) = (fd, send ++ codes "CHG self 4\r\n") ∷ told trackers

node_at-assign_node :
    (fd f : ℕ) (node : StorageNode) (group : List (ℕ × StorageNode))
    → node_at fd (assign_node f node group) ≡ (if fd == f then some node else node_at fd group)
unfolding node_at assign_node
node_at-assign_node fd f node [] = refl
node_at-assign_node fd f node ((g, n) ∷ group) = ground (arith, node_at-assign_node fd f node group)

node_at-joined :
    (env : Surroundings) (o : Option ℕ) (fd : ℕ) (group : List (ℕ × StorageNode))
    → node_at fd (joined env o group) ≡ met_by env o fd (node_at fd group)
unfolding joined add_new_task
node_at-joined env none fd group = refl
node_at-joined env (some f) fd group = node_at-assign_node fd f (newcomer env) group

node_at-join_all :
    (env : Surroundings) (i : ℕ) (members : List (ℕ × ℕ)) (fd : ℕ) (group : List (ℕ × StorageNode))
    → node_at fd (join_all env i members group) ≡ met env i members fd (node_at fd group)
unfolding join_all met
node_at-join_all env i [] fd group = refl
node_at-join_all env i ((ip, port) ∷ members) fd group =
    node_at-join_all env (i + 1) members fd (joined env (env.connect i ip port) group)
    ∙ ap (met env (i + 1) members fd) (node_at-joined env (env.connect i ip port) fd group)

sync_self-told : (trackers : List (ℕ × List ℕ)) → sync_self trackers ≡ told trackers
unfolding sync_self told ready_syn_self decimal
sync_self-told [] = refl
sync_self-told ((fd, send) ∷ trackers) =
    ap (◌∷◌ (fd, send ++ codes "CHG self 4\r\n")) (sync_self-told trackers)

-- The state of a storage node that has joined the members, as its operations give it.
abbrev with_members : Surroundings → List (ℕ × ℕ) → Local → Local
with_members env members l = record l {
  group = join_all env 0 members l.group;
  ring = (Log.init env.log_path env.log_syn env.known l.ring).1;
  effects = l.effects ++ (Log.init env.log_path env.log_syn env.known l.ring).0;
  trackers = sync_self l.trackers;
}

deal_tranew-members :
    (env : Surroundings) (members : List (ℕ × ℕ)) (s : List ℕ) (l : Local)
    → AreAddresses members
    → deal_tranew env (decimal (length members) ++ 32 ∷ text_of members s) l
      ≡ with_members env members l
unfolding deal_tranew joined_all
deal_tranew-members env members s l h =
    ap (λ (w : ℕ × List ℕ). joined_all env w l)
      (read_number-append (length members) (text_of members s))
    ∙ ap (λ (g : List (ℕ × StorageNode)). record (with_members env members l) { group = g })
        (join_loop-text_of env 0 members s l.group h)

-- When the tracker answers a node that joins a group, and the answer comes to the node as a whole,
-- the node connects to just the members that the group had before, in their order: what it has at a
-- descriptor is a newcomer with the task to present itself, if one of these connections got the
-- descriptor, and else what was there. Then it opens its ring log, and the line that it is active
-- waits for every tracker. The members' addresses have 32 bits and their ports 16.
pub parse_head-join_group :
    (hasher : List ℕ → ℕ) (fd : ℕ) (node : Node) (t t' : Tracker) (text : List ℕ)
    (env : Surroundings) (c : Conn) (l : Local)
    → join_group hasher fd node t ≡ some (text, t')
    → AreAddresses (members_for node t)
    → (l' : Local) × (parse_head env (record c { recv = text }) l
        ≡ some (record c { status = handle_complete; is_out = true; recv = [] }, l'))
      × ((f : ℕ) → node_at f l'.group ≡ met env 0 (members_for node t) f (node_at f l.group))
      × (l'.trackers ≡ told l.trackers)
      × (l'.ring ≡ (Log.init env.log_path env.log_syn env.known l.ring).1)
      × (l'.effects ≡ l.effects ++ (Log.init env.log_path env.log_syn env.known l.ring).0)
unfolding join_group
parse_head-join_group hasher fd node t t' text env c l e h =
    let fds = t.group node.group_name in
    let ms = members_for node t in
    let (body, o, q) = answer_is hasher fd node t t' text fds (members_text t.nodes fds) e in
    let (same, size) = members_text-text_of t.nodes fds body (codes "\r\n") o in
    (
      with_members env ms l,
      ap (λ (x : List ℕ). parse_head env (record c { recv = x }) l) q
          ∙ parse_head-new env c l (decimal (length fds) ++ 32 ∷ (body ++ codes "\r\n"))
          ∙ ap
              (λ (x : ℕ × List ℕ). some (
                record c { status = handle_complete; is_out = true; recv = [] },
                deal_tranew env (decimal x.0 ++ 32 ∷ x.1) l,
              ))
              (pair_eq (sym size) same)
          ∙ ap
              (λ (k : Local).
                some (record c { status = handle_complete; is_out = true; recv = [] }, k))
              (deal_tranew-members env ms (codes "\r\n") l h),
      λ f. node_at-join_all env 0 ms f l.group,
      sync_self-told l.trackers,
      refl,
      refl,
    )
