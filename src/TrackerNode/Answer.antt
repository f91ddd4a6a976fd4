-- ===== src/TrackerNode/Answer.antt =====
-- trackernode.cpp: ParseHead_, DealTranew_ and the destructor, with SyncTracker of syntracker.h: how
-- a storage node takes the tracker's answer and connects to the other nodes of its group.
use Prim.Native.Nat.{min}
use dfs_system.Base.{
  ℕ, zero, suc, ◌+◌, Bool, true, false, List, [], ◌∷◌, ◌++◌, Option, none, some, if◌then◌else◌, ltb,
  ◌==◌, length, take, drop, codes, str_eq,
}
use dfs_system.Wire.{read_number}
use dfs_system.Status.{Status, handle_complete}
use dfs_system.ConsistLog.Format.{Page}
use dfs_system.ConsistLog.RingLog as Log
use dfs_system.ConsistLog.RingLog.{RingLog, Effect}
use dfs_system.StorageNode.{StorageNode, add_new_task}
use dfs_system.TrackerNode.{ready_syn_self, ready_syn_user}

-- A storage node beside the connection to the tracker: StorageNode::group by descriptor, the sendBuff
-- of each tracker of Conf with its descriptor, the ring log, and what its opening does.
pub record Local : Type 0 where
  pub group : List (ℕ × StorageNode)
  pub trackers : List (ℕ × List ℕ)
  pub ring : RingLog
  pub effects : List Effect

-- What a socket and a connect give in a round for an address and a port: a descriptor, or a failure;
-- what StorageNode's constructor makes; Conf's task_port; and what RingLog::Init needs.
pub record Surroundings : Type 0 where
  pub connect : ℕ → ℕ → ℕ → Option ℕ
  pub fresh : StorageNode
  pub task_port : ℕ
  pub log_path : Bool → Page → List ℕ
  pub log_syn : ℕ → ℕ × ℕ
  pub known : ℕ → Bool

-- BaseNode's members.
pub record Conn : Type 0 where
  pub status : Status
  pub is_out : Bool
  pub recv : List ℕ

-- `group[fd] = node`
unfoldable pub assign_node : ℕ → StorageNode → List (ℕ × StorageNode) → List (ℕ × StorageNode)
assign_node fd node [] = (fd, node) ∷ []
assign_node fd node ((f, n) ∷ group) =
    let rest = assign_node fd node group in if f == fd then (fd, node) ∷ group else (f, n) ∷ rest

-- A round, behind the connect: the new node is to send a task NEW with the own port.
unfoldable pub joined : Surroundings → Option ℕ → List (ℕ × StorageNode) → List (ℕ × StorageNode)
unfolding assign_node add_new_task
joined env none group = group
joined env (some fd) group = assign_node fd (add_new_task env.task_port env.fresh) group

-- A round with its address and the port that follows; a number that does not fit is read as the
-- greatest that does.
abbrev pub join_port :
    Surroundings
    → (List ℕ → List (ℕ × StorageNode) → List (ℕ × StorageNode))
    → ℕ
    → ℕ
    → ℕ × List ℕ
    → List (ℕ × StorageNode)
    → List (ℕ × StorageNode)
join_port env next i ip (port, s) group =
    next s (joined env (env.connect i (min ip 4_294_967_295) (min port 65_535)) group)

abbrev pub join_ip :
    Surroundings
    → (List ℕ → List (ℕ × StorageNode) → List (ℕ × StorageNode))
    → ℕ
    → ℕ × List ℕ
    → List (ℕ × StorageNode)
    → List (ℕ × StorageNode)
join_ip env next i (ip, s) group = join_port env next i ip (read_number s) group

-- The loop over the members.
unfoldable pub join_loop :
    Surroundings → ℕ → ℕ → List ℕ → List (ℕ × StorageNode) → List (ℕ × StorageNode)
unfolding joined
join_loop env zero i s group = group
join_loop env (suc k) i s group = join_ip env (join_loop env k (i + 1)) i (read_number s) group

-- SyncTracker::SyncSelf and SyncUser.
unfoldable pub sync_self : List (ℕ × List ℕ) → List (ℕ × List ℕ)
unfolding ready_syn_self
sync_self [] = []
sync_self ((fd, send) ∷ trackers) = (fd, ready_syn_self send) ∷ sync_self trackers

unfoldable pub sync_user : List ℕ → List (ℕ × List ℕ) → List (ℕ × List ℕ)
unfolding ready_syn_user
sync_user username [] = []
sync_user username ((fd, send) ∷ trackers) =
    (fd, ready_syn_user username send) ∷ sync_user username trackers

-- DealTranew_ with the number of members and what follows it.
unfoldable pub joined_all : Surroundings → ℕ × List ℕ → Local → Local
unfolding join_loop sync_self Log.init
joined_all env (num, s) l =
    let (effects, ring) = Log.init env.log_path env.log_syn env.known l.ring in
    record l {
      group = join_loop env num 0 s l.group;
      ring = ring;
      effects = l.effects ++ effects;
      trackers = sync_self l.trackers;
    }

-- DealTranew_ of what is in the buffer behind the command.
unfoldable pub deal_tranew : Surroundings → List ℕ → Local → Local
unfolding joined_all
deal_tranew env text l = joined_all env (read_number text) l

-- ParseHead_ runs on whatever has come; fewer than four bytes end the program.
unfoldable pub parse_head : Surroundings → Conn → Local → Option (Conn × Local)
unfolding deal_tranew
parse_head env c l =
    let name = take 3 c.recv in
    let text = drop 4 c.recv in
    if ltb (length c.recv) 4
    then none
    else if str_eq name (codes "new")
    then some
        (record c { status = handle_complete; is_out = true; recv = [] }, deal_tranew env text l)
    else some (record c { status = handle_complete; is_out = false; recv = text }, l)

-- ~TrackerNode: the first tracker with the descriptor.
unfoldable pub leave : ℕ → List (ℕ × List ℕ) → List (ℕ × List ℕ)
leave fd [] = []
leave fd ((f, send) ∷ trackers) =
    let rest = leave fd trackers in if f == fd then trackers else (f, send) ∷ rest
