-- ===== src/Buffer/Refine.antt =====
-- buffer.cpp as a queue of bytes: what a client of a connection's buffer may rely on.
use Prim.Native.Nat.{min}
use dfs_system.Base.{
  ℕ, ◌≡◌, refl, ap, List, [], ◌∷◌, ◌++◌, Option, some, none, arith, leb, length, take, drop,
  Bool-cases, inl, inr,
}
use dfs_system.Buffer.{
  Buffer, peek, append, add_handled, received, failed, read_fd, write_fd, unhandle_to_str,
}
use dfs_system.Buffer.Space.{IsValid}
use dfs_system.Buffer.Content.{
  Holds, append_lem, add_handled_lem, add_handled-none, add_handled_all_lem, write_fd_lem,
  read_fd_lem,
}
use dfs_system.Buffer.Queue.{Call, appends, handles, clears, reads, sends}
use dfs_system.Buffer.Queue

abbrev with_output : List ℕ → Option Buffer → Option (Buffer × List ℕ)
with_output out none = none
with_output out (some b) = some (b, out)

-- A call on the buffer, with the bytes that it hands out.
unfoldable pub step : Buffer → Call → Option (Buffer × List ℕ)
step b (appends s) = with_output [] (append s b)
step b (handles n) = with_output (take n (peek b)) (add_handled n b)
step b clears = some ((unhandle_to_str b).1, (unhandle_to_str b).0)
step b (reads r) = with_output [] (read_fd r b)
step b (sends n) =
    some (write_fd (some (min n (length (peek b)))) b, take (min n (length (peek b))) (peek b))

unfoldable pub run : Buffer → List Call → List (List ℕ)
run b [] = []
run b (c ∷ cs) = elim (step b c) [ some (r, out) ↦ out ∷ run r cs | none ↦ [] ]

-- The two sides abort together, or go on from a valid buffer that holds the queue.
data Agree : Option (Buffer × List ℕ) → Option (List ℕ × List ℕ) → Type 0 where
  aborted : Agree none none
  goes : (b : Buffer) (out : List ℕ) → IsValid b → Agree (some (b, out)) (some (peek b, out))

Holds-Agree :
    (s out : List ℕ) (r : Option Buffer) → Holds s r → Agree (with_output out r) (some (s, out))
Holds-Agree s out r h = rw (h.returned, ← h.content) (goes h.result out h.valid)

step-Agree : (b : Buffer) (c : Call) → IsValid b → Agree (step b c) (Queue.step (peek b) c)
unfolding step Queue.step unhandle_to_str read_fd
step-Agree b (appends s) v = Holds-Agree (peek b ++ s) [] (append s b) (append_lem s b v)
step-Agree b (handles n) v = elim (Bool-cases (leb n (length (peek b)))) [
  | inl within ↦ rw within (
      Holds-Agree (drop n (peek b)) (take n (peek b)) (add_handled n b)
        (add_handled_lem n b v (ground arith)))
  | inr over ↦ rw (over, add_handled-none n b v (ground arith)) aborted
]
step-Agree b clears v =
    let (valid, empty) = add_handled_all_lem b in rw (← empty) (goes _ (peek b) valid)
step-Agree b (reads (received s)) v =
    Holds-Agree (peek b ++ s) [] (read_fd (received s) b) (read_fd_lem s b v)
step-Agree b (reads failed) v = goes b [] v
step-Agree b (sends n) v =
    let (valid, left) = write_fd_lem (min n (length (peek b))) b v (omega arith) in
    rw (← left) (goes _ _ valid)

Agree-run :
    {r : Option (Buffer × List ℕ)} {q : Option (List ℕ × List ℕ)} (cs : List Call)
    → ((b : Buffer) → IsValid b → run b cs ≡ Queue.run (peek b) cs)
    → Agree r q
    → elim r [ some (b, out) ↦ out ∷ run b cs | none ↦ [] ]
      ≡ elim q [ some (p, out) ↦ out ∷ Queue.run p cs | none ↦ [] ]
Agree-run cs ih aborted = refl
Agree-run cs ih (goes b out v) = ap (◌∷◌ out) (ih b v)

-- From a valid buffer, any sequence of calls gives out what a queue of bytes gives out: the asserts
-- fail exactly where the queue is asked for more than it has, and growing, moving to the front and
-- the second readv block are never seen.
pub run_refines : (cs : List Call) (b : Buffer) → IsValid b → run b cs ≡ Queue.run (peek b) cs
unfolding run Queue.run
run_refines [] b v = refl
run_refines (c ∷ cs) b v = Agree-run cs (run_refines cs) (step-Agree b c v)
