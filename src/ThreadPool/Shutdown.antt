-- ===== src/ThreadPool/Shutdown.antt =====
-- threadpool.h: once the pool is stopped, the workers run every task and return.
use mathlib.Core.List.{append_assoc, append-nil}
use dfs_system.Base.{
  ℕ, ◌+◌, ◌*◌, ◌<◌, ◌≤◌, ◌≡◌, ◌⊎◌, inl, inr, refl, sym, ap, ◌∙◌, Bool, true, false, List, [], ◌∷◌,
  ◌++◌, arith, length, zero_or_pos, nil_of_length, Bool-cases, if◌then◌else◌,
}
use dfs_system.ThreadPool.{
  ThreadPool, Moves, passes, begins, finishes, wakes, notifies, notifies_all, Reach, Run, rests,
  goes, pass_with, pass, begin, finish, wake, notify_added, notify_stopped,
}
use dfs_system.ThreadPool.Queue.{IsKept, Moves-IsKept, Moves-tasks, Reach-tasks}

module _ {ℓ} {A : Type ℓ} where
  -- The steps that the workers of a stopped pool have left at most.
  unfoldable pub left_to_do : ThreadPool A → ℕ
  left_to_do p =
      3 * length p.tasks
      + 3 * p.taken
      + 2 * p.working
      + p.awake
      + 2 * p.asleep
      + p.notifying
      + (if p.closing then 1 else 0)

  pass_with-left_to_do :
      (xs : List A) (p : ThreadPool A)
      → p.stop ≡ true
      → p.tasks ≡ xs
      → 0 < p.awake
      → ((pass_with true xs p).1.stop ≡ true) × (left_to_do (pass_with true xs p).1 < left_to_do p)
  unfolding pass_with left_to_do
  pass_with-left_to_do [] p s e a = ground arith
  pass_with-left_to_do (x ∷ xs) p s e a = ground arith

  pass-left_to_do :
      (b : Bool) (p : ThreadPool A)
      → p.stop ≡ b
      → b ≡ true
      → 0 < p.awake
      → ((pass_with b p.tasks p).1.stop ≡ true)
        × (left_to_do (pass_with b p.tasks p).1 < left_to_do p)
  pass-left_to_do true p s b a = pass_with-left_to_do p.tasks p s refl a
  pass-left_to_do false p s b a = absurd (ground arith)

  Moves-left_to_do :
      {n : ℕ} {o : List A} {p q : ThreadPool A}
      → Moves o p q
      → IsKept n p
      → p.stop ≡ true
      → (q.stop ≡ true) × (left_to_do q < left_to_do p)
  unfolding pass begin finish wake notify_added notify_stopped left_to_do
  Moves-left_to_do (passes p a) k s = pass-left_to_do p.stop p refl s a
  Moves-left_to_do (begins p a) k s = ground arith
  Moves-left_to_do (finishes p a) k s = ground arith
  Moves-left_to_do (wakes p a) k s = ground arith
  Moves-left_to_do (notifies p a) k s = ground arith
  Moves-left_to_do (notifies_all p a) k s = ground arith

  Run-left_to_do :
      {n k : ℕ} {outs : List A} {p q : ThreadPool A}
      → Run k outs p q
      → IsKept n p
      → p.stop ≡ true
      → IsKept n q × (q.stop ≡ true) × (k + left_to_do q ≤ left_to_do p)
  Run-left_to_do (rests p) w s = (w, s, omega arith)
  Run-left_to_do (goes r m) w s =
      let (v, t, l) = Run-left_to_do r w s in
      let (u, d) = Moves-left_to_do m v t in (Moves-IsKept m v, u, omega arith)

  Run-tasks :
      {k : ℕ} {outs : List A} {p q : ThreadPool A} → Run k outs p q → p.tasks ≡ outs ++ q.tasks
  Run-tasks (rests p) = refl
  Run-tasks (goes {outs = outs} {o = o} {r = r} run m) =
      Run-tasks run
      ∙ ap (λ (xs : List A). outs ++ xs) (Moves-tasks m)
      ∙ sym (append_assoc outs o r.tasks)

  -- A pool that is kept and where nobody can move has none but returned workers.
  pub Moves-or_done :
      {n : ℕ} (p : ThreadPool A)
      → IsKept n p
      → p.stop ≡ true
      → ((o : List A) × (q : ThreadPool A) × Moves o p q) ⊎ (p.gone ≡ n)
  unfolding pass begin finish
  Moves-or_done p k s = elim (zero_or_pos p.awake) [
    | inr a ↦ inl (_, _, passes p a)
    | inl a ↦ elim (zero_or_pos p.taken) [
      | inr t ↦ inl (_, _, begins p t)
      | inl t ↦ elim (zero_or_pos p.working) [
        | inr w ↦ inl (_, _, finishes p w)
        | inl w ↦ elim (Bool-cases p.closing) [
          | inl c ↦ inl (_, _, notifies_all p c)
          | inr c ↦ inr (ground (arith, k.workers, k.rung))
        ]
      ]
    ]
  ]

  -- Provided that every task returns: once a reachable pool has been stopped, the workers are done
  -- after at most `left_to_do` steps of theirs and of the callers that have still to notify, Shutdown
  -- among them, whatever the order. As long as they are not, one of these can move; when they are, all n have returned, so that Shutdown's joins end, and the tasks that were
  -- added are, in their order, those that were taken before and since.
  pub shutdown_ends :
      {n k : ℕ} {ins outs more : List A} {p q : ThreadPool A}
      → Reach n ins outs p
      → p.stop ≡ true
      → Run k more p q
      → (k ≤ left_to_do p)
        × (((o : List A) × (r : ThreadPool A) × Moves o q r)
            ⊎ ((q.gone ≡ n) × (0 < n → ins ≡ outs ++ more)))
  shutdown_ends {n = n} {outs = outs} {more = more} {p = p} {q = q} s e run =
      let (f, w) = Reach-tasks s in
      let (v, t, l) = Run-left_to_do run w e in
      (
        omega arith,
        elim (Moves-or_done q v t) [
          | inl m ↦ inl m
          | inr g ↦ inr (
            g,
            λ pos.
                f
                ∙ ap (λ (xs : List A). outs ++ xs)
                    (Run-tasks run
                      ∙ ap (λ (xs : List A). more ++ xs)
                          (nil_of_length q.tasks (v.left (omega arith)).1)
                      ∙ append-nil more),
          )
        ],
      )
