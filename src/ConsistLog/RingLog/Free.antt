-- ===== src/ConsistLog/RingLog/Free.antt =====
-- ringlog.cpp: the pages that the logs get, from a fresh file until the ring is used up.
use dfs_system.Base.{
  ℕ, zero, suc, ◌*◌, ◌/◌, ◌<◌, ◌≤◌, ◌≡◌, ◌≢◌, refl, ◌∙◌, List, [], ◌∷◌, arith, if◌then◌else◌, ◌==◌,
  length,
}
use dfs_system.ConsistLog.Format.{Page}
use dfs_system.ConsistLog.RingLog.{
  RingLog, todo_list, free_list, nxt, write_page, write_log, last_page, init_log_file,
}

-- The states after some logs were written to a fresh file and none freed; the addresses, newest first.
pub data Filled (capacity : ℕ) : List ℕ → RingLog → Type 0 where
  start : Filled capacity [] (init_log_file capacity)
  next :
      {done : List ℕ} {r : RingLog} (status : ℕ) (user file : List ℕ)
      → Filled capacity done r
      → length done < last_page capacity
      → Filled capacity ((write_log status user file r).0 ∷ done) (write_log status user file r).1

-- 64 * n, ..., 128, 64.
abbrev pub pages_below : ℕ → List ℕ
pages_below zero = []
pages_below (suc n) = 64 * suc n ∷ pages_below n

-- The list that starts at `a` runs through 64 * n, ..., 64 and ends with 0.
abbrev pub Linked : (ℕ → Page) → ℕ → ℕ → Type 0
Linked file a zero = a ≡ 0
Linked file a (suc n) = (a ≡ 64 * suc n) × Linked file (nxt (file a)) n

Linked-same :
    (file file' : ℕ → Page) (a n : ℕ)
    → ((j : ℕ) → j ≤ n → 0 < j → file' (64 * j) ≡ file (64 * j))
    → Linked file a n
    → Linked file' a n
Linked-same file file' a zero same l = l
Linked-same file file' a (suc n) same (e, l) = (
  e,
  rw (e, same (suc n) (omega arith) (omega arith), ← e)
      (Linked-same file file' (nxt (file a)) n (λ j p q. same j (omega arith) q) l),
)

record IsFilled (capacity n : ℕ) (r : RingLog) : Type 0 where
  front : free_list r.head ≡ (if n == last_page capacity then 0 else 64 * suc n)
  untouched :
      (i : ℕ)
      → n < i
      → i ≤ last_page capacity
      → nxt (r.file (64 * i)) ≡ (if i == last_page capacity then 0 else 64 * suc i)
  opened : Linked r.file (todo_list r.head) n

start-IsFilled :
    (capacity : ℕ) → 0 < last_page capacity → IsFilled capacity 0 (init_log_file capacity)
unfolding init_log_file
start-IsFilled capacity p = record {
  front = ground arith;
  untouched = λ i q s. let e : 64 * i / 64 ≡ i = omega arith in ground (arith, e);
  opened = refl;
}

module _ (capacity n : ℕ) (r : RingLog) (v : IsFilled capacity n r) (room : n < last_page capacity)
    (status : ℕ) (user file : List ℕ) where
  written-address : (write_log status user file r).0 ≡ 64 * suc n
  unfolding write_log
  written-address = ground (arith, v.front)

  written-todo : todo_list (write_log status user file r).1.head ≡ 64 * suc n
  unfolding write_log
  written-todo = ground (arith, v.front)

  written-other :
      (o : ℕ) → o ≢ 0 → o ≢ 64 * suc n → (write_log status user file r).1.file o ≡ r.file o
  unfolding write_log write_page
  written-other o p q = ground (arith, v.front)

  written-link : nxt ((write_log status user file r).1.file (64 * suc n)) ≡ todo_list r.head
  unfolding write_log write_page
  written-link = ground (arith, v.front)

  written-front : free_list (write_log status user file r).1.head ≡ nxt (r.file (64 * suc n))
  unfolding write_log
  written-front = ground (arith, v.front)

  written-IsFilled : IsFilled capacity (suc n) (write_log status user file r).1
  written-IsFilled =
      let r' = (write_log status user file r).1 in
      record {
        front = written-front ∙ v.untouched (suc n) (omega arith) (omega arith);
        untouched = λ i p q.
            rw (written-other (64 * i) (omega arith) (omega arith)) (v.untouched i (omega arith) q);
        opened = (
          written-todo,
          rw (written-todo, written-link)
              (Linked-same r.file r'.file (todo_list r.head) n
                (λ j p q. written-other (64 * j) (omega arith) (omega arith)) v.opened),
        );
      }

Filled-IsFilled :
    {capacity : ℕ} {done : List ℕ} {r : RingLog}
    → Filled capacity done r
    → 0 < last_page capacity
    → IsFilled capacity (length done) r × (done ≡ pages_below (length done))
Filled-IsFilled {capacity} start p = (start-IsFilled capacity p, refl)
Filled-IsFilled {capacity} (next {done} {r} status user file s room) p =
    let (v, e) = Filled-IsFilled s p in
    (
      written-IsFilled capacity (length done) r v room status user file,
      ground (arith, written-address capacity (length done) r v room status user file, e),
    )

-- Until the ring is used up, the logs get the pages 64, 128, ... in turn, no page twice, and the
-- todo list runs through all of them, the newest first.
pub Filled-pages :
    {capacity : ℕ} {done : List ℕ} {r : RingLog}
    → Filled capacity done r
    → 0 < last_page capacity
    → (done ≡ pages_below (length done)) × Linked r.file (todo_list r.head) (length done)
Filled-pages s p = let (v, e) = Filled-IsFilled s p in (e, v.opened)

-- When every page is used the next log gets address 0 and overwrites the head of the file.
pub Filled-exhausted :
    {capacity : ℕ} {done : List ℕ} {r : RingLog} (status : ℕ) (user file : List ℕ)
    → Filled capacity done r
    → 0 < last_page capacity
    → length done ≡ last_page capacity
    → ((write_log status user file r).0 ≡ 0)
      × (((write_log status user file r).1.file 0).w0 ≡ status)
unfolding write_log write_page
Filled-exhausted {capacity} {done} {r} status user file s p all =
    let (v, e) = Filled-IsFilled s p in
    let front = v.front in (ground (arith, front), ground (arith, front))
