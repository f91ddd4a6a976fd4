-- ===== src/SqlConnPool/Sound.antt =====
-- sqlconnpool.cpp: whoever is past the semaphore finds a connection, and what Freshen_ stops.
use dfs_system.Base.{
  ℕ, suc, ◌+◌, ◌-◌, ◌<◌, ◌≡◌, refl, ap, subst, ◌∙◌, Bool, true, false, List, [], ◌∷◌, ◌++◌, Option,
  some, arith, if◌then◌else◌, ◌==◌, length, length-append, Bool-contra, none-some, some_inj,
}
use dfs_system.SqlConnPool.{
  SqlConnPool, Freshen, resting, looping, past_sem, holding, init, connect, sem_wait, front_of,
  get_conn, free_conn, freshen_begin, freshen_end, freshen_wait, Step, waits, gets, frees, begins,
  ends, freshen_waits, freshen_gets, freshen_frees, Steps, done, more,
}

-- How often a connection is in a list.
unfoldable pub count : ℕ → List ℕ → ℕ
count x [] = 0
count x (y ∷ ys) = (if x == y then 1 else 0) + count x ys

count-append : (x : ℕ) (xs ys : List ℕ) → count x (xs ++ ys) ≡ count x xs + count x ys
unfolding count
count-append x [] ys = omega arith
count-append x (y ∷ xs) ys = let e = count-append x xs ys in omega (arith, e)

-- Whether Freshen_ has passed the semaphore.
abbrev pub past_of : Freshen → ℕ
past_of (past_sem n) = 1
past_of _ = 0

-- Freshen_ holds the lock inside its loop, with all of its rounds to go; it never has a connection.
abbrev pub IsAt : Bool → ℕ → Freshen → Type 0
IsAt locked max resting = locked ≡ false
IsAt locked max (looping n) = (locked ≡ true) × (n ≡ max)
IsAt locked max (past_sem n) = (locked ≡ true) × (0 < max)
IsAt locked max (holding n sql) = ⊥

-- The queue has a connection for every unit of the semaphore and everybody past it, and each of the
-- connections is in the queue or out as often as it was made.
pub record IsSound (conns : List ℕ) (p : SqlConnPool) : Type 0 where
  pub counted : length p.conn_que ≡ p.sem + p.past_wait + past_of p.freshen
  pub kept : (x : ℕ) → count x p.conn_que + count x p.out ≡ count x conns
  pub at : IsAt p.locked p.max_conn p.freshen
  pub all : p.max_conn ≡ length conns

front_of-IsSound :
    (conns : List ℕ) (p q : SqlConnPool) (sql : ℕ) (xs : List ℕ)
    → p.conn_que ≡ xs
    → 0 < p.past_wait
    → front_of p xs ≡ some (sql, q)
    → IsSound conns p
    → IsSound conns q
unfolding count
front_of-IsSound conns p q sql [] e w f s = absurd (none-some f)
front_of-IsSound conns p q sql (y ∷ rest) e w f s =
    let n : length p.conn_que ≡ suc (length rest) = ap length e in
    let same = ap (λ (r : ℕ × SqlConnPool). r.1) (some_inj f) in
    subst (IsSound conns) same (record {
      counted = omega (arith, n, s.counted, w);
      kept = λ x. omega (arith, ap (count x) e, s.kept x);
      at = s.at;
      all = s.all;
    })

at_with :
    {conns : List ℕ} {p : SqlConnPool} {f : Freshen}
    → IsSound conns p
    → p.freshen ≡ f
    → IsAt p.locked p.max_conn f
at_with {p = p} s e = subst (IsAt p.locked p.max_conn) e s.at

Step-IsSound : {conns : List ℕ} {p q : SqlConnPool} → Step p q → IsSound conns p → IsSound conns q
unfolding sem_wait get_conn free_conn freshen_begin freshen_end freshen_wait count
Step-IsSound (waits p h) s = record {
  counted = omega (arith, s.counted, h);
  kept = s.kept;
  at = s.at;
  all = s.all;
}
Step-IsSound {conns = conns} (gets p q sql l w f) s =
    front_of-IsSound conns p q sql p.conn_que refl w f s
Step-IsSound (frees p sql before after l o) s =
    let c = length-append p.conn_que (sql ∷ []) in
    record {
      counted = omega (arith, s.counted, c);
      kept = λ x.
          let n = ap (count x) o in
          let a = count-append x before (sql ∷ after) in
          let b = count-append x before after in
          let d = count-append x p.conn_que (sql ∷ []) in omega (arith, s.kept x, n, a, b, d);
      at = s.at;
      all = s.all;
    }
Step-IsSound (begins p l e) s = record {
  counted = s.counted ∙ ap (λ (f : Freshen). p.sem + p.past_wait + past_of f) e;
  kept = s.kept;
  at = (refl, refl);
  all = s.all;
}
Step-IsSound (ends p e) s = record {
  counted = s.counted ∙ ap (λ (f : Freshen). p.sem + p.past_wait + past_of f) e;
  kept = s.kept;
  at = refl;
  all = s.all;
}
Step-IsSound (freshen_waits p n e h m) s =
    let (l, same) = at_with s e in
    let c = s.counted ∙ ap (λ (f : Freshen). p.sem + p.past_wait + past_of f) e in
    record {
      counted = omega (arith, c, m);
      kept = s.kept;
      at = (l, omega (arith, same, h));
      all = s.all;
    }
Step-IsSound (freshen_gets p q n l e f) s = Bool-contra p.locked (at_with s e).0 l
Step-IsSound (freshen_frees p n sql l e) s = absurd (at_with s e)

Steps-IsSound : {conns : List ℕ} {p q : SqlConnPool} → Steps p q → IsSound conns p → IsSound conns q
Steps-IsSound (done p) s = s
Steps-IsSound (more ps step) s = Step-IsSound step (Steps-IsSound ps s)

front_of-found :
    (p : SqlConnPool) (xs : List ℕ)
    → 0 < length xs
    → (sql : ℕ) × (q : SqlConnPool) × (front_of p xs ≡ some (sql, q))
front_of-found p [] h = absurd (omega arith)
front_of-found p (sql ∷ rest) h =
    (sql, record p { conn_que = rest; past_wait = p.past_wait - 1; out = sql ∷ p.out }, refl)

-- The connections are as they were, and mtx_ is held.
abbrev pub IsStuck : SqlConnPool → SqlConnPool → Type 0
IsStuck p q = (q.conn_que ≡ p.conn_que) × (q.out ≡ p.out) × (q.locked ≡ true)

Step-IsStuck :
    {conns : List ℕ} {p q : SqlConnPool}
    → Step p q
    → IsSound conns p
    → 0 < length conns
    → p.locked ≡ true
    → IsStuck p q
unfolding sem_wait freshen_wait
Step-IsStuck (waits p h) s m f = (refl, refl, f)
Step-IsStuck (gets p q sql l w g) s m f = Bool-contra p.locked f l
Step-IsStuck (frees p sql before after l o) s m f = Bool-contra p.locked f l
Step-IsStuck (begins p l e) s m f = Bool-contra p.locked f l
Step-IsStuck (ends p e) s m f = absurd (omega (arith, (at_with s e).1, s.all, m))
Step-IsStuck (freshen_waits p n e h k) s m f = (refl, refl, f)
Step-IsStuck (freshen_gets p q n l e g) s m f = Bool-contra p.locked f l
Step-IsStuck (freshen_frees p n sql l e) s m f = Bool-contra p.locked f l

Steps-IsStuck :
    {conns : List ℕ} {p q : SqlConnPool}
    → Steps p q
    → IsSound conns p
    → 0 < length conns
    → p.locked ≡ true
    → IsStuck p q
Steps-IsStuck (done p) s m f = (refl, refl, f)
Steps-IsStuck (more ps step) s m f =
    let (a, b, c) = Steps-IsStuck ps s m f in
    let (x, y, z) = Step-IsStuck step (Steps-IsSound ps s) m c in (x ∙ a, y ∙ b, z)

-- Whatever the threads do to an open pool, the queue, the semaphore and those past it agree, each of
-- the connections that Init made is in the queue or out, and a caller past the semaphore finds one.
-- But once Freshen_ has taken the lock of a pool that has connections, it never gets one of them
-- itself, the lock stays held, and no connection is ever taken or given back again.
pub found_until_freshened :
    (answers : List (Option ℕ)) (p : SqlConnPool)
    → Steps (init answers) p
    → IsSound (connect answers) p
      × (0 < p.past_wait → (sql : ℕ) × (q : SqlConnPool) × (get_conn p ≡ some (sql, q)))
      × ((q : SqlConnPool)
          → 0 < length (connect answers)
          → p.locked ≡ true
          → Steps p q
          → IsStuck p q)
unfolding init get_conn count
found_until_freshened answers p run =
    let s : IsSound (connect answers) p =
      Steps-IsSound run
        (record { counted = omega arith; kept = λ x. omega arith; at = refl; all = refl }) in
    (
      s,
      λ w. front_of-found p p.conn_que (omega (arith, s.counted, w)),
      λ q m f more_steps. Steps-IsStuck more_steps s m f,
    )
