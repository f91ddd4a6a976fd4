-- ===== src/SqlConnPool.antt =====
-- tracker/src/pool/sqlconnpool.cpp: the pool of connections to the database, its semaphore and its
-- mutex. A connection is a number; the calls of MySQL give them. The storage node's copy does not
-- start the thread of Freshen_.
pub mod Sound
mod Tests
use dfs_system.Base.{
  ℕ, ◌+◌, ◌-◌, ◌<◌, ◌≡◌, Bool, true, false, List, [], ◌∷◌, ◌++◌, Option, none, some, if◌then◌else◌,
  ltb, length,
}

-- Where Freshen_ stands: outside its loop; at the loop's test with the rounds that are left; in the
-- round's GetConn, past sem_wait; in its FreeConn, with the connection.
pub data Freshen : Type 0 where
  resting : Freshen
  looping : ℕ → Freshen
  past_sem : ℕ → Freshen
  holding : ℕ → ℕ → Freshen

-- connQue_, semId_, MAX_CONN_ and stop_; whether Freshen_ holds mtx_, which every other block under it
-- gives back within its step; Freshen_; the callers of GetConn that are past sem_wait, and the
-- connections that are out.
pub record SqlConnPool : Type 0 where
  pub conn_que : List ℕ
  pub sem : ℕ
  pub max_conn : ℕ
  pub stop : Bool
  pub locked : Bool
  pub freshen : Freshen
  pub past_wait : ℕ
  pub out : List ℕ

-- The loop of Init over what mysql_real_connect gives.
unfoldable pub connect : List (Option ℕ) → List ℕ
connect [] = []
connect (none ∷ answers) = connect answers
connect (some sql ∷ answers) = sql ∷ connect answers

unfoldable pub init : List (Option ℕ) → SqlConnPool
unfolding connect
init answers =
    let conns = connect answers in
    record {
      conn_que = conns;
      sem = length conns;
      max_conn = length conns;
      stop = false;
      locked = false;
      freshen = resting;
      past_wait = 0;
      out = [];
    }

-- The sem_wait of GetConn, when it does not block.
unfoldable pub sem_wait : SqlConnPool → SqlConnPool
sem_wait p = record p { sem = p.sem - 1; past_wait = p.past_wait + 1 }

abbrev pub front_of : SqlConnPool → List ℕ → Option (ℕ × SqlConnPool)
front_of p [] = none
front_of p (sql ∷ rest) =
    some (sql, record p { conn_que = rest; past_wait = p.past_wait - 1; out = sql ∷ p.out })

-- The block of GetConn under mtx_; the front of an empty queue is `none`.
unfoldable pub get_conn : SqlConnPool → Option (ℕ × SqlConnPool)
get_conn p = front_of p p.conn_que

-- FreeConn of the connection that is `out` between the two lists.
unfoldable pub free_conn : ℕ → List ℕ → List ℕ → SqlConnPool → SqlConnPool
free_conn sql before after p = record p {
  conn_que = p.conn_que ++ sql ∷ [];
  sem = p.sem + 1;
  out = before ++ after;
}

-- ClosePool.
unfoldable pub close_pool : SqlConnPool → SqlConnPool
close_pool p = if p.stop then p else record p { stop = true; max_conn = 0; conn_que = [] }

-- Freshen_: the lock_guard in front of its loop, and the end of its scope.
unfoldable pub freshen_begin : SqlConnPool → SqlConnPool
freshen_begin p = record p { locked = true; freshen = looping p.max_conn }

unfoldable pub freshen_end : SqlConnPool → SqlConnPool
freshen_end p = record p { locked = false; freshen = resting }

-- A round of the loop: the sem_wait and the locked block of GetConn, and FreeConn.
unfoldable pub freshen_wait : ℕ → SqlConnPool → SqlConnPool
freshen_wait n p = record p { sem = p.sem - 1; freshen = past_sem n }

abbrev pub freshen_front : ℕ → SqlConnPool → List ℕ → Option SqlConnPool
freshen_front n p [] = none
freshen_front n p (sql ∷ rest) = some (record p { conn_que = rest; freshen = holding n sql })

unfoldable pub freshen_get : ℕ → SqlConnPool → Option SqlConnPool
freshen_get n p = freshen_front n p p.conn_que

unfoldable pub freshen_free : ℕ → ℕ → SqlConnPool → SqlConnPool
freshen_free n sql p = record p {
  conn_que = p.conn_que ++ sql ∷ [];
  sem = p.sem + 1;
  freshen = looping (n - 1);
}

-- What the threads do to an open pool. A block under mtx_ needs that nobody holds it, Freshen_ itself
-- included, since std::mutex is not recursive.
pub data Step : SqlConnPool → SqlConnPool → Type 0 where
  waits : (p : SqlConnPool) → 0 < p.sem → Step p (sem_wait p)
  gets :
      (p q : SqlConnPool) (sql : ℕ)
      → p.locked ≡ false
      → 0 < p.past_wait
      → get_conn p ≡ some (sql, q)
      → Step p q
  frees :
      (p : SqlConnPool) (sql : ℕ) (before after : List ℕ)
      → p.locked ≡ false
      → p.out ≡ before ++ sql ∷ after
      → Step p (free_conn sql before after p)
  begins : (p : SqlConnPool) → p.locked ≡ false → p.freshen ≡ resting → Step p (freshen_begin p)
  ends : (p : SqlConnPool) → p.freshen ≡ looping 0 → Step p (freshen_end p)
  freshen_waits :
      (p : SqlConnPool) (n : ℕ)
      → p.freshen ≡ looping n
      → 0 < n
      → 0 < p.sem
      → Step p (freshen_wait n p)
  freshen_gets :
      (p q : SqlConnPool) (n : ℕ)
      → p.locked ≡ false
      → p.freshen ≡ past_sem n
      → freshen_get n p ≡ some q
      → Step p q
  freshen_frees :
      (p : SqlConnPool) (n sql : ℕ)
      → p.locked ≡ false
      → p.freshen ≡ holding n sql
      → Step p (freshen_free n sql p)

pub data Steps : SqlConnPool → SqlConnPool → Type 0 where
  done : (p : SqlConnPool) → Steps p p
  more : {p q r : SqlConnPool} → Steps p q → Step q r → Steps p r
