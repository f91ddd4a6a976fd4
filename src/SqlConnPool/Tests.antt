-- ===== src/SqlConnPool/Tests.antt =====
-- A pool of two connections, of which the second is lost by MySQL, and the witness.
use dfs_system.Base.{ℕ, ◌<◌, ◌≡◌, refl, true, List, [], ◌∷◌, length, Option, none, some, arith}
use dfs_system.SqlConnPool.{
  SqlConnPool, connect, init, sem_wait, get_conn, close_pool, Steps, done, more, waits, begins,
  freshen_waits, freshen_begin, freshen_wait,
}
use dfs_system.SqlConnPool.Sound.{IsSound, IsStuck, found_until_freshened}

abbrev answers : List (Option ℕ)
answers = some 7 ∷ none ∷ some 8 ∷ []

-- A caller is past the semaphore, and Freshen_ has the lock and is past the semaphore too.
abbrev asked : SqlConnPool
asked = freshen_wait 2 (freshen_begin (sem_wait (init answers)))

asked_step : Steps (init answers) asked
unfolding init connect sem_wait freshen_begin
asked_step =
    more
      (more (more (done (init answers)) (waits (init answers) (omega arith)))
        (begins (sem_wait (init answers)) refl refl))
      (freshen_waits (freshen_begin (sem_wait (init answers))) 2 refl (omega arith) (omega arith))

abbrev queue_in : Option (ℕ × SqlConnPool) → List ℕ
queue_in none = []
queue_in (some (sql, p)) = p.conn_que

get_run : queue_in (get_conn asked) ≡ 8 ∷ []
unfolding get_conn init connect sem_wait freshen_begin freshen_wait
get_run = refl

-- After ClosePool a caller that is past the semaphore finds nothing.
close_run : get_conn (close_pool asked) ≡ none
unfolding get_conn init connect sem_wait freshen_begin freshen_wait close_pool
close_run = refl

found_until_freshened_example :
    IsSound (connect answers) asked
    × (0 < asked.past_wait → (sql : ℕ) × (q : SqlConnPool) × (get_conn asked ≡ some (sql, q)))
    × ((q : SqlConnPool)
        → 0 < length (connect answers)
        → asked.locked ≡ true
        → Steps asked q
        → IsStuck asked q)
found_until_freshened_example = found_until_freshened answers asked asked_step
