-- ===== src/HeapTimer/Callbacks.antt =====
-- heaptimer.cpp: the operations that run callbacks. `run_cb` says what a callback does to the timer
-- (the tracker's own one, ListenHttp::CloseUser, erases the timer's id); `clock` gives the
-- successive readings of Clock::now().
use dfs_system.Base.{
  ℕ, zero, suc, ◌+◌, ◌-◌, ◌/◌, Bool, true, false, ◌%◌, ◌^◌, Option, none, some, if◌then◌else◌, ltb,
  leb, ◌==◌, length,
}
use dfs_system.Base.Int.{ℤ, pos, negsuc}
use dfs_system.HeapTimer.{HeapTimer, at, del, erase, pop}

-- duration_cast<MS>(expires - now).count(), rounded towards zero.
unfoldable pub millis : ℕ → ℕ → ℤ
millis expires now =
    if leb now expires
    then pos ((expires - now) / 1_000_000)
    else if (now - expires) / 1_000_000 == 0
    then pos 0
    else negsuc ((now - expires) / 1_000_000 - 1)

-- `int res`, from a size_t: the low 32 bits, read with their sign.
abbrev signed32 : ℕ → ℤ
signed32 n = if ltb n (2 ^ 31) then pos n else negsuc (2 ^ 32 - 1 - n)

unfoldable pub to_int : ℤ → ℤ
to_int (pos n) = signed32 (n % 2 ^ 32)
to_int (negsuc n) = signed32 (2 ^ 32 - 1 - n % 2 ^ 32)

abbrev pub is_positive : ℤ → Bool
is_positive (pos zero) = false
is_positive (pos (suc n)) = true
is_positive (negsuc n) = false

-- ListenHttp::CloseUser deletes the HttpConn, whose destructor erases the timer of its id.
unfoldable pub close_user : ℕ → HeapTimer → HeapTimer
close_user fd t = elim (erase fd t) [ some t' ↦ t' | none ↦ t ]

-- `now` is the reading after tick; the test `res < 0` on a size_t never holds.
unfoldable pub next_tick : ℕ → HeapTimer → ℤ
next_tick now t = if length t.heap == 0 then negsuc 0 else to_int (millis (at t.heap 0).expires now)

module _ (run_cb : ℕ → HeapTimer → HeapTimer) where
  unfoldable pub close : ℕ → HeapTimer → Option HeapTimer
  close id t = if length t.heap == 0 then some t else elim (t.ref id) [
    | some i ↦ if ltb i (length t.heap) then some (del i (run_cb (at t.heap i).cb t)) else none
    | none ↦ some t
  ]

  -- One round of tick's loop for each unit of fuel; the clock is read once a round.
  unfoldable pub tick_loop : ℕ → ℕ → (ℕ → ℕ) → HeapTimer → Option HeapTimer
  tick_loop zero r clock t = none
  tick_loop (suc k) r clock t =
      let rest = tick_loop k (r + 1) clock (pop (run_cb (at t.heap 0).cb t)) in
      if length t.heap == 0
      then some t
      else if is_positive (millis (at t.heap 0).expires (clock r))
      then some t
      else rest

  -- Enough fuel where no callback adds a timer.
  unfoldable pub tick : (ℕ → ℕ) → HeapTimer → Option HeapTimer
  unfolding tick_loop
  tick clock t = tick_loop (length t.heap + 1) 0 clock t

  unfoldable pub get_next_tick : (ℕ → ℕ) → ℕ → HeapTimer → Option (ℤ × HeapTimer)
  get_next_tick clock now t = elim (tick clock t) [
    | some t' ↦ some (next_tick now t', t')
    | none ↦ none
  ]
