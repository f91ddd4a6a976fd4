-- ===== src/BlockDeque/Closing.antt =====
-- blockqueue.h: Close, which Log::~Log and Log::ShutDown call before they join the log thread.
use dfs_system.Base.{◌≡◌, refl, []}
use dfs_system.BlockDeque.{BlockDeque, sleeps, refused, pop, pop_woken, close}

module _ {ℓ} {A : Type ℓ} where
  -- After Close a consumer whose wait is over is refused, but one that calls pop afresh goes to
  -- sleep on the empty queue, with nobody left to wake it: `isClose_` is read only behind a wait.
  pub pop-close :
      (q : BlockDeque A)
      → ((pop_woken (close q)).0 ≡ refused)
        × ((pop (close q)).0 ≡ sleeps)
        × ((pop (close q)).1.consumers_asleep ≡ 1)
        × ((pop (close q)).1.deq ≡ [])
  unfolding close pop pop_woken
  pop-close q = (refl, refl, refl, refl)
