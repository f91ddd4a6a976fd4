-- ===== src/TrackerConn/Online.antt =====
-- httpconn.cpp of the tracker: who stays online when a connection ends.
use dfs_system.Base.{ℕ, ◌≡◌, refl, ap, ◌∙◌, true, List, Option, some, Bool-cases, inl, inr}
use dfs_system.HeapTimer.{HeapTimer, update, erase}
use dfs_system.StorageNode.Sending.{Answer}
use dfs_system.TrackerGroup.{Tracker}
use dfs_system.TrackerRequest as Request
use dfs_system.TrackerRequest.{Request, is_keep_alive}
use dfs_system.TrackerResponse as Response
use dfs_system.TrackerResponse.{Response}
use dfs_system.TrackerResponse.Sending as Sender
use dfs_system.TrackerConn.{
  HttpConn, Shared, Clock, go_off, with_timer, and_close, close, destroy, maybe_written, and_write,
  write_process,
}

close-tracker : (c : HttpConn) (sh : Shared) → (close c sh).1.tracker ≡ sh.tracker
unfolding close
close-tracker c sh = elim (Bool-cases c.is_close) [ inl b ↦ rw b refl | inr b ↦ rw b refl ]

-- When WriteProcess has sent the answer to a request that keeps the connection alive, whoever is
-- online stays so when the connection is destroyed before the next request, if the timer of the
-- connection can be erased: the user's name is lost by then.
pub write_process-keeps :
    (env : Response.Surroundings) (clock : Clock) (fd : ℕ) (answers : List Answer) (c : HttpConn)
    (sh : Shared) (timer left : HeapTimer) (wire : List ℕ) (p : Response) (r : Request)
    (t : Tracker)
    → update clock.now fd clock.time_out sh.timer ≡ some timer
    → Sender.process env answers c.request sh.tracker c.response ≡ some ((0, wire, p), r, t)
    → is_keep_alive r ≡ true
    → erase fd timer ≡ some left
    → (c' : HttpConn) × (sh' gone : Shared) × (write_process env clock fd answers c sh
        ≡ some (0, wire, c', sh'))
      × (destroy fd c' sh' ≡ some gone)
      × (gone.tracker.online ≡ t.online)
unfolding write_process destroy go_off Request.init
write_process-keeps env clock fd answers c sh timer left wire p r t u s k e =
    let sh1 : Shared = record sh { timer = timer } in
    let c' : HttpConn = record c { response = p; request = Request.init r } in
    let sh' : Shared = record sh1 { tracker = t } in
    let sh2 : Shared = record sh' { timer = left } in
    (
      c',
      sh',
      (close c' sh2).1,
      ap (λ (o : Option HeapTimer). and_write env answers c (with_timer sh o)) u
          ∙ ap (maybe_written c sh1) s
          ∙ rw k refl,
      ap (λ (o : Option HeapTimer). and_close c' (with_timer sh' o)) e,
      ap (λ (x : Tracker). x.online) (close-tracker c' sh2),
    )
