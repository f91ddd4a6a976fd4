-- ===== src/TrackerResponse/Private.antt =====
-- httpresponse.cpp of the tracker: the storage node for the private files of a user.
use dfs_system.Base.{
  ℕ, ◌≡◌, refl, sym, ap, ◌∙◌, true, false, List, [], ◌∷◌, Option, none, some, if◌then◌else◌,
  Bool-contra, Option-cases, none-some, some_inj, ◌⊎◌, inl, inr,
}
use dfs_system.Status.{Status, handle_init, handle_head, handle_body, handle_complete, handle_error}
use dfs_system.HttpRequest.Process.{at_error}
use dfs_system.TrackerGroup.{Node, Tracker}
use dfs_system.TrackerResponse.{Surroundings}
use dfs_system.TrackerResponse.Server.{
  first_here, first_with, is_4, update_server, private_found, private_in, private_answer,
}

not_4 :
    (env : Surroundings) (fd : ℕ) (node : Node) (s : Status)
    → env.msg_status fd ≡ s
    → at_error s ≡ false
    → is_4 env fd node ≡ false
not_4 env fd node handle_init e h = rw e refl
not_4 env fd node handle_head e h = rw e refl
not_4 env fd node handle_body e h = rw e refl
not_4 env fd node handle_complete e h = rw e refl
not_4 env fd node handle_error e h = Bool-contra true refl h

-- Where the connections are fine no member passes the test.
no_member :
    (env : Surroundings) (nodes : ℕ → Option Node) (fds : List ℕ)
    → ((fd : ℕ) → at_error (env.msg_status fd) ≡ false)
    → (first_with (is_4 env) nodes fds ≡ none) ⊎ (first_with (is_4 env) nodes fds ≡ some none)
unfolding first_with
no_member env nodes [] h = inr refl
no_member env nodes (fd ∷ fds) h =
    let rest = first_with (is_4 env) nodes fds in
    elim (Option-cases (nodes fd)) [
      | inl n ↦ inl (ap (first_here (is_4 env) fd rest) n)
      | inr (node, n) ↦
          let no = not_4 env fd node (env.msg_status fd) refl (h fd) in
          elim (no_member env nodes fds h) [
            | inl r ↦ inl (ap (first_here (is_4 env) fd rest) n ∙ rw no r)
            | inr r ↦ inr (ap (first_here (is_4 env) fd rest) n ∙ rw no r)
          ]
    ]

private_in-nobody :
    (env : Surroundings) (user text : List ℕ) (o : Option Tracker) (t' : Tracker)
    → ((fd : ℕ) → at_error (env.msg_status fd) ≡ false)
    → private_in env user o ≡ some (text, t')
    → (text ≡ []) × (o ≡ some t')
unfolding private_found
private_in-nobody env user text none t' h e = absurd (none-some e)
private_in-nobody env user text (some t) t' h e = elim (no_member env t.nodes (t.group user) h) [
  | inl n ↦ absurd (none-some (sym (ap (private_found env user t) n) ∙ e))
  | inr n ↦
      let w : ◌≡◌ {A = List ℕ × Tracker} ([], t) (text, t') =
        some_inj (sym (ap (private_found env user t) n) ∙ e) in
      (sym (ap (λ (x : List ℕ × Tracker). x.0) w), ap (λ (x : List ℕ × Tracker). some x.1) w)
]

-- When no connection of a storage node is in the state of an error, /get_private_server has no
-- address to answer with, whatever nodes are active: the body is empty, and the maps are as before or
-- as updateServer leaves them.
pub private_answer-nobody :
    (env : Surroundings) (user text : List ℕ) (t t' : Tracker)
    → ((fd : ℕ) → at_error (env.msg_status fd) ≡ false)
    → private_answer env user t ≡ some (text, t')
    → (text ≡ []) × ((if t.flag then update_server env user t else some t) ≡ some t')
unfolding private_answer
private_answer-nobody env user text t t' h e =
    private_in-nobody env user text (if t.flag then update_server env user t else some t) t' h e
