-- ===== src/TrackerResponse/Public.antt =====
-- httpresponse.cpp of the tracker: the storage node that takes the uploads of the public files.
use dfs_system.Base.{
  ℕ, ◌≡◌, refl, sym, ap, subst, ◌∙◌, Bool, true, false, List, [], ◌∷◌, Option, none, some, arith,
  if◌then◌else◌, ◌==◌, ==_iff, Bool-cases, Bool-contra, Option-cases, none-some, some_inj, inl, inr,
  codes,
}
use dfs_system.TrackerGroup.{Node, Tracker, active, set_node, with_status, change_flag}
use dfs_system.TrackerResponse.{Surroundings}
use dfs_system.TrackerResponse.Server.{
  sync_rcvd, first_here, set_here, first_with, address, set_all, is_active, public_members, chosen,
  is_gone, public_found, public_answer,
}

unfoldable pub mem : ℕ → List ℕ → Bool
mem f [] = false
mem f (g ∷ gs) = let rest = mem f gs in if f == g then true else rest

with_status-twice : (s : ℕ) (o : Option Node) → with_status s (with_status s o) ≡ with_status s o
with_status-twice s none = refl
with_status-twice s (some node) = refl

is_gone-with_status : (s : ℕ) (o : Option Node) → is_gone (with_status s o) ≡ is_gone o
is_gone-with_status s none = refl
is_gone-with_status s (some node) = refl

-- What a loop over a group with one status makes of every node.
set_all-nodes :
    (s : ℕ) (fds : List ℕ) (t t' : Tracker)
    → set_all s fds t ≡ some t'
    → ((f : ℕ) → t'.nodes f ≡ (if mem f fds then with_status s (t.nodes f) else t.nodes f))
      × (t'.group ≡ t.group)
unfolding set_all mem
set_all-nodes s [] t t' e =
    let q : t ≡ t' = some_inj e in
    ((λ f. ap (λ (u : Tracker). u.nodes f) (sym q)), ap (λ (u : Tracker). u.group) (sym q))
set_all-nodes s (g ∷ gs) t t' e = elim (Option-cases (t.nodes g)) [
  | inl n ↦
      absurd (none-some (sym (ap (λ (o : Option Node). set_here s g (set_all s gs) o t) n) ∙ e))
  | inr (node, n) ↦
      let t1 : Tracker = set_node g (with_status s (some node)) t in
      let (all, same) =
        set_all-nodes s gs t1 t'
          (sym (ap (λ (o : Option Node). set_here s g (set_all s gs) o t) n) ∙ e) in
      (
        (λ f. elim (Bool-cases (f == g)) [
          | inl h ↦
              let tn : t.nodes f ≡ some node = ap t.nodes ((==_iff f g).0 h) ∙ n in
              all f ∙ elim (Bool-cases (mem f gs)) [
                | inl m ↦ rw (h, m, tn) refl
                | inr m ↦ rw (h, m, tn) refl
              ]
          | inr h ↦ all f ∙ rw h refl
        ]),
        same,
      )
]

-- The first member that passes the test is there and passes it.
first_with-found :
    (test : ℕ → Node → Bool) (nodes : ℕ → Option Node) (fds : List ℕ) (fd : ℕ) (node : Node)
    → first_with test nodes fds ≡ some (some (fd, node))
    → (nodes fd ≡ some node) × (test fd node ≡ true)
unfolding first_with
first_with-found test nodes [] fd node e = absurd (none-some (some_inj e))
first_with-found test nodes (g ∷ gs) fd node e = elim (Option-cases (nodes g)) [
  | inl n ↦ absurd (none-some (sym (ap (first_here test g (first_with test nodes gs)) n) ∙ e))
  | inr (m, n) ↦
      let e' = sym (ap (first_here test g (first_with test nodes gs)) n) ∙ e in
      elim (Bool-cases (test g m)) [
        | inl p ↦
            let q : ◌≡◌ {A = Option (Option (ℕ × Node))} (some (some (g, m)))
                (some (some (fd, node))) =
              sym (rw p refl) ∙ e' in
            let w : ◌≡◌ {A = ℕ × Node} (g, m) (fd, node) = some_inj (some_inj q) in
            let a : g ≡ fd = ap (λ (x : ℕ × Node). x.0) w in
            let b : m ≡ node = ap (λ (x : ℕ × Node). x.1) w in
            (
              sym (ap nodes a) ∙ n ∙ ap (λ (x : Node). some x) b,
              sym (ap (λ (x : ℕ × Node). test x.0 x.1) w) ∙ p,
            )
        | inr p ↦ first_with-found test nodes gs fd node (sym (rw p refl) ∙ e')
      ]
]

-- Where only the member that was found is left active, it is found again.
first_with-again :
    (nodes after : ℕ → Option Node) (fds : List ℕ) (fd : ℕ) (node node' : Node)
    → first_with is_active nodes fds ≡ some (some (fd, node))
    → ((f : ℕ) → mem f fds ≡ true → (f == fd) ≡ false → after f ≡ with_status sync_rcvd (nodes f))
    → after fd ≡ some node'
    → is_active fd node' ≡ true
    → first_with is_active after fds ≡ some (some (fd, node'))
unfolding first_with mem
first_with-again nodes after [] fd node node' e others own act = absurd (none-some (some_inj e))
first_with-again nodes after (g ∷ gs) fd node node' e others own act =
    let rest = first_with is_active after gs in
    elim (Bool-cases (g == fd)) [
      | inl h ↦
          let k : g ≡ fd = (==_iff g fd).0 h in
          ap (first_here is_active g rest) (ap after k ∙ own) ∙ rw (act, k) refl
      | inr h ↦ elim (Option-cases (nodes g)) [
        | inl n ↦
            absurd
              (none-some (sym (ap (first_here is_active g (first_with is_active nodes gs)) n) ∙ e))
        | inr (m, n) ↦
            let e' = sym (ap (first_here is_active g (first_with is_active nodes gs)) n) ∙ e in
            let ag : after g ≡ some (record m { status = sync_rcvd }) =
              others g (ground arith) h ∙ ap (with_status sync_rcvd) n in
            ap (first_here is_active g rest) ag ∙ elim (Bool-cases (m.status == active)) [
              | inl p ↦
                  let q : ◌≡◌ {A = Option (Option (ℕ × Node))} (some (some (g, m)))
                      (some (some (fd, node))) =
                    sym (rw p refl) ∙ e' in
                  let a : g ≡ fd = ap (λ (x : ℕ × Node). x.0) (some_inj (some_inj q)) in
                  absurd (Bool-contra (g == fd) ((==_iff g fd).1 a) h)
              | inr p ↦
                  first_with-again nodes after gs fd node node' (sym (rw p refl) ∙ e')
                    (λ f i o. others f (ground (arith, i)) o) own act
            ]
      ]
    ]

set_all-again :
    (s : ℕ) (fds : List ℕ) (t u t' : Tracker)
    → set_all s fds t ≡ some u
    → ((f : ℕ) → is_gone (t.nodes f) ≡ false → is_gone (t'.nodes f) ≡ false)
    → (u' : Tracker) × (set_all s fds t' ≡ some u')
unfolding set_all
set_all-again s [] t u t' e h = (t', refl)
set_all-again s (g ∷ gs) t u t' e h = elim (Option-cases (t.nodes g)) [
  | inl n ↦
      absurd (none-some (sym (ap (λ (o : Option Node). set_here s g (set_all s gs) o t) n) ∙ e))
  | inr (m, n) ↦ elim (Option-cases (t'.nodes g)) [
    | inl n' ↦ absurd (Bool-contra (is_gone (t'.nodes g)) (ap is_gone n') (h g (ap is_gone n)))
    | inr (m', n') ↦
        let (u', d) =
          set_all-again s gs (set_node g (with_status s (some m)) t) u
            (set_node g (with_status s (some m')) t')
            (sym (ap (λ (o : Option Node). set_here s g (set_all s gs) o t) n) ∙ e)
            (λ f k. elim (Bool-cases (f == g)) [
              | inl q ↦ rw q refl
              | inr q ↦ rw q (h f (sym (rw q refl) ∙ k))
            ]) in
        (u', ap (λ (o : Option Node). set_here s g (set_all s gs) o t') n' ∙ d)
  ]
]

-- The maps behind an answer with the address of `fd`, where `u` are those behind synPULGroup.
abbrev behind : Surroundings → ℕ → Tracker → Tracker
behind env fd u = set_node fd (with_status active (u.nodes fd)) (change_flag env.now env.time_out u)

public_found-again :
    (env : Surroundings) (t u : Tracker) (fd : ℕ) (node : Node)
    → first_with is_active t.nodes (public_members t) ≡ some (some (fd, node))
    → set_all sync_rcvd (public_members t) t ≡ some u
    → (t'' : Tracker) × (public_answer env (behind env fd u) ≡ some (address env node, t''))
unfolding public_answer public_found change_flag
public_found-again env t u fd node e s =
    let members = public_members t in
    let t' = behind env fd u in
    let (all, same) = set_all-nodes sync_rcvd members t u s in
    let (there, act) = first_with-found is_active t.nodes members fd node e in
    let node' : Node = record node { status = active } in
    let own : t'.nodes fd ≡ some node' =
      let z : (fd == fd) ≡ true = ground arith in
      rw z (
        ap (with_status active) (all fd) ∙ elim (Bool-cases (mem fd members)) [
          | inl m ↦ rw (m, there) refl
          | inr m ↦ rw (m, there) refl
        ]) in
    let again : first_with is_active t'.nodes (public_members t') ≡ some (some (fd, node')) =
      ap (λ (g : List ℕ → List ℕ). first_with is_active t'.nodes (g (codes "public"))) same
      ∙ first_with-again t.nodes t'.nodes members fd node node' e
          (λ f i o. rw o (all f ∙ rw i refl)) own refl in
    let (u', d) = set_all-again sync_rcvd members t u t' s (λ f k. elim (Bool-cases (f == fd)) [
      | inl q ↦ ap is_gone (ap t'.nodes ((==_iff f fd).0 q) ∙ own)
      | inr q ↦ rw q (
          ap is_gone (all f) ∙ elim (Bool-cases (mem f members)) [
            | inl m ↦ rw m (is_gone-with_status sync_rcvd (t.nodes f) ∙ k)
            | inr m ↦ rw m k
          ])
    ]) in
    let d' : set_all sync_rcvd (public_members t') t' ≡ some u' =
      ap (λ (g : List ℕ → List ℕ). set_all sync_rcvd (g (codes "public")) t') same ∙ d in
    (behind env fd u', ap (public_found env t') again ∙ ap (chosen env fd node') d')

-- When /get_public_server has answered with the address of a storage node, or with none, the next
-- request for it gets the same answer: of the group "public" that node alone has been left active,
-- until others report that they are.
pub public_answer-again :
    (env : Surroundings) (t t' : Tracker) (text : List ℕ)
    → public_answer env t ≡ some (text, t')
    → (t'' : Tracker) × (public_answer env t' ≡ some (text, t''))
unfolding public_answer public_found
public_answer-again env t t' text e = found (first_with is_active t.nodes (public_members t)) refl
  where
    Again : List ℕ × Tracker → Type 0
    Again w = (t'' : Tracker) × (public_answer env w.1 ≡ some (w.0, t''))

    chosen_again :
        (fd : ℕ) (node : Node) (o : Option Tracker)
        → first_with is_active t.nodes (public_members t) ≡ some (some (fd, node))
        → set_all sync_rcvd (public_members t) t ≡ o
        → chosen env fd node o ≡ some (text, t')
        → Again (text, t')
    chosen_again fd node none q s c = absurd (none-some c)
    chosen_again fd node (some u) q s c =
        subst Again (some_inj c) (public_found-again env t u fd node q s)

    found :
        (o : Option (Option (ℕ × Node)))
        → first_with is_active t.nodes (public_members t) ≡ o
        → Again (text, t')
    found none q = absurd (none-some (sym (ap (public_found env t) q) ∙ e))
    found (some none) q =
        subst Again (some_inj (sym (ap (public_found env t) q) ∙ e)) (t, ap (public_found env t) q)
    found (some (some (fd, node))) q =
        chosen_again fd node (set_all sync_rcvd (public_members t) t) q refl
          (sym (ap (public_found env t) q) ∙ e)
