-- ===== src/TrackerRequest/Entitled.antt =====
-- httprequest.cpp of the tracker: who is logged in has shown a cookie, a password or is new.
use dfs_system.Base.{
  ℕ, ◌≡◌, ◌⊎◌, refl, sym, ap, ◌∙◌, Bool, true, false, ◌&&◌, ◌||◌, List, [], ◌∷◌, ◌++◌, Option, none,
  some, arith, ◌==◌, length, codes, str_eq, str_eq→eq, Bool-cases, Bool-contra, inl, inr,
}
use mathlib.Core.List.{append_assoc}
use dfs_system.ConsistentHash.{get_group}
use dfs_system.HttpRequest.{lookup}
use dfs_system.TrackerRequest.{Request, Login, logged_in, has}
use dfs_system.TrackerRequest.Verify.{
  Surroundings, select_cookie, select_user, insert_user, log_in, cookie_row, verify_cookie,
  is_login, is_register, no_row, user_row, store_cookie, verify_form, verify, query, unless_done,
}

abbrev pub is_in : Login → Bool
is_in logged_in = true
is_in _ = false

abbrev pub name_of : Request → List ℕ
name_of r = lookup (codes "username") r.msg_body

abbrev pub pass_of : Request → List ℕ
pass_of r = lookup (codes "password") r.msg_body

-- The orders before those that Verify gives for a form: the ones before it, and that for the cookie if
-- there is one.
abbrev pub AreBefore : Request → List (List ℕ) → Type 0
AreBefore r orders = (orders ≡ r.orders) ⊎ (orders ≡ r.orders ++ select_cookie r.password ∷ [])

-- What entitles the user of `q`, by the request `r` before it was verified.
pub data Entitled (env : Surroundings) (r q : Request) : Type 0 where
  -- The database has a user for the cookie, and the cookie's name is the digest of theirs.
  by_cookie :
      (name c : List ℕ)
      → env.row r.orders (select_cookie r.password) ≡ some (name, c)
      → env.md5 name ≡ r.username
      → q.username ≡ name
      → Entitled env r q
  -- The database has the password of the form for the name of the form.
  by_password :
      (orders : List (List ℕ)) (c : List ℕ)
      → AreBefore r orders
      → env.row orders (select_user (name_of r)) ≡ some (c, pass_of r)
      → q.username ≡ name_of r
      → Entitled env r q
  -- The name of the form was free, and was registered with its password.
  by_registration :
      (orders more : List (List ℕ))
      → AreBefore r orders
      → is_register r.path ≡ true
      → env.row orders (select_user (name_of r)) ≡ none
      → q.username ≡ name_of r
      → q.orders
        ≡ (orders ++ select_user (name_of r) ∷ []) ++ insert_user (name_of r) (pass_of r) ∷ more
      → Entitled env r q

pub record IsVerified (env : Surroundings) (r q : Request) : Type 0 where
  pub entitled : Entitled env r q
  pub group : q.group_name ≡ get_group env.hasher q.username env.ring

query-Entitled :
    {env : Surroundings} {r : Request} (o : List ℕ) (q : Request)
    → Entitled env r q
    → Entitled env r (query o q)
query-Entitled o q (by_cookie name c e m u) = by_cookie name c e m u
query-Entitled o q (by_password orders c b e u) = by_password orders c b e u
query-Entitled {r = r} o q (by_registration orders more b g e u os) =
    by_registration orders (more ++ o ∷ []) b g e u (
      ap (λ (xs : List (List ℕ)). xs ++ o ∷ []) os
      ∙ append_assoc (orders ++ select_user (name_of r) ∷ [])
          (insert_user (name_of r) (pass_of r) ∷ more) (o ∷ []))

store_cookie-IsVerified :
    {env : Surroundings} {r : Request} (q : Request)
    → IsVerified env r q
    → IsVerified env r (store_cookie q)
unfolding store_cookie
store_cookie-IsVerified q v = elim (Bool-cases (length q.password == 0)) [
  | inl e ↦ rw e v
  | inr e ↦ rw e (record { entitled = query-Entitled _ q v.entitled; group = v.group })
]

store_cookie-login_status : (q : Request) → (store_cookie q).login_status ≡ q.login_status
unfolding store_cookie
store_cookie-login_status q = ground arith

-- The form's two values give an entitlement, or nobody is logged in.
user_row-IsVerified :
    (env : Surroundings) (r q : Request) (os : List (List ℕ)) (row : Option (List ℕ × List ℕ))
    → AreBefore r os
    → q.orders ≡ os ++ select_user (name_of r) ∷ []
    → q.path ≡ r.path
    → env.row os (select_user (name_of r)) ≡ row
    → is_in (user_row env (name_of r) (pass_of r) row q).login_status ≡ true
    → IsVerified env r (user_row env (name_of r) (pass_of r) row q)
unfolding user_row no_row log_in
user_row-IsVerified env r q os (some (c, pwd)) b e p f g =
    elim (Bool-cases (str_eq pwd (pass_of r))) [
      | inl m ↦ rw m (record {
        entitled =
            by_password os c b (f ∙ ap (λ (w : List ℕ). some (c, w)) (str_eq→eq pwd (pass_of r) m))
              refl;
        group = refl;
      })
      | inr m ↦ absurd (ground (arith, m, g))
    ]
user_row-IsVerified env r q os none b e p f g = elim (Bool-cases (is_login q.path)) [
  | inl l ↦ absurd (ground (arith, l, g))
  | inr l ↦ elim (Bool-cases (is_register q.path)) [
    | inl h ↦
        rw (l, h)
          (record {
            entitled =
                by_registration os [] b (sym (ap is_register p) ∙ h) f refl
                  (ap (λ (xs : List (List ℕ)). xs ++ insert_user (name_of r) (pass_of r) ∷ []) e);
            group = refl;
          })
    | inr h ↦ absurd (ground (arith, l, h, g))
  ]
]

-- The request with another user and other orders, which is what the cookie may change.
abbrev pub as_user : List ℕ → List ℕ → List (List ℕ) → Request → Request
as_user u w os r = record r { username = u; password = w; orders = os }

verify_form-IsVerified :
    (env : Surroundings) (r : Request) (u w : List ℕ) (os : List (List ℕ))
    → AreBefore r os
    → is_in r.login_status ≡ false
    → is_in (verify_form env (as_user u w os r)).login_status ≡ true
    → IsVerified env r (verify_form env (as_user u w os r))
unfolding verify_form
verify_form-IsVerified env r u w os b n g =
    let q : Request = as_user u w os r in
    let asked : Request = query (select_user (name_of r)) q in
    let row = env.row os (select_user (name_of r)) in
    let found : Request = user_row env (name_of r) (pass_of r) row asked in
    elim (Bool-cases (has (codes "username") r.msg_body && has (codes "password") r.msg_body)) [
      | inr h ↦ absurd (Bool-contra _ g (rw h n))
      | inl h ↦ elim (Bool-cases (length (name_of r) == 0 || length (pass_of r) == 0)) [
        | inl z ↦ absurd (Bool-contra _ g (rw (h, z) n))
        | inr z ↦ elim (Bool-cases (env.fails os (select_user (name_of r)))) [
          | inl f ↦ absurd (Bool-contra _ g (rw (h, z, f) n))
          | inr f ↦
              let g' : is_in (store_cookie found).login_status ≡ true =
                sym (rw (h, z, f) refl) ∙ g in
              rw (h, z, f)
                (store_cookie-IsVerified found (
                  user_row-IsVerified env r asked os row b refl refl refl
                    (sym (ap is_in (store_cookie-login_status found)) ∙ g')))
        ]
      ]
    ]

cookie_row-IsVerified :
    (env : Surroundings) (r : Request) (row : Option (List ℕ × List ℕ))
    → is_in r.login_status ≡ false
    → env.row r.orders (select_cookie r.password) ≡ row
    → is_in (unless_done env (cookie_row env row (query (select_cookie r.password) r))).login_status
      ≡ true
    → IsVerified env r (unless_done env (cookie_row env row (query (select_cookie r.password) r)))
unfolding cookie_row
cookie_row-IsVerified env r none n e g =
    verify_form-IsVerified env r [] [] (r.orders ++ select_cookie r.password ∷ []) (inr refl) n g
cookie_row-IsVerified env r (some (name, c)) n e g =
    elim (Bool-cases (str_eq (env.md5 name) r.username)) [
      | inl m ↦ rw m (record {
        entitled = by_cookie name c e (str_eq→eq (env.md5 name) r.username m) refl;
        group = refl;
      })
      | inr m ↦ rw m (
          verify_form-IsVerified env r [] [] (r.orders ++ select_cookie r.password ∷ []) (inr refl)
            n (sym (rw m refl) ∙ g))
    ]

-- When Verify has logged a user in who was not, then the database, asked before anything else that
-- Verify gives it, had a user for the cookie of the request whose digest is the cookie's name; or,
-- after no other order than that for the cookie, it had the password of the form for the name of the
-- form; or the page was that of registration, the name was free then, and it has been registered with
-- the password. The name is that of this user, and the group the one that the ring gives for it.
pub verify-IsVerified :
    (env : Surroundings) (r : Request)
    → is_in r.login_status ≡ false
    → is_in (verify env r).login_status ≡ true
    → IsVerified env r (verify env r)
unfolding verify verify_cookie
verify-IsVerified env r n g =
    elim (Bool-cases (r.is_set_cookie || length r.username == 0 || length r.password == 0)) [
      | inl s ↦ rw s (
          verify_form-IsVerified env r r.username r.password r.orders (inl refl) n
            (sym (rw s refl) ∙ g))
      | inr s ↦ rw s (
          cookie_row-IsVerified env r (env.row r.orders (select_cookie r.password)) n refl
            (sym (rw s refl) ∙ g))
    ]
