-- ===== src/HttpRequest/Form/Pairs.antt =====
-- httprequest.cpp: a form that a browser writes is read back.
use dfs_system.Base.{ℕ, ◌<◌, ◌≡◌, refl, ◌∙◌, true, false, List, [], ◌∷◌, ◌++◌, arith, ◌==◌, length}
use mathlib.Core.List.{append_assoc, append-nil}
use dfs_system.HttpRequest.{Dict, assign}
use dfs_system.HttpRequest.Form.{last_pair, form_loop}

-- Without '=' and '&'.
abbrev pub IsPlain : List ℕ → Type 0
IsPlain [] = Unit
IsPlain (c ∷ s) = ((c == 61) ≡ false) × ((c == 38) ≡ false) × IsPlain s

-- "<key>=<value>&<key>=<value>".
unfoldable pub form : Dict → List ℕ
form [] = []
form ((k, v) ∷ []) = k ++ 61 ∷ v
form ((k, v) ∷ pair ∷ pairs) = k ++ 61 ∷ (v ++ 38 ∷ form (pair ∷ pairs))

unfoldable pub assign_all : Dict → Dict → Dict
unfolding assign
assign_all [] d = d
assign_all ((k, v) ∷ pairs) d = assign_all pairs (assign k v d)

-- Every pair has a name, and neither part has a separator in it.
abbrev pub IsForm : Dict → Type 0
IsForm [] = Unit
IsForm ((k, v) ∷ pairs) = (0 < length k) × IsPlain k × IsPlain v × IsForm pairs

form_loop-key :
    (k s key value : List ℕ) (d : Dict)
    → IsPlain k
    → form_loop (k ++ 61 ∷ s) false key value d ≡ form_loop s true (key ++ k) value d
unfolding form_loop
form_loop-key [] s key value d p = rw (append-nil key) refl
form_loop-key (c ∷ k) s key value d p =
    rw (p.0, p.1)
      (form_loop-key k s (key ++ c ∷ []) value d p.2 ∙ rw (append_assoc key (c ∷ []) k) refl)

form_loop-value :
    (v s key value : List ℕ) (d : Dict)
    → IsPlain v
    → form_loop (v ++ 38 ∷ s) true key value d ≡ form_loop s false [] [] (assign key (value ++ v) d)
unfolding form_loop
form_loop-value [] s key value d p = rw (append-nil value) refl
form_loop-value (c ∷ v) s key value d p =
    rw (p.0, p.1)
      (form_loop-value v s key (value ++ c ∷ []) d p.2 ∙ rw (append_assoc value (c ∷ []) v) refl)

form_loop-end :
    (v key value : List ℕ) (d : Dict)
    → IsPlain v
    → form_loop v true key value d ≡ last_pair key (value ++ v) d
unfolding form_loop
form_loop-end [] key value d p = rw (append-nil value) refl
form_loop-end (c ∷ v) key value d p =
    rw (p.0, p.1)
      (form_loop-end v key (value ++ c ∷ []) d p.2 ∙ rw (append_assoc value (c ∷ []) v) refl)

last_pair-assign : (k v : List ℕ) (d : Dict) → 0 < length k → last_pair k v d ≡ assign k v d
last_pair-assign [] v d p = absurd (omega (arith, p))
last_pair-assign (c ∷ k) v d p = refl

-- Pairs of names and values without '=' and '&', whose names are not empty, are written to a form
-- from which ParseBodyLine_ enters just these pairs, in their order.
pub form_loop-form :
    (pairs d : Dict) → IsForm pairs → form_loop (form pairs) false [] [] d ≡ assign_all pairs d
unfolding form assign_all form_loop
form_loop-form [] d p = refl
form_loop-form ((k, v) ∷ []) d p =
    form_loop-key k v [] [] d p.1 ∙ form_loop-end v k [] d p.2 ∙ last_pair-assign k v d p.0
form_loop-form ((k, v) ∷ pair ∷ pairs) d p =
    form_loop-key k (v ++ 38 ∷ form (pair ∷ pairs)) [] [] d p.1
    ∙ form_loop-value v (form (pair ∷ pairs)) k [] d p.2
    ∙ form_loop-form (pair ∷ pairs) (assign k v d) p.3
