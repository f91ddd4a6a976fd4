-- ===== src/ConsistLog/Names.antt =====
-- logformat.h: the names in the logs, as ringlog.cpp and synlog.cpp write them and read them back.
use dfs_system.Base.{
  ℕ, zero, suc, ◌+◌, ◌<◌, ◌≤◌, ◌≡◌, ◌≢◌, refl, ap, ◌∙◌, List, [], ◌∷◌, none, some, arith, ltb,
  length, drop, get_or, inl, inr, Bool-cases, drop-length,
}
use dfs_system.ConsistLog.Format.{chars_from, name_bytes, c_string}

abbrev pub NoneZero : List ℕ → Type 0
NoneZero [] = Unit
NoneZero (b ∷ bs) = (b ≢ 0) × NoneZero bs

get_or-NoneZero : (name : List ℕ) (i : ℕ) → NoneZero name → i < length name → get_or name i 0 ≢ 0
get_or-NoneZero [] i z h = absurd (omega arith)
get_or-NoneZero (b ∷ bs) zero z h = z.0
get_or-NoneZero (b ∷ bs) (suc i) z h = get_or-NoneZero bs i z.1 (omega arith)

drop-get_or :
    (name : List ℕ) (i : ℕ) → i < length name → drop i name ≡ get_or name i 0 ∷ drop (i + 1) name
drop-get_or [] i h = absurd (omega arith)
drop-get_or (b ∷ bs) zero h = refl
drop-get_or (b ∷ bs) (suc i) h =
    let e : suc (i + 1) ≡ suc i + 1 = omega arith in
    drop-get_or bs i (omega arith) ∙ ap (λ k. get_or bs i 0 ∷ drop k (b ∷ bs)) e

c_string-chars_from :
    (past : ℕ → ℕ) (name : List ℕ) (n i : ℕ)
    → NoneZero name
    → i ≤ length name
    → length name < i + n
    → c_string (chars_from past name i n) ≡ drop i name
unfolding c_string chars_from
c_string-chars_from past name zero i z h k = absurd (omega arith)
c_string-chars_from past name (suc n) i z h k = elim (Bool-cases (ltb i (length name))) [
  | inl inside ↦
      let before : i < length name = ground arith in
      let rest = c_string-chars_from past name n (i + 1) z (omega arith) (omega arith) in
      let full = get_or-NoneZero name i z before in
      ground (arith, rest, full, drop-get_or name i before)
  | inr end ↦
      let e : i ≡ length name = ground arith in
      ground (arith, drop-length name, e, ap (λ k. drop k name) e)
]

length-chars_from : (past : ℕ → ℕ) (name : List ℕ) (i n : ℕ) → length (chars_from past name i n) ≡ n
unfolding chars_from
length-chars_from past name i zero = refl
length-chars_from past name i (suc n) = ap suc (length-chars_from past name (i + 1) n)

-- A name of fewer than 12 bytes, none of them zero, is stored in 12 bytes and read back as it was,
-- whatever the reads past its end give; a name of more than 12 bytes is written past its array.
pub name_bytes-c_string :
    (past : ℕ → ℕ) (name : List ℕ)
    → NoneZero name
    → (length name < 12
        → (bs : List ℕ) × (name_bytes past name ≡ some bs)
          × (c_string bs ≡ name)
          × (length bs ≡ 12))
      × (12 < length name → name_bytes past name ≡ none)
unfolding name_bytes
name_bytes-c_string past name z = (
  λ short. (
    chars_from past name 0 12,
    ground arith,
    c_string-chars_from past name 12 0 z (omega arith) (omega arith),
    length-chars_from past name 0 12,
  ),
  λ long. ground arith,
)
