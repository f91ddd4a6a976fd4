-- ===== src/Wire/Decimal.antt =====
-- A number is read back from its decimal text.
use dfs_system.Base.{
  ℕ, zero, suc, ◌+◌, ◌-◌, ◌*◌, ◌/◌, ◌%◌, ◌<◌, ◌≡◌, refl, ◌∙◌, true, false, List, [], ◌∷◌, ◌++◌,
  arith, ltb, Bool-cases, inl, inr,
}
use dfs_system.Wire.{is_space, skip_spaces, is_digit, take_digits, read_number, digits, decimal}

-- Reading goes on over the digits of `n` in front of `s`.
take_digits-digits : (k n : ℕ) (s : List ℕ) → n < k → take_digits 0 (digits k n s) ≡ take_digits n s
unfolding take_digits digits
take_digits-digits zero n s h = absurd (omega (arith, h))
take_digits-digits (suc k) n s h = elim (Bool-cases (ltb n 10)) [
  | inl one ↦
      let d : is_digit (48 + n) ≡ true = ground (arith, one) in
      let v : 0 * 10 + (48 + n - 48) ≡ n = omega arith in rw (one, d, v) refl
  | inr more ↦
      let rest = take_digits-digits k (n / 10) ((48 + n % 10) ∷ s) (ground (arith, more)) in
      let d : is_digit (48 + n % 10) ≡ true = ground arith in
      let v : n / 10 * 10 + (48 + n % 10 - 48) ≡ n = omega arith in rw more (rest ∙ rw (d, v) refl)
]

digits-append : (k n : ℕ) (s t : List ℕ) → digits k n s ++ t ≡ digits k n (s ++ t)
unfolding digits
digits-append zero n s t = refl
digits-append (suc k) n s t = elim (Bool-cases (ltb n 10)) [
  | inl one ↦ rw one refl
  | inr more ↦ rw more (digits-append k (n / 10) ((48 + n % 10) ∷ s) t)
]

skip_spaces-digits : (k n : ℕ) (s : List ℕ) → n < k → skip_spaces (digits k n s) ≡ digits k n s
unfolding skip_spaces digits
skip_spaces-digits zero n s h = absurd (omega (arith, h))
skip_spaces-digits (suc k) n s h = elim (Bool-cases (ltb n 10)) [
  | inl one ↦ let d : is_space (48 + n) ≡ false = ground (arith, one) in rw (one, d) refl
  | inr more ↦ rw more (skip_spaces-digits k (n / 10) ((48 + n % 10) ∷ s) (ground (arith, more)))
]

decimal-append : (n : ℕ) (s : List ℕ) → decimal n ++ s ≡ digits (n + 1) n s
unfolding decimal
decimal-append n s = digits-append (n + 1) n [] s

pub read_number-append : (n : ℕ) (s : List ℕ) → read_number (decimal n ++ 32 ∷ s) ≡ (n, 32 ∷ s)
unfolding read_number take_digits
read_number-append n s =
    rw (decimal-append n (32 ∷ s), skip_spaces-digits (n + 1) n (32 ∷ s) (omega arith))
      (take_digits-digits (n + 1) n (32 ∷ s) (omega arith))

pub read_number-next : (n : ℕ) (s : List ℕ) → read_number (32 ∷ (decimal n ++ 32 ∷ s)) ≡ (n, 32 ∷ s)
unfolding read_number skip_spaces
read_number-next n s = read_number-append n s

pub read_number-end : (n : ℕ) → read_number (32 ∷ decimal n) ≡ (n, [])
unfolding read_number skip_spaces take_digits decimal
read_number-end n =
    rw (skip_spaces-digits (n + 1) n [] (omega arith))
      (take_digits-digits (n + 1) n [] (omega arith))

-- The digits begin with one.
digits-first :
    (k n : ℕ) (s : List ℕ)
    → n < k
    → (c : ℕ) × (rest : List ℕ) × (digits k n s ≡ c ∷ rest) × (is_digit c ≡ true)
unfolding digits
digits-first zero n s h = absurd (omega (arith, h))
digits-first (suc k) n s h = elim (Bool-cases (ltb n 10)) [
  | inl one ↦ (48 + n, s, rw one refl, ground (arith, one))
  | inr more ↦
      let (c, rest, e, d) = digits-first k (n / 10) ((48 + n % 10) ∷ s) (ground (arith, more)) in
      (c, rest, rw more e, d)
]

-- A number behind a blank, without the blank, before what ends it.
pub skip_spaces-number :
    (n : ℕ) (s : List ℕ)
    → (c : ℕ) × (rest : List ℕ) × (skip_spaces (32 ∷ (decimal n ++ s)) ≡ c ∷ rest)
      × (is_digit c ≡ true)
unfolding skip_spaces
skip_spaces-number n s =
    let (c, rest, e, d) = digits-first (n + 1) n s (omega arith) in
    (c, rest, rw (decimal-append n s) (skip_spaces-digits (n + 1) n s (omega arith) ∙ e), d)
