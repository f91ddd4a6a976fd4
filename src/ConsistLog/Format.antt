-- ===== src/ConsistLog/Format.antt =====
-- storage/src/consistlog/logformat.h and logargument.h: the 64 bytes of a page of ring.log, which
-- hold the head or one log, and the 32 bytes of a log of syn.log.
use dfs_system.Base.{
  ℕ, zero, suc, ◌+◌, ◌*◌, ◌/◌, ◌%◌, ◌^◌, ◌<◌, ◌≡◌, refl, ap, Bool, List, [], ◌∷◌, Option, none,
  some, arith, if◌then◌else◌, ltb, ◌==◌, length, get_or,
}

-- The eight 64-bit words of a page. In `ringLogHead` they are todoList, freeList, freeListEnd,
-- todoListNum, freeListNum and the filling; in `ringLogBody` they are status, fillin, synLogAddr,
-- username and filename (12 bytes each), pre and nxt.
pub record Page : Type 0 where
  pub w0 : ℕ
  pub w1 : ℕ
  pub w2 : ℕ
  pub w3 : ℕ
  pub w4 : ℕ
  pub w5 : ℕ
  pub w6 : ℕ
  pub w7 : ℕ

abbrev pub blank : Page
blank = record { w0 = 0; w1 = 0; w2 = 0; w3 = 0; w4 = 0; w5 = 0; w6 = 0; w7 = 0 }

-- Little-endian words.
unfoldable pub pack : List ℕ → ℕ
pack [] = 0
pack (b ∷ bs) = b + 256 * pack bs

unfoldable pub unpack : ℕ → ℕ → List ℕ
unpack zero n = []
unpack (suc k) n = n % 256 ∷ unpack k (n / 256)

abbrev pub AreBytes : List ℕ → Type 0
AreBytes [] = Unit
AreBytes (b ∷ bs) = (b < 256) × AreBytes bs

pub unpack-pack : (bs : List ℕ) → AreBytes bs → unpack (length bs) (pack bs) ≡ bs
unfolding pack unpack
unpack-pack [] h = refl
unpack-pack (b ∷ bs) h =
    let low : (b + 256 * pack bs) % 256 ≡ b = omega (arith, h.0) in
    let high : (b + 256 * pack bs) / 256 ≡ pack bs = omega (arith, h.0) in
    rw (low, high) (ap (◌∷◌ b) (unpack-pack bs h.1))

-- Bits of the status word of a ring log (RINGLOG_HEAD_...) and of the head of a syn log.
abbrev pub rollback_bit : ℕ
rollback_bit = 62

abbrev pub syn_bit : ℕ
syn_bit = 61

abbrev pub syn_addr_bit : ℕ
syn_addr_bit = 60

abbrev pub initiative_bit : ℕ
initiative_bit = 59

abbrev pub upload_bit : ℕ
upload_bit = 58

abbrev pub username_bit : ℕ
username_bit = 57

abbrev pub syn_status_bit : ℕ
syn_status_bit = 31

abbrev pub syn_upload_bit : ℕ
syn_upload_bit = 30

abbrev pub syn_username_bit : ℕ
syn_username_bit = 29

-- status & (1ull << bit)
abbrev pub has_bit : ℕ → ℕ → Bool
has_bit status bit = (status / 2 ^ bit) % 2 == 1

-- A bit that is set if the condition holds; a word is the sum of its bits.
abbrev pub bit_if : Bool → ℕ → ℕ
bit_if b bit = if b then 2 ^ bit else 0

pub record SynLogBody : Type 0 where
  pub control_head : ℕ
  pub ip : ℕ
  pub username : List ℕ
  pub filename : List ℕ

-- `name[i]` on a std::string: '\0' at its end. Reads further on are undefined, `past` gives them.
abbrev pub char_at : (ℕ → ℕ) → List ℕ → ℕ → ℕ
char_at past name i =
    if ltb i (length name) then get_or name i 0 else if i == length name then 0 else past i

-- The first `n` bytes from position `i`.
unfoldable pub chars_from : (ℕ → ℕ) → List ℕ → ℕ → ℕ → List ℕ
chars_from past name i zero = []
chars_from past name i (suc n) = char_at past name i ∷ chars_from past name (i + 1) n

-- The loop `for(i < max(size, 12))` into a char[12]: a longer name is written past its end.
unfoldable pub name_bytes : (ℕ → ℕ) → List ℕ → Option (List ℕ)
unfolding chars_from
name_bytes past name = if ltb 12 (length name) then none else some (chars_from past name 0 12)

-- A char[12] read as a C string.
unfoldable pub c_string : List ℕ → List ℕ
c_string [] = []
c_string (b ∷ bs) = let rest = c_string bs in if b == 0 then [] else b ∷ rest
