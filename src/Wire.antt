-- ===== src/Wire.antt =====
-- The texts that nodes send each other (storage/src/message/node, tracker/src/message/node): words
-- and decimal numbers, as std::to_string writes them and `>>` of a std::istringstream reads them.
pub mod Words
pub mod Decimal
use dfs_system.Base.{
  ℕ, zero, suc, ◌+◌, ◌-◌, ◌*◌, ◌/◌, ◌%◌, Bool, true, false, ◌&&◌, ◌||◌, List, [], ◌∷◌, ◌++◌,
  if◌then◌else◌, ltb, leb, ◌==◌,
}

-- isspace.
abbrev pub is_space : ℕ → Bool
is_space c = c == 32 || (leb 9 c && leb c 13)

unfoldable pub skip_spaces : List ℕ → List ℕ
skip_spaces [] = []
skip_spaces (c ∷ s) = let rest = skip_spaces s in if is_space c then rest else c ∷ s

unfoldable pub take_word : List ℕ → List ℕ × List ℕ
take_word [] = ([], [])
take_word (c ∷ s) =
    let rest = take_word s in if is_space c then ([], c ∷ s) else (c ∷ rest.0, rest.1)

-- `stream >> word`: the word and the rest of the stream.
unfoldable pub read_word : List ℕ → List ℕ × List ℕ
unfolding skip_spaces take_word
read_word s = take_word (skip_spaces s)

abbrev pub is_digit : ℕ → Bool
is_digit c = leb 48 c && leb c 57

unfoldable pub take_digits : ℕ → List ℕ → ℕ × List ℕ
take_digits n [] = (n, [])
take_digits n (c ∷ s) =
    let rest = take_digits (n * 10 + (c - 48)) s in if is_digit c then rest else (n, c ∷ s)

-- `stream >> number`, of a text with no sign; 0 where no digit stands.
unfoldable pub read_number : List ℕ → ℕ × List ℕ
unfolding skip_spaces take_digits
read_number s = take_digits 0 (skip_spaces s)

-- std::to_string; the fuel bounds the digits.
unfoldable pub digits : ℕ → ℕ → List ℕ → List ℕ
digits zero n s = s
digits (suc k) n s =
    let rest = digits k (n / 10) ((48 + n % 10) ∷ s) in if ltb n 10 then (48 + n) ∷ s else rest

unfoldable pub decimal : ℕ → List ℕ
unfolding digits
decimal n = digits (n + 1) n []
