-- ===== src/Wire/Words.antt =====
-- A word without spaces is read back.
use dfs_system.Base.{ℕ, ◌<◌, ◌≡◌, refl, false, List, [], ◌∷◌, ◌++◌, arith, length}
use dfs_system.Wire.{is_space, skip_spaces, take_word, read_word}

abbrev pub NoSpace : List ℕ → Type 0
NoSpace [] = Unit
NoSpace (c ∷ s) = (is_space c ≡ false) × NoSpace s

-- Not empty and without spaces.
abbrev pub IsWord : List ℕ → Type 0
IsWord w = (0 < length w) × NoSpace w

take_word-append : (w s : List ℕ) → NoSpace w → take_word (w ++ 32 ∷ s) ≡ (w, 32 ∷ s)
unfolding take_word
take_word-append [] s h = refl
take_word-append (c ∷ w) s (hc, h) = rw (hc, take_word-append w s h) refl

pub take_word-end : (w : List ℕ) → NoSpace w → take_word w ≡ (w, [])
unfolding take_word
take_word-end [] h = refl
take_word-end (c ∷ w) (hc, h) = rw (hc, take_word-end w h) refl

skip_spaces-word : (w s : List ℕ) → IsWord w → skip_spaces (w ++ s) ≡ w ++ s
unfolding skip_spaces
skip_spaces-word [] s (p, h) = absurd (omega (arith, p))
skip_spaces-word (c ∷ w) s (p, (hc, h)) = rw hc refl

pub read_word-append : (w s : List ℕ) → IsWord w → read_word (w ++ 32 ∷ s) ≡ (w, 32 ∷ s)
unfolding read_word
read_word-append w s h = rw (skip_spaces-word w (32 ∷ s) h) (take_word-append w s h.1)

pub read_word-next : (w s : List ℕ) → IsWord w → read_word (32 ∷ (w ++ 32 ∷ s)) ≡ (w, 32 ∷ s)
unfolding read_word skip_spaces
read_word-next w s h = read_word-append w s h

pub read_word-last : (w : List ℕ) → IsWord w → read_word (32 ∷ w) ≡ (w, [])
unfolding read_word skip_spaces
read_word-last [] (p, h) = absurd (omega (arith, p))
read_word-last (c ∷ w) (p, (hc, h)) = rw hc (take_word-end (c ∷ w) (hc, h))
