-- ===== src/TaskNode/Delete.antt =====
-- tasknode.cpp and storagenode.cpp: a deletion, from the node that sends it to the one that does it.
use mathlib.Core.List.{append_assoc}
use dfs_system.Base.{
  ℕ, ◌+◌, ◌-◌, ◌≡◌, refl, sym, ap, ◌∙◌, Bool, true, false, List, [], ◌∷◌, ◌++◌, some, ltb, ◌==◌,
  length, take, drop, codes, str_eq, arith, length-append, take-append_left, drop-append_left, ◌||◌,
  ◌&&◌, not, drop-drop,
}
use dfs_system.Wire.{read_word, skip_spaces, take_word}
use dfs_system.Wire.Words.{NoSpace, IsWord, read_word-next, read_word-last}
use dfs_system.FileBody.{find, crlf}
use dfs_system.FileBody.Split.{NoCr, find-append}
use dfs_system.Status.{handle_complete}
use dfs_system.StorageNode.{SynPack, del_head, owner}
use dfs_system.TaskNode.{
  TaskNode, Surroundings, removes, syncs_user, parse_head, head_at, deal_del, deal,
}

pub NoSpace-NoCr : (w : List ℕ) → NoSpace w → NoCr w
NoSpace-NoCr [] h = tt
NoSpace-NoCr (c ∷ w) (hc, h) = ((λ e. ground (arith, hc, e)), NoSpace-NoCr w h)

pub NoCr-append : (a b : List ℕ) → NoCr a → NoCr b → NoCr (a ++ b)
NoCr-append [] b h k = k
NoCr-append (c ∷ a) b (hc, h) k = (hc, NoCr-append a b h k)

abbrev pub IsCommand : List ℕ → Type 0
IsCommand kind =
    (str_eq kind (codes "NEW") || str_eq kind (codes "DEL") || str_eq kind (codes "UPL")) ≡ true

abbrev no_cr : List ℕ → Bool
no_cr [] = true
no_cr (c ∷ l) = not (c == 13) && no_cr l

-- For a literal.
pub no_cr→NoCr : (l : List ℕ) → no_cr l ≡ true → NoCr l
no_cr→NoCr [] h = tt
no_cr→NoCr (c ∷ l) h = ((λ e. ground (arith, h, e)), no_cr→NoCr l (ground (arith, h)))

-- The line of a command, up to its CRLF.
module _ (env : Surroundings) (n : TaskNode) (a b c : ℕ) (line rest : List ℕ) where
  line_end :
      NoCr (a ∷ b ∷ c ∷ 32 ∷ line)
      → find crlf (a ∷ b ∷ c ∷ 32 ∷ (line ++ 13 ∷ 10 ∷ rest)) ≡ length line + 4
  unfolding find str_eq
  line_end h = find-append (a ∷ b ∷ c ∷ 32 ∷ line) (13 ∷ 10 ∷ rest) h ∙ omega arith

  pub parse_head-line :
      n.recv ≡ a ∷ b ∷ c ∷ 32 ∷ (line ++ 13 ∷ 10 ∷ rest)
      → NoCr (a ∷ b ∷ c ∷ 32 ∷ line)
      → IsCommand (a ∷ b ∷ c ∷ [])
      → parse_head env n ≡ deal env (a ∷ b ∷ c ∷ []) line (record n { recv = rest })
  unfolding parse_head
  parse_head-line e h known =
      let p : find crlf n.recv ≡ length line + 4 = rw e (line_end h) in
      let size : length n.recv ≡ length line + 4 + 2 + length rest =
        ap length e ∙ omega (arith, length-append line (13 ∷ 10 ∷ rest)) in
      let inner : (length line + 4 == length n.recv) ≡ false = ground (arith, size) in
      let big : ltb (length n.recv) 4 ≡ false = ground (arith, size) in
      let long : ltb (length line + 4) 4 ≡ false = ground arith in
      let k : take 3 n.recv ≡ a ∷ b ∷ c ∷ [] = rw e refl in
      let t : take (length line + 4 - 4) (drop 4 n.recv) ≡ line = rw e (
        let m : length line + 4 - 4 ≡ length line = omega arith in
        rw m (take-append_left line (13 ∷ 10 ∷ rest))) in
      let d : drop (length line + 4 + 2) n.recv ≡ rest = rw e (
        let m : length line + 4 + 2 ≡ 4 + (length line + 2) = omega arith in
        rw m (
          sym (drop-drop 4 (length line + 2) (a ∷ b ∷ c ∷ 32 ∷ (line ++ 13 ∷ 10 ∷ rest)))
          ∙ sym (drop-drop (length line) 2 (line ++ 13 ∷ 10 ∷ rest))
          ∙ ap (drop 2) (drop-append_left line (13 ∷ 10 ∷ rest)))) in
      ap (λ e. head_at env e n) p ∙ rw (inner, big, k, known, long, t, d) refl

pub owner-private : (user : List ℕ) → IsWord user → owner user ≡ codes "pri " ++ user ++ codes " "
unfolding owner str_eq
owner-private [] (p, h) = absurd (omega (arith, p))
owner-private (x ∷ user) h = refl

pub pri_words :
    (user s : List ℕ) → read_word (codes "pri " ++ (user ++ s)) ≡ (codes "pri", 32 ∷ (user ++ s))
unfolding read_word skip_spaces take_word
pri_words user s = refl

-- The line that a node of the group sends for the deletion of a private file, of a user and a name
-- that are words without spaces, is carried out by the node that gets it: it removes the file of
-- that user and name, reports the user to the trackers, and keeps the bytes that follow.
pub delete-private :
    (env : Surroundings) (pack : SynPack) (n : TaskNode) (rest : List ℕ)
    → IsWord pack.username
    → IsWord pack.filename
    → n.recv ≡ del_head pack ++ rest
    → parse_head env n
      ≡ some (record n {
        recv = rest;
        status = handle_complete;
        effects =
            n.effects
            ++ removes
                (env.data_path ++ codes "/private/" ++ pack.username ++ codes "/" ++ pack.filename)
              ∷ []
            ++ syncs_user pack.username ∷ [];
      })
unfolding del_head deal_del str_eq
delete-private env pack n rest hu hf e =
    let (pu, su) = hu in
    let (pf, sf) = hf in
    let user = pack.username in
    let file = pack.filename in
    let line : List ℕ = codes "pri " ++ (user ++ 32 ∷ file) in
    let o : owner user ++ file ≡ line = rw (owner-private user hu) (
      append_assoc (codes "pri " ++ user) (codes " ") file
      ∙ append_assoc (codes "pri ") user (32 ∷ file)) in
    let e' : n.recv ≡ 68 ∷ 69 ∷ 76 ∷ 32 ∷ (line ++ 13 ∷ 10 ∷ rest) =
      e
      ∙ ap (λ s. 68 ∷ 69 ∷ 76 ∷ 32 ∷ s)
          (append_assoc (owner user ++ file) (13 ∷ 10 ∷ []) rest
            ∙ ap (λ s. s ++ 13 ∷ 10 ∷ rest) o) in
    let clear : NoCr (68 ∷ 69 ∷ 76 ∷ 32 ∷ line) =
      NoCr-append (codes "DEL pri ") (user ++ 32 ∷ file) (no_cr→NoCr (codes "DEL pri ") refl) (
        NoCr-append user (32 ∷ file) (NoSpace-NoCr user su)
          ((λ e. omega (arith, e)), NoSpace-NoCr file sf)) in
    let w1 : read_word line ≡ (codes "pri", 32 ∷ (user ++ 32 ∷ file)) =
      pri_words user (32 ∷ file) in
    let w2 = read_word-next user file hu in
    let w3 = read_word-last file hf in
    parse_head-line env n 68 69 76 line rest e' clear refl ∙ rw (w1, w2, w3) refl
