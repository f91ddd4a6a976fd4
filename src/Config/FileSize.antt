-- ===== src/Config/FileSize.antt =====
-- storage/src/message/config.h: getFileSize_, the size of what lies below a directory.
use dfs_system.Base.{
  ℕ, ◌+◌, ◌%◌, ◌<◌, ◌≡◌, refl, sym, ◌∙◌, Bool, true, false, arith, Bool-contra, ◌&&◌,
}

-- What readdir and lstat give: a file with its size, "." or "..", a directory that opendir refuses, or
-- one with its entries.
mutual
  pub data Entry : Type 0 where
    file : ℕ → Entry
    dots : Entry
    locked : Entry
    directory : Entries → Entry

  pub data Entries : Type 0 where
    no_more : Entries
    entry : Entry → Entries → Entries

abbrev pub goes_on : (ℕ → Bool × ℕ) → Bool × ℕ → Bool × ℕ
goes_on next (false, total) = (false, total)
goes_on next (true, total) = next total

-- The loop of getFileSize_, with totalSize of 32 bits.
unfoldable mutual
  pub add_entry : Entry → ℕ → Bool × ℕ
  add_entry (file size) total = (true, (total + size) % 4_294_967_296)
  add_entry dots total = (true, total)
  add_entry locked total = (false, total)
  add_entry (directory entries) total = add_entries entries total

  pub add_entries : Entries → ℕ → Bool × ℕ
  add_entries no_more total = (true, total)
  add_entries (entry e entries) total = goes_on (add_entries entries) (add_entry e total)

-- Whether every directory can be opened, and the sum of the sizes of all files.
unfoldable mutual
  pub opens : Entry → Bool
  opens (file size) = true
  opens dots = true
  opens locked = false
  opens (directory entries) = all_open entries

  pub all_open : Entries → Bool
  all_open no_more = true
  all_open (entry e entries) = opens e && all_open entries

unfoldable mutual
  pub size_of : Entry → ℕ
  size_of (file size) = size
  size_of dots = 0
  size_of locked = 0
  size_of (directory entries) = size_of_all entries

  pub size_of_all : Entries → ℕ
  size_of_all no_more = 0
  size_of_all (entry e entries) = size_of e + size_of_all entries

-- The result is whether all could be opened, and then the sum modulo 2^32.
abbrev pub IsTotal : Bool × ℕ → Bool → ℕ → Type 0
IsTotal r all sum = (r.0 ≡ all) × (all ≡ true → r.1 ≡ sum % 4_294_967_296)

goes_on-IsTotal :
    (next : ℕ → Bool × ℕ) (r : Bool × ℕ) (a b : Bool) (start s t : ℕ)
    → IsTotal r a (start + s)
    → ((n : ℕ) → n < 4_294_967_296 → IsTotal (next n) b (n + t))
    → IsTotal (goes_on next r) (a && b) (start + (s + t))
goes_on-IsTotal next (false, n) true b start s t h k = Bool-contra true refl (sym h.0)
goes_on-IsTotal next (false, n) false b start s t h k = (refl, λ e. Bool-contra false e refl)
goes_on-IsTotal next (true, n) false b start s t h k = Bool-contra false (sym h.0) refl
goes_on-IsTotal next (true, n) true b start s t h k =
    let m = h.1 refl in
    let small : n < 4_294_967_296 = omega (arith, m) in
    let more = k n small in (more.0, λ e. more.1 e ∙ omega (arith, m))

mutual
  unfolding add_entry opens size_of

  entry-IsTotal :
      (e : Entry) (n : ℕ) → n < 4_294_967_296 → IsTotal (add_entry e n) (opens e) (n + size_of e)
  entry-IsTotal (file size) n h = (refl, λ e. refl)
  entry-IsTotal dots n h = (refl, λ e. omega (arith, h))
  entry-IsTotal locked n h = (refl, λ e. Bool-contra false e refl)
  entry-IsTotal (directory entries) n h = entries-IsTotal entries n h

  entries-IsTotal :
      (es : Entries) (n : ℕ)
      → n < 4_294_967_296
      → IsTotal (add_entries es n) (all_open es) (n + size_of_all es)
  entries-IsTotal no_more n h = (refl, λ e. omega (arith, h))
  entries-IsTotal (entry e es) n h =
      goes_on-IsTotal (add_entries es) (add_entry e n) (opens e) (all_open es) n (size_of e)
        (size_of_all es) (entry-IsTotal e n h) (entries-IsTotal es)

-- getFileSize_ of the entries of a directory is true just when every directory among them and below
-- can be opened, and then the total is the sum of the sizes of all files below, modulo 2^32: of more
-- than four gigabytes only the remainder is counted.
pub add_entries-IsTotal : (es : Entries) → IsTotal (add_entries es 0) (all_open es) (size_of_all es)
add_entries-IsTotal es =
    let (open_all, sum) = entries-IsTotal es 0 (omega arith) in (open_all, λ e. sum e ∙ omega arith)
