-- ===== src/Buffer/Content.antt =====
-- buffer.cpp: each operation seen as an operation on the unhandled bytes.
use dfs_system.Base.{
  ℕ, ◌+◌, ◌-◌, ◌≤◌, ◌<◌, ◌≡◌, refl, ap, ◌∙◌, List, [], ◌++◌, Option, some, none, arith, ltb, leb,
  length, take, drop, take-drop_comm, length-take, Bool-cases, inl, inr, drop-drop,
  take-append-drop,
}
use mathlib.Core.List.{append_assoc}
use dfs_system.Buffer.{
  Buffer, peek, write_at_end, make_space, ensure_free_bytes, free_bytes, append, add_handled,
  add_handled_all, received, read_fd, write_fd, create,
}
use dfs_system.Buffer.Space.{
  IsValid, HasRoom, make_space-HasRoom, peek-write_at_end, write_at_end-IsValid, length-peek,
}

-- What an operation that cannot abort promises: a valid buffer with the content `s`.
pub record Holds (s : List ℕ) (r : Option Buffer) : Type 0 where
  pub result : Buffer
  pub returned : r ≡ some result
  pub valid : IsValid result
  pub content : peek result ≡ s

ensure_free_bytes-HasRoom :
    (len : ℕ) (b : Buffer)
    → IsValid b
    → (c : Buffer) × (ensure_free_bytes len b ≡ some c) × HasRoom len b c
unfolding ensure_free_bytes
ensure_free_bytes-HasRoom len b v = elim (Bool-cases (ltb (free_bytes b) len)) [
  | inl less ↦
      let room : HasRoom len b (make_space len b) = make_space-HasRoom len b v in
      (make_space len b, ground (arith, room.room), room)
  | inr enough ↦
      let fits : len ≤ free_bytes b = ground arith in
      (b, ground arith, record { valid = v; same = refl; room = omega (arith, v.inside) })
]

-- Append never fails its assert, and puts the bytes behind the content.
pub append_lem : (s : List ℕ) (b : Buffer) → IsValid b → Holds (peek b ++ s) (append s b)
unfolding append
append_lem s b v =
    let (c, e, r) = ensure_free_bytes-HasRoom (length s) b v in
    record {
      result = write_at_end s c;
      returned = rw e;
      valid = write_at_end-IsValid s c r.valid r.room;
      content = peek-write_at_end s c r.valid r.room ∙ ap (λ (p : List ℕ). p ++ s) r.same;
    }

peek-advance :
    (n : ℕ) (b : Buffer)
    → n ≤ b.rpos - b.lpos
    → IsValid b
    → peek (record b { lpos = b.lpos + n }) ≡ drop n (peek b)
peek-advance n b h v =
    let size : b.rpos - (b.lpos + n) ≡ b.rpos - b.lpos - n = omega arith in
    rw (size, ← drop-drop b.lpos n b.bytes)
      (take-drop_comm n (b.rpos - b.lpos) (drop b.lpos b.bytes))

pub add_handled_lem :
    (n : ℕ) (b : Buffer)
    → IsValid b
    → n ≤ length (peek b)
    → Holds (drop n (peek b)) (add_handled n b)
unfolding add_handled
add_handled_lem n b v h =
    let fits : n ≤ b.rpos - b.lpos = omega (arith, length-peek b v) in
    record {
      result = record b { lpos = b.lpos + n };
      returned = ground arith;
      valid = record { ordered = omega (arith, v.ordered); inside = v.inside };
      content = peek-advance n b fits v;
    }

-- Handling more than there is aborts.
pub add_handled-none :
    (n : ℕ) (b : Buffer) → IsValid b → length (peek b) < n → add_handled n b ≡ none
unfolding add_handled
add_handled-none n b v h =
    let over : b.rpos - b.lpos < n = omega (arith, length-peek b v) in ground arith

pub add_handled_all_lem :
    (b : Buffer) → IsValid (add_handled_all b) × (peek (add_handled_all b) ≡ [])
unfolding add_handled_all
add_handled_all_lem b = (record { ordered = omega arith; inside = omega arith }, refl)

pub create_lem : (n : ℕ) → IsValid (create n) × (peek (create n) ≡ [])
unfolding create
create_lem n = (record { ordered = omega arith; inside = omega arith }, refl)

-- What write(2) takes leaves the front of the content.
pub write_fd_lem :
    (n : ℕ) (b : Buffer)
    → IsValid b
    → n ≤ length (peek b)
    → IsValid (write_fd (some n) b) × (peek (write_fd (some n) b) ≡ drop n (peek b))
unfolding write_fd
write_fd_lem n b v h =
    let fits : n ≤ b.rpos - b.lpos = omega (arith, length-peek b v) in
    (record { ordered = omega (arith, v.ordered); inside = v.inside }, peek-advance n b fits v)

spilled :
    (s : List ℕ) (b : Buffer)
    → IsValid b
    → free_bytes b < length s
    → Holds (peek b ++ s) (append (drop (free_bytes b) s) (write_at_end (take (free_bytes b) s) b))
spilled s b v over =
    let front = take (free_bytes b) s in
    let back = drop (free_bytes b) s in
    let room : b.rpos + length front ≤ length b.bytes =
      omega (arith, length-take (free_bytes b) s, v.inside) in
    let held = append_lem back (write_at_end front b) (write_at_end-IsValid front b v room) in
    record {
      result = held.result;
      returned = held.returned;
      valid = held.valid;
      content =
          held.content
          ∙ rw (
            peek-write_at_end front b v room,
            append_assoc (peek b) front back,
            take-append-drop (free_bytes b) s,
          );
    }

-- What readv(2) stores in two places reaches the content whole and in order.
pub read_fd_lem :
    (s : List ℕ) (b : Buffer) → IsValid b → Holds (peek b ++ s) (read_fd (received s) b)
unfolding read_fd
read_fd_lem s b v = elim (Bool-cases (leb (length s) (free_bytes b))) [
  | inl fits ↦
      let room : b.rpos + length s ≤ length b.bytes = ground (arith, v.inside) in
      record {
        result = write_at_end s b;
        returned = rw fits;
        valid = write_at_end-IsValid s b v room;
        content = peek-write_at_end s b v room;
      }
  | inr over ↦ rw over (spilled s b v (ground arith))
]
