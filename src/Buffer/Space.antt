-- ===== src/Buffer/Space.antt =====
-- buffer.cpp: the invariant of the two positions, and that making room keeps the content.
use dfs_system.Base.{
  ℕ, ◌+◌, ◌-◌, ◌≤◌, ◌<◌, ◌≡◌, sym, ap, ◌∙◌, List, ◌++◌, arith, ltb, length, take, drop, replicate,
  take-drop_comm, take-append_le, take-append_left, drop-append_le, take-eq_self, length-take,
  length-drop, length-append, length-replicate, Bool-cases, inl, inr,
}
use dfs_system.Buffer.{Buffer, peek, write_at_end, make_space}

pub record IsValid (b : Buffer) : Type 0 where
  pub ordered : b.lpos ≤ b.rpos
  pub inside : b.rpos ≤ length b.bytes

pub length-peek : (b : Buffer) → IsValid b → length (peek b) ≡ b.rpos - b.lpos
length-peek b v =
    omega (arith, length-take (b.rpos - b.lpos) (drop b.lpos b.bytes), length-drop b.lpos b.bytes)

pub peek-drop : (b : Buffer) → peek b ≡ drop b.lpos (take b.rpos b.bytes)
peek-drop b = take-drop_comm b.lpos b.rpos b.bytes

slice_middle :
    (l n : ℕ) (p s t : List ℕ)
    → l ≤ length p
    → n ≡ length p + length s - l
    → take n (drop l (p ++ s ++ t)) ≡ drop l p ++ s
slice_middle l n p s t h e =
    let size : n ≡ length (drop l p ++ s) =
      omega (arith, length-append (drop l p) s, length-drop l p) in
    let inside : l ≤ length (p ++ s) = omega (arith, length-append p s) in
    rw (drop-append_le l (p ++ s) t inside, drop-append_le l p s h, size)
      (take-append_left (drop l p ++ s) t)

module _ (s : List ℕ) (b : Buffer) (v : IsValid b) (room : b.rpos + length s ≤ length b.bytes) where
  -- The bytes put behind the content stand behind it.
  pub peek-write_at_end : peek (write_at_end s b) ≡ peek b ++ s
  unfolding write_at_end
  peek-write_at_end =
      let size = length-take b.rpos b.bytes in
      slice_middle b.lpos _ (take b.rpos b.bytes) s (drop (b.rpos + length s) b.bytes)
        (omega (arith, v.ordered, v.inside)) (omega (arith, v.inside))
      ∙ sym (ap (λ (p : List ℕ). p ++ s) (peek-drop b))

  pub length-write_at_end : length (write_at_end s b).bytes ≡ length b.bytes
  unfolding write_at_end
  length-write_at_end = omega (
    arith,
    length-append (take b.rpos b.bytes ++ s) (drop (b.rpos + length s) b.bytes),
    length-append (take b.rpos b.bytes) s,
    length-take b.rpos b.bytes,
    length-drop (b.rpos + length s) b.bytes,
    room,
  )

  pub write_at_end-IsValid : IsValid (write_at_end s b)
  unfolding write_at_end
  write_at_end-IsValid = record {
    ordered = omega (arith, v.ordered);
    inside = omega (arith, length-write_at_end, room);
  }

-- A buffer in which `len` more bytes fit, with the content of `b`.
pub record HasRoom (len : ℕ) (b c : Buffer) : Type 0 where
  pub valid : IsValid c
  pub same : peek c ≡ peek b
  pub room : c.rpos + len ≤ length c.bytes

grown :
    (len : ℕ) (b : Buffer)
    → IsValid b
    → length b.bytes - b.rpos + b.lpos < len
    → HasRoom len b (record b {
      bytes = take (b.rpos + len + 1) b.bytes ++ replicate (b.rpos + len + 1 - length b.bytes) 0;
    })
grown len b v h =
    let n : ℕ = b.rpos + len + 1 in
    let zeros : List ℕ = replicate (n - length b.bytes) 0 in
    let whole : take n b.bytes ≡ b.bytes = take-eq_self n b.bytes (omega arith) in
    let size : length (take n b.bytes ++ zeros) ≡ n = omega (
      arith,
      length-append (take n b.bytes) zeros,
      length-take n b.bytes,
      length-replicate {A = ℕ} (n - length b.bytes) 0,
    ) in
    record {
      valid = record { ordered = v.ordered; inside = omega arith };
      same =
          take-drop_comm b.lpos b.rpos (take n b.bytes ++ zeros)
          ∙ rw (whole, take-append_le b.rpos b.bytes zeros v.inside) (sym (peek-drop b));
      room = omega arith;
    }

moved :
    (len : ℕ) (b : Buffer)
    → IsValid b
    → len ≤ length b.bytes - b.rpos + b.lpos
    → HasRoom len b (record {
      bytes = peek b ++ drop (b.rpos - b.lpos) b.bytes;
      lpos = 0;
      rpos = b.rpos - b.lpos;
    })
moved len b v h =
    let rest = drop (b.rpos - b.lpos) b.bytes in
    let size : length (peek b) ≡ b.rpos - b.lpos = length-peek b v in
    let whole : length (peek b ++ rest) ≡ length b.bytes =
      omega (arith, length-append (peek b) rest, length-drop (b.rpos - b.lpos) b.bytes, size) in
    let n : b.rpos - b.lpos - 0 ≡ length (peek b) = omega arith in
    record {
      valid = record { ordered = omega arith; inside = omega arith };
      same = ap (λ k. take k (peek b ++ rest)) n ∙ take-append_left (peek b) rest;
      room = omega arith;
    }

pub make_space-HasRoom : (len : ℕ) (b : Buffer) → IsValid b → HasRoom len b (make_space len b)
unfolding make_space
make_space-HasRoom len b v = elim (Bool-cases (ltb (length b.bytes - b.rpos + b.lpos) len)) [
  | inl less ↦ rw less (grown len b v (ground arith))
  | inr enough ↦ rw enough (moved len b v (ground arith))
]
