-- ===== src/FileBody/Receive.antt =====
-- The save loop of ParseBody_ and ParseFile_ over the receipts of a whole file.
use dfs_system.Base.{
  ℕ, zero, suc, ◌+◌, ◌-◌, ◌≤◌, ◌<◌, ◌≡◌, refl, sym, ap, ◌∙◌, List, [], ◌∷◌, ◌++◌, arith, true,
  false, Bool, length, take, drop, Option, some, length-drop, drop-drop, drop-append_left,
  take-append_left, take-nil,
}
use dfs_system.FileBody.{Chunk, complete, stop, save, round, save_loop, save_file}
use dfs_system.FileBody.Round.{At, IsCut, IsMark, Fits, round-Fits, IsCut-drop}
use mathlib.Core.List.{append_assoc, append-nil}

-- The loop has taken `m` bytes: all of the content, or what can be told from the mark so far.
pub record Saved (mark : List ℕ) (p : ℕ) (s file : List ℕ) (out : Option (Bool × List ℕ × List ℕ))
    : Type 0 where
  pub done : Bool
  pub m : ℕ
  pub is : out ≡ some (done, drop m s, file ++ take m s)
  pub inside : m ≤ length s
  pub before : m ≤ p
  pub finished : done ≡ true → m ≡ p
  pub waiting : done ≡ false → length s - m < length mark

pub take-add : (m n : ℕ) (s : List ℕ) → take m s ++ take n (drop m s) ≡ take (m + n) s
take-add zero n s = let e : n ≡ zero + n = omega arith in ap (λ k. take k s) e
take-add (suc m) zero [] = sym (take-nil (suc m + zero))
take-add (suc m) (suc n) [] = sym (take-nil (suc m + suc n))
take-add (suc m) n (x ∷ s) =
    let e : suc (m + n) ≡ suc m + n = omega arith in
    ap (◌∷◌ x) (take-add m n s) ∙ ap (λ k. take k (x ∷ s)) e

-- What a round does with the rest of the loop.
abbrev pub continue :
    (List ℕ → List ℕ → Option (Bool × List ℕ × List ℕ))
    → List ℕ
    → List ℕ
    → Chunk
    → Option (Bool × List ℕ × List ℕ)
continue rest s file complete = some (true, s, file)
continue rest s file stop = some (false, s, file)
continue rest s file (save m) = rest (drop m s) (file ++ take m s)

module _ {sep mark : List ℕ} {p : ℕ} {s f : List ℕ} (q : IsMark sep mark) (c : IsCut sep mark p s f)
    (file : List ℕ) (rest : List ℕ → List ℕ → Option (Bool × List ℕ × List ℕ)) where
  continue-Saved :
      (r : Chunk)
      → Fits sep mark q p s f c r
      → ((m : ℕ)
          → 0 < m
          → m ≤ length s
          → m ≤ p
          → Saved mark (p - m) (drop m s) (file ++ take m s) (rest (drop m s) (file ++ take m s)))
      → Saved mark p s file (continue rest s file r)
  continue-Saved complete fits next = record {
    done = true;
    m = 0;
    is = rw (append-nil file) refl;
    inside = omega arith;
    before = omega arith;
    finished = λ e. sym fits;
    waiting = λ e. cc;
  }
  continue-Saved stop fits next = record {
    done = false;
    m = 0;
    is = rw (append-nil file) refl;
    inside = omega arith;
    before = omega arith;
    finished = λ e. cc;
    waiting = λ e. omega (arith, fits);
  }
  continue-Saved (save m) (some_bytes, inside, before) next =
      let r = next m some_bytes inside before in
      let r_inside = r.inside in
      let r_before = r.before in
      record {
        done = r.done;
        m = m + r.m;
        is =
            r.is
            ∙ rw
                (
                  drop-drop m r.m s,
                  append_assoc file (take m s) (take r.m (drop m s)),
                  take-add m r.m s,
                )
                refl;
        inside = omega (arith, r_inside, length-drop m s);
        before = omega arith;
        finished = λ e. let t = r.finished e in omega arith;
        waiting = λ e. let t = r.waiting e in omega (arith, t, length-drop m s);
      }

save_loop-Saved :
    (k : ℕ) {sep mark : List ℕ} {p : ℕ} {s f : List ℕ} (file : List ℕ)
    → IsMark sep mark
    → IsCut sep mark p s f
    → length s < k
    → Saved mark p s file (save_loop k sep mark s file)
unfolding save_loop
save_loop-Saved zero file q c h = absurd (omega arith)
save_loop-Saved (suc k) {sep} {mark} {p} {s} {f} file q c h =
    continue-Saved q c file (save_loop k sep mark) (round sep mark s)
      (round-Fits sep mark q p s f c)
      (λ m some_bytes inside before.
        save_loop-Saved k (file ++ take m s) q (IsCut-drop m inside before c)
          (omega (arith, length-drop m s)))

pub save_file-Saved :
    {sep mark : List ℕ} {p : ℕ} {s f : List ℕ} (file : List ℕ)
    → IsMark sep mark
    → IsCut sep mark p s f
    → Saved mark p s file (save_file sep mark s file)
unfolding save_file
save_file-Saved {s} file q c = save_loop-Saved (length s + 1) file q c (omega arith)

-- The mark is not in the content, nor does it begin there and end in itself.
abbrev pub IsClear : List ℕ → List ℕ → List ℕ → Type 0
IsClear mark content rest = (i : ℕ) → i < length content → At mark i (content ++ (mark ++ rest)) → ⊥

At-mark : (mark content rest : List ℕ) → At mark (length content) (content ++ (mark ++ rest))
At-mark mark content rest =
    rw (drop-append_left content (mark ++ rest)) (take-append_left mark rest)
