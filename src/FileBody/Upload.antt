-- ===== src/FileBody/Upload.antt =====
-- ParseFile_ and ParseBody_: a file arrives whole, for CR in any receipts and for CRLF in one.
use mathlib.Core.List.{append_assoc}
use dfs_system.Base.{
  ℕ, ◌+◌, ◌-◌, ◌<◌, ◌≡◌, refl, sym, ap, ◌∙◌, inl, inr, List, [], ◌∷◌, ◌++◌, arith, true, length,
  take, drop, some, length-drop, length-append, drop-append_le, take-append_le, Bool-cases, ltb,
}
use dfs_system.FileBody.{receive, proceed, join}
use dfs_system.FileBody.Round.{At, IsCut, IsMark, IsCut-drop, At-inside}
use dfs_system.FileBody.Receive.{save_file-Saved, take-add}

-- The mark does not stand at any position of the content.
abbrev pub IsClear : List ℕ → List ℕ → List ℕ → Type 0
IsClear mark content rest = (i : ℕ) → i < length content → At mark i (content ++ (mark ++ rest)) → ⊥

IsCut-shift :
    {sep mark : List ℕ} {p : ℕ} {s f : List ℕ} (chunk : List ℕ)
    → length sep ≡ 1
    → IsCut sep mark p s (chunk ++ f)
    → IsCut sep mark p (s ++ chunk) f
IsCut-shift {sep} {mark} {p} {s} {f} chunk one c =
    let e : (s ++ chunk) ++ f ≡ s ++ (chunk ++ f) = append_assoc s chunk f in
    record {
      starts = rw e c.starts;
      ends = rw e c.ends;
      clear = λ i h a. c.clear i h (rw (← e) a);
      apart = λ i h a. omega (arith, one);
      whole = elim (Bool-cases (ltb p (length (s ++ chunk)))) [
        | inl past ↦ inr (ground (arith, past, one))
        | inr short ↦ inl (ground (arith, short))
      ];
    }

module _ {sep mark : List ℕ} (q : IsMark sep mark) (one : length sep ≡ 1) where
  pub receive_lem :
      (chunks : List (List ℕ)) {p : ℕ} {s : List ℕ} (file : List ℕ)
      → IsCut sep mark p s (join chunks)
      → length s < length mark
      → (s' : List ℕ) × (receive sep mark chunks s file
          ≡ some (true, s', file ++ take p (s ++ join chunks)))
  unfolding receive
  receive_lem [] {p} {s} file c short =
      let inside = At-inside mark p (s ++ []) c.ends in
      absurd (omega (arith, inside, length-append s []))
  receive_lem (chunk ∷ chunks) {p} {s} file c short =
      let c' = IsCut-shift chunk one c in
      let r = save_file-Saved file q c' in
      let inside = r.inside in
      let e : (s ++ chunk) ++ join chunks ≡ s ++ (chunk ++ join chunks) =
        append_assoc s chunk (join chunks) in
      elim (Bool-cases r.done) [
        | inl finished ↦
            let m : r.m ≡ p = r.finished finished in
            let t : take r.m (s ++ chunk) ≡ take p (s ++ (chunk ++ join chunks)) =
              sym (take-append_le r.m (s ++ chunk) (join chunks) r.inside) ∙ rw (e, m) refl in
            (
              drop r.m (s ++ chunk),
              ap (proceed (receive sep mark chunks)) r.is ∙ rw (finished, t) refl,
            )
        | inr waiting ↦
            let (s', rest) =
              receive_lem chunks (file ++ take r.m (s ++ chunk))
                (IsCut-drop r.m r.inside r.before c')
                (let w = r.waiting waiting in omega (arith, w, length-drop r.m (s ++ chunk))) in
            let before = r.before in
            let m : r.m + (p - r.m) ≡ p = omega arith in
            let t : take r.m (s ++ chunk) ++ take (p - r.m) (drop r.m (s ++ chunk) ++ join chunks)
                ≡ take p (s ++ (chunk ++ join chunks)) =
              rw
                (
                  sym (drop-append_le r.m (s ++ chunk) (join chunks) r.inside),
                  sym (take-append_le r.m (s ++ chunk) (join chunks) r.inside),
                  take-add r.m (p - r.m) ((s ++ chunk) ++ join chunks),
                  m,
                  e,
                )
                refl in
            (
              s',
              ap (proceed (receive sep mark chunks)) r.is
                  ∙ rw waiting (
                      rest
                      ∙ rw
                          (
                            append_assoc file (take r.m (s ++ chunk))
                                (take (p - r.m) (drop r.m (s ++ chunk) ++ join chunks)),
                            t,
                          )
                          refl),
            )
      ]
