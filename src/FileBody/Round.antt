-- ===== src/FileBody/Round.antt =====
-- The save loop of ParseBody_ and ParseFile_: where std::search stops, and what one round takes.
use Prim.Native.Nat.{min}
use dfs_system.Base.{
  ℕ, zero, suc, ◌+◌, ◌-◌, ◌≤◌, ◌<◌, ◌≡◌, ◌≢◌, sym, ap, ◌∙◌, ◌⊎◌, inl, inr, List, [], ◌∷◌, ◌++◌,
  arith, true, false, length, take, drop, str_eq, str_eq→eq, str_eq_refl, Bool-cases, ◌&&◌, leb,
  ltb, ◌==◌, length-take, length-drop, drop-drop, drop-append_le, take-append_le,
}
use dfs_system.FileBody.{find, Chunk, complete, stop, save, beside, round}

-- `x` stands at position `i` of `s`.
abbrev pub At : List ℕ → ℕ → List ℕ → Type 0
At x i s = take (length x) (drop i s) ≡ x

pub At-inside : (x : List ℕ) (i : ℕ) (s : List ℕ) → At x i s → length x ≤ length s - i
At-inside x i s a =
    let e : min (length x) (length (drop i s)) ≡ length x =
      sym (length-take (length x) (drop i s)) ∙ ap length a in
    omega (arith, e, length-drop i s)

pub At-append : (x : List ℕ) (i : ℕ) (s f : List ℕ) → 0 < length x → At x i s → At x i (s ++ f)
At-append x i s f p a =
    let inside = At-inside x i s a in
    rw
      (
        drop-append_le i s f (omega arith),
        take-append_le (length x) (drop i s) f (omega (arith, length-drop i s)),
      )
      a

At-cut : (x : List ℕ) (i : ℕ) (s f : List ℕ) → i + length x ≤ length s → At x i (s ++ f) → At x i s
At-cut x i s f h a =
    sym (take-append_le (length x) (drop i s) f (omega (arith, length-drop i s)))
    ∙ ap (take (length x)) (sym (drop-append_le i s f (omega arith)))
    ∙ a

pub At-drop : (x : List ℕ) (m i : ℕ) (s : List ℕ) → At x (m + i) s → At x i (drop m s)
At-drop x m i s a = ap (take (length x)) (drop-drop m i s) ∙ a

pub At-undrop : (x : List ℕ) (m i : ℕ) (s : List ℕ) → At x i (drop m s) → At x (m + i) s
At-undrop x m i s a = ap (take (length x)) (sym (drop-drop m i s)) ∙ a

find-le : (sep s : List ℕ) → find sep s ≤ length s
unfolding find
find-le sep [] = omega arith
find-le sep (a ∷ s) = ground (arith, find-le sep s)

find-At : (sep s : List ℕ) → find sep s < length s → At sep (find sep s) s
unfolding find
find-At sep [] h = absurd (omega arith)
find-At sep (a ∷ s) h = elim (Bool-cases (str_eq (take (length sep) (a ∷ s)) sep)) [
  | inl same ↦ rw same (str_eq→eq (take (length sep) (a ∷ s)) sep same)
  | inr other ↦ rw other (find-At sep s (ground (arith, other)))
]

find-first : (sep s : List ℕ) (i : ℕ) → i < length s → At sep i s → find sep s ≤ i
unfolding find
find-first sep [] i h a = absurd (omega arith)
find-first sep (x ∷ s) zero h a =
    let e : str_eq (take (length sep) (x ∷ s)) sep ≡ true = rw a (str_eq_refl sep) in
    ground (arith, e)
find-first sep (x ∷ s) (suc i) h a = ground (arith, find-first sep s i (omega arith) a)

-- `s` is what is received and not yet saved, `f` what is still to come; the end mark is at position
-- `p` and at none before it, and no receipt ends within the separator that begins it.
pub record IsCut (sep mark : List ℕ) (p : ℕ) (s f : List ℕ) : Type 0 where
  pub starts : At sep p (s ++ f)
  pub ends : At mark p (s ++ f)
  pub clear : (i : ℕ) → i < p → At mark i (s ++ f) → ⊥
  pub apart : (i : ℕ) → i < p → At sep i (s ++ f) → i + length sep ≤ p
  pub whole : (length s ≤ p) ⊎ (p + length sep ≤ length s)

-- What the source's searches and marks are: not empty, and the mark at least as long.
pub record IsMark (sep mark : List ℕ) : Type 0 where
  pub some_sep : 0 < length sep
  pub longer : length sep ≤ length mark

module _ (sep mark : List ℕ) (k : IsMark sep mark) (p : ℕ) (s f : List ℕ)
    (c : IsCut sep mark p s f) where
  -- The first separator is not behind the mark.
  first-le : find sep s ≤ p
  first-le =
      let found : find sep s ≤ length s = find-le sep s in
      elim c.whole [
        | inl short ↦ omega arith
        | inr long ↦
            let p_sep = k.some_sep in
            find-first sep s p (omega (arith, p_sep)) (At-cut sep p s f long c.starts)
      ]

  next-le :
      (e : ℕ)
      → e + length sep ≤ p
      → e + length sep + find sep (drop (e + length sep) s) ≤ p ⊎ (length s ≤ p)
  next-le e h = elim c.whole [
    | inl short ↦ inr short
    | inr long ↦
        let m = e + length sep in
        let q : m + (p - m) ≡ p = omega arith in
        let p_sep = k.some_sep in
        let there : At sep (p - m) (drop m s) =
          At-drop sep m (p - m) s (rw q (At-cut sep p s f long c.starts)) in
        inl (
          omega (
            arith,
            find-first sep (drop m s) (p - m) (omega (arith, length-drop m s, p_sep)) there,
          ))
  ]

  -- What a round may do.
  abbrev pub Fits : Chunk → Type 0
  Fits complete = p ≡ 0
  Fits stop = length s < length mark
  Fits (save m) = (0 < m) × (m ≤ length s) × (m ≤ p)

  beside-Fits : (e : ℕ) → e < length s → e < p → e + length sep ≤ p → Fits (beside sep s e)
  unfolding beside
  beside-Fits e inside before h =
      let m = e + length sep in
      let e2 = m + find sep (drop m s) in
      let p_sep = k.some_sep in
      let next = next-le e h in
      elim (Bool-cases (ltb m (length s) && ltb e2 (length s))) [
        | inl both ↦ rw both (ground (arith, both, next, p_sep))
        | inr alone ↦ rw alone (ground (arith, alone, next))
      ]

  -- A separator before the mark does not begin a mark, and the rest of the mark is behind it.
  first-before :
      find sep s < length s
      → length mark ≤ length s - find sep s
      → str_eq (take (length mark) (drop (find sep s) s)) mark ≡ false
      → (find sep s < p) × (find sep s + length sep ≤ p)
  first-before inside long other =
      let e = find sep s in
      let le = first-le in
      let ne : e ≢ p = λ same.
        let p_sep = k.some_sep in
        let longer = k.longer in
        let there : At mark e s = At-cut mark e s f (omega arith) (rw same c.ends) in
        let eq : str_eq (take (length mark) (drop e s)) mark ≡ true = rw there (str_eq_refl mark) in
        ground (arith, other, eq) in
      let before : e < p = omega (arith, le, ne) in
      (before, c.apart e before (At-append sep e s f k.some_sep (find-At sep s inside)))

  -- A separator that begins the mark is the one at `p`.
  first-is :
      length mark ≤ length s - find sep s
      → str_eq (take (length mark) (drop (find sep s) s)) mark ≡ true
      → find sep s ≡ p
  first-is long same =
      let e = find sep s in
      let le = first-le in
      let p_sep = k.some_sep in
      let longer = k.longer in
      let there : At mark e (s ++ f) =
        At-append mark e s f (omega arith) (str_eq→eq (take (length mark) (drop e s)) mark same) in
      elim (Bool-cases (ltb e p)) [
        | inl before ↦ absurd (c.clear e (ground (arith, before)) there)
        | inr at ↦ ground (arith, at, le)
      ]

  pub round-Fits : Fits (round sep mark s)
  unfolding round
  round-Fits =
      let e = find sep s in
      let le = find-le sep s in
      let first = first-le in
      let p_sep = k.some_sep in
      let longer = k.longer in
      elim (Bool-cases (length s == 0)) [
        | inl empty ↦ rw empty (ground (arith, empty, p_sep, longer))
        | inr bytes ↦ rw bytes (elim (Bool-cases (e == length s)) [
          | inl absent ↦ rw absent (ground (arith, absent, bytes, first))
          | inr there ↦ rw there (elim (Bool-cases (leb (length mark) (length s - e))) [
            | inr short ↦ rw short (elim (Bool-cases (e == 0)) [
              | inl front ↦ rw front (ground (arith, front, short))
              | inr later ↦ rw later (ground (arith, later, first, le))
            ])
            | inl long ↦
                let long' : length mark ≤ length s - e = ground (arith, long) in
                let in' : e < length s = ground (arith, there, le) in
                rw long (elim (Bool-cases (str_eq (take (length mark) (drop e s)) mark)) [
                  | inl same ↦
                      let is = first-is long' same in
                      rw same (elim (Bool-cases (e == 0)) [
                        | inl front ↦ rw front (ground (arith, front, is))
                        | inr later ↦ rw later (ground (arith, later, first, le))
                      ])
                  | inr other ↦
                      let (before, apart) = first-before in' long' other in
                      rw other (beside-Fits e in' before apart)
                ])
          ])
        ])
      ]

pub IsCut-drop :
    {sep mark : List ℕ} {p : ℕ} {s f : List ℕ} (m : ℕ)
    → m ≤ length s
    → m ≤ p
    → IsCut sep mark p s f
    → IsCut sep mark (p - m) (drop m s) f
IsCut-drop {sep} {mark} {p} {s} {f} m h b c =
    let q : m + (p - m) ≡ p = omega arith in
    let e : drop m s ++ f ≡ drop m (s ++ f) = sym (drop-append_le m s f h) in
    record {
      starts = rw e (At-drop sep m (p - m) (s ++ f) (rw q c.starts));
      ends = rw e (At-drop mark m (p - m) (s ++ f) (rw q c.ends));
      clear = λ i j a. c.clear (m + i) (omega arith) (At-undrop mark m i (s ++ f) (rw (← e) a));
      apart = λ i j a.
          let r = c.apart (m + i) (omega arith) (At-undrop sep m i (s ++ f) (rw (← e) a)) in
          omega (arith, r);
      whole = elim c.whole [
        | inl short ↦ inl (omega (arith, length-drop m s))
        | inr long ↦ inr (omega (arith, length-drop m s))
      ];
    }
