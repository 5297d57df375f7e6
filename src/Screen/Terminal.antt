-- ===== src/Screen/Terminal.antt =====
-- The client's terminal, as far as the redrawing of a line uses it: the cells to the right of the
-- prompt, and the column of the cursor. A backspace moves to the left and erases nothing.
use opencli.Base.{
  ℕ, zero, suc, ◌+◌, ◌-◌, ◌<◌, ◌≤◌, ◌≡◌, ◌≢◌, ◌⊎◌, refl, sym, ◌∙◌, ap, false, [], ◌∷◌, ◌++◌, ◌==◌,
  ltb, if◌then◌else◌, Bytes, arith, Bool-cases, inl, inr, get_or, replicate,
}
use Prim.Native.Nat.{min}
use opencli.Screen.{bs, cursor_back, cursor_on, rl_movecursor}

pub record Terminal : Type 0 where
  pub cell : ℕ → ℕ
  pub column : ℕ

unfoldable pub receive : Terminal → ℕ → Terminal
receive t c =
    if c == bs
    then record t { column = t.column - 1 }
    else record { cell = λ j. if j == t.column then c else t.cell j; column = t.column + 1 }

unfoldable pub receive_all : Terminal → Bytes → Terminal
receive_all t [] = t
receive_all t (c ∷ cs) = receive_all (receive t c) cs

pub receive_all-append :
    (t : Terminal) (xs ys : Bytes) → receive_all t (xs ++ ys) ≡ receive_all (receive_all t xs) ys
unfolding receive_all
receive_all-append t [] ys = refl
receive_all-append t (x ∷ xs) ys = receive_all-append (receive t x) xs ys

-- `u` is `t` with the cells from `lo` up to `hi` written anew, and the cursor at `at`.
pub record Wrote (t u : Terminal) (lo hi : ℕ) (new : ℕ → ℕ) (at : ℕ) : Type 0 where
  pub column : u.column ≡ at
  pub inside : (j : ℕ) → lo ≤ j → j < hi → u.cell j ≡ new j
  pub outside : (j : ℕ) → (j < lo) ⊎ (hi ≤ j) → u.cell j ≡ t.cell j

-- No byte of the range is a backspace.
abbrev pub Plain : Bytes → ℕ → ℕ → Type 0
Plain buf lo hi = (j : ℕ) → lo ≤ j → j < hi → get_or buf j 0 ≢ bs

back_run :
    (to from : ℕ) (t : Terminal)
    → t.column ≡ from
    → let u = receive_all t (cursor_back to from).1 in
      ((cursor_back to from).0 ≡ min to from) × (u.column ≡ min to from) × (u.cell ≡ t.cell)
unfolding cursor_back receive_all receive
back_run to zero t e = (omega arith, omega (arith, e), refl)
back_run to (suc from) t e = elim (Bool-cases (ltb to (suc from))) [
  | inl lt ↦
      let (a, b, c) = back_run to from (receive t bs) (omega (arith, e)) in
      rw lt (ground (arith, a), ground (arith, b), c)
  | inr ge ↦ rw ge (ground arith, ground (arith, e), refl)
]

receive_plain :
    (t : Terminal) (c : ℕ)
    → c ≢ bs
    → receive t c
      ≡ record { cell = λ j. if j == t.column then c else t.cell j; column = t.column + 1 }
unfolding receive
receive_plain t c ne = let e : (c == bs) ≡ false = ground arith in rw e

module _ {t u : Terminal} (c hi : ℕ) (new : ℕ → ℕ) (at : ℕ) where
  -- A plain byte, and what is written behind it.
  Wrote-cons :
      (lo : ℕ)
      → t.column ≡ lo
      → c ≢ bs
      → c ≡ new lo
      → Wrote (receive t c) u (lo + 1) hi new at
      → lo < hi
      → Wrote t u lo hi new at
  Wrote-cons lo e ne is w lt = record {
    column = w.column;
    inside = λ j ge le. elim (Bool-cases (j == lo)) [
      | inl here ↦
          let at_lo : j ≡ lo = ground arith in
          w.outside j (inl (omega arith))
          ∙ rw (receive_plain t c ne, e, here) (is ∙ ap new (sym at_lo))
      | inr on ↦ w.inside j (ground arith) le
    ];
    outside = λ j away.
        let off : (j == lo) ≡ false = ground arith in
        w.outside j (ground arith) ∙ rw (receive_plain t c ne, e, off);
  }

Wrote-refl :
    (t : Terminal) (lo hi : ℕ) (new : ℕ → ℕ) → t.column ≡ hi → hi ≤ lo → Wrote t t lo hi new hi
Wrote-refl t lo hi new e le = record {
  column = e;
  inside = λ j a b. absurd (omega arith);
  outside = λ j a. refl;
}

on_run :
    (buf : Bytes) (k from to : ℕ) (t : Terminal)
    → to ≡ from + k
    → t.column ≡ from
    → Plain buf from to
    → ((cursor_on buf k from).0 ≡ to)
      × Wrote t (receive_all t (cursor_on buf k from).1) from to (λ j. get_or buf j 0) to
unfolding cursor_on receive_all
on_run buf zero from to t is e plain =
    (omega arith, Wrote-refl t from to (λ j. get_or buf j 0) (omega arith) (omega arith))
on_run buf (suc k) from to t is e plain =
    let c = get_or buf from 0 in
    let ne : c ≢ bs = plain from (omega arith) (omega arith) in
    let next : (receive t c).column ≡ from + 1 = rw (receive_plain t c ne) (omega arith) in
    let (a, w) =
      on_run buf k (from + 1) to (receive t c) (omega arith) next
        (λ j lo hi. plain j (omega arith) hi) in
    (a, Wrote-cons c to (λ j. get_or buf j 0) to from e ne refl w (omega arith))

outside_of : (j from to : ℕ) → (j < from) ⊎ (to ≤ j) → (j < min to from) ⊎ (to ≤ j)
outside_of j from to (inl h) = elim (Bool-cases (ltb j to)) [
  | inl lt ↦ let lt' : j < to = ground arith in inl (omega arith)
  | inr ge ↦ inr (ground arith)
]
outside_of j from to (inr h) = inr h

-- `rl_movecursor` takes the cursor to `to`, and writes what it passes anew.
pub movecursor-Wrote :
    (buf : Bytes) (to from : ℕ) (t : Terminal)
    → t.column ≡ from
    → Plain buf from to
    → ((rl_movecursor buf to from).0 ≡ to)
      × Wrote t (receive_all t (rl_movecursor buf to from).1) from to (λ j. get_or buf j 0) to
unfolding rl_movecursor
movecursor-Wrote buf to from t e plain = elim (Bool-cases (to == from)) [
  | inl same ↦
      let eq : to ≡ from = ground arith in
      rw same (sym eq, unfold receive_all in Wrote-refl t from to _ (omega arith) (omega arith))
  | inr other ↦
      let (a, b, c) = back_run to from t e in
      let u = receive_all t (cursor_back to from).1 in
      let (d, w) =
        on_run buf (to - min to from) (min to from) to u (omega arith) b
          (λ j lo hi. plain j (omega arith) hi) in
      rw
        (
          other,
          a,
          receive_all-append t (cursor_back to from).1
              (cursor_on buf (to - min to from) (min to from)).1,
        )
        (
          d,
          record {
            column = w.column;
            inside = λ j lo hi. w.inside j (omega arith) hi;
            outside = λ j away. w.outside j (outside_of j from to away) ∙ ap (λ f. f j) c;
          },
        )
]

-- Blanks.
pub blanks-Wrote :
    (k lo hi : ℕ) (t : Terminal)
    → hi ≡ lo + k
    → t.column ≡ lo
    → Wrote t (receive_all t (replicate k b' ')) lo hi (λ _. b' ') hi
unfolding receive_all
blanks-Wrote zero lo hi t is e = Wrote-refl t lo hi (λ _. b' ') (omega arith) (omega arith)
blanks-Wrote (suc k) lo hi t is e =
    let ne : b' ' ≢ bs = omega arith in
    let next : (receive t b' ').column ≡ lo + 1 = rw (receive_plain t b' ' ne) (omega arith) in
    Wrote-cons b' ' hi (λ _. b' ') hi lo e ne refl
      (blanks-Wrote k (lo + 1) hi (receive t b' ') (omega arith) next) (omega arith)
