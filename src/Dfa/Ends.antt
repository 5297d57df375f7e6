-- ===== src/Dfa/Ends.antt =====
-- The loops of lex.yy.c where the text ends, and from the start of a match.
use opencli.Base.{
  ℕ, zero, suc, ◌+◌, ◌<◌, ◌≡◌, ◌≢◌, refl, sym, ap, ◌∙◌, inl, inr, true, Bool-cases, if◌then◌else◌,
  some, [], ◌∷◌, ◌++◌, ◌==◌, arith, Bytes, All, get_or, drop, length, get_or-drop, drop_next,
}
use opencli.Dfa.{
  yy_ec, yy_base, Regs, next_state, default_chain, save_accepting, transit, match_loop,
  previous_state, jam_base,
}
use opencli.Dfa.Match.{
  InRun, InRun-goes_on, InRun-stays, InRun-end, match_loop-run, transit-InRun, match_loop-stop,
  match_loop-next, regs, word_first, blank_first,
}

-- The second of the two NULs stops the automaton.
match_loop-stopped :
    (fuel p ls lp : ℕ) (buf rest : Bytes)
    → drop p buf ≡ 0 ∷ rest
    → match_loop (suc fuel) buf (regs 3 p ls lp) ≡ some (regs 12 (p + 1) 3 p)
match_loop-stopped fuel p ls lp buf rest h =
    match_loop-stop fuel 0 0 buf (regs 3 p ls lp) (regs 12 (p + 1) 3 p) (get_or-drop buf p 0 rest h)
      refl (unfold transit save_accepting next_state default_chain in refl) refl

-- The run ends where the text does: the state of the end accepts behind the first NUL.
pub match_loop-run_end :
    (k x p ls lp : ℕ) (buf w rest : Bytes) (fuel : ℕ)
    → InRun k x
    → All (λ c. get_or yy_ec c 0 ≡ k) w
    → drop p buf ≡ w ++ 0 ∷ 0 ∷ rest
    → length w + 1 < fuel
    → match_loop fuel buf (regs x p ls lp) ≡ some (regs 12 (p + length w + 2) 3 (p + length w + 1))
match_loop-run_end k x p ls lp buf w rest zero run hw hd hf = absurd (omega arith)
match_loop-run_end k x p ls lp buf [] rest (suc zero) run hw hd hf = absurd (omega arith)
match_loop-run_end k x p ls lp buf [] rest (suc (suc fuel)) run hw hd hf =
    match_loop-next (suc fuel) 0 0 buf (regs x p ls lp) (regs 3 (p + 1) x p)
      (get_or-drop buf p 0 (0 ∷ rest) hd) refl
      (transit-InRun k x 0 3 p ls lp run (InRun-end k x run)) refl
    ∙ match_loop-stopped fuel (p + 1) x p buf rest (drop_next buf p 0 (0 ∷ rest) hd)
    ∙ ap (λ q. some (regs 12 (q + 1) 3 q)) (omega arith)
    ∙ ap (λ q. some (regs 12 q 3 (p + 0 + 1))) (omega arith)
match_loop-run_end k x p ls lp buf (c ∷ w) rest (suc fuel) run hw hd hf =
    let (z, stays, run') = InRun-stays k x run in
    match_loop-next fuel c k buf (regs x p ls lp) (regs z (p + 1) x p)
      (get_or-drop buf p c (w ++ 0 ∷ 0 ∷ rest) hd) hw.0 (transit-InRun k x k z p ls lp run stays)
      (InRun-goes_on k z run')
    ∙ match_loop-run_end k z (p + 1) x p buf w rest fuel run' hw.1
        (drop_next buf p c (w ++ 0 ∷ 0 ∷ rest) hd) (omega arith)
    ∙ ap (λ q. some (regs 12 (q + 2) 3 (q + 1))) (omega arith)

-- The first byte of a match, which begins a run.
abbrev pub Begins : ℕ → ℕ → Type 0
Begins k x = InRun k x × (next_state 1 k ≡ some x)

transit-start :
    (c q p ls lp : ℕ)
    → next_state 1 c ≡ some q
    → transit c (regs 1 p ls lp) ≡ some (regs q (p + 1) ls lp)
unfolding transit save_accepting
transit-start c q p ls lp h = ground (arith, h)

pub blank-Begins : Begins 2 5
unfolding next_state default_chain
blank-Begins = (blank_first, refl)

pub word-Begins : Begins 6 9
unfolding next_state default_chain
word-Begins = (word_first, refl)

-- A byte that is matched alone, and the state that accepts it.
pub match_loop-single :
    (c e q p ls lp : ℕ) (buf rest : Bytes) (fuel : ℕ)
    → drop p buf ≡ c ∷ rest
    → get_or yy_ec c 0 ≡ e
    → next_state 1 e ≡ some q
    → get_or yy_base q 0 == jam_base ≡ true
    → 0 < fuel
    → match_loop fuel buf (regs 1 p ls lp) ≡ some (regs q (p + 1) ls lp)
match_loop-single c e q p ls lp buf rest zero hd he hn hb hf = absurd (omega arith)
match_loop-single c e q p ls lp buf rest (suc fuel) hd he hn hb hf =
    match_loop-stop fuel c e buf (regs 1 p ls lp) (regs q (p + 1) ls lp)
      (get_or-drop buf p c rest hd) he (transit-start e q p ls lp hn) hb

-- At the end of the text nothing is matched but the first NUL.
pub match_loop-end :
    (p ls lp : ℕ) (buf rest : Bytes) (fuel : ℕ)
    → drop p buf ≡ 0 ∷ 0 ∷ rest
    → 1 < fuel
    → match_loop fuel buf (regs 1 p ls lp) ≡ some (regs 12 (p + 2) 3 (p + 1))
match_loop-end p ls lp buf rest zero hd hf = absurd (omega arith)
match_loop-end p ls lp buf rest (suc zero) hd hf = absurd (omega arith)
match_loop-end p ls lp buf rest (suc (suc fuel)) hd hf =
    match_loop-next (suc fuel) 0 0 buf (regs 1 p ls lp) (regs 3 (p + 1) ls lp)
      (get_or-drop buf p 0 (0 ∷ rest) hd) refl
      (transit-start 0 3 p ls lp (unfold next_state default_chain in refl)) refl
    ∙ match_loop-stopped fuel (p + 1) ls lp buf rest (drop_next buf p 0 (0 ∷ rest) hd)
    ∙ ap (λ q. some (regs 12 q 3 (p + 1))) (omega arith)

module _ (k x : ℕ) (begins : Begins k x) where
  begin :
      (fuel c p ls lp : ℕ) (buf rest : Bytes)
      → drop p buf ≡ c ∷ rest
      → get_or yy_ec c 0 ≡ k
      → match_loop (suc fuel) buf (regs 1 p ls lp) ≡ match_loop fuel buf (regs x (p + 1) ls lp)
  begin fuel c p ls lp buf rest hd hc =
      match_loop-next fuel c k buf (regs 1 p ls lp) (regs x (p + 1) ls lp)
        (get_or-drop buf p c rest hd) hc (transit-start k x p ls lp begins.1)
        (InRun-goes_on k x begins.0)

  -- A run, from its start to a byte that another rule begins with.
  pub match_loop-whole :
      (c e p ls lp : ℕ) (buf w : Bytes) (d : ℕ) (rest : Bytes) (fuel : ℕ)
      → All (λ c. get_or yy_ec c 0 ≡ k) (c ∷ w)
      → drop p buf ≡ c ∷ w ++ d ∷ rest
      → get_or yy_ec d 0 ≡ e
      → e < 7
      → e ≢ 0
      → e ≢ k
      → length w + 1 < fuel
      → (y : ℕ) × (match_loop fuel buf (regs 1 p ls lp)
          ≡ some (regs 12 (p + 1 + length w + 1) y (p + 1 + length w)))
        × InRun k y
  match_loop-whole c e p ls lp buf w d rest zero hw hd he e7 nz nk hf = absurd (omega arith)
  match_loop-whole c e p ls lp buf w d rest (suc fuel) hw hd he e7 nz nk hf =
      let (y, eq, run) =
        match_loop-run k x e (p + 1) ls lp buf w d rest fuel begins.0 hw.1
          (drop_next buf p c (w ++ d ∷ rest) hd) he e7 nz nk (omega arith) in
      (y, begin fuel c p ls lp buf (w ++ d ∷ rest) hd hw.0 ∙ eq, run)

  -- A run, from its start to the end of the text.
  pub match_loop-whole_end :
      (c p ls lp : ℕ) (buf w rest : Bytes) (fuel : ℕ)
      → All (λ c. get_or yy_ec c 0 ≡ k) (c ∷ w)
      → drop p buf ≡ c ∷ w ++ 0 ∷ 0 ∷ rest
      → length w + 2 < fuel
      → match_loop fuel buf (regs 1 p ls lp)
        ≡ some (regs 12 (p + 1 + length w + 2) 3 (p + 1 + length w + 1))
  match_loop-whole_end c p ls lp buf w rest zero hw hd hf = absurd (omega arith)
  match_loop-whole_end c p ls lp buf w rest (suc fuel) hw hd hf =
      begin fuel c p ls lp buf (w ++ 0 ∷ 0 ∷ rest) hd hw.0
      ∙ match_loop-run_end k x (p + 1) ls lp buf w rest fuel begins.0 hw.1
          (drop_next buf p c (w ++ 0 ∷ 0 ∷ rest) hd) (omega arith)

previous_state-next :
    (n c k : ℕ) (buf : Bytes) (r r' : Regs)
    → get_or buf r.cp 0 ≡ c
    → get_or yy_ec c 0 ≡ k
    → k ≢ 0
    → transit k r ≡ some r'
    → previous_state (suc n) buf r ≡ previous_state n buf r'
unfolding previous_state
previous_state-next n c k buf r r' hc he nz ht = elim (Bool-cases (c == 0)) [
  | inl e ↦ let z : c ≡ 0 = ground arith in absurd (nz (sym (rw z at he)))
  | inr e ↦
      let ec : transit (if c == 0 then 1 else get_or yy_ec c 0) r ≡ some r' = rw (e, he) ht in
      rw (previous_state, hc, ec) refl
]

-- The registers behind a run: the state is one of the run.
previous_state-run :
    (k x p ls lp : ℕ) (buf w rest : Bytes)
    → InRun k x
    → k ≢ 0
    → All (λ c. get_or yy_ec c 0 ≡ k) w
    → drop p buf ≡ w ++ rest
    → (y ls' lp' : ℕ) × (previous_state (length w) buf (regs x p ls lp)
        ≡ some (regs y (p + length w) ls' lp'))
      × InRun k y
unfolding previous_state
previous_state-run k x p ls lp buf [] rest run nz hw hd =
    (x, ls, lp, ap (λ q. some (regs x q ls lp)) (omega arith), run)
previous_state-run k x p ls lp buf (c ∷ w) rest run nz hw hd =
    let (z, stays, run') = InRun-stays k x run in
    let (y, ls', lp', eq, run'') =
      previous_state-run k z (p + 1) x p buf w rest run' nz hw.1
        (drop_next buf p c (w ++ rest) hd) in
    (
      y,
      ls',
      lp',
      previous_state-next (length w) c k buf (regs x p ls lp) (regs z (p + 1) x p)
            (get_or-drop buf p c (w ++ rest) hd) hw.0 nz (transit-InRun k x k z p ls lp run stays)
          ∙ eq
          ∙ ap (λ q. some (regs y q ls' lp')) (omega arith),
      run'',
    )

-- `yy_get_previous_state` over a run, from its start.
pub previous_state-whole :
    (k x c p ls lp : ℕ) (buf w rest : Bytes)
    → Begins k x
    → k ≢ 0
    → All (λ c. get_or yy_ec c 0 ≡ k) (c ∷ w)
    → drop p buf ≡ c ∷ w ++ rest
    → (y ls' lp' : ℕ) × (previous_state (suc (length w)) buf (regs 1 p ls lp)
        ≡ some (regs y (p + 1 + length w) ls' lp'))
      × InRun k y
previous_state-whole k x c p ls lp buf w rest begins nz hw hd =
    let (y, ls', lp', eq, run) =
      previous_state-run k x (p + 1) ls lp buf w rest begins.0 nz hw.1
        (drop_next buf p c (w ++ rest) hd) in
    (
      y,
      ls',
      lp',
      previous_state-next (length w) c k buf (regs 1 p ls lp) (regs x (p + 1) ls lp)
            (get_or-drop buf p c (w ++ rest) hd) hw.0 nz (transit-start k x p ls lp begins.1)
          ∙ eq,
      run,
    )
