-- ===== src/Dfa/Match.antt =====
-- The loops of lex.yy.c on a run of bytes that one rule takes: a word, or blanks.
use opencli.Base.{
  ℕ, zero, suc, ◌+◌, ◌<◌, ◌≡◌, ◌≢◌, refl, ap, ◌∙◌, Bool, true, false, ◌||◌, Option, none, some, [],
  ◌∷◌, ◌++◌, ◌==◌, arith, Bytes, All, get_or, drop, length, get_or-drop, drop_next,
}
use opencli.Dfa.{
  yy_accept, yy_ec, yy_base, Regs, next_state, default_chain, save_accepting, transit, match_loop,
  jam_base,
}
use opencli.Dfa.Classes.{holds_from-test}

-- The states in the midst of a run of bytes of the class `k`.
pub data InRun : ℕ → ℕ → Type 0 where
  blank_first : InRun 2 5
  blank_more : InRun 2 10
  word_first : InRun 6 9
  word_more : InRun 6 11

pub InRun-accepts : (k x : ℕ) → InRun k x → get_or yy_accept x 0 ≢ 0
InRun-accepts k x blank_first = omega arith
InRun-accepts k x blank_more = omega arith
InRun-accepts k x word_first = omega arith
InRun-accepts k x word_more = omega arith

pub InRun-goes_on : (k x : ℕ) → InRun k x → get_or yy_base x 0 == jam_base ≡ false
InRun-goes_on k x blank_first = refl
InRun-goes_on k x blank_more = refl
InRun-goes_on k x word_first = refl
InRun-goes_on k x word_more = refl

pub InRun-stays : (k x : ℕ) → InRun k x → (y : ℕ) × (next_state x k ≡ some y) × InRun k y
unfolding next_state default_chain
InRun-stays k x blank_first = (10, refl, blank_more)
InRun-stays k x blank_more = (10, refl, blank_more)
InRun-stays k x word_first = (11, refl, word_more)
InRun-stays k x word_more = (11, refl, word_more)

pub InRun-end : (k x : ℕ) → InRun k x → next_state x 0 ≡ some 3
unfolding next_state default_chain
InRun-end k x blank_first = refl
InRun-end k x blank_more = refl
InRun-end k x word_first = refl
InRun-end k x word_more = refl

abbrev is_jam : Option ℕ → Bool
is_jam none = false
is_jam (some q) = q == 12

is_jam-some : (o : Option ℕ) → is_jam o ≡ true → o ≡ some 12
is_jam-some none h = cc
is_jam-some (some q) h = ground arith

-- Whether a jam is what follows a byte of the class `e`, where `e` ends the run.
abbrev leaves : ℕ → Option ℕ → ℕ → Bool
leaves k next e = e == 0 || e == k || is_jam next

leaves-jam : (k e : ℕ) (next : Option ℕ) → leaves k next e ≡ true → e ≢ 0 → e ≢ k → next ≡ some 12
leaves-jam k e next h nz nk = is_jam-some next (ground arith)

InRun-leaves : (k x e : ℕ) → InRun k x → e < 7 → e ≢ 0 → e ≢ k → next_state x e ≡ some 12
unfolding next_state default_chain
InRun-leaves k x e run h nz nk = leaves-jam k e (next_state x e) (test k x run) nz nk
  where
    test : (k x : ℕ) → InRun k x → leaves k (next_state x e) e ≡ true
    test k x blank_first =
        holds_from-test 7 0 e (λ d. leaves 2 (next_state 5 d) d) refl (omega arith) h
    test k x blank_more =
        holds_from-test 7 0 e (λ d. leaves 2 (next_state 10 d) d) refl (omega arith) h
    test k x word_first =
        holds_from-test 7 0 e (λ d. leaves 6 (next_state 9 d) d) refl (omega arith) h
    test k x word_more =
        holds_from-test 7 0 e (λ d. leaves 6 (next_state 11 d) d) refl (omega arith) h

abbrev pub regs : ℕ → ℕ → ℕ → ℕ → Regs
regs q p ls lp = record { state = q; cp = p; last_state = ls; last_cpos = lp }

-- One round of the loop in the midst of a run.
pub transit-InRun :
    (k x c q p ls lp : ℕ)
    → InRun k x
    → next_state x c ≡ some q
    → transit c (regs x p ls lp) ≡ some (regs q (p + 1) x p)
unfolding transit save_accepting
transit-InRun k x c q p ls lp run hn = ground (arith, hn, InRun-accepts k x run)

pub match_loop-stop :
    (fuel c e : ℕ) (buf : Bytes) (r r' : Regs)
    → get_or buf r.cp 0 ≡ c
    → get_or yy_ec c 0 ≡ e
    → transit e r ≡ some r'
    → get_or yy_base r'.state 0 == jam_base ≡ true
    → match_loop (suc fuel) buf r ≡ some r'
unfolding match_loop
match_loop-stop fuel c e buf r r' hc he ht hb =
    let ec : transit (get_or yy_ec (get_or buf r.cp 0) 0) r ≡ some r' = rw (hc, he) ht in
    rw (match_loop, ec, hb) refl

pub match_loop-next :
    (fuel c e : ℕ) (buf : Bytes) (r r' : Regs)
    → get_or buf r.cp 0 ≡ c
    → get_or yy_ec c 0 ≡ e
    → transit e r ≡ some r'
    → get_or yy_base r'.state 0 == jam_base ≡ false
    → match_loop (suc fuel) buf r ≡ match_loop fuel buf r'
unfolding match_loop
match_loop-next fuel c e buf r r' hc he ht hb =
    let ec : transit (get_or yy_ec (get_or buf r.cp 0) 0) r ≡ some r' = rw (hc, he) ht in
    rw (match_loop, ec, hb) refl

-- The run ends at a byte that another rule begins with.
pub match_loop-run :
    (k x e p ls lp : ℕ) (buf w : Bytes) (d : ℕ) (rest : Bytes) (fuel : ℕ)
    → InRun k x
    → All (λ c. get_or yy_ec c 0 ≡ k) w
    → drop p buf ≡ w ++ d ∷ rest
    → get_or yy_ec d 0 ≡ e
    → e < 7
    → e ≢ 0
    → e ≢ k
    → length w < fuel
    → (y : ℕ) × (match_loop fuel buf (regs x p ls lp)
        ≡ some (regs 12 (p + length w + 1) y (p + length w)))
      × InRun k y
unfolding match_loop
match_loop-run k x e p ls lp buf w d rest zero run hw hd he e7 nz nk hf = absurd (omega arith)
match_loop-run k x e p ls lp buf [] d rest (suc fuel) run hw hd he e7 nz nk hf = (
  x,
  match_loop-stop fuel d e buf (regs x p ls lp) (regs 12 (p + 1) x p) (get_or-drop buf p d rest hd)
        he (transit-InRun k x e 12 p ls lp run (InRun-leaves k x e run e7 nz nk)) refl
      ∙ ap (λ q. some (regs 12 (q + 1) x q)) (omega arith),
  run,
)
match_loop-run k x e p ls lp buf (c ∷ w) d rest (suc fuel) run hw hd he e7 nz nk hf =
    let (z, stays, run') = InRun-stays k x run in
    let (y, eq, run'') =
      match_loop-run k z e (p + 1) x p buf w d rest fuel run' hw.1
        (drop_next buf p c (w ++ d ∷ rest) hd) he e7 nz nk (omega arith) in
    (
      y,
      match_loop-next fuel c k buf (regs x p ls lp) (regs z (p + 1) x p)
            (get_or-drop buf p c (w ++ d ∷ rest) hd) hw.0 (transit-InRun k x k z p ls lp run stays)
            (InRun-goes_on k z run')
          ∙ eq
          ∙ ap (λ q. some (regs 12 (q + 1) y q)) (omega arith),
      run'',
    )
