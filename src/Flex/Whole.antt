-- ===== src/Flex/Whole.antt =====
-- The whole of `lexscan` of lex.yy.c, against the rules of lex.c.
use opencli.Base.{
  ℕ, zero, suc, ◌+◌, ◌<◌, ◌≡◌, ◌≢◌, refl, sym, ap, ◌∙◌, ◌⊎◌, inl, inr, true, List, [], ◌∷◌, ◌++◌,
  arith, Bytes, All, get_or, set, drop, length, length-append, cstr, append_assoc, append-nil,
}
use opencli.Lexer.{flush, tokens}
use opencli.Dfa.{yy_ec, Regs}
use opencli.Dfa.Classes.{class, yy_ec-class, class-lt, class-nonzero}
use opencli.Dfa.Match.{regs}
use opencli.Dfa.Ends.{Begins, word-Begins, blank-Begins}
use opencli.Flex.{Buffer, Flex, ch_buf}
use opencli.Flex.Scan.{goes_on, returned, rule, scan_one, scan_loop}
use opencli.Flex.Round.{scanning, acting}
use opencli.Flex.Rounds.{scan_one-run, scan_one-run_end, scan_one-end, run_act}
use opencli.Flex.Parts.{
  push, fill, fill-push, IsByte, split, All-parts, tokens_words, tokens_blanks,
}
use opencli.Flex.Steps.{
  Returns, Returns-≡, Rest, behind, rule-argument, Kind, kind, passed, blank, newline, return,
  special, word, passed-goes_on, newline-goes_on, return-returns, special-goes_on, matched,
  IsByte-IsText, scan_loop-returned, fill-nil,
}

-- The bytes of the table have the class of the rules.
all_ec :
    (k : ℕ) (w : Bytes)
    → All IsByte w
    → All (λ c. class c ≡ k) w
    → All (λ c. get_or yy_ec c 0 ≡ k) w
all_ec k [] hb h = tt
all_ec k (c ∷ w) hb h = (yy_ec-class c hb.0.1 ∙ h.0, all_ec k w hb.1 h.1)

abbrev Outside : ℕ → Bytes → Type 0
Outside k rest = (rest ≡ []) ⊎ ((d : ℕ) × (rest' : Bytes) × (rest ≡ d ∷ rest') × (class d ≢ k))

-- The text from `p` begins with `c`.
module _ (fuel : ℕ) (ih : (t : Bytes) → Rest fuel t) (args : List Bytes) (s : Flex) (b : Buffer)
    (held : Bytes) (n p h : ℕ) (r : Regs) (c : ℕ) (text : Bytes)
    (hd : drop p (set held p h) ≡ (c ∷ text) ++ 0 ∷ 0 ∷ []) (hn : n ≡ p + suc (length text))
    (hb : All IsByte (c ∷ text)) (hf : length text < fuel) where
  abbrev here : Flex
  here = scanning s b held n p h r

  abbrev restored : Bytes
  restored = set held p h

  abbrev Goal : Type 0
  Goal = Returns (scan_loop true (suc fuel) args here) (fill args (tokens [] (c ∷ text))) s.init

  -- A run of the class `k`, with `args'` the arguments behind it.
  module _ (k x : ℕ) (begins : Begins k x) (nz : k ≢ 0) (hk : class c ≡ k)
      (args' : Bytes → List Bytes)
      (adds : (s' : Flex) (w : Bytes)
        → cstr (drop s'.text (ch_buf s')) ≡ w
        → rule (run_act k) args s' ≡ goes_on (args' w) s')
      (toks : (w t : Bytes)
        → All (λ c. class c ≡ k) (c ∷ w)
        → All IsByte ((c ∷ w) ++ t)
        → Outside k t
        → fill (args' (c ∷ w)) (tokens [] t) ≡ fill args (tokens [] ((c ∷ w) ++ t))) where
    -- The run `c ∷ w`, by what is behind it.
    run_by :
        (w t : Bytes)
        → text ≡ w ++ t
        → All (λ c. class c ≡ k) w
        → Outside k t
        → (s' : Flex) × (b' : Buffer) × (q l lp : ℕ) × (scan_one true args here
            ≡ rule (run_act k) args (acting s' b' restored n p (regs q (p + length (c ∷ w)) l lp)))
          × (s'.init ≡ s.init)
    run_by w t e hw (inl et) =
        let ew : text ≡ w = e ∙ ap (λ v. w ++ v) et ∙ append-nil w in
        let size : length text ≡ length w = ap length ew in
        let bytes : All IsByte w = rw (← ew) hb.1 in
        let (y, l, lp, s', b', eq, same) =
          scan_one-run_end true args s b held n p h r k x begins c w
            (all_ec k (c ∷ w) (hb.0, bytes) (hk, hw)) nz (hd ∙ ap (λ v. (c ∷ v) ++ 0 ∷ 0 ∷ []) ew)
            (omega arith) in
        let end : n ≡ p + length (c ∷ w) = omega arith in
        (
          s',
          b',
          y,
          l,
          lp,
          eq ∙ ap (λ m. rule (run_act k) args (acting s' b' restored n p (regs y m l lp))) end,
          same,
        )
    run_by w t e hw (inr (d, rest, et, nk)) =
        let ew : text ≡ w ++ d ∷ rest = e ∙ ap (λ v. w ++ v) et in
        let bytes = All-parts IsByte w (d ∷ rest) (rw (← ew) hb.1) in
        let (y, eq) =
          scan_one-run true args s b held n p h r k x begins c w
            (all_ec k (c ∷ w) (hb.0, bytes.0) (hk, hw)) (class d) d (rest ++ 0 ∷ 0 ∷ [])
            (hd
              ∙ ap (λ v. (c ∷ v) ++ 0 ∷ 0 ∷ []) ew
              ∙ ap (◌∷◌ c) (append_assoc w (d ∷ rest) (0 ∷ 0 ∷ [])))
            (yy_ec-class d bytes.1.0.1) (class-lt d bytes.1.0.1) (class-nonzero d bytes.1.0.0) nk in
        let cp = p + 1 + length w in
        let end : cp ≡ p + length (c ∷ w) = omega arith in
        (
          s,
          b,
          y,
          y,
          cp,
          eq ∙ ap (λ m. rule (run_act k) args (acting s b restored n p (regs y m y cp))) end,
          refl,
        )

    run-goes_on : Goal
    unfolding ch_buf
    run-goes_on =
        let sp = split k text in
        let w : Bytes = c ∷ sp.run in
        let bytes : All IsByte (w ++ sp.rest) = (hb.0, rw (← sp.splits) hb.1) in
        let size : length text ≡ length (sp.run ++ sp.rest) = ap length sp.splits in
        let size' = length-append sp.run sp.rest in
        let (s', b', q, l, lp, eq, same) = run_by sp.run sp.rest sp.splits sp.inside sp.outside in
        let end : Flex = acting s' b' restored n p (regs q (p + length w) l lp) in
        let this : cstr (drop end.text (ch_buf end)) ≡ w =
          matched fuel ih args s b held n p h r c text hd hn hb hf w sp.rest (ap (◌∷◌ c) sp.splits)
            (IsByte-IsText fuel ih args s b held n p h r c text hd hn hb hf w
              (All-parts IsByte w sp.rest bytes).0) in
        Returns-≡ _ _ _ _ _ _ refl
          (ap (λ v. fill args (tokens [] (c ∷ v))) sp.splits
            ∙ sym (toks sp.run sp.rest (hk, sp.inside) bytes sp.outside))
          (sym same)
          (behind fuel w sp.rest args (args' w) here s' b' restored n p q l lp (ih sp.rest)
            (eq ∙ adds end w this) (hd ∙ ap (λ v. (c ∷ v) ++ 0 ∷ 0 ∷ []) sp.splits) (omega arith)
            bytes (omega arith))

  word-goes_on : class c ≡ 6 → Goal
  word-goes_on e =
      run-goes_on 6 9 word-Begins (λ z. omega arith) e (push args) (rule-argument args)
        λ w t hw hbs out.
          fill-push args (c ∷ w) (tokens [] t)
          ∙ ap (fill args) (sym (tokens_words (c ∷ w) t (λ z. cc) hw hbs out))

  blank-goes_on : class c ≡ 2 → Goal
  blank-goes_on e =
      run-goes_on 2 5 blank-Begins (λ z. omega arith) e (λ _. args) (λ s' w _. unfold rule in refl)
        λ w t hw hbs out. ap (fill args) (sym (tokens_blanks (c ∷ w) t hw hbs))

  any-goes_on : Kind c → Goal
  any-goes_on (passed e) = passed-goes_on fuel ih args s b held n p h r c text hd hn hb hf e
  any-goes_on (blank e) = blank-goes_on e
  any-goes_on (newline e) = newline-goes_on fuel ih args s b held n p h r c text hd hn hb hf e
  any-goes_on (return e) = return-returns fuel ih args s b held n p h r c text hd hn hb hf e
  any-goes_on (special e) = special-goes_on fuel ih args s b held n p h r c text hd hn hb hf e
  any-goes_on (word e) = word-goes_on e

pub scan_loop-Returns : (fuel : ℕ) (text : Bytes) → Rest fuel text
scan_loop-Returns zero text args s b held n p h r hd hn hb hf = absurd (omega arith)
scan_loop-Returns (suc fuel) [] args s b held n p h r hd hn hb hf =
    let (s', eq, none_left, same, started) = scan_one-end args s b held n p h r hd (omega arith) in
    (
      s',
      scan_loop-returned fuel args args (scanning s b held n p h r) s' eq
          ∙ ap (λ v. returned v s') (unfold tokens flush in sym (fill-nil args)),
      none_left,
      same,
      started,
    )
scan_loop-Returns (suc fuel) (c ∷ text) args s b held n p h r hd hn hb hf =
    any-goes_on fuel (scan_loop-Returns fuel) args s b held n p h r c text hd hn hb (omega arith)
      (kind c hb.0)
