-- ===== src/Flex/Steps.antt =====
-- The rounds of lex.yy.c by what the text begins with: the bytes that are matched alone.
use opencli.Base.{
  ℕ, zero, suc, ◌+◌, ◌-◌, ◌<◌, ◌≡◌, ◌≢◌, refl, sym, ap, ◌∙◌, inl, inr, Bool, true, false,
  Bool-cases, none, some, List, [], ◌∷◌, ◌++◌, ◌==◌, ltb, arith, Bytes, IsText, All, get_or, set,
  take, drop, length, length-append, drop_more, cstr, append_assoc, append-nil,
}
use opencli.Lexer.{max_args, flush, tokens}
use opencli.Dfa.{yy_accept, yy_base, jam_base, next_state, default_chain, Regs}
use opencli.Dfa.Classes.{class, yy_ec-class, class-lt, class-nonzero}
use opencli.Dfa.Match.{regs}
use opencli.Flex.{Buffer, Flex, ch_buf, delete_buffer}
use opencli.Flex.Scan.{Outcome, goes_on, returned, rule, scan_one, scan_loop}
use opencli.Flex.Round.{scanning, acting}
use opencli.Flex.Rounds.{scan_one-single, set-get_or}
use opencli.Flex.Parts.{
  push, fill, fill-push, IsByte, All-parts, yytext, tokens_passed, tokens_special, tokens_return,
}

-- The scanner returned `args`, and is as it was before the call, but for `yy_start`.
abbrev pub Returns : Outcome → List Bytes → Bool → Type 0
Returns o args first =
    (s : Flex) × (o ≡ returned args s) × (s.current ≡ none) × (s.init ≡ first) × (s.start ≡ 1)

pub Returns-≡ :
    (o o' : Outcome) (args args' : List Bytes) (first first' : Bool)
    → o ≡ o'
    → args ≡ args'
    → first ≡ first'
    → Returns o' args' first'
    → Returns o args first
Returns-≡ o o' args args' first first' e f g r = rw (e, f, g) r

-- The rounds that are left from the text at `p`.
abbrev pub Rest : ℕ → Bytes → Type 0
Rest fuel text =
    (args : List Bytes) (s : Flex) (b : Buffer) (held : Bytes) (n p h : ℕ) (r : Regs)
    → drop p (set held p h) ≡ text ++ 0 ∷ 0 ∷ []
    → n ≡ p + length text
    → All IsByte text
    → length text < fuel
    → Returns (scan_loop true fuel args (scanning s b held n p h r)) (fill args (tokens [] text))
        s.init

scan_loop-goes_on :
    (fuel : ℕ) (args args' : List Bytes) (s s' : Flex)
    → scan_one true args s ≡ goes_on args' s'
    → scan_loop true (suc fuel) args s ≡ scan_loop true fuel args' s'
unfolding scan_loop
scan_loop-goes_on fuel args args' s s' e = rw (scan_loop, e) refl

pub scan_loop-returned :
    (fuel : ℕ) (args args' : List Bytes) (s s' : Flex)
    → scan_one true args s ≡ returned args' s'
    → scan_loop true (suc fuel) args s ≡ returned args' s'
unfolding scan_loop
scan_loop-returned fuel args args' s s' e = rw (scan_loop, e) refl

-- Behind a match from `p` of `w`, the text goes on with `text`.
pub behind :
    (fuel : ℕ) (w text : Bytes) (args args' : List Bytes) (old s : Flex) (b : Buffer) (buf : Bytes)
    (n p q l lp : ℕ)
    → Rest fuel text
    → scan_one true args old ≡ goes_on args' (acting s b buf n p (regs q (p + length w) l lp))
    → drop p buf ≡ (w ++ text) ++ 0 ∷ 0 ∷ []
    → n ≡ p + length (w ++ text)
    → All IsByte (w ++ text)
    → length text < fuel
    → Returns (scan_loop true (suc fuel) args old) (fill args' (tokens [] text)) s.init
behind fuel w text args args' old s b buf n p q l lp rest hs hd hn hb hf =
    let s' : Flex = acting s b buf n p (regs q (p + length w) l lp) in
    let cp = p + length w in
    let size = length-append w text in
    let again : set (set buf cp 0) cp (get_or buf cp 0) ≡ buf = set-get_or buf cp 0 in
    Returns-≡ _ _ _ _ _ _ (scan_loop-goes_on fuel args args' old s' hs) refl refl (
      rest args' (record s { text = p; leng = cp - p }) b (set buf cp 0) n cp (get_or buf cp 0)
        (regs q cp l lp)
        (ap (drop cp) again
          ∙ drop_more w p buf (text ++ 0 ∷ 0 ∷ []) (hd ∙ append_assoc w text (0 ∷ 0 ∷ [])))
        (omega arith) (All-parts IsByte w text hb).1 hf)

-- The action of an argument.
pub rule-argument :
    (args : List Bytes) (s : Flex) (w : Bytes)
    → cstr (drop s.text (ch_buf s)) ≡ w
    → rule 1 args s ≡ goes_on (push args w) s
unfolding rule
rule-argument args s w e = elim (Bool-cases (ltb (length args) (max_args - 1))) [
  | inl t ↦ rw (t, e) refl
  | inr t ↦ rw t refl
]

pub fill-nil : (args : List Bytes) → fill args [] ≡ args
fill-nil args = elim (Bool-cases (max_args - 1 - length args == 0)) [
  | inl e ↦ let z : max_args - 1 - length args ≡ 0 = ground arith in rw z (append-nil args)
  | inr e ↦
      let z : max_args - 1 - length args ≡ suc (max_args - 2 - length args) = ground arith in
      rw z (append-nil args)
]

pub data Kind (c : ℕ) : Type 0 where
  passed : class c ≡ 1 → Kind c
  blank : class c ≡ 2 → Kind c
  newline : class c ≡ 3 → Kind c
  return : class c ≡ 4 → Kind c
  special : class c ≡ 5 → Kind c
  word : class c ≡ 6 → Kind c

kind_of : (c k : ℕ) → class c ≡ k → k < 7 → k ≢ 0 → Kind c
kind_of c zero e h nz = absurd (nz refl)
kind_of c (suc zero) e h nz = passed e
kind_of c (suc (suc zero)) e h nz = blank e
kind_of c (suc (suc (suc zero))) e h nz = newline e
kind_of c (suc (suc (suc (suc zero)))) e h nz = return e
kind_of c (suc (suc (suc (suc (suc zero))))) e h nz = special e
kind_of c (suc (suc (suc (suc (suc (suc zero)))))) e h nz = word e
kind_of c (suc (suc (suc (suc (suc (suc (suc k))))))) e h nz = absurd (omega arith)

pub kind : (c : ℕ) → IsByte c → Kind c
kind c h = kind_of c (class c) refl (class-lt c h.1) (class-nonzero c h.0)

-- The text from `p` begins with `c`.
module _ (fuel : ℕ) (ih : (t : Bytes) → Rest fuel t) (args : List Bytes) (s : Flex) (b : Buffer)
    (held : Bytes) (n p h : ℕ) (r : Regs) (c : ℕ) (text : Bytes)
    (hd : drop p (set held p h) ≡ (c ∷ text) ++ 0 ∷ 0 ∷ []) (hn : n ≡ p + suc (length text))
    (hb : All IsByte (c ∷ text)) (hf : length text < fuel) where
  abbrev here : Flex
  here = scanning s b held n p h r

  abbrev restored : Bytes
  restored = set held p h

  abbrev Goal : Type 0
  Goal = Returns (scan_loop true (suc fuel) args here) (fill args (tokens [] (c ∷ text))) s.init

  -- A byte that is matched alone, by the state `q`.
  single :
      (e q a : ℕ)
      → class c ≡ e
      → next_state 1 e ≡ some q
      → get_or yy_base q 0 == jam_base ≡ true
      → get_or yy_accept q 0 ≡ a
      → a == 0 ≡ false
      → a == 6 ≡ false
      → scan_one true args here
        ≡ rule a args (acting s b restored n p (regs q (p + 1) r.last_state r.last_cpos))
  single e q a he hq hs ha nz n6 =
      scan_one-single true args s b held n p h r c e q a (text ++ 0 ∷ 0 ∷ []) hd
        (yy_ec-class c hb.0.1 ∙ he) hq hs ha nz n6

  -- The byte behind a match is one of the text, or the first NUL.
  pub matched :
      (w t : Bytes)
      → c ∷ text ≡ w ++ t
      → IsText w
      → cstr (drop p (set restored (p + length w) 0)) ≡ w
  matched w [] e hw =
      yytext w p 0 restored (0 ∷ []) hw
        (hd ∙ ap (λ v. v ++ 0 ∷ 0 ∷ []) e ∙ append_assoc w [] (0 ∷ 0 ∷ []))
  matched w (d ∷ t) e hw =
      yytext w p d restored (t ++ 0 ∷ 0 ∷ []) hw
        (hd ∙ ap (λ v. v ++ 0 ∷ 0 ∷ []) e ∙ append_assoc w (d ∷ t) (0 ∷ 0 ∷ []))

  pub passed-goes_on : class c ≡ 1 → Goal
  unfolding next_state default_chain rule flush
  passed-goes_on e =
      Returns-≡ _ _ _ _ _ _ refl
        (ap (fill args) (
          tokens_passed c [] text hb.0 (ap (λ k. k == 4) e) (ap (λ k. k == 5) e)
            (ap (λ k. k == 6) e)))
        refl
        (behind fuel (c ∷ []) text args args here s b restored n p 4 r.last_state r.last_cpos
          (ih text) (single 1 4 4 e refl refl refl refl refl) hd hn hb hf)

  pub newline-goes_on : class c ≡ 3 → Goal
  unfolding next_state default_chain rule flush
  newline-goes_on e =
      let end : Flex = acting s b restored n p (regs 6 (p + 1) r.last_state r.last_cpos) in
      let s' : Flex = record s { out = s.out ++ take end.leng (drop end.text (ch_buf end)) } in
      Returns-≡ _ _ _ _ _ _ refl
        (ap (fill args) (
          tokens_passed c [] text hb.0 (ap (λ k. k == 4) e) (ap (λ k. k == 5) e)
            (ap (λ k. k == 6) e)))
        refl
        (behind fuel (c ∷ []) text args args here s' b restored n p 6 r.last_state r.last_cpos
          (ih text) (single 3 6 5 e refl refl refl refl refl) hd hn hb hf)

  pub return-returns : class c ≡ 4 → Goal
  unfolding next_state default_chain rule flush delete_buffer
  return-returns e =
      Returns-≡ _ _ _ _ _ _
        (scan_loop-returned fuel args args here _ (single 4 7 2 e refl refl refl refl refl))
        (ap (fill args) (tokens_return c [] text hb.0 e) ∙ fill-nil args) refl
        (_, refl, refl, refl, refl)

  pub IsByte-IsText : (w : Bytes) → All IsByte w → IsText w
  IsByte-IsText [] h = tt
  IsByte-IsText (c ∷ w) h = (h.0.0, IsByte-IsText w h.1)

  pub special-goes_on : class c ≡ 5 → Goal
  unfolding next_state default_chain flush ch_buf
  special-goes_on e =
      let end : Flex = acting s b restored n p (regs 8 (p + 1) r.last_state r.last_cpos) in
      let w : cstr (drop end.text (ch_buf end)) ≡ c ∷ [] =
        matched (c ∷ []) text refl (hb.0.0, tt) in
      Returns-≡ _ _ _ _ _ _ refl
        (ap (fill args) (tokens_special c [] text hb.0 e)
          ∙ sym (fill-push args (c ∷ []) (tokens [] text)))
        refl
        (behind fuel (c ∷ []) text args (push args (c ∷ [])) here s b restored n p 8 r.last_state
          r.last_cpos (ih text)
          (single 5 8 1 e refl refl refl refl refl ∙ rule-argument args end (c ∷ []) w) hd hn hb hf)
