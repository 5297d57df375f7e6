-- ===== src/Flex/Rounds.antt =====
-- The rounds of the scanner of lex.yy.c: one byte, a run of bytes, and the end of the text.
use opencli.Base.{
  ℕ, zero, suc, ◌+◌, ◌-◌, ◌<◌, ◌≡◌, ◌≢◌, refl, sym, ap, ◌∙◌, Bool, true, false, none, some, List,
  [], ◌∷◌, ◌++◌, ◌==◌, if◌then◌else◌, arith, Bytes, All, get_or, set, drop, length, length-append,
}
use opencli.Dfa.{
  yy_accept, yy_ec, yy_base, jam_base, Regs, match_loop, previous_state, next_state, find_action,
}
use opencli.Dfa.Match.{regs, InRun}
use opencli.Dfa.Ends.{
  Begins, match_loop-single, match_loop-whole, match_loop-whole_end, match_loop-end,
  previous_state-whole,
}
use opencli.Flex.{Buffer, Flex, delete_buffer}
use opencli.Flex.Scan.{returned, rule, scan_one, act_from}
use opencli.Flex.Round.{
  scanning, acting, scan_one-act_from, act_from-rule, act_from-last_match, act_from-end,
  find_action-accepts, find_action-backs,
}

-- What a run is accepted as.
abbrev pub run_act : ℕ → ℕ
run_act k = if k == 6 then 1 else 3

InRun-act : (k x : ℕ) → InRun k x → get_or yy_accept x 0 ≡ run_act k
InRun-act k x InRun.blank_first = refl
InRun-act k x InRun.blank_more = refl
InRun-act k x InRun.word_first = refl
InRun-act k x InRun.word_more = refl

InRun-acts : (k x : ℕ) → InRun k x → run_act k == 0 ≡ false
InRun-acts k x InRun.blank_first = refl
InRun-acts k x InRun.blank_more = refl
InRun-acts k x InRun.word_first = refl
InRun-acts k x InRun.word_more = refl

InRun-not_end : (k x : ℕ) → InRun k x → run_act k == 6 ≡ false
InRun-not_end k x InRun.blank_first = refl
InRun-not_end k x InRun.blank_more = refl
InRun-not_end k x InRun.word_first = refl
InRun-not_end k x InRun.word_more = refl

pub set-get_or : (buf : Bytes) (p v : ℕ) → set (set buf p v) p (get_or buf p 0) ≡ buf
set-get_or [] p v = refl
set-get_or (x ∷ buf) zero v = refl
set-get_or (x ∷ buf) (suc p) v = ap (◌∷◌ x) (set-get_or buf p v)

length-drop_eq :
    (buf : Bytes) (p c : ℕ) (rest : Bytes)
    → drop p buf ≡ c ∷ rest
    → length buf ≡ p + suc (length rest)
length-drop_eq buf zero c rest h = rw h (omega arith)
length-drop_eq [] (suc p) c rest h = cc
length-drop_eq (x ∷ buf) (suc p) c rest h = omega (arith, length-drop_eq buf p c rest h)

-- `buf` is the text, restored.
module _ (wraps : Bool) (args : List Bytes) (s : Flex) (b : Buffer) (held : Bytes) (n p h : ℕ)
    (r : Regs) where
  abbrev restored : Bytes
  restored = set held p h

  two_more : length held + 2 ≡ suc (suc (length held))
  two_more = omega arith

  -- The round, from what its loop matches.
  from_match :
      (q : Regs)
      → match_loop (length restored) restored (regs 1 p r.last_state r.last_cpos) ≡ some q
      → scan_one wraps args (scanning s b held n p h r)
        ≡ act_from wraps (suc (suc (length held))) p args (scanning s b restored n p h q)
  from_match q hm =
      scan_one-act_from wraps args s b held n p h r q hm
      ∙ ap (λ f. act_from wraps f p args (scanning s b restored n p h q)) two_more

  -- A byte that is matched alone.
  pub scan_one-single :
      (c e q a : ℕ) (rest : Bytes)
      → drop p restored ≡ c ∷ rest
      → get_or yy_ec c 0 ≡ e
      → next_state 1 e ≡ some q
      → get_or yy_base q 0 == jam_base ≡ true
      → get_or yy_accept q 0 ≡ a
      → a == 0 ≡ false
      → a == 6 ≡ false
      → scan_one wraps args (scanning s b held n p h r)
        ≡ rule a args (acting s b restored n p (regs q (p + 1) r.last_state r.last_cpos))
  scan_one-single c e q a rest hd he hn hb ha nz n6 =
      let r' : Regs = regs q (p + 1) r.last_state r.last_cpos in
      let size = length-drop_eq restored p c rest hd in
      let found : find_action r' ≡ r' = find_action-accepts r' (rw ha nz) in
      from_match r' (
        match_loop-single c e q p r.last_state r.last_cpos restored rest (length restored) hd he hn
          hb (omega arith))
      ∙ act_from-rule wraps args s b restored n p h (suc (length held)) p a r'
          (ap (λ f. get_or yy_accept f.state 0) found ∙ ha) nz n6
      ∙ ap (λ f. rule a args (acting s b restored n p f)) found

  module _ (k x : ℕ) (begins : Begins k x) (c : ℕ) (w : Bytes)
      (all : All (λ c. get_or yy_ec c 0 ≡ k) (c ∷ w)) where
    -- A run, up to a byte that another rule begins with.
    pub scan_one-run :
        (e d : ℕ) (rest : Bytes)
        → drop p restored ≡ c ∷ w ++ d ∷ rest
        → get_or yy_ec d 0 ≡ e
        → e < 7
        → e ≢ 0
        → e ≢ k
        → (y : ℕ) × (scan_one wraps args (scanning s b held n p h r)
            ≡ rule
                (run_act k)
                args
                (acting s b restored n p (regs y (p + 1 + length w) y (p + 1 + length w))))
    scan_one-run e d rest hd he e7 nz nk =
        let size = length-drop_eq restored p c (w ++ d ∷ rest) hd in
        let size' = length-append w (d ∷ rest) in
        let (y, eq, run) =
          match_loop-whole k x begins c e p r.last_state r.last_cpos restored w d rest
            (length restored) all hd he e7 nz nk (omega arith) in
        let cp = p + 1 + length w in
        let found : find_action (regs 12 (cp + 1) y cp) ≡ regs y cp y cp =
          find_action-backs (cp + 1) y cp in
        (
          y,
          from_match (regs 12 (cp + 1) y cp) eq
              ∙ act_from-rule wraps args s b restored n p h (suc (length held)) p (run_act k)
                  (regs 12 (cp + 1) y cp)
                  (ap (λ f. get_or yy_accept f.state 0) found ∙ InRun-act k y run)
                  (InRun-acts k y run) (InRun-not_end k y run)
              ∙ ap (λ f. rule (run_act k) args (acting s b restored n p f)) found,
        )

    -- A run, up to the end of the text.
    pub scan_one-run_end :
        k ≢ 0
        → drop p restored ≡ c ∷ w ++ 0 ∷ 0 ∷ []
        → n ≡ p + 1 + length w
        → (y l lp : ℕ) × (s' : Flex) × (b' : Buffer) × (scan_one wraps args
              (scanning s b held n p h r)
            ≡ rule (run_act k) args (acting s' b' restored n p (regs y n l lp)))
          × (s'.init ≡ s.init)
    scan_one-run_end nz hd hn =
        let size = length-drop_eq restored p c (w ++ 0 ∷ 0 ∷ []) hd in
        let size' = length-append w (0 ∷ 0 ∷ []) in
        let cp = p + 1 + length w + 1 in
        let (y, l, lp, eq, run) =
          previous_state-whole k x c p 3 cp restored w (0 ∷ 0 ∷ []) begins nz all hd in
        let r' : Regs = regs y (p + 1 + length w) l lp in
        let count : suc (length w) ≡ n - p = omega arith in
        let r'' : Regs = regs y n l lp in
        let found : find_action r'' ≡ r'' =
          find_action-accepts r'' (rw (InRun-act k y run) (InRun-acts k y run)) in
        let s' : Flex = record s { text = p; leng = n + 1 - p } in
        let b' : Buffer = record b { is_new = false } in
        (
          y,
          l,
          lp,
          s',
          b',
          from_match (regs 12 (cp + 1) 3 cp) (
                match_loop-whole_end k x begins c p r.last_state r.last_cpos restored w []
                  (length restored) all hd (omega arith)
                ∙ ap (λ q. some (regs 12 q 3 cp)) (omega arith))
              ∙ act_from-last_match wraps args s b restored n p h (suc (length held)) p cp
                  (regs 12 (cp + 1) 3 cp) r' (find_action-backs (cp + 1) 3 cp) (omega arith)
                  (omega arith) (set-get_or restored cp 0)
                  (ap (λ m. previous_state m restored (regs 1 p 3 cp)) (sym count) ∙ eq)
              ∙ act_from-rule wraps args s' b' restored n n (get_or restored cp 0) (length held) p
                  (run_act k) r'' (ap (λ f. get_or yy_accept f.state 0) found ∙ InRun-act k y run)
                  (InRun-acts k y run) (InRun-not_end k y run)
              ∙ ap (λ f. rule (run_act k) args (acting s' b' restored n p f)) found,
          refl,
        )

-- At the end of the text.
pub scan_one-end :
    (args : List Bytes) (s : Flex) (b : Buffer) (held : Bytes) (n p h : ℕ) (r : Regs)
    → drop p (set held p h) ≡ 0 ∷ 0 ∷ []
    → n ≡ p
    → (s' : Flex) × (scan_one true args (scanning s b held n p h r) ≡ returned args s')
      × (s'.current ≡ none)
      × (s'.init ≡ s.init)
      × (s'.start ≡ 1)
unfolding delete_buffer
scan_one-end args s b held n p h r hd hn =
    let buf : Bytes = set held p h in
    let size = length-drop_eq buf p 0 (0 ∷ []) hd in
    let eq =
      from_match true args s b held n p h r (regs 12 (p + 2) 3 (p + 1))
        (match_loop-end p r.last_state r.last_cpos buf [] (length buf) hd (omega arith))
      ∙ ap
          (λ m.
            act_from true (suc (suc (length held))) m args
              (scanning s b buf n p h (regs 12 (p + 2) 3 (p + 1))))
          (sym hn)
      ∙ act_from-end args s b buf n p h (suc (length held)) (p + 1) (regs 12 (p + 2) 3 (p + 1))
          (find_action-backs (p + 2) 3 (p + 1)) (omega arith) (set-get_or buf (p + 1) 0) in
    (_, eq, refl, refl, refl)
