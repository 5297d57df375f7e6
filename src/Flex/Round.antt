-- ===== src/Flex/Round.antt =====
-- A round of the scanner of lex.yy.c, from what its loop matched.
use opencli.Base.{
  ℕ, suc, ◌+◌, ◌-◌, ◌<◌, ◌≡◌, refl, ap, ◌∙◌, Bool, true, false, Bool-cases, inl, inr, some, List,
  ◌==◌, ltb, leb, arith, Bytes, get_or, set, length,
}
use opencli.Dfa.{yy_accept, Regs, match_loop, previous_state, find_action}
use opencli.Dfa.Match.{regs}
use opencli.Flex.{Buffer, Flex, poke, ch_buf, before_action, get_next_buffer, delete_buffer}
use opencli.Flex.Scan.{
  returned, to_find_action, rule, settle, get_previous_state, at_end, end_of_buffer, match_from,
  act_from, scan_one, to_end_of_file,
}

-- The scanner in the midst of a text of `n` bytes: the buffer holds `buf`, in which the NUL at `p`
-- stands for the byte `h`. What `s` and `b` hold besides does not matter.
abbrev pub scanning : Flex → Buffer → Bytes → ℕ → ℕ → ℕ → Regs → Flex
scanning s b buf n p h r = record s {
  current = some (record b { ch_buf = buf; n_chars = n; fill_buffer = false });
  c_buf_p = p;
  hold_char = h;
  n_chars = n;
  start = 1;
  regs = r;
}

pub scan_one-act_from :
    (wraps : Bool) (args : List Bytes) (s : Flex) (b : Buffer) (buf : Bytes) (n p h : ℕ)
    (r r' : Regs)
    → match_loop (length (set buf p h)) (set buf p h) (record r { state = 1; cp = p }) ≡ some r'
    → scan_one wraps args (scanning s b buf n p h r)
      ≡ act_from wraps (length buf + 2) p args (scanning s b (set buf p h) n p h r')
unfolding scan_one poke match_from ch_buf
scan_one-act_from wraps args s b buf n p h r r' hm = rw (scan_one, match_from, hm) refl

-- The scanner where an action begins, for a match from `bp`.
abbrev pub acting : Flex → Buffer → Bytes → ℕ → ℕ → Regs → Flex
acting s b buf n bp r = record (scanning s b (set buf r.cp 0) n r.cp (get_or buf r.cp 0) r) {
  text = bp;
  leng = r.cp - bp;
}

pub act_from-rule :
    (wraps : Bool) (args : List Bytes) (s : Flex) (b : Buffer) (buf : Bytes) (n p h fuel bp a : ℕ)
    (r : Regs)
    → get_or yy_accept (find_action r).state 0 ≡ a
    → a == 0 ≡ false
    → a == 6 ≡ false
    → act_from wraps (suc fuel) bp args (scanning s b buf n p h r)
      ≡ rule a args (acting s b buf n bp (find_action r))
unfolding act_from before_action poke ch_buf
act_from-rule wraps args s b buf n p h fuel bp a r ha nz n6 =
    let acts : get_or yy_accept (find_action r).state 0 == 0 ≡ false = rw ha nz in
    let not_end : get_or yy_accept (find_action r).state 0 == 6 ≡ false = rw ha n6 in
    rw (act_from, acts, not_end) (ap (λ k. rule k args (acting s b buf n bp (find_action r))) ha)

pub find_action-accepts : (r : Regs) → get_or yy_accept r.state 0 == 0 ≡ false → find_action r ≡ r
unfolding find_action
find_action-accepts r h = rw h refl

pub find_action-backs : (p q lp : ℕ) → find_action (regs 12 p q lp) ≡ regs q lp q lp
unfolding find_action
find_action-backs p q lp = refl

-- The action at the end of the buffer is its function.
act_from-jump :
    (wraps : Bool) (args : List Bytes) (s s' : Flex) (b : Buffer) (buf : Bytes)
    (n p h fuel bp cp : ℕ) (r : Regs)
    → find_action r ≡ regs 3 cp 3 cp
    → end_of_buffer wraps (acting s b buf n bp (regs 3 cp 3 cp)) ≡ to_find_action s'
    → act_from wraps (suc fuel) bp args (scanning s b buf n p h r)
      ≡ act_from wraps fuel s'.text args s'
unfolding act_from before_action poke ch_buf
act_from-jump wraps args s s' b buf n p h fuel bp cp r hf he =
    let e : end_of_buffer wraps (acting s b buf n bp (find_action r)) ≡ to_find_action s' =
      ap (λ f. end_of_buffer wraps (acting s b buf n bp f)) hf ∙ he in
    let acts : get_or yy_accept (find_action r).state 0 == 0 ≡ false = rw hf refl in
    let ends : get_or yy_accept (find_action r).state 0 == 6 ≡ true = rw hf refl in
    rw (act_from, acts, ends, e) refl

-- At the end of the text, behind a match: the action is found again, from the state before.
abbrev pub matched_again : Flex → Buffer → Bytes → ℕ → ℕ → ℕ → Regs → Flex
matched_again s b buf n bp h r =
    scanning (record s { text = bp; leng = n + 1 - bp }) (record b { is_new = false }) buf n n h
      (record r { cp = n })

-- The scanner where it comes to the end of the text, behind a match from `bp`.
abbrev at_text_end : Flex → Buffer → Bytes → ℕ → ℕ → ℕ → Flex
at_text_end s b buf n bp cp =
    record (scanning s (record b { is_new = false }) buf n cp (get_or buf cp 0) (regs 3 cp 3 cp)) {
      text = bp;
      leng = cp - bp;
    }

settle-poke :
    (s : Flex) (b : Buffer) (buf : Bytes) (n bp cp : ℕ)
    → set (set buf cp 0) cp (get_or buf cp 0) ≡ buf
    → settle (poke (acting s b buf n bp (regs 3 cp 3 cp)) cp (get_or buf cp 0))
      ≡ at_text_end s b buf n bp cp
unfolding settle poke
settle-poke s b buf n bp cp hs = elim (Bool-cases b.is_new) [
  | inl e ↦ rw (e, hs) refl
  | inr e ↦ rw (e, hs) refl
]

at_end-last :
    (wraps : Bool) (amount : ℕ) (s : Flex) (b : Buffer) (buf : Bytes) (n bp cp : ℕ) (r : Regs)
    → cp ≡ n + 1
    → bp < n
    → previous_state (n - bp) buf (regs 1 bp 3 cp) ≡ some r
    → at_end wraps amount (at_text_end s b buf n bp cp)
      ≡ to_find_action (matched_again s b buf n bp (get_or buf cp 0) r)
unfolding at_end get_next_buffer get_previous_state ch_buf
at_end-last wraps amount s b buf n bp cp r hc hb hp =
    let behind : leb cp n ≡ false = ground arith in
    let within : ltb (n + 1) cp ≡ false = ground arith in
    let some_text : cp - bp == 1 ≡ false = ground arith in
    rw (behind, within, some_text, hp, hc) refl

end_of_buffer-last :
    (wraps : Bool) (s : Flex) (b : Buffer) (buf : Bytes) (n bp cp : ℕ) (r : Regs)
    → cp ≡ n + 1
    → bp < n
    → set (set buf cp 0) cp (get_or buf cp 0) ≡ buf
    → previous_state (n - bp) buf (regs 1 bp 3 cp) ≡ some r
    → end_of_buffer wraps (acting s b buf n bp (regs 3 cp 3 cp))
      ≡ to_find_action (matched_again s b buf n bp (get_or buf cp 0) r)
unfolding end_of_buffer
end_of_buffer-last wraps s b buf n bp cp r hc hb hs hp =
    ap (at_end wraps (cp - bp - 1)) (settle-poke s b buf n bp cp hs)
    ∙ at_end-last wraps (cp - bp - 1) s b buf n bp cp r hc hb hp

pub act_from-last_match :
    (wraps : Bool) (args : List Bytes) (s : Flex) (b : Buffer) (buf : Bytes) (n p h fuel bp cp : ℕ)
    (r r' : Regs)
    → find_action r ≡ regs 3 cp 3 cp
    → cp ≡ n + 1
    → bp < n
    → set (set buf cp 0) cp (get_or buf cp 0) ≡ buf
    → previous_state (n - bp) buf (regs 1 bp 3 cp) ≡ some r'
    → act_from wraps (suc fuel) bp args (scanning s b buf n p h r)
      ≡ act_from wraps fuel bp args (matched_again s b buf n bp (get_or buf cp 0) r')
act_from-last_match wraps args s b buf n p h fuel bp cp r r' hf hc hb hs hp =
    act_from-jump wraps args s (matched_again s b buf n bp (get_or buf cp 0) r') b buf n p h fuel bp
      cp r hf (end_of_buffer-last wraps s b buf n bp cp r' hc hb hs hp)

at_end-nothing :
    (amount : ℕ) (s : Flex) (b : Buffer) (buf : Bytes) (n cp : ℕ)
    → cp ≡ n + 1
    → at_end true amount (at_text_end s b buf n n cp)
      ≡ to_end_of_file
          (record (at_text_end s b buf n n cp) { did_buffer_switch_on_eof = false; c_buf_p = n })
unfolding at_end get_next_buffer
at_end-nothing amount s b buf n cp hc =
    let behind : leb cp n ≡ false = ground arith in
    let within : ltb (n + 1) cp ≡ false = ground arith in
    let no_text : cp - n == 1 ≡ true = ground arith in rw (behind, within, no_text) refl

-- At the end of the text with nothing matched: the scanner returns its arguments.
pub act_from-end :
    (args : List Bytes) (s : Flex) (b : Buffer) (buf : Bytes) (n p h fuel cp : ℕ) (r : Regs)
    → find_action r ≡ regs 3 cp 3 cp
    → cp ≡ n + 1
    → set (set buf cp 0) cp (get_or buf cp 0) ≡ buf
    → act_from true (suc fuel) n args (scanning s b buf n p h r)
      ≡ returned args (
          delete_buffer
            (record (at_text_end s b buf n n cp) { did_buffer_switch_on_eof = false; c_buf_p = n }))
unfolding act_from before_action poke ch_buf rule end_of_buffer delete_buffer
act_from-end args s b buf n p h fuel cp r hf hc hs =
    let s' : Flex = record (at_text_end s b buf n n cp) {
      did_buffer_switch_on_eof = false;
      c_buf_p = n;
    } in
    let e : end_of_buffer true (acting s b buf n n (find_action r)) ≡ to_end_of_file s' =
      ap (λ f. end_of_buffer true (acting s b buf n n f)) hf
      ∙ ap (at_end true (cp - n - 1)) (settle-poke s b buf n n cp hs)
      ∙ at_end-nothing (cp - n - 1) s b buf n cp hc in
    let acts : get_or yy_accept (find_action r).state 0 == 0 ≡ false = rw hf refl in
    let ends : get_or yy_accept (find_action r).state 0 == 6 ≡ true = rw hf refl in
    rw (act_from, acts, ends, e) refl
