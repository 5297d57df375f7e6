-- ===== src/Output/Pages.antt =====
-- The pages of `vty_out` in vty.c.
use opencli.Base.{
  ℕ, ◌<◌, ◌≡◌, ◌≢◌, ◌↔◌, refl, sym, ap, ◌∙◌, inl, inr, Bool, false, Bool-cases, ◌||◌, Option, none,
  some, List, [], ◌∷◌, ◌++◌, ◌==◌, ltb, arith, Bytes, length, append_assoc, append-nil,
}
use opencli.Screen.{max_wbuffer}
use opencli.Output.{
  Send, text, ask, More, MoreOpts, more_line, more_page, more_abort, send, prompt, ask_loop,
  ask_automore, count_line, automore_loop, automore_output, automore_off, answered, vty_out,
  more_help, int_minus,
}

-- The text of the output among what is handed to `sk_send_all`.
abbrev pub shown : List Send → Bytes
shown [] = []
shown (text t ∷ l) = t ++ shown l
shown (ask t ∷ l) = shown l

shown-append : (l m : List Send) → shown (l ++ m) ≡ shown l ++ shown m
shown-append [] m = refl
shown-append (text t ∷ l) m =
    ap (◌++◌ t) (shown-append l m) ∙ sym (append_assoc t (shown l) (shown m))
shown-append (ask t ∷ l) m = shown-append l m

shown-text : (t : Bytes) (s : More) → shown (send (text t) s).sends ≡ shown s.sends ++ t
unfolding send
shown-text t s = shown-append s.sends (text t ∷ []) ∙ ap (◌++◌ (shown s.sends)) (append-nil t)

shown-ask : (t : Bytes) (s : More) → shown (send (ask t) s).sends ≡ shown s.sends
unfolding send
shown-ask t s = shown-append s.sends (ask t ∷ []) ∙ append-nil (shown s.sends)

-- What an answer to the prompt leaves of the output.
data Asked (before : Bytes) : Option (More × MoreOpts) → Type 0 where
  waiting : Asked before none
  goes_on :
      (s : More) (o : MoreOpts)
      → shown s.sends ≡ before
      → o ≢ more_abort
      → Asked before (some (s, o))
  aborts :
      (s : More)
      → shown s.sends ≡ before
      → s.paged_output ≡ false
      → Asked before (some (s, more_abort))

prompt-shown : (s : More) → shown (prompt s).sends ≡ shown s.sends
unfolding prompt
prompt-shown s = shown-ask _ (send (ask _) s) ∙ shown-ask _ s

ask_loop-Asked : (keys : List (ℕ × ℕ)) (s : More) → Asked (shown s.sends) (ask_loop keys s)
unfolding ask_loop automore_off
ask_loop-Asked [] s = waiting
ask_loop-Asked ((c, height) ∷ keys) s =
    let same = prompt-shown s in
    let s1 : More = record (prompt s) { keys = keys; w_height = height } in
    let again = ask_loop-Asked keys (send (ask more_help) s1) in
    let same' : shown (send (ask more_help) s1).sends ≡ shown s.sends =
      shown-ask more_help s1 ∙ same in
    elim (Bool-cases (c == b'?')) [
      | inl e ↦ rw (ask_loop, e) (rw same' at again)
      | inr e ↦ elim (Bool-cases (c == b' ' || c == b'Y' || c == b'y')) [
        | inl f ↦
            rw (ask_loop, e, f) (goes_on (record s1 { ln_count = 0 }) more_page same (λ z. cc))
        | inr f ↦ elim (Bool-cases (c == b'\r')) [
          | inl g ↦
              rw (ask_loop, e, f, g)
                (goes_on (record s1 { ln_count = int_minus height 2 }) more_line same (λ z. cc))
          | inr g ↦ rw (ask_loop, e, f, g) (aborts (automore_off s1) same refl)
        ]
      ]
    ]

ask_automore-Asked : (s : More) → Asked (shown s.sends) (ask_automore s)
unfolding ask_automore
ask_automore-Asked s = elim (Bool-cases (s.ln_count == 0)) [
  | inl e ↦ rw (ask_automore, e) (goes_on s more_page refl (λ z. cc))
  | inr e ↦ rw (ask_automore, e) (ask_loop-Asked s.keys s)
]

-- What becomes of the output `buf` behind what was handed to `sk_send_all` before, where `last` is the
-- state before the last call.
pub data Shows (before buf : Bytes) : Option (More × Bool) → Type 0 where
  waits : Shows before buf none
  whole :
      (s : More) (last : More)
      → shown s.sends ≡ before ++ buf
      → (t : Bytes) × (s ≡ send (text t) last)
      → Shows before buf (some (s, last.works (length last.sends)))
  part :
      (s : More) (t rest : Bytes)
      → t ++ rest ≡ buf
      → shown s.sends ≡ before ++ t
      → s.paged_output ≡ false
      → Shows before buf (some (s, false))

count_line-shown : (c : ℕ) (s : More) → shown (count_line c s).sends ≡ shown s.sends
unfolding count_line
count_line-shown c s = elim (Bool-cases (c == b'\n')) [ inl e ↦ rw e refl | inr e ↦ rw e refl ]

Shows-behind :
    (before chunk aux : Bytes) (o : Option (More × Bool))
    → Shows (before ++ chunk) aux o
    → Shows before (chunk ++ aux) o
Shows-behind before chunk aux o waits = waits
Shows-behind before chunk aux o (whole s last e f) =
    whole s last (e ∙ append_assoc before chunk aux) f
Shows-behind before chunk aux o (part s t rest e f g) =
    part s (chunk ++ t) rest (append_assoc chunk t rest ∙ ap (◌++◌ chunk) e)
      (f ∙ append_assoc before chunk t) g

after_answer :
    (before buf : Bytes) (o : Option (More × MoreOpts)) (rest : More → Option (More × Bool))
    → Asked before o
    → ((s : More) → shown s.sends ≡ before → Shows before buf (rest s))
    → Shows before buf (answered o rest)
after_answer before buf o rest waiting k = waits
after_answer before buf o rest (goes_on s more_page e ne) k = k s e
after_answer before buf o rest (goes_on s more_line e ne) k = k s e
after_answer before buf o rest (goes_on s more_abort e ne) k = absurd (ne refl)
after_answer before buf o rest (aborts s e off) k =
    part s [] buf refl (e ∙ sym (append-nil before)) off

automore_loop-Shows :
    (chunk aux : Bytes) (s : More)
    → Shows (shown s.sends) (chunk ++ aux) (automore_loop chunk aux s)
unfolding automore_loop
automore_loop-Shows chunk [] s =
    whole (send (text chunk) s) s
      (shown-text chunk s ∙ ap (◌++◌ (shown s.sends)) (sym (append-nil chunk))) (chunk, refl)
automore_loop-Shows chunk (c ∷ aux) s =
    let s1 = count_line c s in
    let chunk' = chunk ++ c ∷ [] in
    let same = count_line-shown c s in
    let glue : chunk' ++ aux ≡ chunk ++ c ∷ aux = append_assoc chunk (c ∷ []) aux in
    elim (Bool-cases (s1.ln_count == int_minus s1.w_height 1)) [
      | inl e ↦
          let sent : shown (send (text chunk') s1).sends ≡ shown s.sends ++ chunk' =
            shown-text chunk' s1 ∙ ap (λ b. b ++ chunk') same in
          let asked = ask_automore-Asked (send (text chunk') s1) in
          let later =
            after_answer (shown s.sends ++ chunk') aux (ask_automore (send (text chunk') s1))
              (automore_loop [] aux) (rw sent at asked)
              (λ s2 h. rw h at (automore_loop-Shows [] aux s2)) in
          rw (automore_loop, e) (rw glue at (Shows-behind (shown s.sends) chunk' aux _ later))
      | inr e ↦ rw (automore_loop, e) (rw (glue, same) at (automore_loop-Shows chunk' aux s1))
    ]

-- However the prompts are answered, and whichever calls of `sk_send_all` fail, `automore_output` hands
-- the output to `sk_send_all` in its order, each byte once: all of it, and then it returns what the last
-- call returned, or a front part of it, and then it returns -1, with the pages turned off.
pub automore_output-Shows :
    (buf : Bytes) (s : More) → Shows (shown s.sends) buf (automore_output buf s)
unfolding automore_output
automore_output-Shows buf s = automore_loop-Shows [] buf s

-- Without pages, `vty_out` is defined exactly for texts that `w_buff` holds with their NUL, and then it
-- sends the whole text.
pub vty_out_iff :
    (out : Bytes) (s : More)
    → s.paged_output ≡ false
    → (vty_out out s ≡ some (send (text out) s)) ↔ (length out < max_wbuffer)
unfolding vty_out
vty_out_iff out s h = elim (Bool-cases (ltb (length out) max_wbuffer)) [
  | inl e ↦ rw (h, e) ((λ z. ground arith), λ z. refl)
  | inr e ↦ rw (h, e) ((λ z. absurd (cc)), λ z. absurd (ground arith))
]
