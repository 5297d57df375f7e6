-- ===== src/Key/Sound.antt =====
-- The rounds of `readline` of vty.c, from a sound state of the session.
use mathlib.Core.Option
use opencli.Base.{
  ℕ, ◌<◌, ◌≡◌, ◌≢◌, refl, ◌∙◌, ap, Bool, true, false, not, ◌&&◌, ◌||◌, Option, some, [], ◌∷◌, arith,
  ◌==◌, ltb, if◌then◌else◌, Bool-cases, inl, inr, Bytes, set, length, length-set, All, IsText,
}
use opencli.Line.{
  Line, save_char, clear_char, clear_word, clear_line, move_to_bol, move_to_eol, backward_char,
  forward_char, forward_word, backward_word, capitalize_word, tolower_word, touppper_word,
  delete_word, transpose_chars,
}
use opencli.Line.Zipper.{zipper, text}
use opencli.Line.Kept.{
  save_char-SameSaved, clear_char-SameSaved, clear_word-SameSaved, clear_line-SameSaved,
  move_to_bol-SameSaved, move_to_eol-SameSaved, backward_char-SameSaved, forward_char-SameSaved,
  forward_word-SameSaved, backward_word-SameSaved, capitalize_word-SameSaved,
  tolower_word-SameSaved, touppper_word-SameSaved,
}
use opencli.Screen.{rl_update}
use opencli.History.{History, history_first, history_last}
use opencli.Key.{
  Key, to_bol, to_eol, char_back, char_on, erase, reprint, next, prev, first, last, transpose,
  escape, quote, erase_line, erase_word, word_back, word_on, capital, delete, lower, upper, unbound,
  Vty, h_ptr, reset_vty, reprint_line, press, Next, again, broke, aborted, strchr, finish, escaped,
  quoted, readline_step, readline_loop, and_then, readline, spec_key, esc_key, sp, del, ctrl_c,
}
use opencli.History.Stay.{history_first_stays, history_last_stays}
use opencli.Key.Typed.{
  IsPlainByte, Typed, Stored, Ready, same-Typed, move_to_bol-Typed, move_to_eol-Typed,
  backward_char-Typed, forward_char-Typed, forward_word-Typed, backward_word-Typed,
  clear_word-Typed, clear_line-Typed, capitalize_word-Typed, tolower_word-Typed,
  touppper_word-Typed, save_char-Typed, clear_char-Typed,
}
use opencli.Key.Ready.{edited-Ready, Gives, Gives-edited, Gives-stayed, next-Gives, prev-Gives}

Gives-same : {v : Vty} (ok : Bool) → Ready v → Gives (some (v, ok))
Gives-same {v} ok ready = (v, ok, refl, ready)

reprint_line-Ready : {v : Vty} → Ready v → Ready (reprint_line v)
unfolding reprint_line
reprint_line-Ready {v} r = edited-Ready r (same-Typed _ r.typed refl refl refl) refl

flags-Ready :
    {v : Vty} (term char : Bool) → Ready v → Ready (record v { esc_term = term; esc_char = char })
flags-Ready term char r = record { typed = r.typed; exec = r.exec; conf = r.conf; saved = r.saved }

-- Every key is answered, and leaves a sound state.
pub press-Gives : (k : Key) {v : Vty} → Ready v → Gives (press k v)
unfolding press delete_word transpose_chars
press-Gives to_bol {v} r =
    Gives-edited (move_to_bol v.line) r (move_to_bol-Typed r.typed) (move_to_bol-SameSaved v.line)
press-Gives to_eol {v} r =
    Gives-edited (move_to_eol v.line) r (move_to_eol-Typed r.typed) (move_to_eol-SameSaved v.line)
press-Gives char_back {v} r =
    Gives-edited (backward_char v.line) r (backward_char-Typed r.typed)
      (backward_char-SameSaved v.line)
press-Gives char_on {v} r =
    Gives-edited (forward_char v.line) r (forward_char-Typed r.typed)
      (forward_char-SameSaved v.line)
press-Gives erase {v} r =
    Gives-edited (clear_char v.line) r (clear_char-Typed r.typed) (clear_char-SameSaved v.line)
press-Gives erase_line {v} r =
    Gives-edited (clear_line v.line) r (clear_line-Typed r.typed) (clear_line-SameSaved v.line)
press-Gives erase_word {v} r =
    Gives-edited (clear_word v.line) r (clear_word-Typed r.typed) (clear_word-SameSaved v.line)
press-Gives word_back {v} r =
    Gives-edited (backward_word v.line) r (backward_word-Typed r.typed)
      (backward_word-SameSaved v.line)
press-Gives word_on {v} r =
    Gives-edited (forward_word v.line) r (forward_word-Typed r.typed)
      (forward_word-SameSaved v.line)
press-Gives capital {v} r =
    Gives-edited (capitalize_word v.line) r (capitalize_word-Typed r.typed)
      (capitalize_word-SameSaved v.line)
press-Gives lower {v} r =
    Gives-edited (tolower_word v.line) r (tolower_word-Typed r.typed)
      (tolower_word-SameSaved v.line)
press-Gives upper {v} r =
    Gives-edited (touppper_word v.line) r (touppper_word-Typed r.typed)
      (touppper_word-SameSaved v.line)
press-Gives delete {v} r = Gives-edited (delete_word v.line) r r.typed refl
press-Gives transpose {v} r = Gives-edited (transpose_chars v.line) r r.typed refl
press-Gives reprint r = Gives-same true (reprint_line-Ready r)
press-Gives next r = next-Gives r
press-Gives prev r = prev-Gives r
press-Gives first {v} r =
    Gives-stayed {v = v} (history_first (h_ptr v) v.line) true r
      (history_first_stays (h_ptr v) v.line)
press-Gives last {v} r =
    Gives-stayed {v = v} (history_last (h_ptr v) v.line) true r
      (history_last_stays (h_ptr v) v.line)
press-Gives escape {v} r = Gives-same true (flags-Ready v.esc_term true r)
press-Gives quote {v} r = Gives-same true (flags-Ready true v.esc_char r)
press-Gives unbound r = Gives-same false r

-- A round that ends in a sound state.
pub data Sound : Option Next → Type 0 where
  goes_on : {v : Vty} {out : Bytes} → Ready v → Sound (some (again v out))
  breaks : {v : Vty} {c : ℕ} → Ready v → Sound (some (broke v c))
  aborts : {v : Vty} → Ready v → Sound (some (aborted v))

drawn-Ready : {v : Vty} → Ready v → Ready (record v { line = (rl_update v.line).0 })
unfolding rl_update
drawn-Ready {v} r = edited-Ready r (same-Typed _ r.typed refl refl refl) refl

finish-Sound :
    (doecho : Bool) {v : Vty} (ok : Bool) → Ready v → Sound (some (finish doecho (v, ok)))
unfolding finish
finish-Sound true ok r = goes_on (drawn-Ready r)
finish-Sound false ok r = goes_on r

nul_in_front : (xs : Bytes) → 0 < length xs → (ys : Bytes) × (set xs 0 0 ≡ 0 ∷ ys)
nul_in_front [] h = absurd (omega arith)
nul_in_front (x ∷ xs) h = (xs, refl)

-- `reset_vty` empties the line.
emptied-Typed :
    {l : Line} (l' : Line)
    → Typed l
    → l'.rl_buff ≡ set l.rl_buff 0 0
    → l'.rl_index ≡ 0
    → l'.rl_ptr ≡ 0
    → Typed l'
emptied-Typed {l} l' t b n p =
    let (junk, front) = nul_in_front l.rl_buff (omega (arith, t.holds.size)) in
    record {
      z = zipper [] [];
      holds = record {
        junk = junk;
        layout = b ∙ front;
        size = ap length b ∙ length-set l.rl_buff 0 0 ∙ t.holds.size;
        cursor = p;
        count = n;
        text_before = tt;
        text_after = tt;
      };
      plain = (tt, tt);
    }

at_end-Stored : {h : History} → Stored h → Stored (record h { pos = h.len })
at_end-Stored {h} s = record {
  entries = s.entries;
  keeps = record {
    rest = s.keeps.rest;
    slots = s.keeps.slots;
    size = s.keeps.size;
    count = s.keeps.count;
  };
  commands = s.commands;
  within = omega arith;
}

pub reset_vty-Ready : {v : Vty} → Ready v → Ready (reset_vty v)
unfolding reset_vty
reset_vty-Ready {v} r = record {
  typed = emptied-Typed _ r.typed refl refl refl;
  exec = at_end-Stored r.exec;
  conf = at_end-Stored r.conf;
  saved = elim (Bool-cases (v.mode == 0)) [
    | inl e ↦ rw e (λ lt. absurd (omega arith))
    | inr e ↦ rw e (λ lt. absurd (omega arith))
  ];
}

escaped-Sound : (doecho : Bool) {v : Vty} (c : ℕ) → Ready v → Sound (escaped doecho v c)
unfolding escaped
escaped-Sound doecho {v} c r = elim (Bool-cases (c == b'O' || c == b'[')) [
  | inl e ↦ rw e (goes_on r)
  | inr e ↦
      let (v', ok, given, r') = press-Gives (esc_key c) r in
      rw (e, given) (finish-Sound doecho ok (flags-Ready v'.esc_term false r'))
]

save-Ready :
    {v : Vty} (c : ℕ)
    → Ready v
    → c ≢ 0
    → IsPlainByte c
    → Ready (record v { line = (save_char v.line c).0 })
save-Ready {v} c r ne plain =
    edited-Ready r (save_char-Typed r.typed c ne plain) (save_char-SameSaved v.line c)

quoted-Sound :
    (doecho : Bool) {v : Vty} (c : ℕ)
    → Ready v
    → c ≢ 0
    → IsPlainByte c
    → Sound (some (quoted doecho v c))
unfolding quoted
quoted-Sound doecho {v} c r ne plain = elim (Bool-cases (not (c == b'\r') && ltb c 127)) [
  | inl e ↦ rw e (
      finish-Sound doecho (save_char v.line c).1
        (flags-Ready false v.esc_char (save-Ready c r ne plain)))
  | inr e ↦ rw e (finish-Sound doecho true (flags-Ready false v.esc_char r))
]

control-Sound :
    (doecho : Bool) {v : Vty} (c : ℕ)
    → Ready v
    → Sound (
        if c == ctrl_c
        then some (aborted (reset_vty v))
        else Option.map (finish doecho) (press (spec_key c) v))
control-Sound doecho {v} c r = elim (Bool-cases (c == ctrl_c)) [
  | inl e ↦ rw e (aborts (reset_vty-Ready r))
  | inr e ↦
      let (v', ok, given, r') = press-Gives (spec_key c) r in
      rw (e, given) (finish-Sound doecho ok r')
]

if-Sound : (b : Bool) {x y : Option Next} → Sound x → Sound y → Sound (if b then x else y)
if-Sound true s t = s
if-Sound false s t = t

-- In a sound state a round of `readline` is defined on every byte but NUL and the percent sign, and
-- leaves a sound state: the line is a text in its buffer, the histories can be walked through, and
-- the saved line is one that can be shown again.
pub readline_step-Sound :
    (breakset : Bytes) (doecho : Bool) {v : Vty} (c : ℕ)
    → Ready v
    → c ≢ 0
    → IsPlainByte c
    → Sound (readline_step breakset doecho v c)
unfolding readline_step
readline_step-Sound breakset doecho {v} c r ne plain =
    let saved = finish-Sound doecho (save_char v.line c).1 (save-Ready c r ne plain) in
    if-Sound v.esc_char (escaped-Sound doecho c r) (
      if-Sound v.esc_term (quoted-Sound doecho c r ne plain) (
        if-Sound (strchr breakset c) (breaks r)
          (if-Sound (ltb c sp || c == del) (control-Sound doecho c r) saved)))

and_then-Sound :
    {o : Option Next} {on : Vty → Option Next}
    → Sound o
    → ((v : Vty) → Ready v → Sound (on v))
    → Sound (and_then o on)
and_then-Sound (goes_on {v} r) on = on v r
and_then-Sound (breaks r) on = breaks r
and_then-Sound (aborts r) on = aborts r

loop-Sound :
    (breakset : Bytes) (doecho : Bool) {v : Vty} (cs : Bytes)
    → Ready v
    → IsText cs
    → All IsPlainByte cs
    → Sound (readline_loop breakset doecho v cs)
unfolding readline_loop
loop-Sound breakset doecho [] r text plain = goes_on r
loop-Sound breakset doecho (c ∷ cs) r text plain =
    and_then-Sound (readline_step-Sound breakset doecho c r text.0 plain.0)
      (λ v' r'. loop-Sound breakset doecho cs r' text.1 plain.1)

-- In a sound state `readline` is defined on all bytes but NUL and the percent sign, and what it
-- returns with, or waits with, is a sound state.
pub readline-Sound :
    (breakset : Bytes) (doecho : Bool) {v : Vty} (cs : Bytes)
    → Ready v
    → IsText cs
    → All IsPlainByte cs
    → Sound (readline breakset doecho v cs)
unfolding readline
readline-Sound breakset doecho cs r text plain =
    loop-Sound breakset doecho cs (drawn-Ready r) text plain
