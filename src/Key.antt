-- ===== src/Key.antt =====
-- vty.c, the keys: the tables `spec_chars_hdl` and `esc_chars_hdl`, `reset_vty`, and the loop of
-- `readline`. What is sent to the client is a list of bytes; what `vty_out` prints of the prompt is
-- left out.
pub mod Typed
pub mod Ready
pub mod Sound
pub mod Tests
use mathlib.Core.Option
use opencli.Base.{
  ℕ, zero, suc, ◌-◌, Bool, true, false, not, ◌&&◌, ◌||◌, Option, none, some, List, [], ◌∷◌, ◌++◌,
  ◌==◌, ltb, if◌then◌else◌, Bytes, set,
}
use opencli.Line.{
  Line, save_char, clear_char, clear_word, clear_line, move_to_bol, move_to_eol, backward_char,
  forward_char, forward_word, backward_word, capitalize_word, tolower_word, touppper_word,
  delete_word, transpose_chars,
}
use opencli.Screen.{rl_update}
use opencli.History.{History, history_next, history_prev, history_first, history_last}

abbrev pub bell : ℕ
bell = 7

abbrev pub del : ℕ
del = 127

abbrev pub sp : ℕ
sp = 32

abbrev pub ctrl_c : ℕ
ctrl_c = 3

-- The calls that the two tables choose from.
pub data Key : Type 0 where
  to_bol to_eol char_back char_on erase reprint next prev first last transpose : Key
  escape quote erase_line erase_word word_back word_on capital delete lower upper unbound : Key

-- The switch of `spec_chars_hdl`.
unfoldable pub spec_key : ℕ → Key
spec_key c =
    if c == 1
    then to_bol
    else if c == 5
    then to_eol
    else if c == 2
    then char_back
    else if c == 6
    then char_on
    else if c == del || c == 8
    then erase
    else if c == 18 || c == 12
    then reprint
    else if c == 14
    then next
    else if c == 16
    then prev
    else if c == 20
    then transpose
    else if c == 27
    then escape
    else if c == 24 || c == 21
    then erase_line
    else if c == 23
    then erase_word
    else unbound

-- The switch of `esc_chars_hdl`.
unfoldable pub esc_key : ℕ → Key
esc_key c =
    if c == b'<'
    then first
    else if c == b'>'
    then last
    else if c == b'Q' || c == b'q'
    then quote
    else if c == b'A'
    then next
    else if c == b'B'
    then prev
    else if c == b'C'
    then char_on
    else if c == b'D'
    then char_back
    else if c == b'b'
    then word_back
    else if c == b'f'
    then word_on
    else if c == b'c'
    then capital
    else if c == b'd'
    then delete
    else if c == b'l'
    then lower
    else if c == b'u'
    then upper
    else if c == del
    then erase_line
    else unbound

-- The part of `CL_SOCK` that the keys act on. `h_conf` says that `h_ptr` is `&conf_h`, and not
-- `&exec_h`; `esc_char` and `esc_term` are the bits of `flags`.
pub record Vty : Type 0 where
  pub line : Line
  pub exec_h : History
  pub conf_h : History
  pub h_conf : Bool
  pub mode : ℕ
  pub esc_char : Bool
  pub esc_term : Bool

-- `*h_ptr`
abbrev pub h_ptr : Vty → History
h_ptr v = if v.h_conf then v.conf_h else v.exec_h

-- A new `*h_ptr` and line.
unfoldable pub put_history : Vty → History → Line → Vty
put_history v h l =
    if v.h_conf then record v { conf_h = h; line = l } else record v { exec_h = h; line = l }

unfoldable pub reset_vty : Vty → Vty
reset_vty v = record v {
  conf_h = record v.conf_h { pos = v.conf_h.len };
  exec_h = record v.exec_h { pos = v.exec_h.len };
  h_conf = v.mode == 0;
  line = record v.line {
    rl_ptr = 0;
    rl_buff = set v.line.rl_buff 0 0;
    rl_index = 0;
    old_buff = set v.line.old_buff 0 0;
    old_ptr = 0;
  };
  esc_char = false;
}

unfoldable pub reprint_line : Vty → Vty
reprint_line v = record v {
  line = record v.line { old_buff = set v.line.old_buff 0 0; old_ptr = 0 };
}

-- A call that edits the line: the state, and whether it returned 0.
abbrev edited : Vty → Line × Bool → Option (Vty × Bool)
edited v r = some (record v { line = r.0 }, r.1)

-- A call that walks through the history.
abbrev walked : Vty → Option (History × Line × Bool) → Option (Vty × Bool)
walked v r = Option.map (λ q. (put_history v q.0 q.1, q.2)) r

unfoldable pub press : Key → Vty → Option (Vty × Bool)
press to_bol v = edited v (move_to_bol v.line)
press to_eol v = edited v (move_to_eol v.line)
press char_back v = edited v (backward_char v.line)
press char_on v = edited v (forward_char v.line)
press erase v = edited v (clear_char v.line)
press reprint v = some (reprint_line v, true)
press next v = walked v (history_next (h_ptr v) v.line)
press prev v = walked v (history_prev (h_ptr v) v.line)
press first v = walked v (history_first (h_ptr v) v.line)
press last v = walked v (history_last (h_ptr v) v.line)
press transpose v = edited v (transpose_chars v.line)
press escape v = some (record v { esc_char = true }, true)
press quote v = some (record v { esc_term = true }, true)
press erase_line v = edited v (clear_line v.line)
press erase_word v = edited v (clear_word v.line)
press word_back v = edited v (backward_word v.line)
press word_on v = edited v (forward_word v.line)
press capital v = edited v (capitalize_word v.line)
press delete v = edited v (delete_word v.line)
press lower v = edited v (tolower_word v.line)
press upper v = edited v (touppper_word v.line)
press unbound v = some (v, false)

-- What a round of `readline` ends with: another round, with what it sent, the break byte, or the
-- result -1 of CTRL_C.
pub data Next : Type 0 where
  again : Vty → Bytes → Next
  broke : Vty → ℕ → Next
  aborted : Vty → Next

-- `strchr(breakset, c)`, for a byte other than NUL
abbrev pub strchr : Bytes → ℕ → Bool
strchr [] c = false
strchr (b ∷ breakset) c = b == c || strchr breakset c

-- The bell, and the end of a round: `if (doecho) rl_update(vty);`
unfoldable pub finish : Bool → Vty × Bool → Next
finish doecho r =
    let rung : Bytes = if r.1 then [] else bell ∷ [] in
    let drawn = rl_update r.0.line in
    if doecho then again (record r.0 { line = drawn.0 }) (rung ++ drawn.1) else again r.0 rung

abbrev save : Vty → ℕ → Vty × Bool
save v c = let r = save_char v.line c in (record v { line = r.0 }, r.1)

-- Behind the escape key. `none` is undefined behaviour of a handler.
unfoldable pub escaped : Bool → Vty → ℕ → Option Next
escaped doecho v c =
    if c == b'O' || c == b'['
    then some (again v [])
    else Option.map (λ r. finish doecho (record r.0 { esc_char = false }, r.1))
        (press (esc_key c) v)

-- Behind `quoted_insert`.
unfoldable pub quoted : Bool → Vty → ℕ → Next
quoted doecho v c =
    let r = if not (c == b'\r') && ltb c 127 then save v c else (v, true) in
    finish doecho (record r.0 { esc_term = false }, r.1)

-- A round of the loop of `readline`, on the byte `c` from `telnet_getchar`.
unfoldable pub readline_step : Bytes → Bool → Vty → ℕ → Option Next
readline_step breakset doecho v c =
    if v.esc_char
    then escaped doecho v c
    else if v.esc_term
    then some (quoted doecho v c)
    else if strchr breakset c
    then some (broke v c)
    else if ltb c sp || c == del
    then if c == ctrl_c
      then some (aborted (reset_vty v))
      else Option.map (finish doecho) (press (spec_key c) v)
    else some (finish doecho (save v c))

-- What follows a round.
abbrev pub and_then : Option Next → (Vty → Option Next) → Option Next
and_then none on = none
and_then (some (again v out)) on = on v
and_then (some (broke v c)) on = some (broke v c)
and_then (some (aborted v)) on = some (aborted v)

-- The loop of `readline`, on the bytes that arrive: the result, or where it stands when they have
-- run out. What the rounds send is left out.
unfoldable pub readline_loop : Bytes → Bool → Vty → Bytes → Option Next
readline_loop breakset doecho v [] = some (again v [])
readline_loop breakset doecho v (c ∷ cs) =
    and_then (readline_step breakset doecho v c) (λ v'. readline_loop breakset doecho v' cs)

-- `readline`, behind the prompt
unfoldable pub readline : Bytes → Bool → Vty → Bytes → Option Next
readline breakset doecho v cs =
    readline_loop breakset doecho (record v { line = (rl_update v.line).0 }) cs
