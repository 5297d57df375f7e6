-- ===== src/Key/Typed.antt =====
-- A session of vty.c whose line and histories are sound, and the editing functions on such a line.
use opencli.Base.{
  ℕ, ◌+◌, ◌<◌, ◌≤◌, ◌≡◌, ◌≢◌, ◌∙◌, ap, true, List, [], ◌∷◌, arith, leb, Bool-cases, inl, inr, Bytes,
  length, All, cstr,
}
use opencli.Line.{
  Line, max_cmdline, save_char, clear_char, clear_word, clear_line, move_to_bol, move_to_eol,
  backward_char, forward_char, forward_word, backward_word, capitalize_word, tolower_word,
  touppper_word, toupper, tolower, is_delimiter,
}
use opencli.Line.Zipper.{Zipper, zipper, text, Holds, reverse_onto-IsText, length-reverse_onto}
use opencli.Line.Erase.{
  Holds-junk, save_char-Holds, save_char_full, clear_char_bol, clear_char-Holds,
}
use opencli.Line.Rub.{rub_word, clear_word-Holds, clear_line-Holds}
use opencli.Line.Keys.{
  to_start, to_end, left, right, word_start, next_word, prev_word, move_to_bol-Holds,
  move_to_eol-Holds, forward_word-Holds, backward_word-Holds, backward_char-Holds,
  forward_char-Holds, is_word,
}
use opencli.Line.Case.{
  case_word, capitalize, tolower_word-Holds, touppper_word-Holds, capitalize_word-Holds,
}
use opencli.Line.Everywhere.{
  Everywhere, text-All, rub_while-All, forward_while-Everywhere, backward_while-Everywhere,
  case_word-Everywhere, capitalize-Everywhere, left-Everywhere, right-Everywhere,
}
use opencli.History.{History}
use opencli.History.Recent.{Keeps}
use opencli.History.Walk.{IsCommand}
use opencli.Key.{Vty, h_ptr}

-- `sprintf` takes it as it stands.
abbrev pub IsPlainByte : ℕ → Type 0
IsPlainByte c = c ≢ b'%'

-- The buffers hold a line without percent signs.
pub record Typed (l : Line) : Type 0 where
  pub z : Zipper
  pub holds : Holds l z
  pub plain : Everywhere IsPlainByte z

-- A history of commands that can be walked through.
pub record Stored (h : History) : Type 0 where
  pub entries : List Bytes
  pub keeps : Keeps h entries
  pub commands : All IsCommand entries
  pub within : h.pos ≤ h.len

pub record Ready (v : Vty) : Type 0 where
  pub typed : Typed v.line
  pub exec : Stored v.exec_h
  pub conf : Stored v.conf_h
  pub saved : (h_ptr v).pos < (h_ptr v).len → IsCommand (cstr v.line.hst_buff)

-- The text of a line is a command.
pub typed-IsCommand : {l : Line} (t : Typed l) → IsCommand (text t.z)
typed-IsCommand {l} t = record {
  is_text = reverse_onto-IsText t.z.before t.z.after t.holds.text_before t.holds.text_after;
  no_percent = text-All IsPlainByte t.z t.plain;
  short = omega (arith, Holds-junk t.holds, length-reverse_onto t.z.before t.z.after);
}

tolower_plain : (c : ℕ) → IsPlainByte c → IsPlainByte (tolower c)
unfolding tolower
tolower_plain c h = ground arith

toupper_plain : (c : ℕ) → IsPlainByte c → IsPlainByte (toupper c)
unfolding toupper
toupper_plain c h = ground arith

-- The lines that the editing functions leave are typed too.
module _ {l : Line} (t : Typed l) where
  pub move_to_bol-Typed : Typed (move_to_bol l).0
  move_to_bol-Typed = record {
    z = to_start t.z;
    holds = move_to_bol-Holds {v = l} {z = t.z} t.holds;
    plain = backward_while-Everywhere IsPlainByte (λ _. true) t.z.before t.z.after t.plain;
  }

  pub move_to_eol-Typed : Typed (move_to_eol l).0
  move_to_eol-Typed = record {
    z = to_end t.z;
    holds = move_to_eol-Holds {v = l} {z = t.z} t.holds;
    plain = forward_while-Everywhere IsPlainByte (λ _. true) t.z.before t.z.after t.plain;
  }

  pub backward_char-Typed : Typed (backward_char l).0
  backward_char-Typed = record {
    z = left t.z.before t.z.after;
    holds = backward_char-Holds {v = l} t.z.before t.z.after t.holds;
    plain = left-Everywhere IsPlainByte t.z.before t.z.after t.plain;
  }

  pub forward_char-Typed : Typed (forward_char l).0
  forward_char-Typed = record {
    z = right t.z.before t.z.after;
    holds = forward_char-Holds {v = l} t.z.before t.z.after t.holds;
    plain = right-Everywhere IsPlainByte t.z.before t.z.after t.plain;
  }

  word_start_plain : Everywhere IsPlainByte (word_start t.z)
  word_start_plain = forward_while-Everywhere IsPlainByte is_delimiter t.z.before t.z.after t.plain

  pub forward_word-Typed : Typed (forward_word l).0
  forward_word-Typed =
      let w = word_start t.z in
      record {
        z = next_word t.z;
        holds = forward_word-Holds {v = l} {z = t.z} t.holds;
        plain = forward_while-Everywhere IsPlainByte is_word w.before w.after word_start_plain;
      }

  pub backward_word-Typed : Typed (backward_word l).0
  backward_word-Typed =
      let first = backward_while-Everywhere IsPlainByte is_delimiter t.z.before t.z.after t.plain in
      record {
        z = prev_word t.z;
        holds = backward_word-Holds {v = l} {z = t.z} t.holds;
        plain = backward_while-Everywhere IsPlainByte is_word _ _ first;
      }

  pub clear_word-Typed : Typed (clear_word l).0
  clear_word-Typed = record {
    z = zipper (rub_word t.z.before) t.z.after;
    holds = clear_word-Holds {v = l} {z = t.z} t.holds;
    plain = (
      rub_while-All IsPlainByte _ _ (rub_while-All IsPlainByte _ t.z.before t.plain.0),
      t.plain.1,
    );
  }

  pub clear_line-Typed : Typed (clear_line l).0
  clear_line-Typed = record {
    z = zipper [] t.z.after;
    holds = clear_line-Holds {v = l} {z = t.z} t.holds;
    plain = (tt, t.plain.1);
  }

  pub capitalize_word-Typed : Typed (capitalize_word l).0
  capitalize_word-Typed =
      let w = word_start t.z in
      record {
        z = capitalize w.before w.after;
        holds = capitalize_word-Holds {v = l} {z = t.z} t.holds;
        plain =
            capitalize-Everywhere IsPlainByte w.before w.after tolower_plain toupper_plain
              word_start_plain;
      }

  pub tolower_word-Typed : Typed (tolower_word l).0
  tolower_word-Typed =
      let w = word_start t.z in
      record {
        z = case_word tolower w.before w.after;
        holds = tolower_word-Holds {v = l} {z = t.z} t.holds;
        plain =
            case_word-Everywhere IsPlainByte tolower w.before w.after tolower_plain
              word_start_plain;
      }

  pub touppper_word-Typed : Typed (touppper_word l).0
  touppper_word-Typed =
      let w = word_start t.z in
      record {
        z = case_word toupper w.before w.after;
        holds = touppper_word-Holds {v = l} {z = t.z} t.holds;
        plain =
            case_word-Everywhere IsPlainByte toupper w.before w.after toupper_plain
              word_start_plain;
      }

  pub save_char-Typed : (c : ℕ) → c ≢ 0 → IsPlainByte c → Typed (save_char l c).0
  save_char-Typed c ne plain = elim (Bool-cases (leb max_cmdline (l.rl_index + 1))) [
    | inl full ↦ rw (save_char_full l c (ground arith)) t
    | inr room ↦ record {
      z = zipper (c ∷ t.z.before) t.z.after;
      holds = (save_char-Holds {v = l} {z = t.z} c t.holds ne (ground arith)).0;
      plain = ((plain, t.plain.0), t.plain.1);
    }
  ]

clear_at :
    {l : Line} (b r : Bytes)
    → Holds l (zipper b r)
    → Everywhere IsPlainByte (zipper b r)
    → Typed (clear_char l).0
clear_at {l} [] r h plain =
    rw (clear_char_bol l h.cursor) record { z = zipper [] r; holds = h; plain = plain }
clear_at {l} (c ∷ b) r h plain = record {
  z = zipper b r;
  holds = (clear_char-Holds {v = l} c b r h).0;
  plain = (plain.0.1, plain.1);
}

pub clear_char-Typed : {l : Line} → Typed l → Typed (clear_char l).0
clear_char-Typed {l} t = clear_at t.z.before t.z.after t.holds t.plain

-- A line with the same buffer and cursor.
pub same-Typed :
    {l : Line} (l' : Line)
    → Typed l
    → l'.rl_buff ≡ l.rl_buff
    → l'.rl_index ≡ l.rl_index
    → l'.rl_ptr ≡ l.rl_ptr
    → Typed l'
same-Typed {l} l' t b n p = record {
  z = t.z;
  holds = record {
    junk = t.holds.junk;
    layout = b ∙ t.holds.layout;
    size = ap length b ∙ t.holds.size;
    cursor = p ∙ t.holds.cursor;
    count = n ∙ t.holds.count;
    text_before = t.holds.text_before;
    text_after = t.holds.text_after;
  };
  plain = t.plain;
}
