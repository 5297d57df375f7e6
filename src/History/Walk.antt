-- ===== src/History/Walk.antt =====
-- `history_next` and `history_prev` of vty.c, against a walk through the list of commands.

use opencli.Base.{
  ℕ, zero, suc, ◌+◌, ◌-◌, ◌<◌, ◌≤◌, ◌≡◌, ◌≢◌, refl, sym, ◌∙◌, ap, Bool, true, false, Option, none,
  some, List, [], ◌∷◌, ◌++◌, map, arith, ◌==◌, ltb, leb, Bool-cases, inl, inr, Bytes, get_or, drop,
  length, length-drop, All, IsText, cstr, cstr-append, append-nil,
}
use opencli.Line.{Line, max_cmdline}
use opencli.Line.Zipper.{
  Zipper, zipper, text, reverse_onto, reverse_onto-IsText, length-reverse_onto, Holds, Holds-cstr,
}
use opencli.Screen.{strcpy}
use opencli.History.{
  History, hist_get_previous, hist_get_next, format_plain, hist_write_entry, history_prev,
  history_next,
}
use opencli.History.Recent.{Keeps}

-- A line that `sprintf` takes as it stands, and that fits into the buffer.
pub record IsCommand (s : Bytes) : Type 0 where
  pub is_text : IsText s
  pub no_percent : All (λ c. c ≢ b'%') s
  pub short : length s < max_cmdline

format_plain-same : (s : Bytes) → All (λ c. c ≢ b'%') s → format_plain s ≡ some s
unfolding format_plain
format_plain-same [] h = refl
format_plain-same (c ∷ []) h = ground (arith, h.0)
format_plain-same (c ∷ d ∷ cs) h =
    let e : (c == b'%') ≡ false = ground (arith, h.0) in rw (e, format_plain-same (d ∷ cs) h.1)

cstr-same : (s : Bytes) → IsText s → cstr s ≡ s
cstr-same [] h = refl
cstr-same (c ∷ s) h = ground (arith, h.0, cstr-same s h.1)

-- The line with the cursor at its end.
abbrev pub at_end : Bytes → Zipper
at_end s = zipper (reverse_onto s []) []

onto_twice : (s acc ys : Bytes) → reverse_onto (reverse_onto s acc) ys ≡ reverse_onto acc (s ++ ys)
onto_twice [] acc ys = refl
onto_twice (c ∷ s) acc ys = onto_twice s (c ∷ acc) ys

pub text-at_end : (s : Bytes) → text (at_end s) ≡ s
text-at_end s = onto_twice s [] [] ∙ append-nil s

abbrev written : Line → Bytes → Line
written v s = record v { rl_buff = strcpy v.rl_buff s; rl_index = length s; rl_ptr = length s }

written-Holds :
    (v : Line) (s : Bytes)
    → length v.rl_buff ≡ max_cmdline
    → IsCommand s
    → Holds (written v s) (at_end s)
unfolding strcpy
written-Holds v s size c =
    let junk : Bytes = drop (length s + 1) v.rl_buff in
    let laid : strcpy v.rl_buff s ≡ reverse_onto (reverse_onto s []) (0 ∷ junk) =
      rw (cstr-same s c.is_text) (sym (onto_twice s [] (0 ∷ junk))) in
    record {
      junk = junk;
      layout = laid;
      size =
          ap length laid
          ∙ omega (
            arith,
            c.short,
            length-reverse_onto (reverse_onto s []) (0 ∷ junk),
            length-reverse_onto s [],
            length-drop (length s + 1) v.rl_buff,
          );
      cursor = omega (arith, length-reverse_onto s []);
      count = omega (arith, length-reverse_onto s []);
      text_before = reverse_onto-IsText s [] c.is_text tt;
      text_after = tt;
    }

write_entry-written :
    (v : Line) (s : Bytes) → IsCommand s → hist_write_entry v s ≡ some (written v s)
unfolding hist_write_entry
write_entry-written v s c = rw (format_plain-same s c.no_percent)

-- The line that belongs to a place: an entry, or behind them the line that was saved.
abbrev pub line_at : List Bytes → Bytes → ℕ → Bytes
line_at es saved p = get_or es p saved

slot_at :
    (es : List Bytes) (saved : Bytes) (rest : List (Option Bytes)) (p : ℕ)
    → p < length es
    → get_or (map some es ++ rest) p none ≡ some (line_at es saved p)
slot_at [] saved rest p h = absurd (omega arith)
slot_at (e ∷ es) saved rest zero h = refl
slot_at (e ∷ es) saved rest (suc p) h = slot_at es saved rest p (omega arith)

line_at_end : (es : List Bytes) (saved : Bytes) (p : ℕ) → p ≡ length es → line_at es saved p ≡ saved
line_at_end [] saved p e = refl
line_at_end (x ∷ es) saved zero e = absurd (omega arith)
line_at_end (x ∷ es) saved (suc p) e = line_at_end es saved p (omega arith)

pub line_at-IsCommand :
    (es : List Bytes) (saved : Bytes) (p : ℕ)
    → All IsCommand es
    → IsCommand saved
    → IsCommand (line_at es saved p)
line_at-IsCommand [] saved p h c = c
line_at-IsCommand (e ∷ es) saved zero h c = h.0
line_at-IsCommand (e ∷ es) saved (suc p) h c = line_at-IsCommand es saved p h.1 c

-- The user is at place `h.pos` of the walk that began on the line `saved`.
pub record Walks (h : History) (v : Line) (es : List Bytes) (saved : Bytes) : Type 0 where
  pub keeps : Keeps h es
  pub within : h.pos ≤ h.len
  pub saved_line : h.pos < h.len → cstr v.hst_buff ≡ saved

-- What a step of the walk results in.
pub record Moves (h : History) (es : List Bytes) (saved : Bytes) (p : ℕ)
    (r : Option (History × Line × Bool)) : Type 0 where
  pub h' : History
  pub v' : Line
  pub result : r ≡ some (h', v', true)
  pub place : h'.pos ≡ p
  pub walks : Walks h' v' es saved
  pub line : Holds v' (at_end (line_at es saved p))

next_entry :
    {h : History} (es : List Bytes) (saved : Bytes) (p : ℕ)
    → Keeps h es
    → h.pos ≡ suc p
    → p < h.len
    → hist_get_next h ≡ (record h { pos = p }, some (line_at es saved p))
unfolding hist_get_next
next_entry {h} es saved p k at lt =
    let e : (h.pos == 0) ≡ false = ground (arith, at) in
    let e' : h.pos - 1 ≡ p = omega arith in
    rw (e, e', k.slots, slot_at es saved k.rest p (omega (arith, k.count)))

previous_entry :
    {h : History} (es : List Bytes) (saved : Bytes)
    → Keeps h es
    → h.pos + 1 < h.len
    → hist_get_previous h ≡ (record h { pos = h.pos + 1 }, some (line_at es saved (h.pos + 1)))
unfolding hist_get_previous
previous_entry {h} es saved k lt =
    let e : leb h.len (h.pos + 1) ≡ false = ground arith in
    rw (e, k.slots, slot_at es saved k.rest (h.pos + 1) (omega (arith, k.count)))

previous_none :
    (h : History) → h.len ≤ h.pos + 1 → hist_get_previous h ≡ (record h { pos = h.len }, none)
unfolding hist_get_previous
previous_none h le = let e : leb h.len (h.pos + 1) ≡ true = ground arith in rw e

Keeps-at : {h : History} {es : List Bytes} (p : ℕ) → Keeps h es → Keeps (record h { pos = p }) es
Keeps-at p k = record { rest = k.rest; slots = k.slots; size = k.size; count = k.count }

saved_cstr : {v : Line} {z : Zipper} → Holds v z → cstr (strcpy v.hst_buff v.rl_buff) ≡ text z
unfolding strcpy
saved_cstr {v} {z} h = rw (Holds-cstr h) (
    cstr-append (text z) (drop (length (text z) + 1) v.hst_buff)
      (reverse_onto-IsText z.before z.after h.text_before h.text_after))

module _ {h : History} {v : Line} {z : Zipper} (es : List Bytes) (saved : Bytes)
    (commands : All IsCommand es) (c : IsCommand saved) (w : Walks h v es saved)
    (holds : Holds v z) where
  IsCommand-at : (p : ℕ) → IsCommand (line_at es saved p)
  IsCommand-at p = line_at-IsCommand es saved p commands c

  -- From the place behind an entry, in a history of commands that `sprintf` takes as they stand,
  -- `history_next` goes one entry back in time and puts it into the line. On leaving the line being
  -- typed it saves it.
  pub history_next-Moves :
      (p : ℕ)
      → h.pos ≡ suc p
      → (h.pos ≡ h.len → text z ≡ saved)
      → Moves h es saved p (history_next h v)
  unfolding history_next
  history_next-Moves p at is =
      let lt : p < h.len = omega (arith, w.within) in
      let s = line_at es saved p in
      rw (next_entry es saved p w.keeps at lt, history_next)
        (elim (Bool-cases (p == h.len - 1)) [
          | inl top ↦
              let last : h.pos ≡ h.len = ground arith in
              let v1 : Line = record v { hst_buff = strcpy v.hst_buff v.rl_buff } in
              record {
                h' = record h { pos = p };
                v' = written v1 s;
                result = rw (
                  next_entry es saved p w.keeps at lt,
                  top,
                  write_entry-written v1 s (IsCommand-at p),
                );
                place = refl;
                walks = record {
                  keeps = Keeps-at p w.keeps;
                  within = omega arith;
                  saved_line = λ _. saved_cstr holds ∙ is last;
                };
                line = written-Holds v1 s holds.size (IsCommand-at p);
              }
          | inr down ↦ record {
            h' = record h { pos = p };
            v' = written v s;
            result = rw (
              next_entry es saved p w.keeps at lt,
              down,
              write_entry-written v s (IsCommand-at p),
            );
            place = refl;
            walks = record {
              keeps = Keeps-at p w.keeps;
              within = omega arith;
              saved_line = λ _. w.saved_line (ground arith);
            };
            line = written-Holds v s holds.size (IsCommand-at p);
          }
        ])

  -- In front of the end of a history of commands that `sprintf` takes as they stand,
  -- `history_prev` goes one entry on, and from the last entry to the saved line.
  pub history_prev-Moves : h.pos < h.len → Moves h es saved (h.pos + 1) (history_prev h v)
  unfolding history_prev
  history_prev-Moves lt =
      let inside : (h.pos == h.len) ≡ false = ground arith in
      let s = line_at es saved (h.pos + 1) in
      elim (Bool-cases (ltb (h.pos + 1) h.len)) [
        | inl more ↦
            let on : h.pos + 1 < h.len = ground arith in
            rw (previous_entry es saved w.keeps on, inside)
              (record {
                h' = record h { pos = h.pos + 1 };
                v' = written v s;
                result = rw (write_entry-written v s (IsCommand-at (h.pos + 1)));
                place = refl;
                walks = record {
                  keeps = Keeps-at (h.pos + 1) w.keeps;
                  within = omega arith;
                  saved_line = λ _. w.saved_line lt;
                };
                line = written-Holds v s holds.size (IsCommand-at (h.pos + 1));
              })
        | inr last ↦
            let ends : h.len ≤ h.pos + 1 = ground arith in
            let whole = line_at_end es saved (h.pos + 1) (omega (arith, w.keeps.count)) in
            rw (previous_none h ends, inside, w.saved_line lt)
              (record {
                h' = record h { pos = h.len };
                v' = written v saved;
                result = rw (write_entry-written v saved c);
                place = omega arith;
                walks = record {
                  keeps = Keeps-at h.len w.keeps;
                  within = omega arith;
                  saved_line = λ le. absurd (omega arith);
                };
                line = rw whole (written-Holds v saved holds.size c);
              })
      ]
