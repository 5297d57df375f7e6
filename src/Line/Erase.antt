-- ===== src/Line/Erase.antt =====
-- Inserting and erasing a byte: `save_char` and `clear_char` of vty.c, on the text and the cursor.
use opencli.Base.{
  ℕ, suc, ◌+◌, ◌-◌, ◌<◌, ◌≤◌, ◌≡◌, ◌≢◌, refl, sym, ◌∙◌, ap, true, false, [], ◌∷◌, ◌++◌, arith,
  Bytes, set, length, length-append, append_assoc,
}
use opencli.Line.{Line, max_cmdline, shift_right, shift_left, save_char, clear_char}
use opencli.Line.Zipper.{reverse_onto, Zipper, zipper, Holds, set-reverse_onto, length-reverse_onto}
use opencli.Line.Shift.{
  set-shift_right, shift_right-reverse_onto, shift_left-reverse_onto, shift_left-drop,
}

-- What `Holds` knows of the buffer's room: the text and its NUL fit.
pub Holds-room : {v : Line} {z : Zipper} → Holds v z → v.rl_index < max_cmdline
Holds-room {v} {z} h = omega (
  arith,
  h.count,
  h.size,
  ap length h.layout,
  length-reverse_onto z.before (z.after ++ 0 ∷ h.junk),
  length-append z.after (0 ∷ h.junk),
)

-- The size of a buffer by its parts.
pub size_of_layout :
    (b r junk : Bytes)
    → length (reverse_onto b (r ++ 0 ∷ junk)) ≡ length b + length r + 1 + length junk
size_of_layout b r junk =
    omega (arith, length-reverse_onto b (r ++ 0 ∷ junk), length-append r (0 ∷ junk))

snoc_length : (r : Bytes) → length (r ++ 0 ∷ []) ≡ suc (length r)
snoc_length r = omega (arith, length-append r (0 ∷ []))

insert_layout :
    (b r junk : Bytes) (j c p k : ℕ)
    → p ≡ length b
    → k ≡ suc (length r)
    → set (shift_right (reverse_onto b (r ++ 0 ∷ j ∷ junk)) p k) p c
      ≡ reverse_onto (c ∷ b) (r ++ 0 ∷ junk)
insert_layout b r junk j c p k e e' =
    rw
      (
        shift_right-reverse_onto k b (r ++ 0 ∷ j ∷ junk) p e,
        set-reverse_onto b (shift_right (r ++ 0 ∷ j ∷ junk) 0 k) p 0 c (omega arith),
      )
      (ap (reverse_onto b) (
        rw (e', sym (snoc_length r), sym (append_assoc r (0 ∷ []) (j ∷ junk)))
          (set-shift_right (r ++ 0 ∷ []) j c junk
            ∙ ap (λ l. c ∷ l) (append_assoc r (0 ∷ []) junk))))

save_char_room :
    (v : Line) (c : ℕ)
    → v.rl_index + 1 < max_cmdline
    → save_char v c ≡ (
      record v {
        rl_index = v.rl_index + 1;
        rl_buff = set (shift_right v.rl_buff v.rl_ptr (v.rl_index + 1 - v.rl_ptr)) v.rl_ptr c;
        rl_ptr = v.rl_ptr + 1;
      },
      true,
    )
unfolding save_char
save_char_room v c h = ground arith

cons_of_pos : (xs : Bytes) → 0 < length xs → (j : ℕ) × (ys : Bytes) × (xs ≡ j ∷ ys)
cons_of_pos [] h = absurd (omega arith)
cons_of_pos (j ∷ ys) h = (j, ys, refl)

-- What is left of the buffer behind the NUL.
pub Holds-junk :
    {v : Line} {z : Zipper} (h : Holds v z)
    → length z.before + length z.after + 1 + length h.junk ≡ max_cmdline
Holds-junk {z} h = omega (arith, h.size, ap length h.layout, size_of_layout z.before z.after h.junk)

-- A byte other than NUL goes in before the cursor while the line has room, and `save_char` returns 0.
pub save_char-Holds :
    {v : Line} {z : Zipper} (c : ℕ)
    → Holds v z
    → c ≢ 0
    → v.rl_index + 1 < max_cmdline
    → Holds (save_char v c).0 (zipper (c ∷ z.before) z.after) × ((save_char v c).1 ≡ true)
save_char-Holds {v} {z} c h ne room =
    let left : 0 < length h.junk = omega (arith, Holds-junk h, h.count) in
    let (j, junk, e) = cons_of_pos h.junk left in
    let full : length z.before + length z.after + 1 + (length junk + 1) ≡ max_cmdline =
      omega (arith, Holds-junk h, ap length e) in
    let buf : Bytes = set (shift_right v.rl_buff v.rl_ptr (v.rl_index + 1 - v.rl_ptr)) v.rl_ptr c in
    let laid : buf ≡ reverse_onto (c ∷ z.before) (z.after ++ 0 ∷ junk) =
      rw (h.layout, e)
        (insert_layout z.before z.after junk j c v.rl_ptr (v.rl_index + 1 - v.rl_ptr) h.cursor
          (omega (arith, h.count, h.cursor))) in
    rw (save_char_room v c room) (
      record {
        junk = junk;
        layout = laid;
        size = omega (arith, ap length laid, size_of_layout (c ∷ z.before) z.after junk, full);
        cursor = omega (arith, h.cursor);
        count = omega (arith, h.count);
        text_before = (ne, h.text_before);
        text_after = h.text_after;
      },
      refl,
    )

-- With no room the byte is refused.
pub save_char_full : (v : Line) (c : ℕ) → max_cmdline ≤ v.rl_index + 1 → save_char v c ≡ (v, false)
unfolding save_char
save_char_full v c h = ground arith

clear_char_at :
    (v : Line)
    → 0 < v.rl_ptr
    → clear_char v ≡ (
      record v {
        rl_index = v.rl_index - 1;
        rl_ptr = v.rl_ptr - 1;
        rl_buff = shift_left max_cmdline v.rl_buff (v.rl_ptr - 1);
      },
      true,
    )
unfolding clear_char
clear_char_at v h = ground arith

pub clear_char_bol : (v : Line) → v.rl_ptr ≡ 0 → clear_char v ≡ (v, false)
unfolding clear_char
clear_char_bol v h = ground arith

-- The byte before the cursor goes, and `clear_char` returns 0.
pub clear_char-Holds :
    {v : Line} (a : ℕ) (b r : Bytes)
    → Holds v (zipper (a ∷ b) r)
    → Holds (clear_char v).0 (zipper b r) × ((clear_char v).1 ≡ true)
clear_char-Holds {v} a b r h =
    let full : suc (length b) + length r + 1 + length h.junk ≡ max_cmdline = Holds-junk h in
    let buf : Bytes = shift_left max_cmdline v.rl_buff (v.rl_ptr - 1) in
    let laid : buf ≡ reverse_onto b (r ++ 0 ∷ 0 ∷ h.junk) =
      rw
        (
          h.layout,
          shift_left-reverse_onto max_cmdline b (a ∷ (r ++ 0 ∷ h.junk)) (v.rl_ptr - 1) 0
              (omega (arith, h.cursor)),
        )
        (ap (reverse_onto b)
          (shift_left-drop max_cmdline a r h.junk (h.text_before.0, h.text_after) (omega arith))) in
    rw (clear_char_at v (omega (arith, h.cursor))) (
      record {
        junk = 0 ∷ h.junk;
        layout = laid;
        size = omega (arith, ap length laid, size_of_layout b r (0 ∷ h.junk), full);
        cursor = omega (arith, h.cursor);
        count = omega (arith, h.count);
        text_before = h.text_before.1;
        text_after = h.text_after;
      },
      refl,
    )
