-- ===== src/Line/Complete.antt =====
-- `cmd_complete` of vty.c, which writes the name of a command over the last word.
use opencli.Base.{
  ℕ, zero, suc, ◌+◌, ◌-◌, ◌≤◌, ◌<◌, ◌≡◌, refl, ◌∙◌, ap, Bool, not, ◌&&◌, [], ◌∷◌, arith,
  if◌then◌else◌, ◌==◌, ltb, Bool-cases, inl, inr, Bytes, IsText, get_or, set, length, drop,
  length-drop, cstr, cstr-append,
}
use opencli.Line.{Line, max_cmdline, char_before}
use opencli.Line.Zipper.{
  reverse_onto, zipper, Holds, get_or-reverse_onto, set-reverse_onto, length-reverse_onto,
  reverse_onto-append, reverse_onto-IsText,
}
use opencli.Line.Erase.{Holds-junk}
use opencli.Line.Rub.{rub_while}

unfoldable pub has_input : Line → Bool
unfolding char_before
has_input v = ltb 0 v.rl_ptr && not (char_before v == b' ')

-- `while ((*(rl_ptr - 1) != ' ') && (--rl_ptr != rl_buff));`, which `tabl_hdl` enters only where
-- `rl_ptr > rl_buff`
unfoldable pub word_start : Bytes → ℕ → ℕ
word_start buf zero = zero
word_start buf (suc p) =
    let rest = word_start buf p in if get_or buf p 0 == b' ' then suc p else rest

-- The bytes `s` written from `p` on.
unfoldable pub write : Bytes → ℕ → Bytes → Bytes
write buf p [] = buf
write buf p (c ∷ s) = write (set buf p c) (suc p) s

-- `sprintf(rl_ptr, "%s ", match)` writes the name, a blank and the NUL.
unfoldable pub cmd_complete : Line → Bytes → Line
cmd_complete v match =
    let p = word_start v.rl_buff v.rl_ptr in
    let buf = write (write v.rl_buff p match) (p + length match) (b' ' ∷ 0 ∷ []) in
    record v { rl_buff = buf; rl_ptr = p + length match + 1; rl_index = length (cstr buf) }

abbrev pub not_blank : ℕ → Bool
not_blank c = not (c == b' ')

word_start-rub :
    (b ys : Bytes) → word_start (reverse_onto b ys) (length b) ≡ length (rub_while not_blank b)
unfolding word_start
word_start-rub [] ys = refl
word_start-rub (c ∷ b) ys =
    let here : get_or (reverse_onto b (c ∷ ys)) (length b) 0 ≡ c =
      get_or-reverse_onto b (c ∷ ys) (length b) 0 (omega arith) in
    elim (Bool-cases (c == b' ')) [
      | inl e ↦ rw (here, e)
      | inr e ↦ rw (here, e) (word_start-rub b (c ∷ ys))
    ]

-- Where the last word of a line begins.
pub word_start-Holds :
    {v : Line} (b : Bytes)
    → Holds v (zipper b [])
    → word_start v.rl_buff v.rl_ptr ≡ length (rub_while not_blank b)
word_start-Holds b h = rw (h.layout, h.cursor) (word_start-rub b (0 ∷ h.junk))

rub_split :
    (b ys : Bytes)
    → (w : Bytes) × (reverse_onto b ys ≡ reverse_onto (rub_while not_blank b) w)
      × (length (rub_while not_blank b) + length w ≡ length b + length ys)
rub_split [] ys = (ys, refl, refl)
rub_split (c ∷ b) ys =
    let (w, same, size) = rub_split b (c ∷ ys) in
    elim (Bool-cases (c == b' ')) [
      | inl e ↦ (ys, rw e, rw e (omega arith))
      | inr e ↦ (w, rw e same, rw e (omega (arith, size)))
    ]

write-reverse_onto :
    (s b ys : Bytes) (p : ℕ)
    → p ≡ length b
    → length s ≤ length ys
    → write (reverse_onto b ys) p s ≡ reverse_onto (reverse_onto s b) (drop (length s) ys)
unfolding write
write-reverse_onto [] b ys p at room = refl
write-reverse_onto (c ∷ s) b [] p at room = absurd (omega arith)
write-reverse_onto (c ∷ s) b (y ∷ ys) p at room =
    rw (set-reverse_onto b (y ∷ ys) p 0 c (omega arith))
      (write-reverse_onto s (c ∷ b) ys (suc p) (omega arith) (omega arith))

rub_IsText : (b : Bytes) → IsText b → IsText (rub_while not_blank b)
rub_IsText [] h = tt
rub_IsText (c ∷ b) h = elim (Bool-cases (c == b' ')) [
  | inl e ↦ rw e h
  | inr e ↦ rw e (rub_IsText b h.1)
]

-- What the `sprintf` leaves behind `kept`.
sprintf_layout :
    (match kept w buf : Bytes) (p : ℕ)
    → buf ≡ reverse_onto kept w
    → p ≡ length kept
    → length match + 2 ≤ length w
    → write (write buf p match) (p + length match) (b' ' ∷ 0 ∷ [])
      ≡ reverse_onto (b' ' ∷ reverse_onto match kept) (0 ∷ drop 2 (drop (length match) w))
sprintf_layout match kept w buf p same start room =
    let deep = length-reverse_onto match kept in
    let left_size = length-drop (length match) w in
    rw (same, write-reverse_onto match kept w p start (omega arith))
      (write-reverse_onto (b' ' ∷ 0 ∷ []) (reverse_onto match kept) (drop (length match) w)
        (p + length match) (omega (arith, deep)) (omega (arith, left_size)))

-- Completing the word before the cursor, at the end of the line: the word goes, the name of the
-- command and a blank stand in its place, and the cursor behind them, when the line has room.
pub cmd_complete-Holds :
    {v : Line} (b match : Bytes)
    → Holds v (zipper b [])
    → IsText match
    → length (rub_while not_blank b) + length match + 1 < max_cmdline
    → Holds (cmd_complete v match) (zipper (b' ' ∷ reverse_onto match (rub_while not_blank b)) [])
unfolding cmd_complete
cmd_complete-Holds {v} b match h name room =
    let kept : Bytes = rub_while not_blank b in
    let (w, same, size) = rub_split b (0 ∷ h.junk) in
    let p : ℕ = word_start v.rl_buff v.rl_ptr in
    let start : p ≡ length kept = word_start-Holds b h in
    let spare : length w ≡ max_cmdline - length kept = omega (arith, Holds-junk h, size) in
    let before : Bytes = b' ' ∷ reverse_onto match kept in
    let typed : IsText before =
      (omega arith, reverse_onto-IsText match kept name (rub_IsText b h.text_before)) in
    let junk : Bytes = drop 2 (drop (length match) w) in
    let buf : Bytes = write (write v.rl_buff p match) (p + length match) (b' ' ∷ 0 ∷ []) in
    let laid : buf ≡ reverse_onto before (0 ∷ junk) =
      sprintf_layout match kept w v.rl_buff p (h.layout ∙ same) start (omega arith) in
    let deep : length before ≡ length match + length kept + 1 =
      omega (arith, length-reverse_onto match kept) in
    let string : cstr buf ≡ reverse_onto before [] =
      rw (laid, reverse_onto-append before [] (0 ∷ junk))
        (cstr-append (reverse_onto before []) junk (reverse_onto-IsText before [] typed tt)) in
    record {
      junk = junk;
      layout = laid;
      size = omega (
        arith,
        ap length laid,
        length-reverse_onto before (0 ∷ junk),
        length-drop 2 (drop (length match) w),
        length-drop (length match) w,
      );
      cursor = omega arith;
      count = omega (arith, ap length string, length-reverse_onto before []);
      text_before = typed;
      text_after = tt;
    }
