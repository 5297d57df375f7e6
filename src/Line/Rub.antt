-- ===== src/Line/Rub.antt =====
-- The erasing loops `clear_word` and `clear_line` of vty.c.
use opencli.Base.{
  ℕ, zero, suc, ◌+◌, ◌-◌, ◌<◌, ◌≡◌, Bool, not, [], ◌∷◌, ◌++◌, arith, if◌then◌else◌, ◌==◌,
  Bool-cases, inl, inr, Bytes, length,
}
use opencli.Line.{Line, char_before, clear_while, clear_word, clear_all, clear_line}
use opencli.Line.Zipper.{Zipper, zipper, Holds, get_or-reverse_onto}
use opencli.Line.Erase.{clear_char_bol, clear_char-Holds}

-- What a loop that erases while `test` holds leaves before the cursor.
abbrev pub rub_while : (ℕ → Bool) → Bytes → Bytes
rub_while test [] = []
rub_while test (c ∷ b) = if test c then rub_while test b else c ∷ b

-- The blanks before the cursor go, and then the word that they follow.
abbrev pub rub_word : Bytes → Bytes
rub_word b = rub_while (λ c. not (c == b' ')) (rub_while (λ c. c == b' ') b)

char_before-cons : {v : Line} (a : ℕ) (b r : Bytes) → Holds v (zipper (a ∷ b) r) → char_before v ≡ a
unfolding char_before
char_before-cons {v} a b r h =
    ground
      (arith, h.cursor, h.layout, get_or-reverse_onto b (a ∷ (r ++ 0 ∷ h.junk)) (v.rl_ptr - 1) 0)

clear_while-Holds :
    (test : ℕ → Bool) (f : ℕ) {v : Line} (b r : Bytes)
    → Holds v (zipper b r)
    → length b < f
    → Holds (clear_while test f v) (zipper (rub_while test b) r)
unfolding clear_while
clear_while-Holds test zero b r h lt = absurd (omega arith)
clear_while-Holds test (suc f) {v} [] r h lt = elim (Bool-cases (test (char_before v))) [
  | inl e ↦ rw (e, clear_char_bol v h.cursor) h
  | inr e ↦ rw e h
]
clear_while-Holds test (suc f) {v} (a ∷ b) r h lt =
    let (h', done) = clear_char-Holds a b r h in
    rw (char_before-cons a b r h) (elim (Bool-cases (test a)) [
      | inl e ↦ rw (e, done) (clear_while-Holds test f b r h' (omega arith))
      | inr e ↦ rw e h
    ])

-- `clear_word` erases the blanks before the cursor and the word before them, and nothing else.
pub clear_word-Holds :
    {v : Line} {z : Zipper}
    → Holds v z
    → Holds (clear_word v).0 (zipper (rub_word z.before) z.after)
unfolding clear_word
clear_word-Holds {v} {z} h =
    let first =
      clear_while-Holds (λ c. c == b' ') (v.rl_ptr + 1) z.before z.after h
        (omega (arith, h.cursor)) in
    clear_while-Holds (λ c. not (c == b' ')) _ (rub_while (λ c. c == b' ') z.before) z.after first
      (omega (arith, first.cursor))

clear_all-Holds :
    (f : ℕ) {v : Line} (b r : Bytes)
    → Holds v (zipper b r)
    → length b < f
    → Holds (clear_all f v) (zipper [] r)
unfolding clear_all
clear_all-Holds zero b r h lt = absurd (omega arith)
clear_all-Holds (suc f) {v} [] r h lt = rw (clear_char_bol v h.cursor) h
clear_all-Holds (suc f) {v} (a ∷ b) r h lt =
    let (h', done) = clear_char-Holds a b r h in rw done (clear_all-Holds f b r h' (omega arith))

-- `clear_line` erases all that is before the cursor, and nothing else.
pub clear_line-Holds :
    {v : Line} {z : Zipper} → Holds v z → Holds (clear_line v).0 (zipper [] z.after)
unfolding clear_line
clear_line-Holds {v} {z} h =
    clear_all-Holds (v.rl_ptr + 1) z.before z.after h (omega (arith, h.cursor))
