-- ===== src/Line/Keys.antt =====
-- The movements of vty.c, against their meaning on the text and the cursor.
use opencli.Base.{
  ℕ, zero, suc, ◌+◌, ◌-◌, ◌≡◌, refl, sym, ◌∙◌, Bool, true, false, not, [], ◌∷◌, ◌++◌, arith, ◌==◌,
  ltb, Bytes, get_or, length,
}
use opencli.Line.{
  Line, to_bol, skip_back, is_delimiter, move_to_bol, move_to_eol, backward_char, forward_char,
  skip_delimiters, forward_word, backward_word,
}
use opencli.Line.Zipper.{Zipper, zipper, Holds, get_or-reverse_onto}
use opencli.Line.Move.{
  forward_while, backward_while, Moved-refl, Moved-trans, Moved-forward, Moved-backward,
  forward_while-Moved, backward_while-Moved, Holds-at, skip-forward_while, skip_back-backward_while,
}

abbrev pub is_word : ℕ → Bool
is_word c = not (is_delimiter c)

abbrev pub to_start : Zipper → Zipper
to_start z = backward_while (λ _. true) z.before z.after

abbrev pub to_end : Zipper → Zipper
to_end z = forward_while (λ _. true) z.before z.after

abbrev pub left : Bytes → Bytes → Zipper
left [] r = zipper [] r
left (c ∷ b) r = zipper b (c ∷ r)

abbrev pub right : Bytes → Bytes → Zipper
right b [] = zipper b []
right b (c ∷ r) = zipper (c ∷ b) r

abbrev pub word_start : Zipper → Zipper
word_start z = forward_while is_delimiter z.before z.after

abbrev pub next_word : Zipper → Zipper
next_word z = let w = word_start z in forward_while is_word w.before w.after

abbrev pub prev_word : Zipper → Zipper
prev_word z =
    let w = backward_while is_delimiter z.before z.after in backward_while is_word w.before w.after

to_bol-zero : (p : ℕ) → to_bol p ≡ 0
unfolding to_bol
to_bol-zero zero = refl
to_bol-zero (suc p) = to_bol-zero p

to_start-zero : (b r : Bytes) → length (backward_while (λ _. true) b r).before ≡ 0
to_start-zero [] r = refl
to_start-zero (c ∷ b) r = to_start-zero b (c ∷ r)

module _ {v : Line} {z : Zipper} (h : Holds v z) where
  pub move_to_bol-Holds : Holds (move_to_bol v).0 (to_start z)
  unfolding move_to_bol
  move_to_bol-Holds =
      Holds-at (to_bol v.rl_ptr) h (backward_while-Moved (λ _. true) z.before z.after)
        (to_bol-zero v.rl_ptr ∙ sym (to_start-zero z.before z.after))

  pub move_to_eol-Holds : Holds (move_to_eol v).0 (to_end z)
  unfolding move_to_eol
  move_to_eol-Holds =
      Holds-at _ h (forward_while-Moved (λ _. true) z.before z.after)
        (skip-forward_while (λ _. true) v.rl_ptr h (Moved-refl z) h.cursor)

  pub skip_delimiters-word_start : skip_delimiters v ≡ length (word_start z).before
  unfolding skip_delimiters
  skip_delimiters-word_start = skip-forward_while is_delimiter v.rl_ptr h (Moved-refl z) h.cursor

  -- `forward_word` passes the delimiters at the cursor and the word behind them.
  pub forward_word-Holds : Holds (forward_word v).0 (next_word z)
  unfolding forward_word
  forward_word-Holds =
      let first = forward_while-Moved is_delimiter z.before z.after in
      let w = word_start z in
      Holds-at _ h (Moved-trans z w _ first (forward_while-Moved is_word w.before w.after))
        (skip-forward_while is_word (skip_delimiters v) h first skip_delimiters-word_start)

  -- `backward_word` goes back over the delimiters before the cursor and the word before them.
  pub backward_word-Holds : Holds (backward_word v).0 (prev_word z)
  unfolding backward_word
  backward_word-Holds =
      let first = backward_while-Moved is_delimiter z.before z.after in
      let w = backward_while is_delimiter z.before z.after in
      Holds-at _ h (Moved-trans z w _ first (backward_while-Moved is_word w.before w.after)) (
        skip_back-backward_while is_word (skip_back is_delimiter v.rl_buff v.rl_ptr) h first
          (skip_back-backward_while is_delimiter v.rl_ptr h (Moved-refl z) h.cursor))

pub backward_char-Holds :
    {v : Line} (b r : Bytes) → Holds v (zipper b r) → Holds (backward_char v).0 (left b r)
unfolding backward_char
backward_char-Holds {v} [] r h = let e : ltb 0 v.rl_ptr ≡ false = ground (arith, h.cursor) in rw e h
backward_char-Holds {v} (c ∷ b) r h =
    let e : ltb 0 v.rl_ptr ≡ true = ground (arith, h.cursor) in
    let step = Moved-backward c b r _ (Moved-refl (zipper b (c ∷ r))) in
    rw e (Holds-at (v.rl_ptr - 1) h step (omega (arith, h.cursor)))

-- The byte at the cursor.
pub char_at-Holds :
    {v : Line} (b r : Bytes)
    → (h : Holds v (zipper b r)) → get_or v.rl_buff v.rl_ptr 0 ≡ get_or (r ++ 0 ∷ h.junk) 0 0
char_at-Holds {v} b r h =
    rw h.layout (get_or-reverse_onto b (r ++ 0 ∷ h.junk) v.rl_ptr 0 (omega (arith, h.cursor)))

pub forward_char-Holds :
    {v : Line} (b r : Bytes) → Holds v (zipper b r) → Holds (forward_char v).0 (right b r)
unfolding forward_char
forward_char-Holds {v} b [] h = rw (char_at-Holds b [] h) h
forward_char-Holds {v} b (c ∷ r) h =
    let e : not (c == 0) ≡ true = ground (arith, h.text_after.0) in
    let step = Moved-forward c b r _ (Moved-refl (zipper (c ∷ b) r)) in
    rw (char_at-Holds b (c ∷ r) h, e) (Holds-at (v.rl_ptr + 1) h step (omega (arith, h.cursor)))
