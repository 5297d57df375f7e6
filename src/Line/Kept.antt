-- ===== src/Line/Kept.antt =====
-- The editing functions of vty.c and the saved line of the history, `hst_buff`.
use opencli.Base.{ℕ, zero, suc, ◌+◌, ◌≡◌, refl, ◌∙◌, Bool, not, ◌==◌, Bool-cases, inl, inr, arith}
use opencli.Line.{
  Line, save_char, clear_char, char_before, clear_while, clear_word, clear_all, clear_line,
  move_to_bol, move_to_eol, backward_char, forward_char, forward_word, backward_word,
  capitalize_word, tolower_word, touppper_word,
}

-- `l'` has the saved line of `l`.
abbrev pub SameSaved : Line → Line → Type 0
SameSaved l l' = l'.hst_buff ≡ l.hst_buff

pub save_char-SameSaved : (l : Line) (c : ℕ) → SameSaved l (save_char l c).0
unfolding save_char
save_char-SameSaved l c = ground arith

pub clear_char-SameSaved : (l : Line) → SameSaved l (clear_char l).0
unfolding clear_char
clear_char-SameSaved l = ground arith

clear_while-SameSaved : (test : ℕ → Bool) (f : ℕ) (l : Line) → SameSaved l (clear_while test f l)
unfolding clear_while
clear_while-SameSaved test zero l = refl
clear_while-SameSaved test (suc f) l =
    let once = clear_char-SameSaved l in
    elim (Bool-cases (test (char_before l))) [
      | inl e ↦ elim (Bool-cases (clear_char l).1) [
        | inl c ↦ rw (e, c) (clear_while-SameSaved test f (clear_char l).0 ∙ once)
        | inr c ↦ rw (e, c) once
      ]
      | inr e ↦ rw e
    ]

clear_all-SameSaved : (f : ℕ) (l : Line) → SameSaved l (clear_all f l)
unfolding clear_all
clear_all-SameSaved zero l = refl
clear_all-SameSaved (suc f) l =
    let once = clear_char-SameSaved l in
    elim (Bool-cases (clear_char l).1) [
      | inl c ↦ rw c (clear_all-SameSaved f (clear_char l).0 ∙ once)
      | inr c ↦ rw c once
    ]

pub clear_word-SameSaved : (l : Line) → SameSaved l (clear_word l).0
unfolding clear_word
clear_word-SameSaved l =
    let l' = clear_while (λ c. c == b' ') (l.rl_ptr + 1) l in
    clear_while-SameSaved (λ c. not (c == b' ')) (l'.rl_ptr + 1) l'
    ∙ clear_while-SameSaved (λ c. c == b' ') (l.rl_ptr + 1) l

pub clear_line-SameSaved : (l : Line) → SameSaved l (clear_line l).0
unfolding clear_line
clear_line-SameSaved l = clear_all-SameSaved (l.rl_ptr + 1) l

pub move_to_bol-SameSaved : (l : Line) → SameSaved l (move_to_bol l).0
unfolding move_to_bol
move_to_bol-SameSaved l = refl

pub move_to_eol-SameSaved : (l : Line) → SameSaved l (move_to_eol l).0
unfolding move_to_eol
move_to_eol-SameSaved l = refl

pub backward_char-SameSaved : (l : Line) → SameSaved l (backward_char l).0
unfolding backward_char
backward_char-SameSaved l = ground arith

pub forward_char-SameSaved : (l : Line) → SameSaved l (forward_char l).0
unfolding forward_char
forward_char-SameSaved l = ground arith

pub forward_word-SameSaved : (l : Line) → SameSaved l (forward_word l).0
unfolding forward_word
forward_word-SameSaved l = refl

pub backward_word-SameSaved : (l : Line) → SameSaved l (backward_word l).0
unfolding backward_word
backward_word-SameSaved l = refl

pub capitalize_word-SameSaved : (l : Line) → SameSaved l (capitalize_word l).0
unfolding capitalize_word
capitalize_word-SameSaved l = ground arith

pub tolower_word-SameSaved : (l : Line) → SameSaved l (tolower_word l).0
unfolding tolower_word
tolower_word-SameSaved l = refl

pub touppper_word-SameSaved : (l : Line) → SameSaved l (touppper_word l).0
unfolding touppper_word
touppper_word-SameSaved l = refl
