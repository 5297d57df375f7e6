-- ===== src/Line/Case.antt =====
-- The case functions `capitalize_word`, `tolower_word` and `touppper_word` of vty.c.
use opencli.Base.{
  ℕ, zero, suc, ◌+◌, ◌<◌, ◌≡◌, ◌≢◌, refl, ◌∙◌, ap, true, false, not, [], ◌∷◌, ◌++◌, arith,
  if◌then◌else◌, ◌==◌, Bool-cases, inl, inr, Bytes, IsText, set, length,
}
use opencli.Line.{
  Line, max_cmdline, is_delimiter, toupper, tolower, map_word, skip_delimiters, capitalize_word,
  tolower_word, touppper_word,
}
use opencli.Line.Zipper.{reverse_onto, Zipper, zipper, Holds, get_or-reverse_onto, set-reverse_onto}
use opencli.Line.Erase.{Holds-junk, size_of_layout}
use opencli.Line.Move.{forward_while-Moved, Holds-at}
use opencli.Line.Keys.{is_word, word_start, skip_delimiters-word_start, char_at-Holds}

-- The cursor passes the rest of a word and changes the case of its letters.
abbrev pub case_word : (ℕ → ℕ) → Bytes → Bytes → Zipper
case_word f b [] = zipper b []
case_word f b (c ∷ r) = if is_word c then case_word f (f c ∷ b) r else zipper b (c ∷ r)

abbrev pub capitalize : Bytes → Bytes → Zipper
capitalize b [] = zipper b []
capitalize b (c ∷ r) = case_word tolower (toupper c ∷ b) r

-- A change of case is of no account for NUL.
abbrev pub KeepsText : (ℕ → ℕ) → Type 0
KeepsText f = (c : ℕ) → c ≢ 0 → f c ≢ 0

toupper-KeepsText : KeepsText toupper
unfolding toupper
toupper-KeepsText c h = ground arith

tolower-KeepsText : KeepsText tolower
unfolding tolower
tolower-KeepsText c h = ground arith

map_word-case_word :
    (f : ℕ → ℕ) (n : ℕ) (b r junk : Bytes) (p : ℕ)
    → p ≡ length b
    → IsText r
    → length r < n
    → map_word f n (reverse_onto b (r ++ 0 ∷ junk)) p ≡ (
      reverse_onto (case_word f b r).before ((case_word f b r).after ++ 0 ∷ junk),
      length (case_word f b r).before,
    )
unfolding map_word
map_word-case_word f zero b r junk p e h lt = absurd (omega arith)
map_word-case_word f (suc n) b [] junk p e h lt =
    rw (get_or-reverse_onto b (0 ∷ junk) p 0 (omega arith)) (ground arith)
map_word-case_word f (suc n) b (c ∷ r) junk p e h lt =
    let found : (not (c == 0)) ≡ true = ground (arith, h.0) in
    rw (get_or-reverse_onto b (c ∷ (r ++ 0 ∷ junk)) p 0 (omega arith), found)
      (elim (Bool-cases (is_delimiter c)) [
        | inl k ↦ rw k (rw e)
        | inr k ↦
            rw (k, set-reverse_onto b (c ∷ (r ++ 0 ∷ junk)) p 0 (f c) (omega arith))
              (map_word-case_word f n (f c ∷ b) r junk (p + 1) (omega arith) h.1 (omega arith))
      ])

-- The sizes and the texts on the way.
case_word-length :
    (f : ℕ → ℕ) (b r : Bytes)
    → length (case_word f b r).before + length (case_word f b r).after ≡ length b + length r
case_word-length f b [] = refl
case_word-length f b (c ∷ r) = elim (Bool-cases (is_word c)) [
  | inl k ↦ rw k (omega (arith, case_word-length f (f c ∷ b) r))
  | inr k ↦ rw k
]

case_word-IsText :
    (f : ℕ → ℕ) (keeps : KeepsText f) (b r : Bytes)
    → IsText b
    → IsText r
    → IsText (case_word f b r).before × IsText (case_word f b r).after
case_word-IsText f keeps b [] h k = (h, k)
case_word-IsText f keeps b (c ∷ r) h k = elim (Bool-cases (is_word c)) [
  | inl e ↦ rw e (case_word-IsText f keeps (f c ∷ b) r (keeps c k.0, h) k.1)
  | inr e ↦ rw e (h, k)
]

-- The run of `map_word` from a place of the text, as a state.
cased-Holds :
    (f : ℕ → ℕ) (keeps : KeepsText f) {v : Line} (b r : Bytes)
    → Holds v (zipper b r)
    → Holds
        (record v {
          rl_buff = (map_word f max_cmdline v.rl_buff v.rl_ptr).0;
          rl_ptr = (map_word f max_cmdline v.rl_buff v.rl_ptr).1;
        })
        (case_word f b r)
cased-Holds f keeps {v} b r h =
    let w = case_word f b r in
    let full = Holds-junk h in
    let ran : map_word f max_cmdline v.rl_buff v.rl_ptr
        ≡ (reverse_onto w.before (w.after ++ 0 ∷ h.junk), length w.before) =
      rw h.layout (
        map_word-case_word f max_cmdline b r h.junk v.rl_ptr h.cursor h.text_after (omega arith)) in
    let (tb, tr) = case_word-IsText f keeps b r h.text_before h.text_after in
    record {
      junk = h.junk;
      layout = ap (λ q. q.0) ran;
      size =
          ap (λ q. length q.0) ran
          ∙ size_of_layout w.before w.after h.junk
          ∙ omega (arith, full, case_word-length f b r);
      cursor = ap (λ q. q.1) ran;
      count = omega (arith, h.count, case_word-length f b r);
      text_before = tb;
      text_after = tr;
    }

-- One byte replaced at the cursor, which passes it.
replaced-Holds :
    {v : Line} (b : Bytes) (c d : ℕ) (r : Bytes)
    → Holds v (zipper b (c ∷ r))
    → d ≢ 0
    → Holds
        (record v { rl_buff = set v.rl_buff v.rl_ptr d; rl_ptr = v.rl_ptr + 1 })
        (zipper (d ∷ b) r)
replaced-Holds {v} b c d r h ne =
    let laid : set v.rl_buff v.rl_ptr d ≡ reverse_onto (d ∷ b) (r ++ 0 ∷ h.junk) =
      rw h.layout
        (set-reverse_onto b (c ∷ (r ++ 0 ∷ h.junk)) v.rl_ptr 0 d (omega (arith, h.cursor))) in
    record {
      junk = h.junk;
      layout = laid;
      size = ap length laid ∙ size_of_layout (d ∷ b) r h.junk ∙ omega (arith, Holds-junk h);
      cursor = omega (arith, h.cursor);
      count = omega (arith, h.count);
      text_before = (ne, h.text_before);
      text_after = h.text_after.1;
    }

-- The state at the first byte of the next word.
at_word-Holds :
    {v : Line} {z : Zipper}
    → Holds v z
    → Holds (record v { rl_ptr = skip_delimiters v }) (word_start z)
at_word-Holds {v} {z} h =
    Holds-at (skip_delimiters v) h (forward_while-Moved is_delimiter z.before z.after)
      (skip_delimiters-word_start h)

module _ {v : Line} {z : Zipper} (h : Holds v z) where
  pub tolower_word-Holds :
      Holds (tolower_word v).0 (case_word tolower (word_start z).before (word_start z).after)
  unfolding tolower_word
  tolower_word-Holds = cased-Holds tolower tolower-KeepsText _ _ (at_word-Holds h)

  -- `touppper_word` puts the word at or behind the cursor into capitals and stands behind it.
  pub touppper_word-Holds :
      Holds (touppper_word v).0 (case_word toupper (word_start z).before (word_start z).after)
  unfolding touppper_word
  touppper_word-Holds = cased-Holds toupper toupper-KeepsText _ _ (at_word-Holds h)

capitalize_at :
    (v : Line) (b r : Bytes)
    → Holds (record v { rl_ptr = skip_delimiters v }) (zipper b r)
    → Holds (capitalize_word v).0 (capitalize b r)
unfolding capitalize_word
capitalize_at v b [] h = rw (char_at-Holds b [] h) h
capitalize_at v b (c ∷ r) h =
    let found : (c == 0) ≡ false = ground (arith, h.text_after.0) in
    let up = replaced-Holds b c (toupper c) r h (toupper-KeepsText c h.text_after.0) in
    rw (char_at-Holds b (c ∷ r) h, found)
      (cased-Holds tolower tolower-KeepsText (toupper c ∷ b) r up)

-- `capitalize_word` puts the first letter of the word at or behind the cursor into a capital and the
-- others into small letters, and stands behind it.
pub capitalize_word-Holds :
    {v : Line} {z : Zipper}
    → Holds v z
    → Holds (capitalize_word v).0 (capitalize (word_start z).before (word_start z).after)
capitalize_word-Holds {v} h = capitalize_at v _ _ (at_word-Holds h)
